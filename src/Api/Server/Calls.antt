-- ===== src/Api/Server/Calls.antt =====
-- A server of vDexNode/api/src/server.rs in use: routes that change what is put, in any order, and
-- the network that goes on by itself between them.
use vdexnode.Common.{
  none, ◌≢◌, ℕ, ◌≡◌, refl, ap, ◌⊎◌, inl, inr, String, true, Option, none, some, List, [], ◌∷◌, ◌++◌,
  All, All-Has, Has, as_bytes,
}
use vdexnode.Common.Outcome.{Outcome, ok, ◌>>=◌, bind-ok}
use vdexnode.Mpt.Transport.{TupleKey, PartySignup, Entry}
use vdexnode.Api.Network.{Network}
use vdexnode.Api.Network.Laws.{IsStore}
use vdexnode.Api.Handler.{Handler, insert_value, get_value, put_value, get_cb, text_or, info}
use vdexnode.Api.Server.{salted, set, signup_keygen, signup_sign}

-- The text of a signup is the identifier that the route draws. `goes_on` is what the network does
-- by itself: values arrive, change their order, or expire.
pub data Call (n : Network) : Type 0 where
  set_call : Entry → Call n
  keygen_call : String → Call n
  sign_call : String → Call n
  goes_on : (n.State → n.State) → Call n

module _ {n : Network} where
  -- The entries that are set.
  abbrev pub sets_in : List (Call n) → List Entry
  sets_in [] = []
  sets_in (set_call e ∷ qs) = e ∷ sets_in qs
  sets_in (keygen_call uuid ∷ qs) = sets_in qs
  sets_in (sign_call uuid ∷ qs) = sets_in qs
  sets_in (goes_on f ∷ qs) = sets_in qs

module _ (n : Network) where
  open n use {Hash, Value, State, hash_from_bytes, value_new, value_text, pack_key, get_values}

  -- The hash under which a node puts the values of a key.
  abbrev pub place : String → TupleKey → Hash
  place id key = hash_from_bytes (pack_key key ++ as_bytes id)

  last_some : (vs : List Value) (o : String) → (t : String) × (get_cb n vs (some o) ≡ some t)
  unfolding get_cb
  last_some [] o = (o, refl)
  last_some (v ∷ vs) o = last_some vs (text_or n (value_text v))

  shown : (vs : List Value) → vs ≢ [] → (t : String) × (get_cb n vs none ≡ some t)
  unfolding get_cb
  shown [] ne = absurd (ne refl)
  shown (v ∷ vs) ne = last_some vs (text_or n (value_text v))

  -- Where something is shown, a value is found.
  pub get_value_shown :
      (key : List ℕ) (h : Handler n)
      → get_values (hash_from_bytes key) h.eosnode.dht ≢ []
      → (t : String) × (get_value n key h ≡ some t)
  unfolding get_value
  get_value_shown key h something = shown (get_values (hash_from_bytes key) h.eosnode.dht) something

  module _ (config : Option String) where
    abbrev pub serve : Call n → Handler n → Outcome ⊥ (Handler n)
    serve (set_call e) h = ok (set n e h)
    serve (keygen_call uuid) h = do r ← signup_keygen n config uuid h; ok r.1
    serve (sign_call uuid) h = do r ← signup_sign n config uuid h; ok r.1
    serve (goes_on f) h = ok (record h { eosnode = record h.eosnode { dht = f h.eosnode.dht } })

    -- A panic of a route ends the server, which holds a lock then.
    abbrev pub serve_all : List (Call n) → Handler n → Outcome ⊥ (Handler n)
    serve_all [] h = ok h
    serve_all (q ∷ qs) h = do next ← serve q h; serve_all qs next

  module _ (store : IsStore n) where
    -- By itself the network brings nothing that was not put.
    abbrev pub Quiet : Call n → Type 0
    Quiet (goes_on f) = (s : State) (k : Hash) (v : Value) → store.Put (f s) k v → store.Put s k v
    Quiet (set_call e) = Unit {0}
    Quiet (keygen_call uuid) = Unit {0}
    Quiet (sign_call uuid) = Unit {0}

    -- A node with this identifier, under which only such values have been put.
    pub record Sound (id : String) (P : Hash → Value → Type 0) (h : Handler n) : Type 0 where
      pub same_id : (info n h).id ≡ id
      pub all_put : (k : Hash) (v : Value) → store.Put h.eosnode.dht k v → P k v

    pub insert_value-Put :
        (key : List ℕ) (text : String) (h : Handler n)
        → store.Put (insert_value n key text h).eosnode.dht (hash_from_bytes key) (value_new text)
    unfolding insert_value put_value
    insert_value-Put key text h =
        store.put_signed-new (hash_from_bytes key) (value_new text) true h.eosnode.dht

    pub set-Put :
        (id : String) (e : Entry) (h : Handler n)
        → (info n h).id ≡ id
        → store.Put (set n e h).eosnode.dht (place id e.key) (value_new e.value)
    unfolding set salted info
    set-Put id e h same_id =
        let at : hash_from_bytes (pack_key e.key ++ as_bytes (info n h).id) ≡ place id e.key =
          ap (λ (i : String). place i e.key) same_id in
        rw (← at) (insert_value-Put (salted n e.key h) e.value h)

    module _ (id : String) (P : Hash → Value → Type 0) where
      pub insert_value-Sound :
          (key : TupleKey) (text : String) (h : Handler n)
          → P (place id key) (value_new text)
          → Sound id P h
          → Sound id P (insert_value n (salted n key h) text h)
      unfolding insert_value put_value salted info
      insert_value-Sound key text h p sound = record {
        same_id = sound.same_id;
        all_put = λ k v put.
            let at : hash_from_bytes (pack_key key ++ as_bytes (info n h).id) ≡ place id key =
              ap (λ (i : String). place i key) sound.same_id in
            of_put k v at (
              store.put_signed-Put (hash_from_bytes (pack_key key ++ as_bytes (info n h).id)) k
                (value_new text) v true h.eosnode.dht put);
      }
        where
          of_put :
              (k : Hash) (v : Value)
              → hash_from_bytes (pack_key key ++ as_bytes (info n h).id) ≡ place id key
              → ((hash_from_bytes (pack_key key ++ as_bytes (info n h).id) ≡ k)
                  × (value_new text ≡ v))
                ⊎ store.Put h.eosnode.dht k v
              → P k v
          of_put k v at (inl (hk, hv)) = rw (← hk, ← hv, at) p
          of_put k v at (inr put) = sound.all_put k v put

      pub goes_on-Sound :
          (f : State → State) (h : Handler n)
          → Quiet (goes_on f)
          → Sound id P h
          → Sound id P (record h { eosnode = record h.eosnode { dht = f h.eosnode.dht } })
      unfolding info
      goes_on-Sound f h quiet sound = record {
        same_id = sound.same_id;
        all_put = λ k v put. sound.all_put k v (quiet h.eosnode.dht k v put);
      }

      last_of :
          (vs : List Value) (o : Option String) (t : String)
          → get_cb n vs o ≡ some t
          → (o ≡ some t) ⊎ ((v : Value) × Has v vs × (t ≡ text_or n (value_text v)))
      unfolding get_cb
      last_of [] o t e = inl e
      last_of (v ∷ vs) o t e = elim (last_of vs (some (text_or n (value_text v))) t e) [
        | inl here ↦ inr (v, inl refl, cc)
        | inr (w, has, text) ↦ inr (w, inr has, text)
      ]

      -- What is found under a key was put under it.
      pub get_value-Sound :
          (key : TupleKey) (h : Handler n) (t : String)
          → Sound id P h
          → get_value n (salted n key h) h ≡ some t
          → (v : Value) × P (place id key) v × (t ≡ text_or n (value_text v))
      unfolding get_value salted info
      get_value-Sound key h t sound e =
          elim (last_of (get_values (hash_from_bytes (salted n key h)) h.eosnode.dht) none t e) [
            | inl bad ↦ absurd cc
            | inr (v, has, text) ↦
                let put : store.Put h.eosnode.dht (hash_from_bytes (salted n key h)) v =
                  All-Has (store.Put h.eosnode.dht (hash_from_bytes (salted n key h))) v _
                    (store.get_values-Put (hash_from_bytes (salted n key h)) h.eosnode.dht) has in
                let p = sound.all_put (hash_from_bytes (salted n key h)) v put in
                let at : hash_from_bytes (salted n key h) ≡ place id key =
                  ap (λ (i : String). place i key) sound.same_id in
                (v, rw at at p, text)
          ]

    -- What each call may do for the values under the hashes to stay such values.
    module _ (config : Option String) (id : String) (P : Hash → Value → Type 0)
        (keygen_sound : (uuid : String) (h : Handler n) (r : PartySignup × Handler n)
          → Sound id P h
          → signup_keygen n config uuid h ≡ ok r
          → Sound id P r.1)
        (sign_sound : (uuid : String) (h : Handler n) (r : PartySignup × Handler n)
          → Sound id P h
          → signup_sign n config uuid h ≡ ok r
          → Sound id P r.1) where
      abbrev pub Fits : Call n → Type 0
      Fits (set_call e) = P (place id e.key) (value_new e.value)
      Fits (goes_on f) = Quiet (goes_on f)
      Fits (keygen_call uuid) = Unit {0}
      Fits (sign_call uuid) = Unit {0}

      serve-Sound :
          (q : Call n) (h h' : Handler n)
          → Fits q
          → Sound id P h
          → serve config q h ≡ ok h'
          → Sound id P h'
      unfolding set
      serve-Sound (set_call e) h h' fits sound done =
          let same : insert_value n (salted n e.key h) e.value h ≡ h' = cc in
          rw (← same) (insert_value-Sound id P e.key e.value h fits sound)
      serve-Sound (goes_on f) h h' fits sound done =
          let same : record h { eosnode = record h.eosnode { dht = f h.eosnode.dht } } ≡ h' = cc in
          rw (← same) (goes_on-Sound id P f h fits sound)
      serve-Sound (keygen_call uuid) h h' fits sound done =
          let (r, e, last) = bind-ok (signup_keygen n config uuid h) (λ r. ok r.1) h' done in
          let same : r.1 ≡ h' = cc in rw (← same) (keygen_sound uuid h r sound e)
      serve-Sound (sign_call uuid) h h' fits sound done =
          let (r, e, last) = bind-ok (signup_sign n config uuid h) (λ r. ok r.1) h' done in
          let same : r.1 ≡ h' = cc in rw (← same) (sign_sound uuid h r sound e)

      pub serve_all-Sound :
          (qs : List (Call n)) (h h' : Handler n)
          → All Fits qs
          → Sound id P h
          → serve_all config qs h ≡ ok h'
          → Sound id P h'
      serve_all-Sound [] h h' all sound done = let same : h ≡ h' = cc in rw (← same) sound
      serve_all-Sound (q ∷ qs) h h' (fits, all) sound done =
          let (h₁, one, more) = bind-ok (serve config q h) (serve_all config qs) h' done in
          serve_all-Sound qs h₁ h' all (serve-Sound q h h₁ fits sound one) more
