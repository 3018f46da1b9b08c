-- ===== src/Api/Server/Service.antt =====
-- The server of vDexNode/api/src/server.rs at the service of a session of the protocol programs:
-- what it answers to a question for one of the session's messages.
pub mod Generation
pub mod Signing
use vdexnode.Common.{
  ◌++◌, as_bytes, Option, String, none, some, ◌≡◌, ◌≢◌, ◌⊎◌, inl, inr, refl, sym, ap, ◌∙◌, ℕ, List,
  [], ◌∷◌, All, All-Has, Has,
}
use vdexnode.Common.Outcome.{ok}
use vdexnode.Mpt.Transport.{TupleKey, PartySignup, Entry}
use vdexnode.Mpt.Program.Agreement.{Message, Message-agree, Message-session}
use vdexnode.Api.Network.{Network}
use vdexnode.Api.Network.Laws.{IsStore}
use vdexnode.Api.Handler.{Handler, insert_value, get_value, get_cb, text_or, info}
use vdexnode.Api.Server.{
  salted, keygen_key, sign_key, signup_at, signup_keygen, signup_sign, set, get,
}
use vdexnode.Api.Server.Calls.{
  Call, set_call, keygen_call, sign_call, goes_on, sets_in, place, serve_all, Quiet, Sound, Fits,
  insert_value-Sound, get_value_shown, set-Put, get_value-Sound, serve_all-Sound,
}
use vdexnode.Api.Server.Signups.{signup_at-ok, signup_keygen-ok, signup_sign-ok}

-- Set by another session, or by a party of this one.
abbrev pub Sendable : String → {I : Type 0} → (I → List Entry) → Entry → Type 0
Sendable uuid {I} sets_of x = (x.key.third ≢ uuid) ⊎ ((i : I) × Has x (sets_of i))

module _ (n : Network) (store : IsStore n) (id : String) where
  open n use {Hash, Value, value_new, value_text, hash_from_bytes, get_values, signup_to_string}

  -- What may come while a message is waited for: sets of the session's entries and of others, of
  -- which none is taken for the message by the hash alone; signups; and the network bringing nothing
  -- by itself.
  abbrev pub Comes : String → {I : Type 0} → (I → List Entry) → Entry → Call n → Type 0
  Comes uuid sets_of e (set_call x) =
      Sendable uuid sets_of x × (place n id e.key ≡ place n id x.key → x.key ≡ e.key)
  Comes uuid sets_of e (goes_on f) = Quiet n store (goes_on f)
  Comes uuid sets_of e (keygen_call u) = Unit {0}
  Comes uuid sets_of e (sign_call u) = Unit {0}

  -- No signup and nothing put before `h` stands where the message will.
  pub record Unused (e : Entry) (h : Handler n) : Type 0 where
    pub same_id : (info n h).id ≡ id
    pub no_keygen : place n id e.key ≢ place n id keygen_key
    pub no_sign : place n id e.key ≢ place n id sign_key
    pub nothing_put : (v : Value) → store.Put h.eosnode.dht (place n id e.key) v → ⊥

  -- A question for the message: nothing if the network shows nothing for it, and otherwise the
  -- message, which has then been set. To set the message on the node puts it there.
  abbrev pub Answers : Entry → List Entry → Handler n → Type 0
  Answers e es h =
      (get_values (place n id e.key) h.eosnode.dht ≡ [] → get n (record { key = e.key }) h ≡ none)
      × (get_values (place n id e.key) h.eosnode.dht ≢ []
          → (get n (record { key = e.key }) h ≡ some e) × Has e es)
      × ((g : Handler n)
          → (info n g).id ≡ id
          → store.Put (set n e g).eosnode.dht (place n id e.key) (value_new e.value))

  module _ (e : Entry) (es : List Entry) where
    -- Under the message's hash there is the message alone, and only once it is set.
    abbrev Held : Hash → Value → Type 0
    Held k v = place n id e.key ≡ k → (v ≡ value_new e.value) × Has e es

    signup-Sound :
        (key : TupleKey) (limit : ℕ) (uuid : String) (h : Handler n) (r : PartySignup × Handler n)
        → place n id e.key ≢ place n id key
        → Sound n store id Held h
        → signup_at n key limit uuid h ≡ ok r
        → Sound n store id Held r.1
    signup-Sound key limit uuid h r ne sound done =
        let (t, q, get, read, is, put) = signup_at-ok n key limit uuid h r done in
        rw put (
          insert_value-Sound n store id Held key (signup_to_string r.0) h (λ same. absurd (ne same))
            sound)

    get-some :
        (h : Handler n) (t : String)
        → get_value n (salted n e.key h) h ≡ some t
        → get n (record { key = e.key }) h ≡ some (record { key = e.key; value = t })
    unfolding get
    get-some h t found = rw (found, get)

    get-none :
        (h : Handler n)
        → get_value n (salted n e.key h) h ≡ none
        → get n (record { key = e.key }) h ≡ none
    unfolding get
    get-none h missing = rw (missing, get)

    get_value-none :
        (h : Handler n)
        → get_values (hash_from_bytes (salted n e.key h)) h.eosnode.dht ≡ []
        → get_value n (salted n e.key h) h ≡ none
    unfolding get_value get_cb
    get_value-none h nothing = ap (λ (vs : List Value). get_cb n vs none) nothing

    placed :
        (h : Handler n)
        → Sound n store id Held h
        → hash_from_bytes (salted n e.key h) ≡ place n id e.key
    unfolding salted
    placed h sound = ap (λ (i : String). place n i e.key) sound.same_id

    text_lem : (v : Value) → v ≡ value_new e.value → text_or n (value_text v) ≡ e.value
    unfolding text_or
    text_lem v is = rw (is, store.value_text-value_new e.value) refl

    Held-Answers : (h : Handler n) → Sound n store id Held h → Answers e es h
    Held-Answers h sound =
        let at = ap (λ (k : Hash). get_values k h.eosnode.dht) (placed h sound) in
        (
          λ nothing. get-none h (get_value-none h (at ∙ nothing)),
          λ something.
              let (t, found) =
                get_value_shown n (salted n e.key h) h (λ empty. something (sym at ∙ empty)) in
              let (v, held, text) = get_value-Sound n store id Held e.key h t sound found in
              let (is, has) = held refl in
              (
                get-some h t found
                    ∙ ap (λ (u : String). some (record { key = e.key; value = u }))
                        (text ∙ text_lem v is),
                has,
              ),
          λ g same_id. set-Put n store id e g same_id,
        )

-- What the parties of a session set are its messages.
module _ (uuid : String) (value : ℕ → String → String → String) {I : Type 0}
    (sets_of : I → List Entry) (messages : (i : I) → All (Message uuid value) (sets_of i)) where
  of_session : (i : I) (x : Entry) → Has x (sets_of i) → Message uuid value x
  of_session i x has = All-Has (Message uuid value) x (sets_of i) (messages i) has

  -- What is set under the message's key is the message.
  same_is :
      (i : I) (e x : Entry) → Has e (sets_of i) → Sendable uuid sets_of x → x.key ≡ e.key → x ≡ e
  same_is i e x mine (inl other) k =
      absurd (other (ap (λ k. k.third) k ∙ Message-session uuid value e (of_session i e mine)))
  same_is i e x mine (inr (j, has)) k =
      Message-agree uuid value x e (of_session j x has) (of_session i e mine) k

  module _ (n : Network) (store : IsStore n) (config : Option String) (id : String) (i : I)
      (e : Entry) (mine : Has e (sets_of i)) where
    module _ (es : List Entry) (h : Handler n) (unused : Unused n store id e h) where
      keygen_sound :
          (u : String) (h : Handler n) (r : PartySignup × Handler n)
          → Sound n store id (Held n store id e es) h
          → signup_keygen n config u h ≡ ok r
          → Sound n store id (Held n store id e es) r.1
      keygen_sound u h r sound done =
          let (limit, at) = signup_keygen-ok n config u h r done in
          signup-Sound n store id e es keygen_key limit u h r unused.no_keygen sound at

      sign_sound :
          (u : String) (h : Handler n) (r : PartySignup × Handler n)
          → Sound n store id (Held n store id e es) h
          → signup_sign n config u h ≡ ok r
          → Sound n store id (Held n store id e es) r.1
      sign_sound u h r sound done =
          let (limit, at) = signup_sign-ok n config u h r done in
          signup-Sound n store id e es sign_key limit u h r unused.no_sign sound at

      calls_Fits :
          (qs : List (Call n))
          → ((x : Entry) → Has x (sets_in qs) → Has x es)
          → All (Comes n store id uuid sets_of e) qs
          → All (Fits n store config id (Held n store id e es) keygen_sound sign_sound) qs
      calls_Fits [] sub all = tt
      calls_Fits (set_call x ∷ qs) sub ((sendable, own), all) = (
        λ at.
            let same : x ≡ e = same_is i e x mine sendable (own at) in
            (ap (λ (y : Entry). n.value_new y.value) same, sub e (inl same)),
        calls_Fits qs (λ y has. sub y (inr has)) all,
      )
      calls_Fits (goes_on f ∷ qs) sub (quiet, all) = (quiet, calls_Fits qs sub all)
      calls_Fits (keygen_call u ∷ qs) sub (_, all) = (tt, calls_Fits qs sub all)
      calls_Fits (sign_call u ∷ qs) sub (_, all) = (tt, calls_Fits qs sub all)

    pub session_served :
        (h h' : Handler n) (qs : List (Call n))
        → Unused n store id e h
        → All (Comes n store id uuid sets_of e) qs
        → serve_all n config qs h ≡ ok h'
        → Answers n store id e (sets_in qs) h'
    session_served h h' qs unused comes served =
        let es = sets_in qs in
        let start : Sound n store id (Held n store id e es) h = record {
          same_id = unused.same_id;
          all_put = λ k v put at. absurd (unused.nothing_put v (rw at put));
        } in
        Held-Answers n store id e es h' (
          serve_all-Sound n store config id (Held n store id e es) (keygen_sound es h unused)
            (sign_sound es h unused) qs h h' (calls_Fits es h unused qs (λ x has. has) comes) start
            served)
