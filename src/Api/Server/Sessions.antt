-- ===== src/Api/Server/Sessions.antt =====
-- The numbers that a server of vDexNode/api/src/server.rs deals out, whenever and in whatever order
-- the network shows it what it has put.
use vdexnode.Common.{
  ℕ, ◌+◌, ◌^◌, ◌≤◌, ◌<◌, ◌≡◌, ◌≢◌, refl, sym, ap, ◌∙◌, String, Option, some, List, All, All-imp,
  arith,
}
use vdexnode.Common.Outcome.{ok}
use vdexnode.Common.Decimal.{parse}
use vdexnode.Mpt.Transport.{TupleKey, PartySignup}
use vdexnode.Api.Network.{Network, Params}
use vdexnode.Api.Network.Laws.{IsStore, IsSerialised}
use vdexnode.Api.Handler.{Handler, insert_value, put_value, info}
use vdexnode.Api.Server.{
  salted, keygen_key, sign_key, read_params, signup_at, signup_keygen, signup_sign,
  announce_signups,
}
use vdexnode.Api.Server.Calls.{
  Call, set_call, keygen_call, sign_call, goes_on, place, serve_all, Quiet, Sound, Fits,
  insert_value-Sound, serve_all-Sound,
}
use vdexnode.Api.Server.Signups.{
  signup_keygen_at, signup_sign_at, Drawn, Deals, answered, numbered, numbered-Sound,
}

module _ (n : Network) (store : IsStore n) (serialised : IsSerialised n) (id : String) where
  open n use {Hash, Value, value_new, signup_to_string}

  -- Nothing is set where the signups stand, and by itself the network brings nothing.
  abbrev pub Apart : Call n → Type 0
  Apart (set_call e) =
      (place n id keygen_key ≢ place n id e.key) × (place n id sign_key ≢ place n id e.key)
  Apart (goes_on f) = Quiet n store (goes_on f)
  Apart (keygen_call uuid) = Unit {0}
  Apart (sign_call uuid) = Unit {0}

  module _ (config : Option String) (params : Params) (parties threshold : ℕ)
      (config_read : read_params n config ≡ ok params)
      (e_parties : parse (2 ^ 32) params.parties ≡ some parties)
      (e_threshold : parse (2 ^ 32) params.threshold ≡ some threshold) (some_party : 1 ≤ parties)
      (few : threshold + 1 < 2 ^ 32)
      (two_places : place n id keygen_key ≢ place n id sign_key) where
    -- Where the signups stand, there are signups of the two kinds of session.
    abbrev Signed : Hash → Value → Type 0
    Signed k v =
        (place n id keygen_key ≡ k → Drawn n parties v)
        × (place n id sign_key ≡ k → Drawn n (threshold + 1) v)

    keygen_is :
        (uuid : String) (h : Handler n)
        → signup_keygen n config uuid h ≡ signup_at n keygen_key parties uuid h
    keygen_is uuid h = signup_keygen_at n config params parties uuid h config_read e_parties

    sign_is :
        (uuid : String) (h : Handler n)
        → signup_sign n config uuid h ≡ signup_at n sign_key (threshold + 1) uuid h
    sign_is uuid h =
        signup_sign_at n config params threshold uuid h config_read e_threshold
        ∙ ap (λ (limit : ℕ). signup_at n sign_key limit uuid h) (omega arith)

    keygen_allowed :
        (q : PartySignup)
        → q.number ≤ parties
        → Signed (place n id keygen_key) (value_new (signup_to_string q))
    keygen_allowed q le = (λ _. (q, refl, le), λ e. absurd (two_places (sym e)))

    sign_allowed :
        (q : PartySignup)
        → q.number ≤ threshold + 1
        → Signed (place n id sign_key) (value_new (signup_to_string q))
    sign_allowed q le = (λ e. absurd (two_places e), λ _. (q, refl, le))

    keygen_sound :
        (uuid : String) (h : Handler n) (r : PartySignup × Handler n)
        → Sound n store id Signed h
        → signup_keygen n config uuid h ≡ ok r
        → Sound n store id Signed r.1
    keygen_sound uuid h r sound e =
        numbered-Sound n store serialised id Signed keygen_key parties (λ v p. p.0 refl) some_party
          keygen_allowed uuid h r sound (sym (keygen_is uuid h) ∙ e)

    sign_sound :
        (uuid : String) (h : Handler n) (r : PartySignup × Handler n)
        → Sound n store id Signed h
        → signup_sign n config uuid h ≡ ok r
        → Sound n store id Signed r.1
    sign_sound uuid h r sound e =
        numbered-Sound n store serialised id Signed sign_key (threshold + 1) (λ v p. p.1 refl)
          (omega arith) sign_allowed uuid h r sound (sym (sign_is uuid h) ∙ e)

    Apart-Fits : (q : Call n) → Apart q → Fits n store config id Signed keygen_sound sign_sound q
    Apart-Fits (set_call e) (ne, ne') = (λ p. absurd (ne p), λ p. absurd (ne' p))
    Apart-Fits (goes_on f) quiet = quiet
    Apart-Fits (keygen_call uuid) apart = tt
    Apart-Fits (sign_call uuid) apart = tt

    announced :
        (a b : String) (h : Handler n)
        → Sound n store id Signed h
        → Sound n store id Signed (announce_signups n a b h)
    unfolding announce_signups info insert_value put_value salted
    announced a b h sound =
        let first =
          insert_value-Sound n store id Signed keygen_key
            (signup_to_string (record { number = 0; uuid = a })) h
            (keygen_allowed (record { number = 0; uuid = a }) (omega arith)) sound in
        insert_value-Sound n store id Signed sign_key
          (signup_to_string (record { number = 0; uuid = b }))
          (insert_value n (salted n keygen_key h)
            (signup_to_string (record { number = 0; uuid = a })) h)
          (sign_allowed (record { number = 0; uuid = b }) (omega arith)) first

    deals :
        (key : TupleKey) (limit : ℕ)
        → ((v : Value) → Signed (place n id key) v → Drawn n limit v)
        → 1 ≤ limit
        → (h : Handler n) → Sound n store id Signed h
        → Deals n store id key limit h (signup_at n key limit)
    deals key limit drawn lo h sound uuid = (
      answered n store serialised id Signed key limit drawn lo uuid h sound,
      λ r e. numbered n store serialised id Signed key limit drawn lo uuid h r sound e,
    )

    -- A node with the identifier `id` starts its server, which reads the configuration. The two
    -- signups have different places, where nothing has been put before and nothing else is set.
    -- Signups read back. Then whatever calls of `set` and the signup routes have been answered since,
    -- and whatever the network shows of what was put, in any order and early or late: a signup is
    -- answered if the network shows anything at its place. What is answered follows a signup of its
    -- kind that was put, by the next number, or by the first of a new session if that one was full.
    -- So the number is from 1 to the number of parties, or to threshold + 1, which is a u32, and it
    -- is put where the next signup of its kind looks.
    pub signups-Numbered :
        (a b : String) (h h' : Handler n) (qs : List (Call n))
        → (info n h).id ≡ id
        → ((v : Value) → store.Put h.eosnode.dht (place n id keygen_key) v → ⊥)
        → ((v : Value) → store.Put h.eosnode.dht (place n id sign_key) v → ⊥)
        → All Apart qs
        → serve_all n config qs (announce_signups n a b h) ≡ ok h'
        → Deals n store id keygen_key parties h' (signup_keygen n config)
          × Deals n store id sign_key (threshold + 1) h' (signup_sign n config)
    signups-Numbered a b h h' qs is_id no_keygen no_sign apart served =
        let start : Sound n store id Signed h = record {
          same_id = is_id;
          all_put =
              λ k v put. (λ e. absurd (no_keygen v (rw e put)), λ e. absurd (no_sign v (rw e put)));
        } in
        let sound =
          serve_all-Sound n store config id Signed keygen_sound sign_sound qs
            (announce_signups n a b h) h'
            (All-imp Apart (Fits n store config id Signed keygen_sound sign_sound) Apart-Fits qs
              apart)
            (announced a b h start) served in
        (
          λ uuid.
              let (shown, number) =
                deals keygen_key parties (λ v p. p.0 refl) some_party h' sound uuid in
              (
                λ something. let (r, e) = shown something in (r, keygen_is uuid h' ∙ e),
                λ r e. number r (sym (keygen_is uuid h') ∙ e),
              ),
          λ uuid.
              let (shown, number) =
                deals sign_key (threshold + 1) (λ v p. p.1 refl) (omega arith) h' sound uuid in
              (
                λ something. let (r, e) = shown something in (r, sign_is uuid h' ∙ e),
                λ r e. number r (sym (sign_is uuid h') ∙ e),
              ),
        )
