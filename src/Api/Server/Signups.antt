-- ===== src/Api/Server/Signups.antt =====
-- What the signup routes of vDexNode/api/src/server.rs do with what the network shows them.
use vdexnode.Common.{
  ℕ, ◌+◌, ◌%◌, ◌^◌, ◌≤◌, ◌≡◌, ◌≢◌, [], refl, sym, ap, ◌∙◌, String, Option, some, arith, ltb,
  if◌then◌else◌,
}
use vdexnode.Common.Outcome.{Outcome, ok, unwrap, bind-ok, unwrap-ok}
use vdexnode.Common.Decimal.{parse}
use vdexnode.Mpt.Transport.{TupleKey, PartySignup}
use vdexnode.Api.Network.{Network, Params}
use vdexnode.Api.Network.Laws.{IsStore, IsSerialised}
use vdexnode.Api.Handler.{Handler, insert_value, get_value, text_or}
use vdexnode.Api.Server.{
  salted, keygen_key, sign_key, signup_at, next_signup, read_params, signup_keygen, signup_sign,
}
use vdexnode.Api.Server.Calls.{
  place, Sound, insert_value-Sound, insert_value-Put, get_value-Sound, get_value_shown,
}

module _ (n : Network) where
  open n use {
    get_values, Hash, hash_from_bytes, Value, value_new, value_text, signup_to_string,
    signup_from_str,
  }

  pub signup_keygen_at :
      (config : Option String) (params : Params) (parties : ℕ) (uuid : String) (h : Handler n)
      → read_params n config ≡ ok params
      → parse (2 ^ 32) params.parties ≡ some parties
      → signup_keygen n config uuid h ≡ signup_at n keygen_key parties uuid h
  unfolding signup_keygen
  signup_keygen_at config params parties uuid h e p = rw (e, p, signup_keygen)

  pub signup_sign_at :
      (config : Option String) (params : Params) (threshold : ℕ) (uuid : String) (h : Handler n)
      → read_params n config ≡ ok params
      → parse (2 ^ 32) params.threshold ≡ some threshold
      → signup_sign n config uuid h ≡ signup_at n sign_key ((threshold + 1) % 2 ^ 32) uuid h
  unfolding signup_sign
  signup_sign_at config params threshold uuid h e p = rw (e, p, signup_sign)

  -- A signup that is answered has read the signup before it, and puts its answer.
  pub signup_at-ok :
      (key : TupleKey) (limit : ℕ) (uuid : String) (h : Handler n) (r : PartySignup × Handler n)
      → signup_at n key limit uuid h ≡ ok r
      → (t : String) × (q : PartySignup) × (get_value n (salted n key h) h ≡ some t)
        × (signup_from_str t ≡ some q)
        × (r.0 ≡ next_signup limit uuid q)
        × (r.1 ≡ insert_value n (salted n key h) (signup_to_string r.0) h)
  unfolding signup_at
  signup_at-ok key limit uuid h r e =
      let (t, e₁, rest) = bind-ok (unwrap (get_value n (salted n key h) h)) _ r e in
      let (q, e₂, last) = bind-ok (unwrap (signup_from_str t)) _ r rest in
      let next = next_signup limit uuid q in
      let same : (next, insert_value n (salted n key h) (signup_to_string next) h) ≡ r =
        ok_of last in
      (t, q, unwrap-ok _ t e₁, unwrap-ok _ q e₂, rw (← same) refl, rw (← same) refl)
    where
      ok_of :
          {a b : PartySignup × Handler n}
          → ◌≡◌ {A = Outcome ⊥ (PartySignup × Handler n)} (ok a) (ok b)
          → a ≡ b
      ok_of e = cc

  pub signup_keygen-ok :
      (config : Option String) (uuid : String) (h : Handler n) (r : PartySignup × Handler n)
      → signup_keygen n config uuid h ≡ ok r
      → (limit : ℕ) × (signup_at n keygen_key limit uuid h ≡ ok r)
  unfolding signup_keygen
  signup_keygen-ok config uuid h r e =
      let (params, _, rest) = bind-ok (read_params n config) _ r e in
      let (parties, _, last) = bind-ok (unwrap (parse (2 ^ 32) params.parties)) _ r rest in
      (parties, last)

  pub signup_sign-ok :
      (config : Option String) (uuid : String) (h : Handler n) (r : PartySignup × Handler n)
      → signup_sign n config uuid h ≡ ok r
      → (limit : ℕ) × (signup_at n sign_key limit uuid h ≡ ok r)
  unfolding signup_sign
  signup_sign-ok config uuid h r e =
      let (params, _, rest) = bind-ok (read_params n config) _ r e in
      let (threshold, _, last) = bind-ok (unwrap (parse (2 ^ 32) params.threshold)) _ r rest in
      ((threshold + 1) % 2 ^ 32, last)

  -- The signup that a value stands for, in a session of `limit`.
  abbrev pub Drawn : ℕ → Value → Type 0
  Drawn limit v = (q : PartySignup) × (v ≡ value_new (signup_to_string q)) × (q.number ≤ limit)

  -- What is answered, when the network shows the signup `q`: the number after it, or the first of a
  -- new session if its session is full. It is put where the next signup looks.
  abbrev pub Numbered :
      IsStore n → TupleKey → ℕ → String → Handler n → PartySignup × Handler n → Type 0
  Numbered store key limit uuid h (p, h') =
      (q : PartySignup) × (get_value n (salted n key h) h ≡ some (signup_to_string q))
      × (q.number ≤ limit)
      × (p ≡ (
          if ltb q.number limit
          then record { number = q.number + 1; uuid = q.uuid }
          else record { number = 1; uuid = uuid }))
      × (1 ≤ p.number)
      × (p.number ≤ limit)
      × store.Put h'.eosnode.dht (hash_from_bytes (salted n key h)) (value_new (signup_to_string p))

  -- What a signup route does: it answers if the network shows anything where the signups stand, and
  -- every answer is numbered.
  abbrev pub Deals :
      IsStore n
      → String
      → TupleKey
      → ℕ
      → Handler n
      → (String → Handler n → Outcome ⊥ (PartySignup × Handler n))
      → Type 0
  Deals store id key limit h route =
      (uuid : String)
      → (get_values (place n id key) h.eosnode.dht ≢ []
          → (r : PartySignup × Handler n) × (route uuid h ≡ ok r))
        × ((r : PartySignup × Handler n) → route uuid h ≡ ok r → Numbered store key limit uuid h r)

  next_signup_bounds :
      (limit : ℕ) (uuid : String) (q : PartySignup)
      → 1 ≤ limit
      → (1 ≤ (next_signup limit uuid q).number) × ((next_signup limit uuid q).number ≤ limit)
  unfolding next_signup
  next_signup_bounds limit uuid q lo = ground arith

  next_signup_is :
      (limit : ℕ) (uuid : String) (q : PartySignup)
      → next_signup limit uuid q ≡ (
          if ltb q.number limit
          then record { number = q.number + 1; uuid = q.uuid }
          else record { number = 1; uuid = uuid })
  unfolding next_signup
  next_signup_is limit uuid q = refl

  module _ (store : IsStore n) (serialised : IsSerialised n) (id : String) where
    text_lem : (s : String) → text_or n (value_text (value_new s)) ≡ s
    unfolding text_or
    text_lem s = rw (store.value_text-value_new s) refl

    module _ (P : Hash → Value → Type 0) (key : TupleKey) (limit : ℕ)
        (drawn : (v : Value) → P (place n id key) v → Drawn limit v) (lo : 1 ≤ limit) where
      pub numbered :
          (uuid : String) (h : Handler n) (r : PartySignup × Handler n)
          → Sound n store id P h
          → signup_at n key limit uuid h ≡ ok r
          → Numbered store key limit uuid h r
      numbered uuid h r sound e =
          let (t, q, get, read, is, put) = signup_at-ok key limit uuid h r e in
          let (v, p, text) = get_value-Sound n store id P key h t sound get in
          let (q', is_value, le) = drawn v p in
          let t_is : t ≡ signup_to_string q' =
            text
            ∙ ap (λ (w : Value). text_or n (value_text w)) is_value
            ∙ text_lem (signup_to_string q') in
          let same : q' ≡ q = of_some (
            sym (serialised.signup_from_str-signup_to_string q')
            ∙ ap signup_from_str (sym t_is)
            ∙ read) in
          let bounds = next_signup_bounds limit uuid q lo in
          (
            q,
            get ∙ ap some (t_is ∙ ap signup_to_string same),
            rw (← same) le,
            is ∙ next_signup_is limit uuid q,
            rw is bounds.0,
            rw is bounds.1,
            rw put (insert_value-Put n store (salted n key h) (signup_to_string r.0) h),
          )
        where
          of_some : {a b : PartySignup} → ◌≡◌ {A = Option PartySignup} (some a) (some b) → a ≡ b
          of_some e = cc

      pub answered :
          (uuid : String) (h : Handler n)
          → Sound n store id P h
          → get_values (place n id key) h.eosnode.dht ≢ []
          → (r : PartySignup × Handler n) × (signup_at n key limit uuid h ≡ ok r)
      unfolding signup_at salted
      answered uuid h sound something =
          let at : hash_from_bytes (salted n key h) ≡ place n id key =
            ap (λ (i : String). place n i key) sound.same_id in
          let (t, found) =
            get_value_shown n (salted n key h) h
              (λ empty. something (ap (λ k. get_values k h.eosnode.dht) (sym at) ∙ empty)) in
          let (v, p, text) = get_value-Sound n store id P key h t sound found in
          let (q, is_value, le) = drawn v p in
          let read : signup_from_str t ≡ some q =
            ap signup_from_str (
              text
              ∙ ap (λ (w : Value). text_or n (value_text w)) is_value
              ∙ text_lem (signup_to_string q))
            ∙ serialised.signup_from_str-signup_to_string q in
          let next = next_signup limit uuid q in
          (
            (next, insert_value n (salted n key h) (signup_to_string next) h),
            rw (signup_at, found, read) refl,
          )

      pub numbered-Sound :
          ((q : PartySignup)
            → q.number ≤ limit
            → P (place n id key) (value_new (signup_to_string q)))
          → (uuid : String) (h : Handler n) (r : PartySignup × Handler n) → Sound n store id P h
          → signup_at n key limit uuid h ≡ ok r
          → Sound n store id P r.1
      numbered-Sound allowed uuid h r sound e =
          let (t, q, get, read, is, put) = signup_at-ok key limit uuid h r e in
          let (_, _, _, _, _, le, _) = numbered uuid h r sound e in
          rw put
            (insert_value-Sound n store id P key (signup_to_string r.0) h (allowed r.0 le) sound)
