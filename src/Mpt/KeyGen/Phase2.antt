-- ===== src/Mpt/KeyGen/Phase2.antt =====
-- The second phase of key generation: dealt shares are accepted, and make up the key pair.
use native.Mathlib.Nat.{zero-add}
use vdexnode.Common.{
  ℕ, suc, ◌<◌, ◌≡◌, sym, ◌∙◌, Bool, true, false, List, map, arith, length, ==_refl, length-map,
  get_elem?, if◌then◌else◌, some, none, Option,
}
use vdexnode.Common.Outcome.{ok, ◌>>=◌, unwrap}
use vdexnode.Mpt.Crypto.{Crypto}
use vdexnode.Mpt.Crypto.Laws.{IsField, IsModule, IsSharing}
use vdexnode.Mpt.Algebra.{scalars, points, scale-sum, ge_eq_refl}
use vdexnode.Mpt.Messages.{Error, Parameters, Keys, SharedKeys}
use vdexnode.Mpt.Parties.{indices, length-indices}
use vdexnode.Mpt.Parties.Pairs.{sum_all}
use vdexnode.Mpt.Rounds.{all_from}
use vdexnode.Mpt.Rounds.Laws.{all_from-map, all_from_sound, get_elem?-map, lt_of_get_elem?}
use vdexnode.Mpt.KeyGen.{correct_ss, phase2_verify_vss_construct_keypair_phase3_pok_dlog}
use vdexnode.Mpt.Sums.{total-map, fold-total, fold_head-total}

module _ (c : Crypto) {f : IsField c} (m : IsModule c f) (sharing : IsSharing c) where
  open c use {
    Seed, FE, GE, zero_fe, ◌⊕◌, generator, ◌⊞◌, ◌⊛◌, VerifiableSs, share, commitments,
    validate_share, ge_eq, prove_dlog,
  }

  infixl 65 ◌⊕◌ ◌⊞◌
  infixl 70 ◌⊛◌
  -- Party j shares its `u j` among `n` parties with threshold `t`; `part j i` is what position i gets.
  module _ (t n : ℕ) (u : ℕ → FE) (seed : ℕ → Seed) (part : ℕ → ℕ → FE)
      (dealt : (j i : ℕ) → i < n → get_elem? (share t n (u j) (seed j)).1 i ≡ some (part j i)) where
    abbrev pub scheme : ℕ → VerifiableSs
    scheme j = (share t n (u j) (seed j)).0

    -- An honest party's share passes the test at position i.
    share_passes :
        (i : ℕ)
        → i < n
        → (js : List ℕ) (k j : ℕ) → get_elem? js k ≡ some j
        → correct_ss c
            (map (λ j. generator ⊛ u j) js)
            (map (λ j. part j i) js)
            (map scheme js)
            (suc i)
            k
          ≡ ok true
    unfolding correct_ss
    share_passes i lt js k j h = rw (
      get_elem?-map scheme js k j h,
      get_elem?-map (λ j. part j i) js k j h,
      get_elem?-map (λ j. generator ⊛ u j) js k j h,
      sharing.validate-share t n i (u j) (part j i) (seed j) (dealt j i lt),
      sharing.head-share t n (u j) (seed j),
      ge_eq_refl c m (generator ⊛ u j),
    )

    -- If every party deals shares of its `u`, then the party at position i, numbered i + 1, accepts
    -- what it received. Its public key is G times the sum of all `u`, and its private share is the
    -- sum of what it was dealt.
    pub phase2_verify_complete :
        (self : Keys c) (params : Parameters) (i : ℕ) (s : Seed)
        → params.share_count ≡ n
        → i < n
        → phase2_verify_vss_construct_keypair_phase3_pok_dlog c self params
            (map (λ j. generator ⊛ u j) (indices 1 n))
            (map (λ j. part j i) (indices 1 n))
            (map scheme (indices 1 n))
            (suc i)
            s
          ≡ (let x_i = sum_all c f n (λ j. part j i) in
              ok (record { y = generator ⊛ sum_all c f n u; x_i = x_i }, prove_dlog x_i s))
    unfolding phase2_verify_vss_construct_keypair_phase3_pok_dlog
    phase2_verify_complete self params i s hn lt = rw (
      all_from-map (λ j. generator ⊛ u j) (indices 1 n) _ (share_passes i lt (indices 1 n)),
      length-map (λ j. generator ⊛ u j) (indices 1 n),
      length-map (λ j. part j i) (indices 1 n),
      length-map scheme (indices 1 n),
      length-indices 1 n,
      hn,
      ==_refl n,
      fold_head-total {E = Error} (points c m) (λ j. generator ⊛ u j) (indices 1 n)
          (rw length-indices (omega arith)),
      sym (scale-sum c m generator u (indices 1 n)),
      fold-total (scalars c f) (λ (x : FE). x) zero_fe (map (λ j. part j i) (indices 1 n)),
      f.zero-add,
      total-map ◌⊕◌ zero_fe (λ (x : FE). x) (λ j. part j i) (indices 1 n),
    )

module _ (c : Crypto) {f : IsField c} (m : IsModule c f) where
  open c use {Seed, FE, GE, VerifiableSs, commitments, validate_share, DLogProof, ge_eq}

  of_test :
      (b : Bool) (o : Option GE) (y : GE)
      → (if b then (do com0 ← unwrap {E = Error} o; ok (ge_eq com0 y)) else ok false) ≡ ok true
      → (b ≡ true) × (o ≡ some y)
  of_test true (some p) y h = ground (arith, m.ge_eq_iff p y)
  of_test true none y h = cc
  of_test false o y h = cc

  test_value :
      (y_vec : List GE) (shares : List FE) (vss_vec : List VerifiableSs) (number i : ℕ) (y : GE)
      (x : FE) (vss : VerifiableSs)
      → get_elem? y_vec i ≡ some y
      → get_elem? shares i ≡ some x
      → get_elem? vss_vec i ≡ some vss
      → correct_ss c y_vec shares vss_vec number i ≡ (
          if validate_share vss x number
          then (do com0 ← unwrap {E = Error} (get_elem? (commitments vss) 0); ok (ge_eq com0 y))
          else ok false)
  unfolding correct_ss
  test_value y_vec shares vss_vec number i y x vss hy hx hv = rw (hy, hx, hv)

  -- A call that returns has as many points, shares and schemes as there are parties; every share
  -- validates at the party's number, and every scheme commits first to its party's point.
  pub phase2_verify_sound :
      (self : Keys c) (params : Parameters) (y_vec : List GE) (shares : List FE)
      (vss_vec : List VerifiableSs) (number : ℕ) (s : Seed) (result : SharedKeys c × DLogProof)
      (i : ℕ) (y : GE) (x : FE) (vss : VerifiableSs)
      → phase2_verify_vss_construct_keypair_phase3_pok_dlog c self params y_vec shares vss_vec
          number s
        ≡ ok result
      → get_elem? y_vec i ≡ some y
      → get_elem? shares i ≡ some x
      → get_elem? vss_vec i ≡ some vss
      → (length y_vec ≡ params.share_count)
        × (length shares ≡ params.share_count)
        × (length vss_vec ≡ params.share_count)
        × (validate_share vss x number ≡ true)
        × (get_elem? (commitments vss) 0 ≡ some y)
  unfolding phase2_verify_vss_construct_keypair_phase3_pok_dlog
  phase2_verify_sound self params y_vec shares vss_vec number s result i y x vss h hy hx hv =
      ground
        (arith, all_passed, of_test (validate_share vss x number) (get_elem? (commitments vss) 0) y)
    where
      all_passed :
          all_from 0 (length y_vec) (correct_ss c y_vec shares vss_vec number) ≡ ok true
          → (validate_share vss x number ≡ true) × (get_elem? (commitments vss) 0 ≡ some y)
      all_passed passed = of_test (validate_share vss x number) (get_elem? (commitments vss) 0) y (
          sym (test_value y_vec shares vss_vec number i y x vss hy hx hv)
          ∙ (rw zero-add at
              (all_from_sound 0 (length y_vec) _ passed i (lt_of_get_elem? y_vec i y hy))))
