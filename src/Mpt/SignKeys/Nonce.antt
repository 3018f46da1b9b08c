-- ===== src/Mpt/SignKeys/Nonce.antt =====
-- Phases 1, 3 and 4 of signing: commitments to the gammas, their opening, and the nonce point.
use vdexnode.Common.{
  ℕ, ◌+◌, ◌≤◌, ◌<◌, ◌≡◌, refl, sym, ◌∙◌, ap, ◌≢◌, true, List, [], ◌∷◌, map, arith, length, ==_refl,
  length-map, get_elem?, some,
}
use mathlib.Core.Path.{fun_ext}
use vdexnode.Common.Outcome.{ok}
use vdexnode.Mpt.Crypto.{Crypto}
use vdexnode.Mpt.Crypto.Laws.{IsField, IsModule}
use vdexnode.Mpt.Algebra.{scalars, points, scale-sum, ge_eq_refl, scale-invert}
use vdexnode.Mpt.Messages.{SignKeys, PartyPrivate, SignDecommitPhase1, SignBroadcastPhase1}
use vdexnode.Mpt.Parties.{indices, others, total-others, length-others}
use vdexnode.Mpt.Parties.Pairs.{sum_all}
use vdexnode.Mpt.Rounds.{all_from}
use vdexnode.Mpt.Rounds.Laws.{all_from-true, get_elem?-map, get_elem?_of_lt}
use vdexnode.Mpt.Sign.{nonce_point}
use vdexnode.Mpt.SignKeys.{
  create, phase1_broadcast, phase3_reconstruct_delta, phase4, b_vec_and_com, gamma_point,
}
use vdexnode.Mpt.Sums.{total, total-map, fold-total}

module _ (c : Crypto) where
  open c use {FE, GE, generator, ◌⊛◌}

  infixl 70 ◌⊛◌
  -- The two points of a signer's keys belong to its scalars.
  pub record IsValid (keys : SignKeys c) : Type 0 where
    pub gamma_at : keys.g_gamma_i ≡ generator ⊛ keys.gamma_i
    pub w_at : keys.g_w_i ≡ generator ⊛ keys.w_i

  pub create-IsValid :
      (private : PartyPrivate c) (vss : c.VerifiableSs) (number : ℕ) (s : List ℕ) (gamma k : FE)
      → IsValid (create c private vss number s gamma k)
  unfolding create
  create-IsValid private vss number s gamma k = record { gamma_at = refl; w_at = refl }

module _ (c : Crypto) {f : IsField c} (m : IsModule c f) where
  open c use {FE, GE, zero_fe, ◌⊕◌, ◌⊗◌, invert, generator, ◌⊞◌, ◌⊛◌, DLogProof, pk}

  infixl 65 ◌⊕◌ ◌⊞◌
  infixl 70 ◌⊗◌ ◌⊛◌
  module _ (keys : ℕ → SignKeys c) (blind : ℕ → ℕ) where
    abbrev pub broadcast_of : ℕ → SignBroadcastPhase1
    broadcast_of j = (phase1_broadcast c (keys j) (blind j)).0

    abbrev pub decommit_of : ℕ → SignDecommitPhase1 c
    decommit_of j = (phase1_broadcast c (keys j) (blind j)).1

    -- An honest signer's opening passes the test of `phase4`.
    opening_passes :
        ((j : ℕ) → IsValid c (keys j))
        → (proof : ℕ → DLogProof) → ((j : ℕ) → pk (proof j) ≡ generator ⊛ (keys j).gamma_i)
        → (js : List ℕ) (k j : ℕ) → get_elem? js k ≡ some j
        → b_vec_and_com c (map proof js) (map decommit_of js) (map broadcast_of js) k ≡ ok true
    unfolding b_vec_and_com phase1_broadcast
    opening_passes valid proof hp js k j h =
        rw
          (
            get_elem?-map proof js k j h,
            get_elem?-map decommit_of js k j h,
            get_elem?-map broadcast_of js k j h,
            hp j,
            (valid j).gamma_at,
            ge_eq_refl c m (generator ⊛ (keys j).gamma_i),
          )
          (ap ok (==_refl _))

    phase4_test :
        ((j : ℕ) → IsValid c (keys j))
        → (proof : ℕ → DLogProof) → ((j : ℕ) → pk (proof j) ≡ generator ⊛ (keys j).gamma_i)
        → (js : List ℕ)
        → all_from 0
            (length (map proof js))
            (b_vec_and_com c (map proof js) (map decommit_of js) (map broadcast_of js))
          ≡ ok true
    phase4_test valid proof hp js = all_from-true 0 (length (map proof js)) _ (λ k lt.
        rw (zero_add k) (
          let (j, e) = get_elem?_of_lt js k (rw (length-map proof js) at lt) in
          opening_passes valid proof hp js k j e))
      where
        zero_add : (k : ℕ) → 0 + k ≡ k
        zero_add k = omega arith

    -- What `phase4` returns on honest openings: the sum of the points, times `delta_inv`.
    gamma_point_sum :
        (delta_inv : FE) (js : List ℕ)
        → 0 < length js
        → gamma_point c (map decommit_of js) delta_inv true
          ≡ ok (total ◌⊞◌ m.infinity (λ j. (keys j).g_gamma_i) js ⊛ delta_inv)
    unfolding gamma_point phase1_broadcast
    gamma_point_sum delta_inv [] h = elim h [ ]
    gamma_point_sum delta_inv (j ∷ js) h =
        ap (λ (p : GE). ok (p ⊛ delta_inv))
          (fold-total (points c m) (λ (d : SignDecommitPhase1 c). d.g_gamma_i) (keys j).g_gamma_i
              (map decommit_of js)
            ∙ ap (λ (p : GE). (keys j).g_gamma_i ⊞ p)
                (total-map ◌⊞◌ m.infinity (λ (d : SignDecommitPhase1 c). d.g_gamma_i) decommit_of
                  js))

    -- The others' part of the nonce point and the signer's own.
    whole_point :
        (n me : ℕ) (delta_inv : FE)
        → 1 ≤ me
        → me < 1 + n
        → ((j : ℕ) → IsValid c (keys j))
        → nonce_point c
            (total ◌⊞◌ m.infinity (λ j. (keys j).g_gamma_i) (others me 1 n) ⊛ delta_inv)
            (decommit_of me)
            delta_inv
          ≡ (generator ⊛ sum_all c f n (λ i. (keys i).gamma_i)) ⊛ delta_inv
    unfolding nonce_point phase1_broadcast
    whole_point n me delta_inv lo hi valid =
        sym (m.add-scale _ _ delta_inv)
        ∙ ap (λ (p : GE). p ⊛ delta_inv)
            (m.add_comm _ _
              ∙ sym (total-others (points c m) (λ j. (keys j).g_gamma_i) me 1 n lo hi)
              ∙ ap (λ (g : ℕ → GE). total ◌⊞◌ m.infinity g (indices 1 n))
                  (fun_ext (λ j. (valid j).gamma_at))
              ∙ sym (scale-sum c m generator (λ i. (keys i).gamma_i) (indices 1 n)))

  phase3_reconstruct_delta-sum :
      (delta : ℕ → FE) (n : ℕ)
      → phase3_reconstruct_delta c (map delta (indices 1 n)) ≡ invert (sum_all c f n delta)
  unfolding phase3_reconstruct_delta
  phase3_reconstruct_delta-sum delta n = ap invert (
      fold-total (scalars c f) (λ (x : FE). x) zero_fe (map delta (indices 1 n))
      ∙ f.zero-add _
      ∙ total-map ◌⊕◌ zero_fe (λ (x : FE). x) delta (indices 1 n))

  -- G times gamma, divided by k times gamma, times k, is G.
  divided_point :
      (k gamma : FE)
      → k ⊗ gamma ≢ zero_fe
      → ((generator ⊛ gamma) ⊛ invert (k ⊗ gamma)) ⊛ k ≡ generator
  divided_point k gamma h =
      m.scale_assoc (generator ⊛ gamma) (invert (k ⊗ gamma)) k
      ∙ ap (λ (x : FE). (generator ⊛ gamma) ⊛ x) (f.mul_comm (invert (k ⊗ gamma)) k)
      ∙ m.scale_assoc generator gamma (k ⊗ invert (k ⊗ gamma))
      ∙ ap (λ (x : FE). generator ⊛ x)
          (sym (f.mul_assoc gamma k (invert (k ⊗ gamma)))
            ∙ ap (λ (x : FE). x ⊗ invert (k ⊗ gamma)) (f.mul_comm gamma k))
      ∙ sym (m.scale_assoc generator (k ⊗ gamma) (invert (k ⊗ gamma)))
      ∙ scale-invert c m generator (k ⊗ gamma) h

  -- Signers 1 to `n`, two or more, follow the protocol, and the delta shares sum to k times gamma,
  -- which is not zero. Then for every signer `me` `phase4` returns a point for the others, and
  -- with its own point added the result R satisfies `R * k = G`, where k is the sum of the `k_i`.
  pub phase4_nonce :
      (n me : ℕ) (keys : ℕ → SignKeys c) (blind : ℕ → ℕ) (proof : ℕ → DLogProof) (delta : ℕ → FE)
      → 1 ≤ me
      → me < 1 + n
      → 2 ≤ n
      → ((j : ℕ) → IsValid c (keys j))
      → ((j : ℕ) → pk (proof j) ≡ generator ⊛ (keys j).gamma_i)
      → sum_all c f n delta
        ≡ sum_all c f n (λ i. (keys i).k_i) ⊗ sum_all c f n (λ i. (keys i).gamma_i)
      → sum_all c f n delta ≢ zero_fe
      → let js = others me 1 n in
        let delta_inv = phase3_reconstruct_delta c (map delta (indices 1 n)) in
        (r_others : GE) × (phase4 c delta_inv
            (map proof js)
            (map (decommit_of keys blind) js)
            (map (broadcast_of keys blind) js)
          ≡ ok r_others)
        × (nonce_point c r_others (decommit_of keys blind me) delta_inv
              ⊛ sum_all c f n (λ i. (keys i).k_i)
            ≡ generator)
  unfolding phase4
  phase4_nonce n me keys blind proof delta lo hi two valid hp hd hz =
      let delta_inv = phase3_reconstruct_delta c (map delta (indices 1 n)) in
      (
        total ◌⊞◌ m.infinity (λ j. (keys j).g_gamma_i) (others me 1 n) ⊛ delta_inv,
        rw (phase4_test keys blind valid proof hp (others me 1 n)) (
            gamma_point_sum keys blind delta_inv (others me 1 n)
              (omega (arith, length-others me 1 n lo hi))),
        ap (λ (p : GE). p ⊛ sum_all c f n (λ i. (keys i).k_i))
              (whole_point keys blind n me delta_inv lo hi valid
                ∙ ap (λ (x : FE). (generator ⊛ sum_all c f n (λ i. (keys i).gamma_i)) ⊛ x)
                    (phase3_reconstruct_delta-sum delta n ∙ ap invert hd))
            ∙ divided_point _ _ (λ e. hz (hd ∙ e)),
      )
