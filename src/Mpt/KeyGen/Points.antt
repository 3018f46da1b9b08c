-- ===== src/Mpt/KeyGen/Points.antt =====
-- What everybody can compute of the private shares: their points, from the schemes' commitments.
use native.Mathlib.Nat.{zero-add}
use vdexnode.Common.{
  ℕ, zero, suc, ◌+◌, ◌<◌, ◌≡◌, sym, ◌∙◌, ap, map, arith, length-map, get_elem?, some,
}
use vdexnode.Common.Outcome.{ok}
use vdexnode.Mpt.Crypto.{Crypto}
use vdexnode.Mpt.Crypto.Laws.{IsField, IsModule, IsSharing}
use vdexnode.Mpt.Algebra.{points, scale-sum}
use vdexnode.Mpt.Messages.{Error}
use vdexnode.Mpt.Parties.{indices, length-indices}
use vdexnode.Mpt.Parties.Pairs.{sum_all, total-indices_congr}
use vdexnode.Mpt.Rounds.{collect_from}
use vdexnode.Mpt.Rounds.Laws.{collect-field, collect_from-map}
use vdexnode.Mpt.KeyGen.{commitment_to_xi, get_commitments_to_xi}
use vdexnode.Mpt.Sums.{fold_head-total}

-- Position k of a range holds its k-th number.
get_elem?-indices : (i n k x : ℕ) → get_elem? (indices i n) k ≡ some x → (x ≡ i + k) × (k < n)
unfolding indices
get_elem?-indices i zero k x h = ground arith
get_elem?-indices i (suc n) zero x h = ground arith
get_elem?-indices i (suc n) (suc k) x h =
    let (e, lt) = get_elem?-indices (i + 1) n k x h in (omega arith, omega arith)

module _ (c : Crypto) {f : IsField c} (m : IsModule c f) (sharing : IsSharing c) where
  open c use {Seed, FE, GE, generator, ◌⊞◌, ◌⊛◌, VerifiableSs, share, get_point_commitment}

  infixl 65 ◌⊞◌
  infixl 70 ◌⊛◌
  module _ (t n : ℕ) (u : ℕ → FE) (seed : ℕ → Seed) (part : ℕ → ℕ → FE)
      (dealt : (j i : ℕ) → i < n → get_elem? (share t n (u j) (seed j)).1 i ≡ some (part j i)) where
    abbrev scheme : ℕ → VerifiableSs
    scheme j = (share t n (u j) (seed j)).0

    commitment_value :
        (i : ℕ)
        → i < n
        → commitment_to_xi c (map scheme (indices 1 n)) (1 + i)
          ≡ ok (generator ⊛ sum_all c f n (λ j. part j i))
    unfolding commitment_to_xi
    commitment_value i lt =
        rw
          (
            length-map scheme (indices 1 n),
            collect-field {E = Error} scheme (λ v. get_point_commitment v (1 + i)) (indices 1 n),
            fold_head-total {E = Error} (points c m) (λ j. get_point_commitment (scheme j) (1 + i))
                (indices 1 n) (rw length-indices (omega arith)),
          )
          (ap ok (
            total-indices_congr ◌⊞◌ m.infinity _ (λ j. generator ⊛ part j i) 1 n
              (λ j _ _.
                rw (one_add i) (sharing.point-share t n i (u j) (part j i) (seed j) (dealt j i lt)))
            ∙ sym (scale-sum c m generator (λ j. part j i) (indices 1 n))))
      where
        one_add : (i : ℕ) → 1 + i ≡ suc i
        one_add i = omega arith

    -- If every party deals shares of its `u`, then position i of the commitments is the point of
    -- the private share of the party at position i: G times the sum of what it was dealt.
    pub get_commitments_to_xi_points :
        get_commitments_to_xi c (map scheme (indices 1 n))
        ≡ ok (map (λ i. generator ⊛ sum_all c f n (λ j. part j i)) (indices 0 n))
    unfolding get_commitments_to_xi
    get_commitments_to_xi_points =
        rw (length-map scheme (indices 1 n), length-indices 1 n)
          (ap (λ (k : ℕ). collect_from 1 k (commitment_to_xi c (map scheme (indices 1 n))))
              (sym (length-indices 0 n))
            ∙ collect_from-map 1 (commitment_to_xi c (map scheme (indices 1 n)))
                (λ i. generator ⊛ sum_all c f n (λ j. part j i)) (indices 0 n)
                (λ k x h.
                  let (p, lt) = get_elem?-indices 0 n k x h in
                  rw (p, zero-add k) (commitment_value k lt)))
