-- ===== src/Mpt/SignKeys/Correct.antt =====
-- Phases 2 to 4 of signing over all signers: the shares of delta and sigma add up, and the nonce
-- point of `phase4` is the generator divided by the sum of the `k_i`.
use vdexnode.Common.{ℕ, ◌+◌, ◌≡◌, ◌∙◌, ap, List, map, arith, length, ==_refl, length-map}
use vdexnode.Common.Outcome.{ok, index, ◌>>=◌}
use vdexnode.Mpt.Crypto.{Crypto}
use vdexnode.Mpt.Crypto.Laws.{IsField}
use vdexnode.Mpt.Algebra.{scalars}
use vdexnode.Mpt.Messages.{Error, SignKeys}
use vdexnode.Mpt.Parties.{others}
use vdexnode.Mpt.Parties.Pairs.{sum_all, sum_others, shares_add_up}
use vdexnode.Mpt.Rounds.{collect_from}
use vdexnode.Mpt.Rounds.Laws.{collect_from-map, get_elem?-map}
use vdexnode.Mpt.SignKeys.{sum_shares, phase2_delta_i, phase2_sigma_i}
use vdexnode.Mpt.Sums.{total, total-map, fold-total}

module _ (c : Crypto) (f : IsField c) where
  open c use {FE, zero_fe, ◌⊕◌, ◌⊗◌}

  infixl 65 ◌⊕◌
  infixl 70 ◌⊗◌
  -- The terms that the loop of `sum_shares` collects.
  terms_of_shares :
      (alpha beta : ℕ → FE) (js : List ℕ)
      → collect_from 0
          (length js)
          (λ i. do x ← index {E = Error} (map alpha js) i; y ← index (map beta js) i; ok (x ⊕ y))
        ≡ ok (map (λ j. alpha j ⊕ beta j) js)
  terms_of_shares alpha beta js =
      collect_from-map 0 _ (λ j. alpha j ⊕ beta j) js
        (λ k j h. rw (zero-add' k) (rw (get_elem?-map alpha js k j h, get_elem?-map beta js k j h)))
    where
      zero-add' : (k : ℕ) → 0 + k ≡ k
      zero-add' k = omega arith

  -- The sum of a start value and of the pairs of shares of a list of signers.
  sum_shares-map :
      (start : FE) (alpha beta : ℕ → FE) (js : List ℕ)
      → sum_shares c start (map alpha js) (map beta js)
        ≡ ok (start ⊕ total ◌⊕◌ zero_fe (λ j. alpha j ⊕ beta j) js)
  unfolding sum_shares
  sum_shares-map start alpha beta js =
      rw
        (
          length-map alpha js,
          length-map beta js,
          ==_refl (length js),
          terms_of_shares alpha beta js,
        )
        (ap ok (
          fold-total (scalars c f) (λ (x : FE). x) start (map (λ j. alpha j ⊕ beta j) js)
          ∙ ap (λ (x : FE). start ⊕ x)
              (total-map ◌⊕◌ zero_fe (λ (x : FE). x) (λ j. alpha j ⊕ beta j) js)))

module _ (c : Crypto) (f : IsField c) (n : ℕ) where
  open c use {FE, zero_fe, ◌⊕◌, ◌⊗◌}

  infixl 65 ◌⊕◌
  infixl 70 ◌⊗◌
  -- Signers 1 to `n` hold `keys`; `alpha i j` and `beta i j` are what signer i has from its two
  -- exchanges with signer j. If the two shares of every exchange add up to the product of k and
  -- gamma, then every call of `phase2_delta_i` returns, and the results sum to k times gamma, for
  -- the sums k and gamma of the signers' `k_i` and `gamma_i`.
  pub phase2_delta_i_sum :
      (keys : ℕ → SignKeys c) (alpha beta : ℕ → ℕ → FE)
      → ((i j : ℕ) → alpha i j ⊕ beta j i ≡ (keys i).k_i ⊗ (keys j).gamma_i)
      → (delta : ℕ → FE) × ((i : ℕ)
          → phase2_delta_i c (keys i) (map (alpha i) (others i 1 n)) (map (beta i) (others i 1 n))
            ≡ ok (delta i))
        × (sum_all c f n delta
            ≡ sum_all c f n (λ i. (keys i).k_i) ⊗ sum_all c f n (λ i. (keys i).gamma_i))
  unfolding phase2_delta_i
  phase2_delta_i_sum keys alpha beta h = (
    λ i. ((keys i).k_i ⊗ (keys i).gamma_i) ⊕ sum_others c f n i (λ j. alpha i j ⊕ beta i j),
    λ i. sum_shares-map c f _ (alpha i) (beta i) (others i 1 n),
    shares_add_up c f n (λ i. (keys i).k_i) (λ i. (keys i).gamma_i) alpha beta h,
  )

  -- Signers 1 to `n` hold `keys`; `miu i j` and `ni i j` are what signer i has from its two
  -- exchanges with signer j. If the two shares of every exchange add up to the product of k and w,
  -- then every call of `phase2_sigma_i` returns, and the results sum to k times w, for the sums k
  -- and w of the signers' `k_i` and `w_i`.
  pub phase2_sigma_i_sum :
      (keys : ℕ → SignKeys c) (miu ni : ℕ → ℕ → FE)
      → ((i j : ℕ) → miu i j ⊕ ni j i ≡ (keys i).k_i ⊗ (keys j).w_i)
      → (sigma : ℕ → FE) × ((i : ℕ)
          → phase2_sigma_i c (keys i) (map (miu i) (others i 1 n)) (map (ni i) (others i 1 n))
            ≡ ok (sigma i))
        × (sum_all c f n sigma
            ≡ sum_all c f n (λ i. (keys i).k_i) ⊗ sum_all c f n (λ i. (keys i).w_i))
  unfolding phase2_sigma_i
  phase2_sigma_i_sum keys miu ni h = (
    λ i. ((keys i).k_i ⊗ (keys i).w_i) ⊕ sum_others c f n i (λ j. miu i j ⊕ ni i j),
    λ i. sum_shares-map c f _ (miu i) (ni i) (others i 1 n),
    shares_add_up c f n (λ i. (keys i).k_i) (λ i. (keys i).w_i) miu ni h,
  )
