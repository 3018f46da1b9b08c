-- ===== src/Mpt/Parties/Walk.antt =====
-- Induction along a loop over all parties with a counter of the others.
use native.Mathlib.Nat.{add-zero, zero-add}
use vdexnode.Common.{
  ℕ, zero, suc, ◌+◌, ◌≤◌, ◌<◌, ◌≡◌, refl, sym, ap, ◌∙◌, true, false, ◌==◌, Bool-cases, inl, inr,
  get_elem?, some, arith,
}
use vdexnode.Mpt.Parties.{others}
use vdexnode.Mpt.Rounds.Laws.{shift_index}

-- `P n i j`: of the loop `n` rounds are left, from party i on, at the j-th of the others.
module _ (me total : ℕ) (P : ℕ → ℕ → ℕ → Type 0) (base : (i j : ℕ) → P zero i j)
    (own : (n i j : ℕ) → 1 ≤ i → i < 1 + total → (i == me) ≡ true → P n (i + 1) j → P (suc n) i j)
    (other : (n i j : ℕ)
      → 1 ≤ i
      → i < 1 + total
      → (i == me) ≡ false
      → get_elem? (others me 1 total) j ≡ some i
      → P n (i + 1) (j + 1)
      → P (suc n) i j) where
  walk_from :
      (n i j : ℕ)
      → 1 ≤ i
      → i + n ≡ 1 + total
      → ((k x : ℕ)
          → get_elem? (others me i n) k ≡ some x
          → get_elem? (others me 1 total) (j + k) ≡ some x)
      → P n i j
  unfolding others
  walk_from zero i j lo e at = base i j
  walk_from (suc n) i j lo e at = elim (Bool-cases (i == me)) [
    | inl t ↦
        own n i j lo (omega arith) t
          (walk_from n (i + 1) j (omega arith) (omega arith) (λ k x p. at k x (rw t p)))
    | inr t ↦
        other n i j lo (omega arith) t
          (ap (get_elem? (others me 1 total)) (sym (add-zero j)) ∙ at 0 i (rw t refl))
          (walk_from n (i + 1) (j + 1) (omega arith) (omega arith)
            (λ k x p. rw (shift_index j k) (at (suc k) x (rw t p))))
  ]

  pub others_walk : P total 1 0
  others_walk = walk_from total 1 0 (omega arith) refl (λ k x p. rw zero-add p)
