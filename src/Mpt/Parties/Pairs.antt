-- ===== src/Mpt/Parties/Pairs.antt =====
-- Sums over the ordered pairs of different parties, as the signers' pairwise exchanges need them.
use mathlib.Core.Path.{fun_ext}
use vdexnode.Common.{ℕ, zero, suc, ◌+◌, ◌≤◌, ◌<◌, ◌≡◌, refl, sym, ◌∙◌, ap, arith}
use vdexnode.Mpt.Crypto.{Crypto}
use vdexnode.Mpt.Crypto.Laws.{IsField}
use vdexnode.Mpt.Algebra.{scalars, mul-sum, sum-mul, add-neg}
use vdexnode.Mpt.Parties.{indices, others, total-others}
use vdexnode.Mpt.Sums.{total, total-op, total_comm}

-- Two functions that agree on the range have one sum over it.
pub total-indices_congr :
    {A : Type 0} (op : A → A → A) (unit : A) (g h : ℕ → A) (i n : ℕ)
    → ((j : ℕ) → i ≤ j → j < i + n → g j ≡ h j)
    → total op unit g (indices i n) ≡ total op unit h (indices i n)
unfolding indices
total-indices_congr op unit g h i zero e = refl
total-indices_congr op unit g h i (suc n) e = rw (e i (omega arith) (omega arith)) (
    ap (op (h i))
      (total-indices_congr op unit g h (i + 1) n (λ j lo hi. e j (omega arith) (omega arith))))

module _ (c : Crypto) (f : IsField c) (n : ℕ) where
  open c use {FE, zero_fe, ◌⊕◌, ◌⊖◌, ◌⊗◌}

  infixl 65 ◌⊕◌ ◌⊖◌
  infixl 70 ◌⊗◌
  abbrev pub sum_all : (ℕ → FE) → FE
  sum_all g = total ◌⊕◌ zero_fe g (indices 1 n)

  abbrev pub sum_others : ℕ → (ℕ → FE) → FE
  sum_others i g = total ◌⊕◌ zero_fe g (others i 1 n)

  abbrev off_diagonal : (ℕ → ℕ → FE) → FE
  off_diagonal d = sum_all (λ i. sum_others i (d i))

  all_pairs :
      (d : ℕ → ℕ → FE) → sum_all (λ i. sum_all (d i)) ≡ sum_all (λ i. d i i) ⊕ off_diagonal d
  all_pairs d =
      total-indices_congr ◌⊕◌ zero_fe (λ i. sum_all (d i)) (λ i. d i i ⊕ sum_others i (d i)) 1 n
        (λ i lo hi. total-others (scalars c f) (d i) i 1 n lo hi)
      ∙ total-op (scalars c f) (λ i. d i i) (λ i. sum_others i (d i)) (indices 1 n)

  cancel_left : (a x y : FE) → a ⊕ x ≡ a ⊕ y → x ≡ y
  cancel_left a x y e =
      sym (add-neg c f x a)
      ∙ ap (λ (z : FE). z ⊕ (zero_fe ⊖ a)) (f.add_comm x a ∙ e ∙ f.add_comm a y)
      ∙ add-neg c f y a

  -- Who of a pair holds the value does not matter.
  off_diagonal_comm : (d : ℕ → ℕ → FE) → off_diagonal d ≡ off_diagonal (λ i j. d j i)
  off_diagonal_comm d = cancel_left (sum_all (λ i. d i i)) _ _ (
      sym (all_pairs d)
      ∙ total_comm (scalars c f) d (indices 1 n) (indices 1 n)
      ∙ all_pairs (λ i j. d j i))

  off_diagonal_add :
      (a b : ℕ → ℕ → FE) → off_diagonal (λ i j. a i j ⊕ b i j) ≡ off_diagonal a ⊕ off_diagonal b
  off_diagonal_add a b =
      ap (λ (g : ℕ → FE). sum_all g)
        (fun_ext (λ i. total-op (scalars c f) (a i) (b i) (others i 1 n)))
      ∙ total-op (scalars c f) (λ i. sum_others i (a i)) (λ i. sum_others i (b i)) (indices 1 n)

  product_of_sums : (x y : ℕ → FE) → sum_all x ⊗ sum_all y ≡ sum_all (λ i. sum_all (λ j. x i ⊗ y j))
  product_of_sums x y =
      sum-mul c f x (indices 1 n) (sum_all y)
      ∙ ap (λ (g : ℕ → FE). sum_all g) (fun_ext (λ i. mul-sum c f (x i) y (indices 1 n)))

  -- If the two shares of each pair add up to the product of its factors, then every party's own
  -- product and its shares add up, over all parties, to the product of the sums.
  pub shares_add_up :
      (x y : ℕ → FE) (alpha beta : ℕ → ℕ → FE)
      → ((i j : ℕ) → alpha i j ⊕ beta j i ≡ x i ⊗ y j)
      → sum_all (λ i. (x i ⊗ y i) ⊕ sum_others i (λ j. alpha i j ⊕ beta i j))
        ≡ sum_all x ⊗ sum_all y
  shares_add_up x y alpha beta h =
      total-op (scalars c f) (λ i. x i ⊗ y i) (λ i. sum_others i (λ j. alpha i j ⊕ beta i j))
        (indices 1 n)
      ∙ ap (λ (z : FE). sum_all (λ i. x i ⊗ y i) ⊕ z)
          (off_diagonal_add alpha beta
            ∙ ap (λ (z : FE). off_diagonal alpha ⊕ z) (off_diagonal_comm beta)
            ∙ sym (off_diagonal_add alpha (λ i j. beta j i))
            ∙ ap (λ (d : ℕ → ℕ → FE). off_diagonal d) (fun_ext (λ i. fun_ext (λ j. h i j))))
      ∙ sym (all_pairs (λ i j. x i ⊗ y j))
      ∙ sym (product_of_sums x y)
