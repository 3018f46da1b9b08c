-- ===== src/Mpt/Parties.antt =====
-- The party numbers of a round: the loops `for i in 1..n + 1` and their test `i != party_num`.
pub mod Pairs
pub mod Walk
use vdexnode.Common.{
  ℕ, zero, suc, ◌+◌, ◌≤◌, ◌<◌, ◌≡◌, refl, sym, ◌∙◌, ap, false, List, [], ◌∷◌, arith, ◌==◌,
  if◌then◌else◌, length, All, Bool-cases, inl, inr, ==_iff, ◌≢◌,
}
use vdexnode.Mpt.Sums.{IsMonoid, total}

-- `i..i + n`
unfoldable pub indices : ℕ → ℕ → List ℕ
indices i zero = []
indices i (suc n) = i ∷ indices (i + 1) n

-- Those of them that are not `me`.
unfoldable pub others : ℕ → ℕ → ℕ → List ℕ
others me i zero = []
others me i (suc n) = let rest = others me (i + 1) n in if i == me then rest else i ∷ rest

-- Numbers of the range are below its end.
pub others_below : (me i n : ℕ) {bound : ℕ} → i + n ≤ bound → All (λ j. j < bound) (others me i n)
unfolding others
others_below me i zero h = tt
others_below me i (suc n) h = elim (Bool-cases (i == me)) [
  | inl e ↦ rw e (others_below me (i + 1) n (omega arith))
  | inr e ↦ rw e (omega arith, others_below me (i + 1) n (omega arith))
]

pub length-indices : (i n : ℕ) → length (indices i n) ≡ n
unfolding indices
length-indices i zero = refl
length-indices i (suc n) = ap suc (length-indices (i + 1) n)

-- Out of the range there is nobody to leave out.
pub others_above : (me i n : ℕ) → me < i → others me i n ≡ indices i n
unfolding others indices
others_above me i zero h = refl
others_above me i (suc n) h = ground (arith, others_above me (i + 1) n)

pub length-others : (me i n : ℕ) → i ≤ me → me < i + n → suc (length (others me i n)) ≡ n
unfolding others
length-others me i zero h k = absurd (omega arith)
length-others me i (suc n) h k = elim (Bool-cases (i == me)) [
  | inl e ↦ rw e (
      rw (others_above me (i + 1) n (let p : i ≡ me = (==_iff i me).0 e in omega arith))
        (ap suc (length-indices (i + 1) n)))
  | inr e ↦
      let p : i ≢ me = λ q. absurd (bad q e) in
      rw e (ap suc (length-others me (i + 1) n (omega arith) (omega arith)))
]
  where
    bad : i ≡ me → (i == me) ≡ false → ⊥
    bad q e = ground arith

-- The sum over everybody is the term of `me` and the sum over the others.
pub total-others :
    {A : Type 0} {op : A → A → A} {unit : A} (m : IsMonoid op unit) (f : ℕ → A) (me i n : ℕ)
    → i ≤ me
    → me < i + n
    → total op unit f (indices i n) ≡ op (f me) (total op unit f (others me i n))
unfolding indices others
total-others m f me i zero h k = absurd (omega arith)
total-others {op = op} {unit = unit} m f me i (suc n) h k = elim (Bool-cases (i == me)) [
  | inl e ↦
      let p : i ≡ me = (==_iff i me).0 e in
      rw e (
        rw (others_above me (i + 1) n (omega arith))
          (ap (λ (j : ℕ). op (f j) (total op unit f (indices (i + 1) n))) p))
  | inr e ↦
      let p : i ≢ me = λ q. bad q e in
      rw e (
        ap (op (f i)) (total-others m f me (i + 1) n (omega arith) (omega arith))
        ∙ sym (m.assoc (f i) (f me) _)
        ∙ ap (λ x. op x (total op unit f (others me (i + 1) n))) (m.comm (f i) (f me))
        ∙ m.assoc (f me) (f i) _)
]
  where
    bad : i ≡ me → (i == me) ≡ false → ⊥
    bad q e = ground arith
