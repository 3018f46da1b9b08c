-- ===== src/Common/Lists.antt =====
-- Lists measured and indexed by native numbers, under the library's names.
use Prim.Native.Nat.{ℕ, zero, suc, ◌+◌}
use mathlib.Core.Path.{◌≡◌, refl, ap}
use mathlib.Core.Logic.{◌⊎◌, inl, inr}
use mathlib.Core.List.{List, [], ◌∷◌, ◌++◌, map}
use mathlib.Core.Option.{Option, none, some}
use native.Mathlib.Omega.{arith}

module _ {ℓ} {A : Type ℓ} where
  abbrev pub length : List A → ℕ
  length [] = 0
  length (x ∷ xs) = suc (length xs)

  abbrev pub get_elem? : List A → ℕ → Option A
  get_elem? [] i = none
  get_elem? (x ∷ xs) zero = some x
  get_elem? (x ∷ xs) (suc i) = get_elem? xs i

  pub length-append : (xs ys : List A) → length (xs ++ ys) ≡ length xs + length ys
  length-append [] ys = omega arith
  length-append (x ∷ xs) ys = omega (arith, length-append xs ys)

module _ {ℓ κ} {A : Type ℓ} {B : Type κ} where
  pub length-map : (f : A → B) (xs : List A) → length (map f xs) ≡ length xs
  length-map f [] = refl
  length-map f (x ∷ xs) = ap suc (length-map f xs)

module _ {ℓ κ} {A : Type ℓ} (Holds : A → Type κ) where
  -- What holds of every element.
  abbrev pub All : List A → Type κ
  All [] = Unit
  All (first ∷ rest) = Holds first × All rest

  pub All-append : (xs ys : List A) → All xs → All ys → All (xs ++ ys)
  All-append [] ys a b = b
  All-append (x ∷ xs) ys (p, a) b = (p, All-append xs ys a b)

module _ {A : Type 0} where
  -- One of the elements.
  abbrev pub Has : A → List A → Type 0
  Has a [] = ⊥
  Has a (first ∷ rest) = (first ≡ a) ⊎ Has a rest

  pub All-Has {κ} : (Holds : A → Type κ) (a : A) (xs : List A) → All Holds xs → Has a xs → Holds a
  All-Has Holds a [] all has = absurd has
  All-Has Holds a (x ∷ xs) (p, all) (inl e) = rw (← e) p
  All-Has Holds a (x ∷ xs) (p, all) (inr has) = All-Has Holds a xs all has

  -- What follows from one statement for each element.
  pub All-imp {κ ι} :
      (P : A → Type κ) (Q : A → Type ι)
      → ((a : A) → P a → Q a)
      → (xs : List A) → All P xs
      → All Q xs
  All-imp P Q f [] all = tt
  All-imp P Q f (x ∷ xs) (p, all) = (f x p, All-imp P Q f xs all)

-- What holds of the image of every position.
pub All-map :
    {A B : Type 0} (f : A → B) (P : B → Type 0) (xs : List A)
    → ((k : ℕ) (x : A) → get_elem? xs k ≡ some x → P (f x))
    → All P (map f xs)
All-map f P [] h = tt
All-map f P (x ∷ xs) h = (h 0 x refl, All-map f P xs (λ k y e. h (suc k) y e))
