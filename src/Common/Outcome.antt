-- ===== src/Common/Outcome.antt =====
-- What a call of the programs can do: return a value, return an error, or panic.
use Prim.Native.Nat.{ℕ}
use mathlib.Core.Bool.{Bool, true, false}
use mathlib.Core.Option.{Option, none, some}
use mathlib.Core.List.{List}
use mathlib.Core.Path.{◌≡◌, refl}
use vdexnode.Common.Lists.{get_elem?}

pub data Outcome (E A : Type 0) : Type 0 where
  ok : A → Outcome E A
  err : E → Outcome E A
  panic : Outcome E A

infixl 5 ◌>>=◌ ◌>>◌
abbrev pub ◌>>=◌ : {E A B : Type 0} → Outcome E A → (A → Outcome E B) → Outcome E B
ok a >>= f = f a
err e >>= f = err e
panic >>= f = panic

abbrev pub ◌>>◌ : {E B : Type 0} → Outcome E (Unit {0}) → Outcome E B → Outcome E B
m >> k = m >>= λ _. k

-- `assert!` and `assert_eq!`.
abbrev pub assert : {E : Type 0} → Bool → Outcome E (Unit {0})
assert true = ok tt
assert false = panic

-- `unwrap` and `expect` of an `Option`.
abbrev pub unwrap : {E A : Type 0} → Option A → Outcome E A
unwrap none = panic
unwrap (some a) = ok a

-- `v[i]`, which panics out of range.
abbrev pub index : {E A : Type 0} → List A → ℕ → Outcome E A
index xs i = unwrap (get_elem? xs i)

-- `expect` of a result whose error is not caught.
abbrev pub expect : {E F A : Type 0} → Outcome E A → Outcome F A
expect (ok a) = ok a
expect (err e) = panic
expect panic = panic

-- A chain that returns has a first step that returned.
pub bind-ok :
    {E A B : Type 0} (o : Outcome E A) (f : A → Outcome E B) (b : B)
    → (o >>= f) ≡ ok b
    → (a : A) × (o ≡ ok a) × (f a ≡ ok b)
bind-ok (ok a) f b e = (a, refl, e)
bind-ok (err x) f b e = absurd cc
bind-ok panic f b e = absurd cc

pub unwrap-ok : {E A : Type 0} (o : Option A) (a : A) → unwrap {E = E} o ≡ ok a → o ≡ some a
unwrap-ok none a e = absurd cc
unwrap-ok (some b) a e = cc
