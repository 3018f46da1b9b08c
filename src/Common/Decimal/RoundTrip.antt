-- ===== src/Common/Decimal/RoundTrip.antt =====
-- A printed number parses back, so different numbers print differently.
use Prim.Native.Nat.{ℕ, zero, suc, ◌+◌, ◌-◌, ◌*◌, ◌/◌, ◌%◌, ◌<◌}
use Prim.Native.Char.{code}
use Prim.Native.String.{String, [], ◌∷◌}
use mathlib.Core.Path.{◌≡◌, refl, sym, ap, ◌∙◌}
use mathlib.Core.Logic.{inl, inr}
use mathlib.Core.Bool.{true, false, ◌&&◌}
use mathlib.Core.Option.{some}
use native.Mathlib.Omega.{arith}
use vdexnode.Common.Tests.{ltb, leb, ◌==◌, Bool-cases}
use vdexnode.Common.Decimal.{digit, show, to_string, scan, parse}

pub code-digit : (d : ℕ) → d < 10 → code (digit d) ≡ 48 + d
code-digit zero h = refl
code-digit (suc zero) h = refl
code-digit (suc (suc zero)) h = refl
code-digit (suc (suc (suc zero))) h = refl
code-digit (suc (suc (suc (suc zero)))) h = refl
code-digit (suc (suc (suc (suc (suc zero))))) h = refl
code-digit (suc (suc (suc (suc (suc (suc zero)))))) h = refl
code-digit (suc (suc (suc (suc (suc (suc (suc zero))))))) h = refl
code-digit (suc (suc (suc (suc (suc (suc (suc (suc zero)))))))) h = refl
code-digit (suc (suc (suc (suc (suc (suc (suc (suc (suc zero))))))))) h = refl
code-digit (suc (suc (suc (suc (suc (suc (suc (suc (suc (suc d)))))))))) h = absurd (omega arith)

-- Reading one digit.
scan-digit :
    (limit d acc : ℕ) (s : String)
    → d < 10
    → acc * 10 + d < limit
    → scan limit (digit d ∷ s) acc ≡ scan limit s (acc * 10 + d)
unfolding scan
scan-digit limit d acc s h lt = rw (code-digit d h, sub_lem, digit_lem, bound_lem)
  where
    sub_lem : 48 + d - 48 ≡ d
    sub_lem = omega arith

    digit_lem : (leb 48 (48 + d) && leb (48 + d) 57) ≡ true
    digit_lem = ground arith

    bound_lem : ltb (acc * 10 + d) limit ≡ true
    bound_lem = ground arith

-- Reading what `show` wrote gives the number, and goes on with what stands behind.
scan-show :
    (limit fuel n : ℕ) (s : String)
    → n < fuel
    → n < limit
    → scan limit (show fuel n s) 0 ≡ scan limit s n
unfolding show
scan-show limit zero n s h lt = elim h [ ]
scan-show limit (suc fuel) n s h lt = elim (Bool-cases (ltb n 10)) [
  | inl small ↦
      let e : 0 * 10 + n ≡ n = omega arith in
      rw small (scan-digit limit n 0 s (ground arith) (omega arith) ∙ ap (scan limit s) e)
  | inr large ↦
      let e : n / 10 * 10 + n % 10 ≡ n = omega arith in
      rw large (
        scan-show limit fuel (n / 10) (digit (n % 10) ∷ s) (ground arith) (omega arith)
        ∙ scan-digit limit (n % 10) (n / 10) s (omega arith) (omega arith)
        ∙ ap (scan limit s) e)
]

-- What `show` writes begins with a digit.
show_head :
    (fuel n : ℕ) (s : String)
    → (d : ℕ) × (t : String) × (d < 10) × (show (suc fuel) n s ≡ digit d ∷ t)
unfolding show
show_head zero n s = elim (Bool-cases (ltb n 10)) [
  | inl small ↦ (n, s, ground arith, rw small)
  | inr large ↦ (n % 10, s, omega arith, rw large)
]
show_head (suc fuel) n s = elim (Bool-cases (ltb n 10)) [
  | inl small ↦ (n, s, ground arith, rw small)
  | inr large ↦
      let (d, t, h, e) = show_head fuel (n / 10) (digit (n % 10) ∷ s) in (d, t, h, rw large e)
]

parse_of_digit :
    (limit d : ℕ) (t : String) → d < 10 → parse limit (digit d ∷ t) ≡ scan limit (digit d ∷ t) 0
unfolding parse
parse_of_digit limit d t h = rw (no_sign (rw (code-digit d h) (ground arith)))
  where
    no_sign : (code (digit d) == 43) ≡ false → (code (digit d) == 43) ≡ false
    no_sign e = e

pub parse-to_string : (limit n : ℕ) → n < limit → parse limit (to_string n) ≡ some n
unfolding to_string scan
parse-to_string limit n lt =
    let (d, t, h, e) = show_head n n [] in
    ap (parse limit) e
    ∙ parse_of_digit limit d t h
    ∙ ap (λ (s : String). scan limit s 0) (sym e)
    ∙ scan-show limit (suc n) n [] (omega arith) lt

pub to_string_injective : (m n : ℕ) → to_string m ≡ to_string n → m ≡ n
to_string_injective m n e = some_inj (
    sym (parse-to_string (suc (m + n)) m (omega arith))
    ∙ ap (parse (suc (m + n))) e
    ∙ parse-to_string (suc (m + n)) n (omega arith))
  where
    some_inj : some m ≡ some n → m ≡ n
    some_inj p = ground arith
