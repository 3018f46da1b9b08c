-- ===== src/Common/Decimal.antt =====
-- `to_string` and `parse` of the unsigned integer types.
pub mod RoundTrip
use Prim.Native.Nat.{ℕ, zero, suc, ◌+◌, ◌-◌, ◌*◌, ◌/◌, ◌%◌}
use Prim.Native.Char.{Char, code}
use Prim.Native.String.{String, [], ◌∷◌}
use mathlib.Core.Bool.{Bool, true, false, ◌&&◌}
use mathlib.Core.Option.{Option, none, some}
use vdexnode.Common.Tests.{ltb, leb, ◌==◌, if◌then◌else◌}

abbrev pub digit : ℕ → Char
digit zero = "0"
digit (suc zero) = "1"
digit (suc (suc zero)) = "2"
digit (suc (suc (suc zero))) = "3"
digit (suc (suc (suc (suc zero)))) = "4"
digit (suc (suc (suc (suc (suc zero))))) = "5"
digit (suc (suc (suc (suc (suc (suc zero)))))) = "6"
digit (suc (suc (suc (suc (suc (suc (suc zero))))))) = "7"
digit (suc (suc (suc (suc (suc (suc (suc (suc zero)))))))) = "8"
digit _ = "9"

-- The digits of `n` before `s`; each round divides by ten, so `n + 1` rounds are enough.
unfoldable pub show : ℕ → ℕ → String → String
show zero n s = s
show (suc fuel) n s =
    let more = show fuel (n / 10) (digit (n % 10) ∷ s) in if ltb n 10 then digit n ∷ s else more

unfoldable pub to_string : ℕ → String
unfolding show
to_string n = show (suc n) n []

abbrev pub is_digit : Char → Bool
is_digit c = leb b'0' (code c) && leb (code c) b'9'

-- The value of the digits of `s` after those that made `acc`, if it stays below the type's limit.
unfoldable pub scan : ℕ → String → ℕ → Option ℕ
scan limit [] acc = some acc
scan limit (c ∷ s) acc =
    let value = acc * 10 + (code c - b'0') in
    let rest = scan limit s value in if is_digit c && ltb value limit then rest else none

-- The digits of a number, of which there is one at least.
unfoldable pub scan_some : ℕ → String → Option ℕ
unfolding scan
scan_some limit [] = none
scan_some limit (c ∷ s) = scan limit (c ∷ s) 0

-- `str::parse` of an unsigned type whose values are below `limit`: one `+` may stand in front.
unfoldable pub parse : ℕ → String → Option ℕ
unfolding scan_some
parse limit [] = none
parse limit (c ∷ s) = if code c == b'+' then scan_some limit s else scan_some limit (c ∷ s)
