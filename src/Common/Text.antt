-- ===== src/Common/Text.antt =====
-- `str::trim`, `is_empty` and `as_bytes`.
use Prim.Native.Nat.{ℕ, ◌+◌, ◌/◌, ◌%◌}
use Prim.Native.Char.{Char, code}
use Prim.Native.String.{String, [], ◌∷◌}
use mathlib.Core.Path.{◌≡◌, refl}
use mathlib.Core.List.{List, [], ◌∷◌, ◌++◌}
use mathlib.Core.Bool.{Bool, true, false, ◌&&◌, ◌||◌}
use vdexnode.Common.Tests.{ltb, leb, ◌==◌, if◌then◌else◌}

abbrev pub is_empty : String → Bool
is_empty [] = true
is_empty (c ∷ s) = false

-- Unicode's White_Space.
unfoldable pub is_whitespace : Char → Bool
is_whitespace c =
    let n = code c in
    (leb 9 n && leb n 13)
    || n == 32
    || n == 133
    || n == 160
    || n == 5760
    || (leb 8192 n && leb n 8202)
    || n == 8232
    || n == 8233
    || n == 8239
    || n == 8287
    || n == 12288

unfoldable pub trim_start : String → String
trim_start [] = []
trim_start (c ∷ s) = let rest = trim_start s in if is_whitespace c then rest else c ∷ s

unfoldable pub trim_end : String → String
trim_end [] = []
trim_end (c ∷ s) =
    let rest = trim_end s in if is_empty rest && is_whitespace c then [] else c ∷ rest

unfoldable pub trim : String → String
unfolding trim_start trim_end
trim s = trim_end (trim_start s)

pub trim_nil : trim "" ≡ ""
unfolding trim
trim_nil = refl

-- The UTF-8 bytes of a character, by its number.
unfoldable pub encode_utf8 : ℕ → List ℕ
encode_utf8 n =
    if ltb n 128
    then n ∷ []
    else (if ltb n 2048
        then (192 + n / 64) ∷ (128 + n % 64) ∷ []
        else (if ltb n 65536
            then (224 + n / 4096) ∷ (128 + n / 64 % 64) ∷ (128 + n % 64) ∷ []
            else (240 + n / 262144)
              ∷ (128 + n / 4096 % 64)
              ∷ (128 + n / 64 % 64)
              ∷ (128 + n % 64)
              ∷ []))

unfoldable pub as_bytes : String → List ℕ
unfolding encode_utf8
as_bytes [] = []
as_bytes (c ∷ s) = encode_utf8 (code c) ++ as_bytes s
