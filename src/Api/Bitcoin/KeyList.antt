-- ===== src/Api/Bitcoin/KeyList.antt =====
-- The argument that lists the keys of a multi-signature call.
use vdexnode.Common.{
  ℕ, suc, ◌+◌, ◌≡◌, refl, sym, String, ◌<>◌, false, List, [], ◌∷◌, map, arith, length, ◌==◌, ==_iff,
}
use text.Mathlib.TextLemmas.{append_assoc, append-nil}
use vdexnode.Api.Bitcoin.{quote, add_keys, keys_arg}

-- The texts with a separator between each two.
unfoldable pub join : String → List String → String
join sep [] = ""
join sep (s ∷ []) = s
join sep (s ∷ t ∷ ss) = s <> sep <> join sep (t ∷ ss)

add_keys-join :
    (len idx : ℕ) (keys : List String) (s : String)
    → idx + length keys ≡ len
    → add_keys len idx keys s ≡ s <> join ", " (map quote keys)
unfolding add_keys join
add_keys-join len idx [] s e = sym (append-nil s)
add_keys-join len idx (k ∷ []) s e = rw ((==_iff (idx + 1) len).1 (omega arith)) refl
add_keys-join len idx (k ∷ l ∷ keys) s e = rw (
  different len idx (length keys) e,
  add_keys-join len (idx + 1) (l ∷ keys) ((s <> quote k) <> ", ") (omega arith),
  append_assoc (s <> quote k) ", " (join ", " (quote l ∷ map quote keys)),
  append_assoc s (quote k) (", " <> join ", " (quote l ∷ map quote keys)),
)
  where
    different : (len idx m : ℕ) → idx + suc (suc m) ≡ len → (idx + 1 == len) ≡ false
    different len idx m e = ground arith

-- The argument is the keys, each in quotes, with a comma and a blank between each two, in brackets.
pub keys_arg-join : (keys : List String) → keys_arg keys ≡ "[" <> join ", " (map quote keys) <> "]"
unfolding keys_arg
keys_arg-join keys =
    rw (add_keys-join (length keys) 0 keys "[" (omega arith))
      (append_assoc "[" (join ", " (map quote keys)) "]")
