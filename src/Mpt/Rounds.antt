-- ===== src/Mpt/Rounds.antt =====
-- The loop shapes that the crate repeats: a check of every index, a fold with the head apart.
pub mod Laws
use vdexnode.Common.{ℕ, zero, suc, ◌+◌, Bool, true, false, List, [], ◌∷◌, if◌then◌else◌}
use vdexnode.Common.Outcome.{Outcome, ok, panic, ◌>>=◌}

-- `(i..i + n).map(test).all(|x| x == true)`, which stops at the first index that fails.
unfoldable pub all_from : {E : Type 0} → ℕ → ℕ → (ℕ → Outcome E Bool) → Outcome E Bool
all_from i zero test = ok true
all_from i (suc n) test =
    let rest = all_from (i + 1) n test in do passed ← test i; if passed then rest else ok false

-- `iter().fold(acc, |acc, x| add(acc, f(x)))`
unfoldable pub fold : {A B : Type 0} → (A → B → A) → A → List B → A
fold add acc [] = acc
fold add acc (x ∷ xs) = fold add (add acc x) xs

-- `let head = iter.next().unwrap(); iter.fold(head.clone(), ..)`: the sum of a list that has a head.
unfoldable pub fold_head : {E A : Type 0} → (A → A → A) → List A → Outcome E A
fold_head add [] = panic
fold_head add (x ∷ xs) = ok (fold add x xs)

-- `(i..i + n).map(f).collect()`
unfoldable pub collect_from : {E A : Type 0} → ℕ → ℕ → (ℕ → Outcome E A) → Outcome E (List A)
collect_from i zero f = ok []
collect_from i (suc n) f = do x ← f i; xs ← collect_from (i + 1) n f; ok (x ∷ xs)
