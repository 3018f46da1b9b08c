-- ===== src/Mpt/Vectors.antt =====
-- How the rounds of generate_key.rs and sign.rs put their own value among the others' answers.
pub mod Laws
use vdexnode.Common.{ℕ, zero, suc, ◌+◌, String, Option, List, [], ◌∷◌, ◌==◌, if◌then◌else◌, length}
use vdexnode.Common.Outcome.{Outcome, ok, panic, ◌>>=◌, index, unwrap}

module _ {A : Type 0} (from_str : String → Option A) where
  -- Round i of `n` that are left, at the answer j.
  unfoldable pub merge_from : ℕ → ℕ → ℕ → List String → ℕ → A → Outcome ⊥ (List A)
  merge_from zero i j ans_vec party_num value_i = ok []
  merge_from (suc n) i j ans_vec party_num value_i =
      let own = merge_from n (i + 1) j ans_vec party_num value_i in
      let answer = merge_from n (i + 1) (j + 1) ans_vec party_num value_i in
      if i == party_num then (do rest ← own; ok (value_i ∷ rest)) else (do
        text ← index ans_vec j
        value_j ← unwrap (from_str text)
        rest ← answer
        ok (value_j ∷ rest))

  -- `for i in 1..ans_vec.len() + 2`
  unfoldable pub format_vec_from_reads : List String → ℕ → A → Outcome ⊥ (List A)
  format_vec_from_reads ans_vec party_num value_i =
      merge_from (suc (length ans_vec)) 1 0 ans_vec party_num value_i
