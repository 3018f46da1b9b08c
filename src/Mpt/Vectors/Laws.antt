-- ===== src/Mpt/Vectors/Laws.antt =====
-- The vectors that the rounds build hold party i's value at position i - 1.
use native.Mathlib.Nat.{add-zero, zero-add}
use vdexnode.Common.{
  ℕ, zero, suc, ◌+◌, ◌≤◌, ◌<◌, ◌≡◌, refl, sym, ◌∙◌, ap, ◌≢◌, String, false, Option, some, none,
  List, [], ◌∷◌, map, arith, ◌==◌, length, get_elem?, Bool-cases, inl, inr, ◌⊎◌, ==_iff, length-map,
}
use vdexnode.Common.Outcome.{Outcome, ok, panic, ◌>>=◌, unwrap}
use vdexnode.Mpt.Parties.{indices, others, length-others}
use vdexnode.Mpt.Rounds.Laws.{get_elem?-map, shift_index}
use vdexnode.Mpt.Vectors.{merge_from, format_vec_from_reads}

eqb_false : (i me : ℕ) → (i == me) ≡ false → i ≢ me
eqb_false i me e q = absurd (omega (arith, bad i me e q))
  where
    bad : (i me : ℕ) → (i == me) ≡ false → i ≡ me → ⊥
    bad i me e q = ground arith

not_me : (me i n : ℕ) → (me < i) ⊎ (i + suc n ≤ me) → (i == me) ≡ false
not_me me i n (inl h) = ground arith
not_me me i n (inr h) = ground arith

later : (me i n : ℕ) → (me < i) ⊎ (i + suc (suc n) ≤ me) → (me < i + 1) ⊎ (i + 1 + suc n ≤ me)
later me i n (inl h) = inl (omega arith)
later me i n (inr h) = inr (omega arith)

get_elem?-none : {A : Type 0} (xs : List A) (k : ℕ) → length xs ≤ k → get_elem? xs k ≡ none
get_elem?-none [] k h = refl
get_elem?-none (x ∷ xs) zero h = absurd (omega arith)
get_elem?-none (x ∷ xs) (suc k) h = get_elem?-none xs k (omega arith)

module _ {A : Type 0} (from_str : String → Option A) where
  merge_values :
      (v : ℕ → A) (text : ℕ → String) (ans : List String) (me n i j : ℕ)
      → ((k : ℕ) → from_str (text k) ≡ some (v k))
      → ((k x : ℕ) → get_elem? (others me i n) k ≡ some x → get_elem? ans (j + k) ≡ some (text x))
      → merge_from from_str n i j ans me (v me) ≡ ok (map v (indices i n))
  unfolding merge_from others indices
  merge_values v text ans me zero i j h at = refl
  merge_values v text ans me (suc n) i j h at = elim (Bool-cases (i == me)) [
    | inl e ↦ rw (
      e,
      merge_values v text ans me n (i + 1) j h (λ k x p. at k x (rw e p)),
      ap v ((==_iff i me).0 e),
    )
    | inr e ↦
        let first : get_elem? ans j ≡ some (text i) =
          ap (get_elem? ans) (sym (add-zero j)) ∙ at 0 i (rw e) in
        rw (
          e,
          first,
          h i,
          merge_values v text ans me n (i + 1) (j + 1) h
              (λ k x p. rw (shift_index j k) (at (suc k) x (rw e p))),
        )
  ]

  pub merge_from-values :
      (v : ℕ → A) (text : ℕ → String) (me n : ℕ)
      → ((k : ℕ) → from_str (text k) ≡ some (v k))
      → merge_from from_str n 1 0 (map text (others me 1 n)) me (v me) ≡ ok (map v (indices 1 n))
  merge_from-values v text me n h =
      merge_values v text (map text (others me 1 n)) me n 1 0 h
        (λ k x p. rw zero-add (get_elem?-map text (others me 1 n) k x p))

  -- If the answers are, in order, the texts of the other parties' values, and each text reads back
  -- as its value, then the vector holds the value of party i at position i - 1 for all `n` parties,
  -- this party's own included.
  pub format_vec_from_reads_values :
      (v : ℕ → A) (text : ℕ → String) (me n : ℕ)
      → ((k : ℕ) → from_str (text k) ≡ some (v k))
      → 1 ≤ me
      → me < 1 + n
      → format_vec_from_reads from_str (map text (others me 1 n)) me (v me)
        ≡ ok (map v (indices 1 n))
  unfolding format_vec_from_reads
  format_vec_from_reads_values v text me n h lo hi =
      rw (length-map text (others me 1 n), length-others me 1 n lo hi)
        (merge_values v text (map text (others me 1 n)) me n 1 0 h
          (λ k x p. rw zero-add (get_elem?-map text (others me 1 n) k x p)))

  -- A round without an answer, or before rounds that panic, panics.
  round_panics :
      (o : Option String) (rest : Outcome ⊥ (List A))
      → (o ≡ none) ⊎ (rest ≡ panic)
      → (do text ← unwrap o; value_j ← unwrap (from_str text); xs ← rest; ok (value_j ∷ xs)) ≡ panic
  round_panics none rest h = refl
  round_panics (some text) rest (inl e) = cc
  round_panics (some text) rest (inr e) = rw e (read (from_str text))
    where
      read : (q : Option A) → (do value_j ← unwrap {E = ⊥} q; xs ← panic; ok (value_j ∷ xs)) ≡ panic
      read none = refl
      read (some a) = refl

  merge_outside :
      (ans : List String) (me : ℕ) (value : A) (n i j : ℕ)
      → (me < i) ⊎ (i + suc n ≤ me)
      → length ans < j + suc n
      → merge_from from_str (suc n) i j ans me value ≡ panic
  unfolding merge_from
  merge_outside ans me value zero i j out big =
      rw (not_me me i zero out)
        (round_panics (get_elem? ans j) (ok []) (inl (get_elem?-none ans j (omega arith))))
  merge_outside ans me value (suc n) i j out big = rw (not_me me i (suc n) out) (
      round_panics (get_elem? ans j) (merge_from from_str (suc n) (i + 1) (j + 1) ans me value)
        (inr (merge_outside ans me value n (i + 1) (j + 1) (later me i n out) (omega arith))))

  -- A party number that is 0, or above the number of parties, panics, whatever the answers are.
  pub format_vec_from_reads_panics :
      (ans : List String) (me : ℕ) (value : A)
      → (me ≡ 0) ⊎ (suc (length ans) < me)
      → format_vec_from_reads from_str ans me value ≡ panic
  unfolding format_vec_from_reads
  format_vec_from_reads_panics ans me value out =
      merge_outside ans me value (length ans) 1 0 (range me (length ans) out) (omega arith)
    where
      range : (me n : ℕ) → (me ≡ 0) ⊎ (suc n < me) → (me < 1) ⊎ (1 + suc n ≤ me)
      range me n (inl e) = inl (omega arith)
      range me n (inr h) = inr (omega arith)
