-- ===== src/Mpt/Rounds/Laws.antt =====
-- The loops of Rounds, by what holds at each index.
use native.Mathlib.Nat.{add-zero}
use vdexnode.Common.{
  length-map, ℕ, zero, suc, ◌+◌, ◌<◌, ◌≡◌, refl, Bool, true, false, List, [], ◌∷◌, arith, length,
  get_elem?, some, map,
}
use vdexnode.Common.Outcome.{◌>>=◌, index, Outcome, ok}
use vdexnode.Mpt.Rounds.{all_from, collect_from, fold_head}

pub shift_index : (i k : ℕ) → (i + 1) + k ≡ i + suc k
shift_index i k = omega arith

module _ {E : Type 0} where
  pub all_from-true :
      (i n : ℕ) (test : ℕ → Outcome E Bool)
      → ((k : ℕ) → k < n → test (i + k) ≡ ok true)
      → all_from i n test ≡ ok true
  unfolding all_from
  all_from-true i zero test h = refl
  all_from-true i (suc n) test h =
      let e : test i ≡ ok true = rw add-zero at (h 0 (omega arith)) in
      rw e (all_from-true (i + 1) n test (λ k lt. rw (shift_index i k) (h (suc k) (omega arith))))

  pub all_from_sound :
      (i n : ℕ) (test : ℕ → Outcome E Bool)
      → all_from i n test ≡ ok true
      → (k : ℕ) → k < n
      → test (i + k) ≡ ok true
  unfolding all_from
  all_from_sound i zero test h k lt = elim lt [ ]
  all_from_sound i (suc n) test h zero lt = rw add-zero (ground arith)
  all_from_sound i (suc n) test h (suc k) lt =
      rw (← shift_index i k) (all_from_sound (i + 1) n test (ground arith) k (omega arith))

  -- Where every index has an answer, the check has one.
  pub all_from_answer :
      (i n : ℕ) (test : ℕ → Outcome E Bool)
      → ((k : ℕ) → k < n → (b : Bool) × (test (i + k) ≡ ok b))
      → (b : Bool) × (all_from i n test ≡ ok b)
  unfolding all_from
  all_from_answer i zero test h = (true, refl)
  all_from_answer i (suc n) test h =
      go (h 0 (omega arith))
        (all_from_answer (i + 1) n test (λ k lt. rw (shift_index i k) (h (suc k) (omega arith))))
    where
      go :
          (b : Bool) × (test (i + 0) ≡ ok b)
          → (b : Bool) × (all_from (i + 1) n test ≡ ok b)
          → (b : Bool) × (all_from i (suc n) test ≡ ok b)
      go (true, e) (b, r) = (b, rw (let e' : test i ≡ ok true = rw add-zero at e in e') r)
      go (false, e) (b, r) = (false, rw (let e' : test i ≡ ok false = rw add-zero at e in e'))

module _ {E A B : Type 0} where
  -- Where position k of `xs` decides the k-th value, the loop collects the image of `xs`.
  pub collect_from-map :
      (i : ℕ) (f : ℕ → Outcome E B) (g : A → B) (xs : List A)
      → ((k : ℕ) (x : A) → get_elem? xs k ≡ some x → f (i + k) ≡ ok (g x))
      → collect_from i (length xs) f ≡ ok (map g xs)
  unfolding collect_from
  collect_from-map i f g [] h = refl
  collect_from-map i f g (x ∷ xs) h =
      let e : f i ≡ ok (g x) = rw add-zero at (h 0 x refl) in
      rw (e, collect_from-map (i + 1) f g xs (λ k y p. rw (shift_index i k) (h (suc k) y p)))

module _ {A B : Type 0} where
  pub get_elem?-map :
      (g : A → B) (xs : List A) (k : ℕ) (x : A)
      → get_elem? xs k ≡ some x
      → get_elem? (map g xs) k ≡ some (g x)
  get_elem?-map g [] k x h = ground arith
  get_elem?-map g (y ∷ xs) zero x h = ground arith
  get_elem?-map g (y ∷ xs) (suc k) x h = get_elem?-map g xs k x h

-- Two lists whose values agree position by position.
pub map-agree :
    {A B C : Type 0} (g : A → C) (h : B → C) (xs : List A) (ys : List B)
    → length xs ≡ length ys
    → ((k : ℕ) (x : A) (y : B) → get_elem? xs k ≡ some x → get_elem? ys k ≡ some y → g x ≡ h y)
    → map g xs ≡ map h ys
map-agree g h [] [] same agree = refl
map-agree g h [] (y ∷ ys) same agree = absurd (omega arith)
map-agree g h (x ∷ xs) [] same agree = absurd (omega arith)
map-agree g h (x ∷ xs) (y ∷ ys) same agree =
    rw
      (
        agree 0 x y refl refl,
        map-agree g h xs ys (omega arith) (λ k a b p q. agree (suc k) a b p q),
      )
      refl

module _ {A : Type 0} where
  pub get_elem?_of_lt : (xs : List A) (k : ℕ) → k < length xs → (x : A) × (get_elem? xs k ≡ some x)
  get_elem?_of_lt [] k h = elim h [ ]
  get_elem?_of_lt (x ∷ xs) zero h = (x, refl)
  get_elem?_of_lt (x ∷ xs) (suc k) h = get_elem?_of_lt xs k (omega arith)

module _ {A : Type 0} where
  pub lt_of_get_elem? : (xs : List A) (k : ℕ) (x : A) → get_elem? xs k ≡ some x → k < length xs
  lt_of_get_elem? [] k x h = ground arith
  lt_of_get_elem? (y ∷ xs) zero x h = omega arith
  lt_of_get_elem? (y ∷ xs) (suc k) x h = omega (arith, lt_of_get_elem? xs k x h)

-- A loop that reads one field of each element of a list.
pub collect-field :
    {E J A B : Type 0} (g : J → B) (p : B → A) (js : List J)
    → collect_from {E = E} 0 (length js) (λ i. do d ← index (map g js) i; ok (p d))
      ≡ ok (map (λ j. p (g j)) js)
collect-field g p js =
    collect_from-map 0 _ (λ j. p (g j)) js
      (λ k j h. rw (zero_add k) (rw (get_elem?-map g js k j h)))
  where
    zero_add : (k : ℕ) → 0 + k ≡ k
    zero_add k = omega arith

-- The check of an index of lists that are images of one list.
pub all_from-map :
    {E J B : Type 0} (g : J → B) (js : List J) (test : ℕ → Outcome E Bool)
    → ((k : ℕ) (j : J) → get_elem? js k ≡ some j → test k ≡ ok true)
    → all_from 0 (length (map g js)) test ≡ ok true
all_from-map g js test h = all_from-true 0 (length (map g js)) test (λ k lt.
    rw (zero_add k) (let (j, e) = get_elem?_of_lt js k (rw (length-map g js) at lt) in h k j e))
  where
    zero_add : (k : ℕ) → 0 + k ≡ k
    zero_add k = omega arith

-- A sum that has a value has it whatever the errors are.
pub fold_head-ok :
    {E F A : Type 0} (add : A → A → A) (xs : List A) (y : A)
    → fold_head {E = E} add xs ≡ ok y
    → (fold_head {E = F} add xs ≡ ok y) × (0 < length xs)
unfolding fold_head
fold_head-ok add [] y h = absurd cc
fold_head-ok add (x ∷ xs) y h = (cc, omega arith)
