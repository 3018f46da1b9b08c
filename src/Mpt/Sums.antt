-- ===== src/Mpt/Sums.antt =====
-- Sums over lists in a commutative monoid: the scalars under addition, and the points.
use vdexnode.Common.Outcome.{ok}
use vdexnode.Common.{length, ◌<◌, ◌≡◌, refl, sym, ◌∙◌, ap, List, [], ◌∷◌, map}
use vdexnode.Mpt.Rounds.{fold, fold_head}

pub record IsMonoid {A : Type 0} (op : A → A → A) (unit : A) : Type 0 where
  pub assoc : (a b d : A) → op (op a b) d ≡ op a (op b d)
  pub comm : (a b : A) → op a b ≡ op b a
  pub unit-op : (a : A) → op unit a ≡ a

module _ {A : Type 0} (op : A → A → A) (unit : A) where
  abbrev pub total : {I : Type 0} → (I → A) → List I → A
  total f [] = unit
  total f (x ∷ xs) = op (f x) (total f xs)

module _ {A : Type 0} {op : A → A → A} {unit : A} (m : IsMonoid op unit) where
  pub op-unit : (a : A) → op a unit ≡ a
  op-unit a = m.comm a unit ∙ m.unit-op a

  pub interchange : (a b d e : A) → op (op a b) (op d e) ≡ op (op a d) (op b e)
  interchange a b d e =
      m.assoc a b (op d e)
      ∙ ap (op a) (sym (m.assoc b d e) ∙ ap (λ (x : A). op x e) (m.comm b d) ∙ m.assoc d b e)
      ∙ sym (m.assoc a d (op b e))

  -- The left fold of the code is the sum, added to where it starts.
  pub fold-total :
      {I : Type 0} (f : I → A) (acc : A) (xs : List I)
      → fold (λ a x. op a (f x)) acc xs ≡ op acc (total op unit f xs)
  unfolding fold
  fold-total f acc [] = sym (op-unit acc)
  fold-total f acc (x ∷ xs) = fold-total f (op acc (f x)) xs ∙ m.assoc acc (f x) _

  pub total-op :
      {I : Type 0} (f g : I → A) (xs : List I)
      → total op unit (λ i. op (f i) (g i)) xs ≡ op (total op unit f xs) (total op unit g xs)
  total-op f g [] = sym (m.unit-op unit)
  total-op f g (x ∷ xs) = ap (op (op (f x) (g x))) (total-op f g xs) ∙ interchange (f x) (g x) _ _

  pub total-unit : {I : Type 0} (xs : List I) → total op unit (λ (_ : I). unit) xs ≡ unit
  total-unit [] = refl
  total-unit (x ∷ xs) = m.unit-op _ ∙ total-unit xs

  pub total_comm :
      {I J : Type 0} (f : I → J → A) (xs : List I) (ys : List J)
      → total op unit (λ i. total op unit (f i) ys) xs
        ≡ total op unit (λ j. total op unit (λ i. f i j) xs) ys
  total_comm f [] ys = sym (total-unit ys)
  total_comm f (x ∷ xs) ys =
      ap (op (total op unit (f x) ys)) (total_comm f xs ys)
      ∙ sym (total-op (f x) (λ j. total op unit (λ i. f i j) xs) ys)

module _ {A : Type 0} (op : A → A → A) (unit : A) where
  pub total-map :
      {I J : Type 0} (f : J → A) (g : I → J) (xs : List I)
      → total op unit f (map g xs) ≡ total op unit (λ i. f (g i)) xs
  total-map f g [] = refl
  total-map f g (x ∷ xs) = ap (op (f (g x))) (total-map f g xs)

  pub total_congr :
      {I : Type 0} (f g : I → A)
      → ((i : I) → f i ≡ g i)
      → (xs : List I) → total op unit f xs ≡ total op unit g xs
  total_congr f g h [] = refl
  total_congr f g h (x ∷ xs) = rw (h x) (ap (op (g x)) (total_congr f g h xs))

-- A map that respects the operations carries sums to sums.
pub map-total :
    {A B I : Type 0} (op : A → A → A) (unit : A) (op' : B → B → B) (unit' : B) (h : A → B)
    → h unit ≡ unit'
    → ((a b : A) → h (op a b) ≡ op' (h a) (h b))
    → (f : I → A) (xs : List I) → h (total op unit f xs) ≡ total op' unit' (λ i. h (f i)) xs
map-total op unit op' unit' h hu hop f [] = hu
map-total op unit op' unit' h hu hop f (x ∷ xs) =
    hop (f x) (total op unit f xs) ∙ ap (op' (h (f x))) (map-total op unit op' unit' h hu hop f xs)

pub fold_head-total :
    {E A J : Type 0} {op : A → A → A} {unit : A} (m : IsMonoid op unit) (g : J → A) (js : List J)
    → 0 < length js
    → fold_head {E = E} op (map g js) ≡ ok (total op unit g js)
unfolding fold_head
fold_head-total m g [] h = elim h [ ]
fold_head-total {op = op} {unit = unit} m g (j ∷ js) h =
    ap ok (fold-total m (λ x. x) (g j) (map g js) ∙ ap (op (g j)) (total-map op unit (λ x. x) g js))
