-- ===== src/Mpt/Algebra.antt =====
-- Consequences of the laws of the scalars and of the points.
use vdexnode.Common.{◌≡◌, refl, sym, ◌∙◌, ap, ◌≢◌, true, List}
use vdexnode.Mpt.Crypto.{Crypto}
use vdexnode.Mpt.Crypto.Laws.{IsField, IsModule}
use vdexnode.Mpt.Sums.{IsMonoid, total, map-total}

module _ (c : Crypto) (f : IsField c) where
  open c use {FE, zero_fe, ◌⊕◌, ◌⊖◌, ◌⊗◌, invert}

  infixl 65 ◌⊕◌ ◌⊖◌
  infixl 70 ◌⊗◌
  pub scalars : IsMonoid ◌⊕◌ zero_fe
  scalars = record { assoc = f.add_assoc; comm = f.add_comm; unit-op = f.zero-add }

  pub sum_fe : {I : Type 0} → (I → FE) → List I → FE
  sum_fe = total ◌⊕◌ zero_fe

  pub zero-mul : (a : FE) → zero_fe ⊗ a ≡ zero_fe
  zero-mul a = f.mul_comm zero_fe a ∙ f.mul-zero a

  pub add-mul : (a b d : FE) → (a ⊕ b) ⊗ d ≡ (a ⊗ d) ⊕ (b ⊗ d)
  add-mul a b d = rw (f.mul_comm (a ⊕ b) d, f.mul_comm a d, f.mul_comm b d) (f.mul-add d a b)

  pub mul-one : (a : FE) → a ⊗ f.one ≡ a
  mul-one a = f.mul_comm a f.one ∙ f.one-mul a

  pub mul-invert : (a : FE) → a ≢ zero_fe → a ⊗ invert a ≡ f.one
  mul-invert a h = f.mul_comm a (invert a) ∙ f.invert-mul a h

  pub mul_left_comm : (a b d : FE) → a ⊗ (b ⊗ d) ≡ b ⊗ (a ⊗ d)
  mul_left_comm a b d =
      sym (f.mul_assoc a b d) ∙ ap (λ (x : FE). x ⊗ d) (f.mul_comm a b) ∙ f.mul_assoc b a d

  -- A minuend comes back: what was taken from zero cancels what is added.
  pub add-neg : (a b : FE) → (a ⊕ b) ⊕ (zero_fe ⊖ b) ≡ a
  add-neg a b =
      f.add_assoc a b _
      ∙ ap (λ (x : FE). a ⊕ x) (f.add_comm b _ ∙ f.sub-add zero_fe b)
      ∙ f.add_comm a zero_fe
      ∙ f.zero-add a

  pub mul-sum :
      {I : Type 0} (a : FE) (g : I → FE) (xs : List I)
      → a ⊗ total ◌⊕◌ zero_fe g xs ≡ total ◌⊕◌ zero_fe (λ i. a ⊗ g i) xs
  mul-sum a g xs = map-total ◌⊕◌ zero_fe ◌⊕◌ zero_fe (λ x. a ⊗ x) (f.mul-zero a) (f.mul-add a) g xs

  pub sum-mul :
      {I : Type 0} (g : I → FE) (xs : List I) (a : FE)
      → total ◌⊕◌ zero_fe g xs ⊗ a ≡ total ◌⊕◌ zero_fe (λ i. g i ⊗ a) xs
  sum-mul g xs a =
      map-total ◌⊕◌ zero_fe ◌⊕◌ zero_fe (λ x. x ⊗ a) (zero-mul a) (λ x y. add-mul x y a) g xs

  -- A factor of a product that is not zero is not zero.
  pub mul-ne-zero_left : (a b : FE) → a ⊗ b ≢ zero_fe → a ≢ zero_fe
  mul-ne-zero_left a b h e = h (ap (λ (x : FE). x ⊗ b) e ∙ zero-mul b)

  pub mul-ne-zero_right : (a b : FE) → a ⊗ b ≢ zero_fe → b ≢ zero_fe
  mul-ne-zero_right a b h e = h (ap (λ (x : FE). a ⊗ x) e ∙ f.mul-zero a)

  pub fe_eq_refl : (a : FE) → c.fe_eq a a ≡ true
  fe_eq_refl a = (f.fe_eq_iff a a).1 refl

module _ (c : Crypto) {f : IsField c} (m : IsModule c f) where
  open c use {FE, zero_fe, ◌⊕◌, ◌⊗◌, invert, GE, ◌⊞◌, ◌⊟◌, ◌⊛◌}

  infixl 65 ◌⊕◌ ◌⊞◌ ◌⊟◌
  infixl 70 ◌⊗◌ ◌⊛◌
  pub points : IsMonoid ◌⊞◌ m.infinity
  points = record { assoc = m.add_assoc; comm = m.add_comm; unit-op = m.infinity-add }

  -- A multiple by a scalar that is not zero is undone by its inverse.
  pub scale-invert : (p : GE) (a : FE) → a ≢ zero_fe → (p ⊛ a) ⊛ invert a ≡ p
  scale-invert p a h =
      m.scale_assoc p a (invert a) ∙ ap (λ (x : FE). p ⊛ x) (mul-invert c f a h) ∙ m.scale-one p

  pub infinity-scale : (a : FE) → m.infinity ⊛ a ≡ m.infinity
  infinity-scale a =
      ap (λ (p : GE). p ⊛ a) (sym (m.scale-zero m.infinity))
      ∙ m.scale_assoc m.infinity zero_fe a
      ∙ ap (λ (x : FE). m.infinity ⊛ x) (zero-mul c f a)
      ∙ m.scale-zero m.infinity

  pub scale-sum :
      {I : Type 0} (p : GE) (g : I → FE) (xs : List I)
      → p ⊛ total ◌⊕◌ zero_fe g xs ≡ total ◌⊞◌ m.infinity (λ i. p ⊛ g i) xs
  scale-sum p g xs =
      map-total ◌⊕◌ zero_fe ◌⊞◌ m.infinity (λ x. p ⊛ x) (m.scale-zero p) (m.scale-add p) g xs

  pub sum-scale :
      {I : Type 0} (g : I → GE) (xs : List I) (a : FE)
      → total ◌⊞◌ m.infinity g xs ⊛ a ≡ total ◌⊞◌ m.infinity (λ i. g i ⊛ a) xs
  sum-scale g xs a =
      map-total ◌⊞◌ m.infinity ◌⊞◌ m.infinity (λ p. p ⊛ a) (infinity-scale a)
        (λ p q. m.add-scale p q a) g xs

  -- Taking away the second term, the first one, or both.
  pub add-sub_left : (p q : GE) → (p ⊞ q) ⊟ p ≡ q
  add-sub_left p q = ap (λ (x : GE). x ⊟ p) (m.add_comm p q) ∙ m.add-sub q p

  pub ge_eq_refl : (p : GE) → c.ge_eq p p ≡ true
  ge_eq_refl p = (m.ge_eq_iff p p).1 refl
