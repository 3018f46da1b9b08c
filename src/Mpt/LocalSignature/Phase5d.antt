-- ===== src/Mpt/LocalSignature/Phase5d.antt =====
-- Phase 5D: the openings of all signers cancel, and every signer releases its share.
use vdexnode.Common.{
  ℕ, zero, suc, ◌+◌, ◌%◌, ◌≤◌, ◌<◌, ◌≡◌, refl, sym, ◌∙◌, ap, true, List, [], ◌∷◌, map, arith,
  length, ==_refl, length-map, some,
}
use mathlib.Core.Path.{fun_ext}
use vdexnode.Common.Outcome.{Outcome, ok}
use vdexnode.Mpt.Crypto.{Crypto}
use vdexnode.Mpt.Crypto.Laws.{IsField, IsModule, IsComplete}
use vdexnode.Mpt.Algebra.{points, scale-sum, ge_eq_refl}
use vdexnode.Mpt.Messages.{
  Error, LocalSignature, Phase5Com1, Phase5ADecom1, Phase5Com2, Phase5DDecom2,
}
use vdexnode.Mpt.Parties.{indices, others, total-others}
use vdexnode.Mpt.Parties.Pairs.{sum_all, total-indices_congr}
use vdexnode.Mpt.Rounds.{fold, all_from}
use vdexnode.Mpt.Rounds.Laws.{collect-field, all_from-map, get_elem?-map}
use vdexnode.Mpt.LocalSignature.{com2_opens, fold_zip, phase5c, phase5d}
use vdexnode.Mpt.LocalSignature.Phase5c
use vdexnode.Mpt.LocalSignature.Phase5c.{Agrees}
use vdexnode.Mpt.Sums.{total, op-unit}

-- Two functions that agree on the range have one image of it.
map-indices_congr :
    {A : Type 0} (g h : ℕ → A) (i n : ℕ)
    → ((j : ℕ) → i ≤ j → j < i + n → g j ≡ h j)
    → map g (indices i n) ≡ map h (indices i n)
unfolding indices
map-indices_congr g h i zero e = refl
map-indices_congr g h i (suc n) e = rw (e i (omega arith) (omega arith)) (
    ap (λ (xs : List _). h i ∷ xs)
      (map-indices_congr g h (i + 1) n (λ j lo hi. e j (omega arith) (omega arith))))

module _ (c : Crypto) {f : IsField c} (m : IsModule c f) where
  open c use {FE, GE, ◌⊗◌, generator, ◌⊞◌, ◌⊟◌, ◌⊛◌}

  infixl 65 ◌⊞◌ ◌⊟◌
  infixl 70 ◌⊗◌ ◌⊛◌
  -- The fold over the zipped lists adds all terms of both.
  fold_zip-total :
      (acc : GE) (t b : ℕ → GE) (js : List ℕ)
      → fold_zip c acc (map t js) (map b js) ≡ acc ⊞ total ◌⊞◌ m.infinity (λ j. t j ⊞ b j) js
  unfolding fold_zip
  fold_zip-total acc t b [] = sym (op-unit (points c m) acc)
  fold_zip-total acc t b (j ∷ js) =
      fold_zip-total ((acc ⊞ t j) ⊞ b j) t b js
      ∙ ap (λ (p : GE). p ⊞ total ◌⊞◌ m.infinity (λ j. t j ⊞ b j) js) (m.add_assoc acc (t j) (b j))
      ∙ m.add_assoc acc (t j ⊞ b j) _

  -- The fold that subtracts undoes the sum.
  fold_sub-total :
      (p : GE) (u : ℕ → GE) (js : List ℕ) → fold ◌⊟◌ (p ⊞ total ◌⊞◌ m.infinity u js) (map u js) ≡ p
  unfolding fold
  fold_sub-total p u [] = op-unit (points c m) p
  fold_sub-total p u (j ∷ js) =
      ap (λ (q : GE). fold ◌⊟◌ q (map u js))
        (ap (λ (q : GE). (p ⊞ q) ⊟ u j) (m.add_comm (u j) (total ◌⊞◌ m.infinity u js))
          ∙ ap (λ (q : GE). q ⊟ u j) (sym (m.add_assoc p (total ◌⊞◌ m.infinity u js) (u j)))
          ∙ m.add-sub _ (u j))
      ∙ fold_sub-total p u js

module _ (c : Crypto) {f : IsField c} (m : IsModule c f) (complete : IsComplete c)
    (n message xr : ℕ) (r_point y : c.GE) (sig : ℕ → LocalSignature c)
    (agrees : Agrees c r_point y message sig) (blind : ℕ → ℕ) (seed : ℕ → c.Seed) where
  open c use {
    FE, GE, of_bigint, to_bigint, order, ◌⊕◌, ◌⊗◌, generator, ◌⊞◌, ◌⊟◌, ◌⊛◌, x_coor, zero_fe,
    HomoElGamalProof, verify_elgamal, create_commitment, create_hash_from_ge,
  }

  infixl 65 ◌⊕◌ ◌⊞◌ ◌⊟◌
  infixl 70 ◌⊗◌ ◌⊛◌
  abbrev com1 : ℕ → Phase5Com1
  com1 = Phase5c.com1 c m complete n message xr r_point y sig agrees blind seed

  abbrev decom1 : ℕ → Phase5ADecom1 c
  decom1 = Phase5c.decom1 c m complete n message xr r_point y sig agrees blind seed

  abbrev proof1 : ℕ → HomoElGamalProof
  proof1 = Phase5c.proof1 c m complete n message xr r_point y sig agrees blind seed

  abbrev opened : (ℕ → ℕ) → ℕ → Phase5DDecom2 c
  opened = Phase5c.decom2 c m complete n message xr r_point y sig agrees blind seed

  abbrev committed : (ℕ → ℕ) → ℕ → Phase5Com2
  committed = Phase5c.com2 c m complete n message xr r_point y sig agrees blind seed

  abbrev l_sum : FE
  l_sum = sum_all c f n (λ j. (sig j).l_i)

  abbrev rho_sum : FE
  rho_sum = sum_all c f n (λ j. (sig j).rho_i)

  a_total : total ◌⊞◌ m.infinity (λ j. (decom1 j).a_i) (indices 1 n) ≡ generator ⊛ rho_sum
  a_total =
      ap (λ (g : ℕ → GE). total ◌⊞◌ m.infinity g (indices 1 n))
        (fun_ext (Phase5c.a_i_lem c m complete n message xr r_point y sig agrees blind seed))
      ∙ sym (scale-sum c m generator (λ j. (sig j).rho_i) (indices 1 n))

  -- A signer's `t_i` and `b_i` are together the sum of all `a_i`, times its `l_i`.
  t_and_b :
      (blind2 : ℕ → ℕ) (i : ℕ)
      → 1 ≤ i
      → i < 1 + n
      → (opened blind2 i).t_i ⊞ (decom1 i).b_i ≡ (generator ⊛ rho_sum) ⊛ (sig i).l_i
  t_and_b blind2 i lo hi =
      ap (λ (p : GE). (opened blind2 i).t_i ⊞ p)
        (Phase5c.b_i_lem c m complete n message xr r_point y sig agrees blind seed i)
      ∙ sym (m.add-scale _ _ (sig i).l_i)
      ∙ ap (λ (p : GE). p ⊛ (sig i).l_i)
          (m.add_comm _ _
            ∙ sym (total-others (points c m) (λ j. (decom1 j).a_i) i 1 n lo hi)
            ∙ a_total)

  -- The two ways to compute the product of the masks agree.
  masks_cancel :
      (blind2 : ℕ → ℕ)
      → total ◌⊞◌ m.infinity (λ i. (opened blind2 i).t_i ⊞ (decom1 i).b_i) (indices 1 n)
        ≡ total ◌⊞◌ m.infinity (λ i. (opened blind2 i).u_i) (indices 1 n)
  masks_cancel blind2 =
      total-indices_congr ◌⊞◌ m.infinity _ (λ i. (generator ⊛ rho_sum) ⊛ (sig i).l_i) 1 n
        (t_and_b blind2)
      ∙ sym (scale-sum c m (generator ⊛ rho_sum) (λ i. (sig i).l_i) (indices 1 n))
      ∙ m.scale_assoc generator rho_sum l_sum
      ∙ ap (λ (x : FE). generator ⊛ x) (f.mul_comm rho_sum l_sum)
      ∙ sym (m.scale_assoc generator l_sum rho_sum)
      ∙ scale-sum c m (generator ⊛ l_sum) (λ i. (sig i).rho_i) (indices 1 n)

  com2_test :
      (blind2 : ℕ → ℕ) (js : List ℕ)
      → all_from 0
          (length (map (committed blind2) js))
          (com2_opens c (map (opened blind2) js) (map (committed blind2) js))
        ≡ ok true
  unfolding com2_opens
  com2_test blind2 js = all_from-map (committed blind2) js _ (λ k j h.
      rw (get_elem?-map (opened blind2) js k j h, get_elem?-map (committed blind2) js k j h)
        (ap ok (==_refl _)))

  biased_sum :
      (blind2 : ℕ → ℕ)
      → fold ◌⊟◌
          (fold_zip c generator
            (map (λ i. (opened blind2 i).t_i) (indices 1 n))
            (map (λ i. (decom1 i).b_i) (indices 1 n)))
          (map (λ i. (opened blind2 i).u_i) (indices 1 n))
        ≡ generator
  biased_sum blind2 =
      ap (λ (p : GE). fold ◌⊟◌ p (map (λ i. (opened blind2 i).u_i) (indices 1 n)))
        (fold_zip-total c m generator (λ i. (opened blind2 i).t_i) (λ i. (decom1 i).b_i)
            (indices 1 n)
          ∙ ap (λ (p : GE). generator ⊞ p) (masks_cancel blind2))
      ∙ fold_sub-total c m generator (λ i. (opened blind2 i).u_i) (indices 1 n)

  phase5d-opened :
      (blind2 : ℕ → ℕ) (me : ℕ)
      → phase5d c
          (sig me)
          (map (opened blind2) (indices 1 n))
          (map (committed blind2) (indices 1 n))
          (map decom1 (indices 1 n))
        ≡ ok (sig me).s_i
  unfolding phase5d
  phase5d-opened blind2 me = rw (
    com2_test blind2 (indices 1 n),
    length-map (opened blind2) (indices 1 n),
    length-map (committed blind2) (indices 1 n),
    length-map decom1 (indices 1 n),
    ==_refl (length (indices 1 n)),
    collect-field {E = Error} (opened blind2) (λ (d : Phase5DDecom2 c). d.t_i) (indices 1 n),
    collect-field {E = Error} (opened blind2) (λ (d : Phase5DDecom2 c). d.u_i) (indices 1 n),
    collect-field {E = Error} decom1 (λ (d : Phase5ADecom1 c). d.b_i) (indices 1 n),
    biased_sum blind2,
    ge_eq_refl c m generator,
  )

  -- The shares balance, R * s = G * m + y * r, and `com2` and `decom2` are what the signers' calls of
  -- `phase5c` returned. Then each signer's call of `phase5d` on all of them releases its `s_i`.
  pub phase5d_complete :
      (blind2 : ℕ → ℕ) (com2 : ℕ → Phase5Com2) (decom2 : ℕ → Phase5DDecom2 c) (me : ℕ)
      → x_coor r_point ≡ some xr
      → r_point ⊛ sum_all c f n (λ j. (sig j).s_i)
        ≡ (generator ⊛ of_bigint message) ⊞ (y ⊛ of_bigint (xr % order))
      → 2 ≤ n
      → ((i : ℕ)
          → 1 ≤ i
          → i < 1 + n
          → phase5c c
              (sig i)
              (map decom1 (others i 1 n))
              (map com1 (others i 1 n))
              (map proof1 (others i 1 n))
              (decom1 i).v_i
              r_point
              (blind2 i)
            ≡ ok (com2 i, decom2 i))
      → phase5d c
          (sig me)
          (map decom2 (indices 1 n))
          (map com2 (indices 1 n))
          (map decom1 (indices 1 n))
        ≡ ok (sig me).s_i
  phase5d_complete blind2 com2 decom2 me hx balance two h =
      rw
        (
          map-indices_congr decom2 (opened blind2) 1 n (λ i lo hi. (same i lo hi).1),
          map-indices_congr com2 (committed blind2) 1 n (λ i lo hi. (same i lo hi).0),
        )
        (phase5d-opened blind2 me)
    where
      split :
          (a a' : Phase5Com2) (b b' : Phase5DDecom2 c)
          → ◌≡◌ {A = Outcome Error (Phase5Com2 × Phase5DDecom2 c)} (ok (a, b)) (ok (a', b'))
          → (a' ≡ a) × (b' ≡ b)
      split a a' b b' e = ground arith

      same :
          (i : ℕ) → 1 ≤ i → i < 1 + n → (com2 i ≡ committed blind2 i) × (decom2 i ≡ opened blind2 i)
      same i lo hi = split (committed blind2 i) (com2 i) (opened blind2 i) (decom2 i) (
          sym (
            Phase5c.phase5c_value c m complete n message xr r_point y sig agrees blind seed hx
              balance i lo hi blind2 two)
          ∙ h i lo hi)
