-- ===== src/Mpt/LocalSignature/Phase5c.antt =====
-- Phases 5A to 5C between signers whose local signatures share the message and the nonce point.
use vdexnode.Common.{
  ℕ, ◌+◌, ◌%◌, ◌≤◌, ◌<◌, ◌≡◌, refl, sym, ◌∙◌, ap, true, List, [], ◌∷◌, map, arith, length, ◌==◌,
  ==_refl, length-map, some,
}
use mathlib.Core.Path.{fun_ext}
use vdexnode.Common.Outcome.{ok}
use vdexnode.Mpt.Crypto.{Crypto}
use vdexnode.Mpt.Crypto.Laws.{IsField, IsModule, IsComplete}
use vdexnode.Mpt.Algebra.{points, scale-sum}
use vdexnode.Mpt.Messages.{
  Error, LocalSignature, Phase5Com1, Phase5ADecom1, Phase5Com2, Phase5DDecom2,
}
use vdexnode.Mpt.Parties.{indices, others, total-others, length-others}
use vdexnode.Mpt.Parties.Pairs.{sum_all}
use vdexnode.Mpt.Rounds.{fold, all_from}
use vdexnode.Mpt.Rounds.Laws.{collect-field, all_from-map, get_elem?-map}
use vdexnode.Mpt.LocalSignature.{phase5a_broadcast_5b_zkproof, com_elgamal, phase5c}
use vdexnode.Mpt.LocalSignature.Valid.{r_of_point-some}
use vdexnode.Mpt.Sums.{total, total-map, fold-total, total-op, fold_head-total}

-- The local signatures are made for the message `message`, the nonce point and the public key.
pub record Agrees (c : Crypto) (r_point y : c.GE) (message : ℕ) (sig : ℕ → LocalSignature c)
    : Type 0 where
  pub same_point : (j : ℕ) → (sig j).r_point ≡ r_point
  pub same_key : (j : ℕ) → (sig j).y ≡ y
  pub same_message : (j : ℕ) → (sig j).m ≡ message

module _ (c : Crypto) {f : IsField c} (m : IsModule c f) (complete : IsComplete c)
    (n message xr : ℕ) (r_point y : c.GE) (sig : ℕ → LocalSignature c)
    (agrees : Agrees c r_point y message sig) (blind : ℕ → ℕ) (seed : ℕ → c.Seed) where
  open c use {
    FE, GE, of_bigint, to_bigint, order, ◌⊕◌, ◌⊗◌, generator, ◌⊞◌, ◌⊟◌, ◌⊛◌, x_coor, zero_fe,
    HomoElGamalProof, verify_elgamal, create_commitment, create_hash_from_ge,
  }

  infixl 65 ◌⊕◌ ◌⊞◌ ◌⊟◌
  infixl 70 ◌⊗◌ ◌⊛◌
  abbrev pub com1 : ℕ → Phase5Com1
  com1 j = (phase5a_broadcast_5b_zkproof c (sig j) (blind j) (seed j)).0

  abbrev pub decom1 : ℕ → Phase5ADecom1 c
  decom1 j = (phase5a_broadcast_5b_zkproof c (sig j) (blind j) (seed j)).1

  abbrev pub proof1 : ℕ → HomoElGamalProof
  proof1 j = (phase5a_broadcast_5b_zkproof c (sig j) (blind j) (seed j)).2

  v_i_lem : (j : ℕ) → (decom1 j).v_i ≡ (r_point ⊛ (sig j).s_i) ⊞ (generator ⊛ (sig j).l_i)
  unfolding phase5a_broadcast_5b_zkproof
  v_i_lem j = ap (λ (p : GE). (p ⊛ (sig j).s_i) ⊞ (generator ⊛ (sig j).l_i)) (agrees.same_point j)

  pub a_i_lem : (j : ℕ) → (decom1 j).a_i ≡ generator ⊛ (sig j).rho_i
  unfolding phase5a_broadcast_5b_zkproof
  a_i_lem j = refl

  pub b_i_lem : (j : ℕ) → (decom1 j).b_i ≡ (decom1 j).a_i ⊛ (sig j).l_i
  unfolding phase5a_broadcast_5b_zkproof
  b_i_lem j =
      ap (λ (x : FE). generator ⊛ x) (f.mul_comm (sig j).l_i (sig j).rho_i)
      ∙ sym (m.scale_assoc generator (sig j).rho_i (sig j).l_i)

  opens :
      (j : ℕ)
      → (create_commitment
            (to_bigint
              (create_hash_from_ge ((decom1 j).v_i ∷ (decom1 j).a_i ∷ (decom1 j).b_i ∷ [])))
            (decom1 j).blind_factor
          == (com1 j).commitment)
        ≡ true
  unfolding phase5a_broadcast_5b_zkproof
  opens j = ==_refl _

  proof_verifies :
      (j : ℕ)
      → verify_elgamal (proof1 j) (decom1 j).a_i r_point generator (decom1 j).v_i (decom1 j).b_i
        ≡ true
  unfolding phase5a_broadcast_5b_zkproof
  proof_verifies j = rw (← agrees.same_point j) (
      complete.verify-prove_elgamal (sig j).l_i (sig j).s_i (decom1 j).a_i (sig j).r_point generator
        (decom1 j).v_i (decom1 j).b_i (seed j) refl (b_i_lem j))

  test_passes :
      (js : List ℕ)
      → all_from 0
          (length (map com1 js))
          (com_elgamal c (map decom1 js) (map com1 js) (map proof1 js) r_point)
        ≡ ok true
  unfolding com_elgamal
  test_passes js = all_from-map com1 js _ (λ k j h. rw (
    get_elem?-map decom1 js k j h,
    get_elem?-map com1 js k j h,
    get_elem?-map proof1 js k j h,
    opens j,
    proof_verifies j,
  ))

  -- The sum of the masks `l_i` of all signers.
  abbrev pub l_sum : FE
  l_sum = sum_all c f n (λ j. (sig j).l_i)

  -- What signer i opens in phase 5D: its part of the product of the masks, computed two ways.
  abbrev pub decom2 : (ℕ → ℕ) → ℕ → Phase5DDecom2 c
  decom2 blind2 i = record {
    u_i = (generator ⊛ l_sum) ⊛ (sig i).rho_i;
    t_i = total ◌⊞◌ m.infinity (λ j. (decom1 j).a_i) (others i 1 n) ⊛ (sig i).l_i;
    blind_factor = blind2 i;
  }

  abbrev pub com2 : (ℕ → ℕ) → ℕ → Phase5Com2
  com2 blind2 i = record {
    commitment =
        create_commitment
          (to_bigint (create_hash_from_ge ((decom2 blind2 i).u_i ∷ (decom2 blind2 i).t_i ∷ [])))
          (blind2 i);
  }

  v_total :
      total ◌⊞◌ m.infinity (λ j. (decom1 j).v_i) (indices 1 n)
      ≡ (r_point ⊛ sum_all c f n (λ j. (sig j).s_i)) ⊞ (generator ⊛ l_sum)
  v_total =
      ap (λ (g : ℕ → GE). total ◌⊞◌ m.infinity g (indices 1 n)) (fun_ext v_i_lem)
      ∙ total-op (points c m) (λ j. r_point ⊛ (sig j).s_i) (λ j. generator ⊛ (sig j).l_i)
          (indices 1 n)
      ∙ rw (
        scale-sum c m r_point (λ j. (sig j).s_i) (indices 1 n),
        scale-sum c m generator (λ j. (sig j).l_i) (indices 1 n),
      )

  module _ (hx : x_coor r_point ≡ some xr)
      (balance : r_point ⊛ sum_all c f n (λ j. (sig j).s_i)
        ≡ (generator ⊛ of_bigint message) ⊞ (y ⊛ of_bigint (xr % order)))
      (me : ℕ) (lo : 1 ≤ me) (hi : me < 1 + n) where
    -- V of `phase5c`: of the sum of all `v_i` only the masks are left.
    unmasked :
        (fold ◌⊞◌ (decom1 me).v_i (map (λ j. (decom1 j).v_i) (others me 1 n))
            ⊟ (generator ⊛ of_bigint (sig me).m))
          ⊟ ((sig me).y ⊛ of_bigint (xr % order))
        ≡ generator ⊛ l_sum
    unmasked =
        rw
          (
            agrees.same_message me,
            agrees.same_key me,
            fold-total (points c m) (λ (p : GE). p) (decom1 me).v_i
                (map (λ j. (decom1 j).v_i) (others me 1 n)),
            total-map ◌⊞◌ m.infinity (λ (p : GE). p) (λ j. (decom1 j).v_i) (others me 1 n),
            sym (total-others (points c m) (λ j. (decom1 j).v_i) me 1 n lo hi),
            v_total,
            balance,
          )
          (ap (λ (p : GE). (p ⊟ gm) ⊟ yr)
              (m.add_comm (gm ⊞ yr) (generator ⊛ l_sum)
                ∙ ap (λ (p : GE). (generator ⊛ l_sum) ⊞ p) (m.add_comm gm yr)
                ∙ sym (m.add_assoc (generator ⊛ l_sum) yr gm))
            ∙ ap (λ (p : GE). p ⊟ yr) (m.add-sub ((generator ⊛ l_sum) ⊞ yr) gm)
            ∙ m.add-sub (generator ⊛ l_sum) yr)
      where
        gm : GE
        gm = generator ⊛ of_bigint message

        yr : GE
        yr = y ⊛ of_bigint (xr % order)

    -- If the shares balance, R * s = G * m + y * r, then signer `me`'s call returns, and opens the
    -- point of the masks' sum times its own `rho_i`, and the others' `a_i` times its own `l_i`.
    pub phase5c_value :
        (blind2 : ℕ → ℕ)
        → 2 ≤ n
        → phase5c c
            (sig me)
            (map decom1 (others me 1 n))
            (map com1 (others me 1 n))
            (map proof1 (others me 1 n))
            (decom1 me).v_i
            r_point
            (blind2 me)
          ≡ ok (com2 blind2 me, decom2 blind2 me)
    unfolding phase5c
    phase5c_value blind2 two = rw (
      length-map decom1 (others me 1 n),
      test_passes (others me 1 n),
      length-map com1 (others me 1 n),
      ==_refl (length (others me 1 n)),
      collect-field {E = Error} decom1 (λ (d : Phase5ADecom1 c). d.v_i) (others me 1 n),
      collect-field {E = Error} decom1 (λ (d : Phase5ADecom1 c). d.a_i) (others me 1 n),
      fold_head-total {E = Error} (points c m) (λ j. (decom1 j).a_i) (others me 1 n)
          (omega (arith, length-others me 1 n lo hi)),
      agrees.same_point me,
      r_of_point-some c m r_point xr hx,
      unmasked,
    )
