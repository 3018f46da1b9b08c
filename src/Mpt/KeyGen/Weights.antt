-- ===== src/Mpt/KeyGen/Weights.antt =====
-- From key generation to signing: the signers' weighted shares are an additive sharing of the key.
use mathlib.Core.Path.{fun_ext}
use vdexnode.Common.{ℕ, suc, ◌<◌, ◌≡◌, ◌∙◌, ap, List, some, get_elem?}
use vdexnode.Mpt.Crypto.{Crypto}
use vdexnode.Mpt.Crypto.Laws.{IsField, IsModule, IsReconstructing}
use vdexnode.Mpt.Algebra.{scalars, mul-sum}
use vdexnode.Mpt.KeyGen.{update_commitments_to_xi}
use vdexnode.Mpt.Messages.{PartyPrivate, SignKeys}
use vdexnode.Mpt.Parties.{indices}
use vdexnode.Mpt.Parties.Pairs.{sum_all}
use vdexnode.Mpt.SignKeys.{create}
use vdexnode.Mpt.Sums.{total, total_comm}

module _ (c : Crypto) {f : IsField c} (m : IsModule c f) (t n : ℕ) (u : ℕ → c.FE)
    (seed : ℕ → c.Seed) (part : ℕ → ℕ → c.FE)
    (dealt : (j i : ℕ) → i < n → get_elem? (c.share t n (u j) (seed j)).1 i ≡ some (part j i))
    (s : List ℕ) (rec : IsReconstructing c t n s f) where
  open c use {FE, GE, zero_fe, ◌⊕◌, ◌⊗◌, generator, ◌⊛◌, VerifiableSs, share, DecryptionKey}

  infixl 65 ◌⊕◌
  infixl 70 ◌⊗◌ ◌⊛◌
  -- The private share of the party at position i, as `phase2_verify_...` makes it.
  abbrev pub x_share : ℕ → FE
  x_share i = sum_all c f n (λ j. part j i)

  module _ (private : ℕ → PartyPrivate c) (holds : (i : ℕ) → (private i).x_i ≡ x_share i)
      (gamma k : ℕ → FE) where
    -- The keys that the signer at position i makes from its own scheme.
    abbrev pub keys_of : ℕ → SignKeys c
    keys_of i = create c (private i) (share t n (u (suc i)) (seed (suc i))).0 i s (gamma i) (k i)

    w_i_lem : (i : ℕ) → (keys_of i).w_i ≡ sum_all c f n (λ j. rec.coefficient i ⊗ part j i)
    unfolding create
    w_i_lem i =
        rw (rec.map_share (u (suc i)) (seed (suc i)) i, holds i)
          (mul-sum c f (rec.coefficient i) (λ j. part j i) (indices 1 n))

    -- The `w_i` of the signers sum to the private key, the sum of all parties' `u`; and the point
    -- that everybody computes from the commitment to a signer's share is that signer's `g_w_i`.
    pub create_weights :
        (i : ℕ)
        → (total ◌⊕◌ zero_fe (λ j. (keys_of j).w_i) s ≡ sum_all c f n u)
          × (update_commitments_to_xi c
                (generator ⊛ x_share i)
                (share t n (u (suc i)) (seed (suc i))).0
                i
                s
              ≡ (keys_of i).g_w_i)
    unfolding update_commitments_to_xi create
    create_weights i = (
      ap (λ (g : ℕ → FE). total ◌⊕◌ zero_fe g s) (fun_ext w_i_lem)
          ∙ total_comm (scalars c f) (λ i j. rec.coefficient i ⊗ part j i) s (indices 1 n)
          ∙ ap (λ (g : ℕ → FE). sum_all c f n g)
              (fun_ext (λ j. rec.reconstruct (u j) (seed j) (part j) (dealt j))),
      m.scale_assoc generator (x_share i) _
          ∙ ap (λ (z : FE). generator ⊛ z) (f.mul_comm (x_share i) _ ∙ rw (holds i)),
    )
