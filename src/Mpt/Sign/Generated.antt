-- ===== src/Mpt/Sign/Generated.antt =====
-- From vDexNode/mpt/src/bin/generate_key.rs to bin/sign.rs: the key files that a key generation
-- saves are fit for signing.
use mathlib.Core.Path.{fun_ext}
use vdexnode.Common.{
  ℕ, suc, ◌+◌, ◌-◌, ◌^◌, ◌≤◌, ◌<◌, ◌≡◌, refl, sym, ap, ◌∙◌, some, List, map, arith, get_elem?,
}
use vdexnode.Mpt.Crypto.{Crypto}
use vdexnode.Mpt.Crypto.Laws.{IsReconstructing}
use vdexnode.Mpt.KeyGen.{create, update_commitments_to_xi}
use vdexnode.Mpt.KeyGen.Points.{get_commitments_to_xi_points}
use vdexnode.Mpt.KeyGen.Weights.{create_weights}
use vdexnode.Mpt.Messages.{PartyPrivate}
use vdexnode.Mpt.Parties.{indices}
use vdexnode.Mpt.Parties.Pairs.{sum_all}
use vdexnode.Mpt.Rounds.Laws.{get_elem?-map}
use vdexnode.Mpt.Sums.{total-map}
use vdexnode.Mpt.SignKeys.{create as create_keys}
use vdexnode.Mpt.GenerateKey.{Draws, KeyFile}
use vdexnode.Mpt.GenerateKey.KeyFiles.{IsSound, private_key, scheme, x, key_file}
use vdexnode.Mpt.Sign.{position}
use vdexnode.Mpt.Sign.Signers.{IsShared, indices_at, position_lem, value_at, weight}

-- Parties 1 to `n` generate keys, and `chosen j` is the party that signs as signer j of `count`.
module _ (c : Crypto) (laws : IsSound c) (t n : ℕ) (draws : ℕ → Draws c) (part : ℕ → ℕ → c.FE)
    (dealt : (j i : ℕ)
      → i < n
      → get_elem? (c.share t n (draws j).u (draws j).sharing).1 i ≡ some (part j i))
    (chosen : ℕ → ℕ) (count : ℕ) where
  open c use {FE, GE, zero_fe, ◌⊕◌, ◌⊗◌, generator, ◌⊛◌, keypair, share, map_share_to_new_params}

  infixl 65 ◌⊕◌
  infixl 70 ◌⊗◌ ◌⊛◌
  -- The signers' key files, and their positions among the parties.
  abbrev pub file : ℕ → KeyFile c
  file j = key_file c laws t n draws part (chosen j)

  abbrev pub positions : List ℕ
  positions = map (λ j. position (chosen j)) (indices 1 count)

  module _ (lo : (j : ℕ) → 1 ≤ chosen j) (hi : (j : ℕ) → chosen j ≤ n) (small : n < 2 ^ 32)
      (rec : IsReconstructing c t n positions laws.f) where
    pub at_chosen :
        {A : Type 0} (v : ℕ → A) (j : ℕ)
        → get_elem? (map v (indices 1 n)) (position (chosen j)) ≡ some (v (chosen j))
    at_chosen v j = value_at v n (chosen j) (lo j) (hi j) small

    place : (j : ℕ) → position (chosen j) ≡ chosen j - 1
    place j = let h = lo j in let k = hi j in position_lem (chosen j) h (omega arith)

    -- The private half of a party's keys, by its position.
    private_at : ℕ → PartyPrivate c
    private_at i = record {
      u_i = (draws (suc i)).u;
      x_i = sum_all c laws.f n (λ j. part j i);
      dk = (keypair (draws (suc i)).paillier).1;
    }

    weight_lem :
        (j : ℕ)
        → weight c file count (scheme c laws t n draws (chosen j)) j
          ≡ (create_keys c
              (private_at (position (chosen j)))
              (scheme c laws t n draws (suc (position (chosen j))))
              (position (chosen j))
              positions
              zero_fe
              zero_fe).w_i
    unfolding create_keys private_at
    weight_lem j =
        let h = lo j in
        let next : suc (chosen j - 1) ≡ chosen j = omega arith in rw (weight, place j, next) refl

    pub weights_lem :
        sum_all c laws.f count (λ j. weight c file count (scheme c laws t n draws (chosen j)) j)
        ≡ private_key c laws t n draws
    unfolding private_at
    weights_lem =
        ap (λ (g : ℕ → FE). sum_all c laws.f count g) (fun_ext weight_lem)
        ∙ sym (
            total-map ◌⊕◌ zero_fe
              (λ i.
                (create_keys c (private_at i) (scheme c laws t n draws (suc i)) i positions zero_fe
                  zero_fe).w_i)
              (λ j. position (chosen j)) (indices 1 count))
        ∙ (create_weights c laws.m t n (λ j. (draws j).u) (λ j. (draws j).sharing) part dealt
            positions rec private_at (λ i. refl) (λ i. zero_fe) (λ i. zero_fe) 0).0

    pub point_at :
        (j : ℕ)
        → get_elem?
            (map (λ i. generator ⊛ sum_all c laws.f n (λ k. part k i)) (indices 0 n))
            (position (chosen j))
          ≡ some (generator ⊛ x c laws t n draws part (chosen j))
    point_at j =
        let h = lo j in
        let k = hi j in
        let zero_add : 0 + (chosen j - 1) ≡ chosen j - 1 = omega arith in
        rw (place j) (
          get_elem?-map (λ i. generator ⊛ sum_all c laws.f n (λ k. part k i)) (indices 0 n)
            (chosen j - 1) (chosen j - 1)
            (indices_at 0 n (chosen j - 1) (omega arith) ∙ ap some zero_add))

    -- If the parties deal shares of their `u`, and the chosen ones can reconstruct, then their key
    -- files share the sum of all `u`, as the private key that the signers sign with.
    unfoldable pub key_file-IsShared : IsShared c laws.f count file (private_key c laws t n draws)
    unfolding create update_commitments_to_xi
    key_file-IsShared = record {
      seed = λ j. (draws (chosen j)).paillier;
      ek_at = λ j. refl;
      dk_at = λ j. refl;
      vss_vec = map (scheme c laws t n draws) (indices 1 n);
      same_vss = λ j. refl;
      vss = λ j. scheme c laws t n draws (chosen j);
      vss_at = at_chosen (scheme c laws t n draws);
      paillier_at = λ i j. at_chosen (λ k. (keypair (draws k).paillier).0) j;
      xi_com_vec = map (λ i. generator ⊛ sum_all c laws.f n (λ j. part j i)) (indices 0 n);
      xi_coms =
          get_commitments_to_xi_points c laws.m laws.sharing t n (λ j. (draws j).u)
            (λ j. (draws j).sharing) part dealt;
      xi_com = λ j. generator ⊛ x c laws t n draws part (chosen j);
      xi_com_at = point_at;
      weight_at = λ j.
          laws.m.scale_assoc generator (x c laws t n draws part (chosen j)) _
          ∙ ap (λ (z : FE). generator ⊛ z) (laws.f.mul_comm (x c laws t n draws part (chosen j)) _);
      key_at = λ j. refl;
      weights_sum = weights_lem;
    }
