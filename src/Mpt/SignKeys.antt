-- ===== src/Mpt/SignKeys.antt =====
-- `impl SignKeys` of vDexNode/mpt/src/utils/key_gen_utils.rs. What a method samples is an argument.
pub mod Correct
pub mod Nonce
use vdexnode.Common.{false, ℕ, Bool, List, [], ◌∷◌, ◌==◌, if◌then◌else◌, length}
use vdexnode.Common.Outcome.{Outcome, ok, err, panic, ◌>>=◌, ◌>>◌, assert, index}
use vdexnode.Mpt.Crypto.{Crypto}
use vdexnode.Mpt.Messages.{
  Error, invalid_key, PartyPrivate, SignKeys, SignBroadcastPhase1, SignDecommitPhase1,
}
use vdexnode.Mpt.Rounds.{all_from, collect_from, fold}

module _ (c : Crypto) where
  open c use {
    FE, zero_fe, ◌⊕◌, ◌⊗◌, invert, GE, generator, ◌⊞◌, ◌⊛◌, compressed, ge_eq, create_commitment,
    DLogProof, pk, VerifiableSs, map_share_to_new_params,
  }

  infixl 65 ◌⊕◌ ◌⊞◌
  infixl 70 ◌⊗◌ ◌⊛◌
  -- `gamma_i` and `k_i` are the two calls of `new_random()`.
  unfoldable pub create : PartyPrivate c → VerifiableSs → ℕ → List ℕ → FE → FE → SignKeys c
  create private vss_scheme number s gamma_i k_i =
      let li = map_share_to_new_params vss_scheme number s in
      let w_i = li ⊗ private.x_i in
      record {
        w_i = w_i;
        g_w_i = generator ⊛ w_i;
        k_i = k_i;
        gamma_i = gamma_i;
        g_gamma_i = generator ⊛ gamma_i;
      }

  unfoldable pub phase1_broadcast : SignKeys c → ℕ → SignBroadcastPhase1 × SignDecommitPhase1 c
  phase1_broadcast self blind_factor =
      let g_gamma_i = generator ⊛ self.gamma_i in
      (
        record { commitment = create_commitment (compressed g_gamma_i) blind_factor },
        record { blind_factor = blind_factor; g_gamma_i = self.g_gamma_i },
      )

  -- The fold of `phase2_delta_i` and `phase2_sigma_i` over the pairs of shares.
  unfoldable pub sum_shares : FE → List FE → List FE → Outcome Error FE
  sum_shares start xs ys = do
    assert (length xs == length ys)
    terms ← collect_from 0 (length xs) (λ i. do x ← index xs i; y ← index ys i; ok (x ⊕ y))
    ok (fold ◌⊕◌ start terms)

  unfoldable pub phase2_delta_i : SignKeys c → List FE → List FE → Outcome Error FE
  phase2_delta_i self alpha_vec beta_vec = sum_shares (self.k_i ⊗ self.gamma_i) alpha_vec beta_vec

  unfoldable pub phase2_sigma_i : SignKeys c → List FE → List FE → Outcome Error FE
  phase2_sigma_i self miu_vec ni_vec = sum_shares (self.k_i ⊗ self.w_i) miu_vec ni_vec

  unfoldable pub phase3_reconstruct_delta : List FE → FE
  phase3_reconstruct_delta delta_vec = invert (fold ◌⊕◌ zero_fe delta_vec)

  -- The closure: the point of signer i's MtA proof is the one that it committed to.
  unfoldable pub b_vec_and_com :
      List DLogProof
      → List (SignDecommitPhase1 c)
      → List SignBroadcastPhase1
      → ℕ
      → Outcome Error Bool
  b_vec_and_com b_proof_vec decommit_vec bc1_vec i = do
    b_proof ← index b_proof_vec i
    decommit ← index decommit_vec i
    if ge_eq (pk b_proof) decommit.g_gamma_i
        then (do
          bc1 ← index bc1_vec i
          ok (
              create_commitment (compressed decommit.g_gamma_i) decommit.blind_factor
              == bc1.commitment))
        else ok false

  -- `gamma_i_iter.next().unwrap()` comes before the verdict of the test is read.
  unfoldable pub gamma_point : List (SignDecommitPhase1 c) → FE → Bool → Outcome Error GE
  gamma_point [] delta_inv passed = panic
  gamma_point (head ∷ tail) delta_inv passed =
      if passed
      then ok (fold (λ acc x. acc ⊞ x.g_gamma_i) head.g_gamma_i tail ⊛ delta_inv)
      else err invalid_key

  unfoldable pub phase4 :
      FE
      → List DLogProof
      → List (SignDecommitPhase1 c)
      → List SignBroadcastPhase1
      → Outcome Error GE
  phase4 delta_inv b_proof_vec phase1_decommit_vec bc1_vec = do
    passed ← all_from 0 (length b_proof_vec) (b_vec_and_com b_proof_vec phase1_decommit_vec bc1_vec)
    gamma_point phase1_decommit_vec delta_inv passed
