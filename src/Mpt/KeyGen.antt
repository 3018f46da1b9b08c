-- ===== src/Mpt/KeyGen.antt =====
-- `impl Keys` of vDexNode/mpt/src/utils/key_gen_utils.rs. What a method samples is an argument.
pub mod Phase1
pub mod Phase2
pub mod Accepted
pub mod Points
pub mod Weights
use vdexnode.Common.{ℕ, Bool, false, ◌&&◌, List, ◌==◌, if◌then◌else◌, length}
use vdexnode.Common.Outcome.{Outcome, ok, err, ◌>>=◌, ◌>>◌, assert, index}
use vdexnode.Mpt.Crypto.{Crypto}
use vdexnode.Mpt.Messages.{
  Error, invalid_key, invalid_ss, Parameters, Keys, KeyGenBroadcastMessage1, KeyGenDecommitMessage1,
  SharedKeys,
}
use vdexnode.Mpt.Rounds.{all_from, collect_from, fold, fold_head}

module _ (c : Crypto) where
  open c use {
    Seed, FE, zero_fe, ◌⊕◌, GE, generator, ◌⊞◌, ◌⊛◌, compressed, ge_eq, create_commitment,
    DLogProof, prove_dlog, verify_dlog, keypair, prove_key, verify_key, VerifiableSs, share,
    commitments, validate_share, get_point_commitment, map_share_to_new_params,
  }

  infixl 65 ◌⊕◌ ◌⊞◌
  infixl 70 ◌⊛◌
  unfoldable pub create_from : FE → Seed → ℕ → Keys c
  create_from u seed index =
      let (ek, dk) = keypair seed in
      record { u_i = u; y_i = generator ⊛ u; dk = dk; ek = ek; party_index = index }

  -- `new_random()` is the argument `u`.
  unfoldable pub create : FE → Seed → ℕ → Keys c
  create u seed index =
      let (ek, dk) = keypair seed in
      record { u_i = u; y_i = generator ⊛ u; dk = dk; ek = ek; party_index = index }

  unfoldable pub phase1_broadcast_phase3_proof_of_correct_key :
      Keys c → ℕ → KeyGenBroadcastMessage1 c × KeyGenDecommitMessage1 c
  phase1_broadcast_phase3_proof_of_correct_key self blind_factor =
      let commitment = create_commitment (compressed self.y_i) blind_factor in
      (
        record { e = self.ek; commitment = commitment; correct_key_proof = prove_key self.dk },
        record { blind_factor = blind_factor; y_i = self.y_i },
      )

  -- The closure: party i's commitment opens and its Paillier key is proved correct.
  unfoldable pub correct_key_correct_decom :
      List (KeyGenDecommitMessage1 c) → List (KeyGenBroadcastMessage1 c) → ℕ → Outcome Error Bool
  correct_key_correct_decom decom_vec bc1_vec i = do
    decom ← index decom_vec i
    bc1 ← index bc1_vec i
    ok (
        create_commitment (compressed decom.y_i) decom.blind_factor == bc1.commitment
        && verify_key bc1.correct_key_proof bc1.e)

  unfoldable pub phase1_verify_com_phase3_verify_correct_key_phase2_distribute :
      Keys c
      → Parameters
      → List (KeyGenDecommitMessage1 c)
      → List (KeyGenBroadcastMessage1 c)
      → Seed
      → Outcome Error (VerifiableSs × List FE × ℕ)
  phase1_verify_com_phase3_verify_correct_key_phase2_distribute self params decom_vec bc1_vec seed =
      do
        assert (length decom_vec == params.share_count)
        assert (length bc1_vec == params.share_count)
        all_correct ← all_from 0 (length bc1_vec) (correct_key_correct_decom decom_vec bc1_vec)
        let shared = share params.threshold params.share_count self.u_i seed
        if all_correct then ok (shared.0, shared.1, self.party_index) else err invalid_key

  -- The closure: party i's share validates at this party's number and belongs to its public point.
  unfoldable pub correct_ss : List GE → List FE → List VerifiableSs → ℕ → ℕ → Outcome Error Bool
  correct_ss y_vec secret_shares_vec vss_scheme_vec number i = do
    vss ← index vss_scheme_vec i
    secret_share ← index secret_shares_vec i
    if validate_share vss secret_share number
        then (do com0 ← index (commitments vss) 0; y ← index y_vec i; ok (ge_eq com0 y))
        else ok false

  unfoldable pub phase2_verify_vss_construct_keypair_phase3_pok_dlog :
      Keys c
      → Parameters
      → List GE
      → List FE
      → List VerifiableSs
      → ℕ
      → Seed
      → Outcome Error (SharedKeys c × DLogProof)
  phase2_verify_vss_construct_keypair_phase3_pok_dlog self params y_vec secret_shares_vec
        vss_scheme_vec number seed =
      do
        assert (length y_vec == params.share_count)
        assert (length secret_shares_vec == params.share_count)
        assert (length vss_scheme_vec == params.share_count)
        correct ←
            all_from 0 (length y_vec) (correct_ss y_vec secret_shares_vec vss_scheme_vec number)
        if correct
            then (do
              y ← fold_head ◌⊞◌ y_vec
              let x_i = fold ◌⊕◌ zero_fe secret_shares_vec
              ok (record { y = y; x_i = x_i }, prove_dlog x_i seed))
            else err invalid_ss

  -- The inner closure: the points of every scheme at party i, summed.
  unfoldable pub commitment_to_xi : List VerifiableSs → ℕ → Outcome Error GE
  commitment_to_xi vss_scheme_vec i = do
    xij_points ←
        collect_from 0 (length vss_scheme_vec)
          (λ j. do vss ← index vss_scheme_vec j; ok (get_point_commitment vss i))
    fold_head ◌⊞◌ xij_points

  unfoldable pub get_commitments_to_xi : List VerifiableSs → Outcome Error (List GE)
  get_commitments_to_xi vss_scheme_vec =
      collect_from 1 (length vss_scheme_vec) (commitment_to_xi vss_scheme_vec)

  unfoldable pub update_commitments_to_xi : GE → VerifiableSs → ℕ → List ℕ → GE
  update_commitments_to_xi comm vss_scheme index s =
      comm ⊛ map_share_to_new_params vss_scheme index s

  unfoldable pub verify_dlog_proofs :
      Parameters → List DLogProof → List GE → Outcome Error (Unit {0})
  verify_dlog_proofs params dlog_proofs_vec y_vec = do
    assert (length y_vec == params.share_count)
    assert (length dlog_proofs_vec == params.share_count)
    verified ←
        all_from 0 (length y_vec) (λ i. do proof ← index dlog_proofs_vec i; ok (verify_dlog proof))
    if verified then ok tt else err invalid_key
