-- ===== src/Mpt/Sign/Output.antt =====
-- Rounds 3 to 9 of vDexNode/mpt/src/bin/sign.rs: the nonce point, and from it the signature.
use vdexnode.Common.{ℕ, ◌+◌, String, List, map}
use vdexnode.Common.Outcome
use vdexnode.Mpt.Crypto.{Crypto}
use vdexnode.Mpt.Messages.{
  SignBroadcastPhase1, SignDecommitPhase1, LocalSignature, Phase5Com1, Phase5Com2, Phase5ADecom1,
  Phase5DDecom2, Signature, MessageB,
}
use vdexnode.Mpt.Rounds.{collect_from}
use vdexnode.Mpt.SignKeys.{phase3_reconstruct_delta, phase4}
use vdexnode.Mpt.LocalSignature.{phase5a_broadcast_5b_zkproof, phase5c, phase5d, output_signature}
use vdexnode.Mpt.Vectors.{format_vec_from_reads}
use vdexnode.Mpt.Transport.{World, Ran, ◌>>=◌, pure, lift}
use vdexnode.Mpt.Program.{Codec, Server, exchange}
use vdexnode.Mpt.Sign.{position, remove, nonce_point}

-- A round whose answers are read, with this signer's own value among them.
unfoldable pub exchange_reads :
    {A : Type 0} → Server → ℕ → ℕ → String → Codec A → String → A → World → Ran (List A)
unfolding exchange format_vec_from_reads
exchange_reads srv me n uuid codec round value = do
  answers ← exchange srv me n uuid round (codec.print value)
  lift (format_vec_from_reads codec.read answers me value)

module _ (c : Crypto) where
  open c use {Seed, FE, GE, HomoElGamalProof, DLogProof}

  -- How serde_json writes the messages of these rounds.
  pub record Wire : Type 0 where
    pub scalar : Codec FE
    pub decommit : Codec (SignDecommitPhase1 c)
    pub com1 : Codec Phase5Com1
    pub decom1 : Codec (Phase5ADecom1 c × HomoElGamalProof)
    pub com2 : Codec Phase5Com2
    pub decom2 : Codec (Phase5DDecom2 c)

  module _ (srv : Server) (wire : Wire) (threshold me : ℕ) (uuid : String) where
    -- Rounds 3 and 4.
    unfoldable pub open_nonce :
        FE → SignDecommitPhase1 c → List SignBroadcastPhase1 → List (MessageB c) → World → Ran GE
    unfolding exchange_reads position remove nonce_point phase3_reconstruct_delta
    open_nonce delta_i decommit bc1_vec m_b_gamma_rec_vec = do
      let n = threshold + 1
      delta_vec ← exchange_reads srv me n uuid wire.scalar "round3" delta_i
      let delta_inv = phase3_reconstruct_delta c delta_vec
      decommit_vec ← exchange_reads srv me n uuid wire.decommit "round4" decommit
      decomm ← lift (remove decommit_vec (position me))
      bc1 ← lift (remove bc1_vec (position me))
      let b_proof_vec = map (λ (m_b : MessageB c). m_b.b_proof) m_b_gamma_rec_vec
      r_others ← lift (phase4 c delta_inv b_proof_vec decomm.1 bc1.1)
      pure (nonce_point c r_others decomm.0 delta_inv)

    -- Rounds 5 and 6, as far as phase 5C: everybody's first decommitments, and the second pair of
    -- messages.
    unfoldable pub masks :
        LocalSignature c
        → GE
        → ℕ
        → Seed
        → ℕ
        → World
        → Ran (List (Phase5ADecom1 c × HomoElGamalProof) × Phase5Com2 × Phase5DDecom2 c)
    unfolding exchange_reads position remove phase5a_broadcast_5b_zkproof
    masks local_sig r_point blind_factor seed blind_factor2 = do
      let n = threshold + 1
      let first = phase5a_broadcast_5b_zkproof c local_sig blind_factor seed
      commit5a_vec ← exchange_reads srv me n uuid wire.com1 "round5" first.0
      decommit5a_and_elgamal_vec ←
          exchange_reads srv me n uuid wire.decom1 "round6" (first.1, first.2)
      decommits ← lift (remove decommit5a_and_elgamal_vec (position me))
      commits ← lift (remove commit5a_vec (position me))
      phase_5a_decomm_vec ← lift {E = ⊥} (
          collect_from 0 threshold
            (λ i. Outcome.◌>>=◌ (Outcome.index decommits.1 i) (λ d. Outcome.ok d.0)))
      phase_5a_elgamal_vec ← lift {E = ⊥} (
          collect_from 0 threshold
            (λ i. Outcome.◌>>=◌ (Outcome.index decommits.1 i) (λ d. Outcome.ok d.1)))
      second ← lift (
          phase5c c local_sig phase_5a_decomm_vec commits.1 phase_5a_elgamal_vec first.1.v_i r_point
            blind_factor2)
      pure (decommit5a_and_elgamal_vec, second.0, second.1)

    -- Rounds 7 and 8: this signer's share of the signature.
    unfoldable pub release :
        LocalSignature c
        → List (Phase5ADecom1 c × HomoElGamalProof)
        → Phase5Com2
        → Phase5DDecom2 c
        → World
        → Ran FE
    unfolding exchange_reads
    release local_sig decommit5a_and_elgamal_vec com2 decom2 = do
      let n = threshold + 1
      commit5c_vec ← exchange_reads srv me n uuid wire.com2 "round7" com2
      decommit5d_vec ← exchange_reads srv me n uuid wire.decom2 "round8" decom2
      phase_5a_decomm_vec_includes_i ← lift {E = ⊥} (
          collect_from 0 n
            (λ i. Outcome.◌>>=◌ (Outcome.index decommit5a_and_elgamal_vec i) (λ d. Outcome.ok d.0)))
      lift (phase5d c local_sig decommit5d_vec commit5c_vec phase_5a_decomm_vec_includes_i)

    -- Round 9.
    unfoldable pub conclude : LocalSignature c → FE → World → Ran (Signature c)
    unfolding exchange_reads position remove
    conclude local_sig s_i = do
      s_i_vec ← exchange_reads srv me (threshold + 1) uuid wire.scalar "round9" s_i
      s_rest ← lift (remove s_i_vec (position me))
      lift (output_signature c local_sig s_rest.1)

    unfoldable pub output : LocalSignature c → GE → ℕ → Seed → ℕ → World → Ran (Signature c)
    unfolding masks release conclude
    output local_sig r_point blind_factor seed blind_factor2 = do
      opened ← masks local_sig r_point blind_factor seed blind_factor2
      s_i ← release local_sig opened.0 opened.1 opened.2
      conclude local_sig s_i
