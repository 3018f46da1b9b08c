-- ===== src/Mpt/Sign/Multiply.antt =====
-- Rounds 1 and 2 of vDexNode/mpt/src/bin/sign.rs: every two signers turn their products into sums.
use vdexnode.Common.{ℕ, zero, suc, ◌+◌, String, List, ◌==◌, if◌then◌else◌, length}
use vdexnode.Common.Outcome
use vdexnode.Mpt.Crypto.{Crypto}
use vdexnode.Mpt.Messages.{SignKeys, SignBroadcastPhase1, SignDecommitPhase1, MessageA, MessageB}
use vdexnode.Mpt.SignKeys.{phase1_broadcast, phase2_delta_i, phase2_sigma_i}
use vdexnode.Mpt.MtA.{message_a}
use vdexnode.Mpt.Transport.{World, Ran, ◌>>=◌, pure, unwrap, lift, sendp2p, poll_for_p2p}
use vdexnode.Mpt.Program.{Codec, Server, exchange}
use vdexnode.Mpt.Sign.Loops.{AnswerDraws, read_round1, answer_others, read_answers, check_answers}

module _ (c : Crypto) (srv : Server) where
  open c use {Seed, FE, GE, EncryptionKey, DecryptionKey, VerifiableSs}

  -- The loop that sends each other signer its pair of answers.
  unfoldable pub send_answers :
      Codec (MessageB c × MessageB c)
      → ℕ
      → String
      → List (MessageB c)
      → List (MessageB c)
      → ℕ
      → ℕ
      → ℕ
      → World
      → Ran (Unit {0})
  unfolding sendp2p
  send_answers codec me uuid gammas ws zero i j = pure tt
  send_answers codec me uuid gammas ws (suc n) i j =
      let own = send_answers codec me uuid gammas ws n (i + 1) j in
      let other = send_answers codec me uuid gammas ws n (i + 1) (j + 1) in
      if i == me then own else (do
        m_b_gamma ← lift {E = ⊥} (Outcome.index gammas j)
        m_b_w ← lift {E = ⊥} (Outcome.index ws j)
        sent ← sendp2p srv.decode_unit me i "round2" (codec.print (m_b_gamma, m_b_w)) uuid
        ok ← unwrap sent
        other)

  -- What a signer knows after round 2, the shares of delta and sigma among it.
  pub record Products : Type 0 where
    pub bc1_vec : List SignBroadcastPhase1
    pub decommit : SignDecommitPhase1 c
    pub m_b_gamma_rec_vec : List (MessageB c)
    pub delta_i : FE
    pub sigma : FE

  unfoldable pub multiply :
      Codec (SignBroadcastPhase1 × MessageA)
      → Codec (MessageB c × MessageB c)
      → ℕ
      → ℕ
      → String
      → SignKeys c
      → EncryptionKey × DecryptionKey
      → List EncryptionKey
      → List ℕ
      → List GE
      → List VerifiableSs
      → ℕ
      → Seed
      → (ℕ → AnswerDraws c)
      → (ℕ → AnswerDraws c)
      → World
      → Ran Products
  unfolding send_answers exchange poll_for_p2p phase1_broadcast
  multiply round1 round2 threshold me uuid sign_keys own paillier_keys signers xi_com_vec vss_vec
        blind enc gamma_draws w_draws =
      do
        let n = threshold + 1
        let first = phase1_broadcast c sign_keys blind
        let m_a_k = message_a c sign_keys.k_i own.0 enc
        round1_ans ← exchange srv me n uuid "round1" (round1.print (first.0, m_a_k))
        read ← lift (read_round1 round1 round1_ans first.0 me n 1 0)
        same ← lift {E = ⊥} (Outcome.assert (length signers == length read.0))
        gammas ←
            lift
              (answer_others c sign_keys.gamma_i paillier_keys signers read.1 gamma_draws me n 1 0)
        ws ← lift (answer_others c sign_keys.w_i paillier_keys signers read.1 w_draws me n 1 0)
        sent ← send_answers round2 me uuid gammas.0 ws.0 n 1 0
        round2_ans ← poll_for_p2p srv.decode_entry me n "round2" uuid
        received ← lift (read_answers c round2 round2_ans threshold 0)
        shares ← lift (
            check_answers c own.1 sign_keys.k_i received.0 received.1 xi_com_vec vss_vec signers me
              n 1 0)
        delta_i ← lift (phase2_delta_i c sign_keys shares.0 gammas.1)
        sigma ← lift (phase2_sigma_i c sign_keys shares.1 ws.1)
        pure (record {
          bc1_vec = read.0;
          decommit = first.1;
          m_b_gamma_rec_vec = received.0;
          delta_i = delta_i;
          sigma = sigma;
        })
