-- ===== src/Mpt/Sign/Loops.antt =====
-- The loops between the rounds of vDexNode/mpt/src/bin/sign.rs over the signers `1..THRESHOLD + 2`.
-- They take the signers that are left, n from i on, and the place j of the next one among the others.
use vdexnode.Common.{ℕ, zero, suc, ◌+◌, String, List, [], ◌∷◌, ◌==◌, if◌then◌else◌}
use vdexnode.Common.Outcome.{Outcome, ok, ◌>>=◌, ◌>>◌, index, unwrap, assert, expect}
use vdexnode.Mpt.Crypto.{Crypto}
use vdexnode.Mpt.Messages.{SignBroadcastPhase1, MessageA, MessageB}
use vdexnode.Mpt.KeyGen.{update_commitments_to_xi}
use vdexnode.Mpt.MtA.{message_b, verify_proofs_get_alpha}
use vdexnode.Mpt.Program.{Codec}
use vdexnode.Mpt.Sign.{position}

-- Round 0: the positions of the signers' key files.
unfoldable pub read_signers : Codec ℕ → List String → ℕ → ℕ → ℕ → ℕ → ℕ → Outcome ⊥ (List ℕ)
unfolding position
read_signers codec answers party_id me zero i j = ok []
read_signers codec answers party_id me (suc n) i j =
    let own = read_signers codec answers party_id me n (i + 1) j in
    let other = read_signers codec answers party_id me n (i + 1) (j + 1) in
    if i == me then (do rest ← own; ok (position party_id ∷ rest)) else (do
      text ← index answers j
      signer_j ← unwrap (codec.read text)
      rest ← other
      ok (position signer_j ∷ rest))

-- Round 1: everybody's commitment, and the others' encrypted `k_i`.
unfoldable pub read_round1 :
    Codec (SignBroadcastPhase1 × MessageA)
    → List String
    → SignBroadcastPhase1
    → ℕ
    → ℕ
    → ℕ
    → ℕ
    → Outcome ⊥ (List SignBroadcastPhase1 × List MessageA)
read_round1 codec answers com_i me zero i j = ok ([], [])
read_round1 codec answers com_i me (suc n) i j =
    let own = read_round1 codec answers com_i me n (i + 1) j in
    let other = read_round1 codec answers com_i me n (i + 1) (j + 1) in
    if i == me then (do rest ← own; ok (com_i ∷ rest.0, rest.1)) else (do
      text ← index answers j
      msg ← unwrap (codec.read text)
      rest ← other
      ok (msg.0 ∷ rest.0, msg.1 ∷ rest.1))

module _ (c : Crypto) where
  open c use {Seed, FE, GE, ge_eq, pk, EncryptionKey, DecryptionKey, VerifiableSs}

  -- What a call of `MessageB::b` samples.
  pub record AnswerDraws : Type 0 where
    pub beta_tag : ℕ
    pub enc : Seed
    pub b_proof : Seed
    pub beta_proof : Seed

  -- What this signer answers: for each other one the message and the share.
  unfoldable pub answer_others :
      FE
      → List EncryptionKey
      → List ℕ
      → List MessageA
      → (ℕ → AnswerDraws)
      → ℕ
      → ℕ
      → ℕ
      → ℕ
      → Outcome ⊥ (List (MessageB c) × List FE)
  unfolding position message_b
  answer_others b paillier_keys signers m_a_vec draws me zero i j = ok ([], [])
  answer_others b paillier_keys signers m_a_vec draws me (suc n) i j =
      let own = answer_others b paillier_keys signers m_a_vec draws me n (i + 1) j in
      let other = answer_others b paillier_keys signers m_a_vec draws me n (i + 1) (j + 1) in
      if i == me then own else (do
        signer ← index signers (position i)
        ek ← index paillier_keys signer
        m_a ← index m_a_vec j
        let r = draws i
        let answer = message_b c b ek m_a r.beta_tag r.enc r.b_proof r.beta_proof
        rest ← other
        ok (answer.0 ∷ rest.0, answer.1 ∷ rest.1))

  -- `for i in 0..THRESHOLD`, with `n` answers left from i on
  unfoldable pub read_answers :
      Codec (MessageB c × MessageB c)
      → List String
      → ℕ
      → ℕ
      → Outcome ⊥ (List (MessageB c) × List (MessageB c))
  read_answers codec answers zero i = ok ([], [])
  read_answers codec answers (suc n) i =
      let later = read_answers codec answers n (i + 1) in
      do
        text ← index answers i
        msg ← unwrap (codec.read text)
        rest ← later
        ok (msg.0 ∷ rest.0, msg.1 ∷ rest.1)

  -- Round 2: the shares that the others' answers give, after their checks.
  unfoldable pub check_answers :
      DecryptionKey
      → FE
      → List (MessageB c)
      → List (MessageB c)
      → List GE
      → List VerifiableSs
      → List ℕ
      → ℕ
      → ℕ
      → ℕ
      → ℕ
      → Outcome ⊥ (List FE × List FE)
  unfolding position verify_proofs_get_alpha update_commitments_to_xi
  check_answers dk k_i gammas ws xi_com_vec vss_vec signers me zero i j = ok ([], [])
  check_answers dk k_i gammas ws xi_com_vec vss_vec signers me (suc n) i j =
      let own = check_answers dk k_i gammas ws xi_com_vec vss_vec signers me n (i + 1) j in
      let other = check_answers dk k_i gammas ws xi_com_vec vss_vec signers me n (i + 1) (j + 1) in
      if i == me then own else (do
        m_b_gamma ← index gammas j
        alpha ← expect (verify_proofs_get_alpha c m_b_gamma dk k_i)
        m_b_w ← index ws j
        miu ← expect (verify_proofs_get_alpha c m_b_w dk k_i)
        signer ← index signers (position i)
        com_i ← index xi_com_vec signer
        vss ← index vss_vec signer
        assert (ge_eq (pk m_b_w.b_proof) (update_commitments_to_xi c com_i vss signer signers))
        rest ← other
        ok (alpha ∷ rest.0, miu ∷ rest.1))
