-- ===== src/Mpt/Sign/Answers.antt =====
-- What the loops of rounds 1 and 2 make of the messages of signers that follow the program.
use vdexnode.Common.{
  ℕ, suc, ◌+◌, ◌*◌, ◌^◌, ◌<◌, ◌≡◌, refl, sym, ap, ◌∙◌, String, some, List, [], ◌∷◌, map, arith,
  length, get_elem?, ==_iff, true,
}
use vdexnode.Common.Outcome.{ok}
use vdexnode.Mpt.Crypto.{Crypto}
use vdexnode.Mpt.Messages.{SignKeys, SignBroadcastPhase1, MessageA, MessageB}
use vdexnode.Mpt.Algebra.{ge_eq_refl}
use vdexnode.Mpt.KeyGen.{update_commitments_to_xi}
use vdexnode.Mpt.PartyPrivate.{set_private}
use vdexnode.Mpt.SignKeys.{create, phase1_broadcast, phase2_delta_i, phase2_sigma_i}
use vdexnode.Mpt.SignKeys.Correct.{phase2_delta_i_sum, phase2_sigma_i_sum}
use vdexnode.Mpt.MtA.{message_a, message_b, verify_proofs_get_alpha}
use vdexnode.Mpt.MtA.Correct.{verify_proofs_get_alpha-message_b}
use vdexnode.Mpt.Parties.{indices, others}
use vdexnode.Mpt.Parties.Walk.{others_walk}
use vdexnode.Mpt.Parties.Pairs.{sum_all}
use native.Mathlib.Nat.{add-zero}
use vdexnode.Mpt.Rounds.Laws.{get_elem?-map, shift_index}
use vdexnode.Mpt.Program.{Codec}
use vdexnode.Mpt.Program.Scripts.{IsCodec}
use vdexnode.Mpt.GenerateKey.{KeyFile}
use vdexnode.Mpt.GenerateKey.KeyFiles.{IsSound}
use vdexnode.Mpt.Sign.{position}
use vdexnode.Mpt.Sign.Loops.{AnswerDraws, read_round1, answer_others, read_answers, check_answers}
use vdexnode.Mpt.Sign.Main.{Draws}
use vdexnode.Mpt.Sign.Signers.{IsShared, keys, signers, signer_at}

module _ (c : Crypto) where
  open c use {
    Seed, FE, GE, to_bigint, ◌⊗◌, ◌⊕◌, generator, ◌⊛◌, keypair, modulus, EncryptionKey, pk,
  }

  infixl 65 ◌⊕◌
  infixl 70 ◌⊗◌ ◌⊛◌
  module _ (laws : IsSound c) {n : ℕ} {file : ℕ → KeyFile c} {key : FE}
      (shared : IsShared c laws.f n file key) (draws : ℕ → Draws c) where
    abbrev pub key_of : ℕ → SignKeys c
    key_of = keys c shared draws

    abbrev pub ek : ℕ → EncryptionKey
    ek j = (keypair (shared.seed j)).0

    abbrev pub m_a : ℕ → MessageA
    m_a j = message_a c (key_of j).k_i (ek j) (draws j).enc

    -- What a signer with scalar `b` and its draws answers signer i.
    abbrev pub answer : FE → (ℕ → AnswerDraws c) → ℕ → MessageB c × FE
    answer b r i =
        message_b c b (ek i) (m_a i) (r i).beta_tag (r i).enc (r i).b_proof (r i).beta_proof

    abbrev pub gamma_answer : ℕ → ℕ → MessageB c × FE
    gamma_answer j = answer (key_of j).gamma_i (draws j).gamma_answers

    abbrev pub w_answer : ℕ → ℕ → MessageB c × FE
    w_answer j = answer (key_of j).w_i (draws j).w_answers

    abbrev pub bc1 : ℕ → SignBroadcastPhase1
    bc1 j = (phase1_broadcast c (key_of j) (draws j).blind).0

    module _ (me : ℕ) where
      pub answer_others-honest :
          (b : FE) (r : ℕ → AnswerDraws c)
          → n < 2 ^ 32
          → answer_others c b
              (file me).paillier_key_vec
              (signers c file n)
              (map m_a (others me 1 n))
              r
              me
              n
              1
              0
            ≡ ok (
              map (λ i. (answer b r i).0) (others me 1 n),
              map (λ i. (answer b r i).1) (others me 1 n),
            )
      unfolding answer_others others
      answer_others-honest b r small =
          others_walk me n
            (λ k i j.
              answer_others c b (file me).paillier_key_vec (signers c file n)
                (map m_a (others me 1 n)) r me k i j
              ≡ ok (
                map (λ i. (answer b r i).0) (others me i k),
                map (λ i. (answer b r i).1) (others me i k),
              ))
            (λ i j. refl) (λ k i j lo hi h p. rw (h, p) refl)
            (λ k i j lo hi h at p.
              rw
                (
                  h,
                  signer_at c file n i lo (omega arith) small,
                  shared.paillier_at me i,
                  get_elem?-map m_a (others me 1 n) j i at,
                  p,
                )
                refl)

      pub read_round1-honest :
          (codec : Codec (SignBroadcastPhase1 × MessageA))
          → IsCodec codec
          → read_round1 codec
              (map (λ j. codec.print (bc1 j, m_a j)) (others me 1 n))
              (bc1 me)
              me
              n
              1
              0
            ≡ ok (map bc1 (indices 1 n), map m_a (others me 1 n))
      unfolding read_round1 indices others
      read_round1-honest codec e =
          others_walk me n
            (λ k i j.
              read_round1 codec (map (λ j. codec.print (bc1 j, m_a j)) (others me 1 n)) (bc1 me) me
                k i j
              ≡ ok (map bc1 (indices i k), map m_a (others me i k)))
            (λ i j. refl) (λ k i j lo hi h p. rw (h, p, (==_iff i me).0 h) refl)
            (λ k i j lo hi h at p.
              rw
                (
                  h,
                  get_elem?-map (λ j. codec.print (bc1 j, m_a j)) (others me 1 n) j i at,
                  e (bc1 i, m_a i),
                  p,
                )
                refl)

      pub read_answers_from :
          (codec : Codec (MessageB c × MessageB c)) (answers : List String)
          (v : ℕ → MessageB c × MessageB c)
          → IsCodec codec
          → (js : List ℕ) (i : ℕ)
          → ((k j : ℕ)
              → get_elem? js k ≡ some j
              → get_elem? answers (i + k) ≡ some (codec.print (v j)))
          → read_answers c codec answers (length js) i
            ≡ ok (map (λ j. (v j).0) js, map (λ j. (v j).1) js)
      unfolding read_answers
      read_answers_from codec answers v e [] i h = refl
      read_answers_from codec answers v e (j ∷ js) i h =
          let head : get_elem? answers i ≡ some (codec.print (v j)) =
            ap (get_elem? answers) (sym (add-zero i)) ∙ h 0 j refl in
          rw
            (
              head,
              e (v j),
              read_answers_from codec answers v e js (i + 1)
                  (λ k x p. rw (shift_index i k) (h (suc k) x p)),
            )
            refl

      -- The point that an answer carries is the one that everybody computes for its signer.
      proved_point :
          (i : ℕ)
          → c.ge_eq (pk (w_answer i me).0.b_proof) (
              update_commitments_to_xi c
                (shared.xi_com i)
                (shared.vss i)
                (position (file i).party_num)
                (signers c file n))
            ≡ true
      unfolding message_b create set_private
      proved_point i =
          rw
            (
              laws.complete.pk-prove (key_of i).w_i ((draws i).w_answers me).b_proof,
              shared.weight_at i,
            )
            (ge_eq_refl c laws.m _)

    -- Every exchange stays below the modulus of the asking signer.
    module _
        (gamma_range : (i j : ℕ)
          → to_bigint (key_of i).k_i * to_bigint (key_of j).gamma_i
              + ((draws j).gamma_answers i).beta_tag
            < modulus (ek i))
        (w_range : (i j : ℕ)
          → to_bigint (key_of i).k_i * to_bigint (key_of j).w_i + ((draws j).w_answers i).beta_tag
            < modulus (ek i)) where
      -- Signer i's share of its exchange with signer j, and that the answer gives it.
      pub gamma_share :
          (i j : ℕ)
          → (alpha : FE) × (verify_proofs_get_alpha c
                (gamma_answer j i).0
                (keypair (shared.seed i)).1
                (key_of i).k_i
              ≡ ok alpha)
            × (alpha ⊕ (gamma_answer j i).1 ≡ (key_of i).k_i ⊗ (key_of j).gamma_i)
      gamma_share i j =
          let r = (draws j).gamma_answers i in
          verify_proofs_get_alpha-message_b c laws.m laws.complete laws.paillier (key_of i).k_i
            (key_of j).gamma_i r.beta_tag (shared.seed i) (draws i).enc r.enc r.b_proof r.beta_proof
            (gamma_range i j)

      pub w_share :
          (i j : ℕ)
          → (miu : FE) × (verify_proofs_get_alpha c
                (w_answer j i).0
                (keypair (shared.seed i)).1
                (key_of i).k_i
              ≡ ok miu)
            × (miu ⊕ (w_answer j i).1 ≡ (key_of i).k_i ⊗ (key_of j).w_i)
      w_share i j =
          let r = (draws j).w_answers i in
          verify_proofs_get_alpha-message_b c laws.m laws.complete laws.paillier (key_of i).k_i
            (key_of j).w_i r.beta_tag (shared.seed i) (draws i).enc r.enc r.b_proof r.beta_proof
            (w_range i j)

      pub delta :
          (delta : ℕ → FE) × ((i : ℕ)
            → phase2_delta_i c
                (key_of i)
                (map (λ j. (gamma_share i j).0) (others i 1 n))
                (map (λ j. (gamma_answer i j).1) (others i 1 n))
              ≡ ok (delta i))
          × (sum_all c laws.f n delta
              ≡ sum_all c laws.f n (λ i. (key_of i).k_i)
                ⊗ sum_all c laws.f n (λ i. (key_of i).gamma_i))
      delta =
          phase2_delta_i_sum c laws.f n key_of (λ i j. (gamma_share i j).0)
            (λ i j. (gamma_answer i j).1) (λ i j. (gamma_share i j).2)

      pub sigma :
          (sigma : ℕ → FE) × ((i : ℕ)
            → phase2_sigma_i c
                (key_of i)
                (map (λ j. (w_share i j).0) (others i 1 n))
                (map (λ j. (w_answer i j).1) (others i 1 n))
              ≡ ok (sigma i))
          × (sum_all c laws.f n sigma
              ≡ sum_all c laws.f n (λ i. (key_of i).k_i) ⊗ sum_all c laws.f n (λ i. (key_of i).w_i))
      sigma =
          phase2_sigma_i_sum c laws.f n key_of (λ i j. (w_share i j).0) (λ i j. (w_answer i j).1)
            (λ i j. (w_share i j).2)

      module _ (me : ℕ) where
        pub check_answers-honest :
            n < 2 ^ 32
            → check_answers c
                (keypair (shared.seed me)).1
                (key_of me).k_i
                (map (λ j. (gamma_answer j me).0) (others me 1 n))
                (map (λ j. (w_answer j me).0) (others me 1 n))
                shared.xi_com_vec
                shared.vss_vec
                (signers c file n)
                me
                n
                1
                0
              ≡ ok (
                map (λ j. (gamma_share me j).0) (others me 1 n),
                map (λ j. (w_share me j).0) (others me 1 n),
              )
        unfolding check_answers others
        check_answers-honest small =
            others_walk me n
              (λ k i j.
                check_answers c (keypair (shared.seed me)).1 (key_of me).k_i
                  (map (λ j. (gamma_answer j me).0) (others me 1 n))
                  (map (λ j. (w_answer j me).0) (others me 1 n)) shared.xi_com_vec shared.vss_vec
                  (signers c file n) me k i j
                ≡ ok (
                  map (λ j. (gamma_share me j).0) (others me i k),
                  map (λ j. (w_share me j).0) (others me i k),
                ))
              (λ i j. refl) (λ k i j lo hi h p. rw (h, p) refl)
              (λ k i j lo hi h at p.
                rw
                  (
                    h,
                    get_elem?-map (λ j. (gamma_answer j me).0) (others me 1 n) j i at,
                    (gamma_share me i).1,
                    get_elem?-map (λ j. (w_answer j me).0) (others me 1 n) j i at,
                    (w_share me i).1,
                    signer_at c file n i lo (omega arith) small,
                    shared.xi_com_at i,
                    shared.vss_at i,
                    proved_point me i,
                    p,
                  )
                  refl)
