-- ===== src/Mpt/Sign/Products.antt =====
-- Rounds 1 and 2 of a signer among signers that follow the program.
use vdexnode.Common.{
  ℕ, ◌+◌, ◌*◌, ◌^◌, ◌≤◌, ◌<◌, ◌≡◌, refl, ap, String, List, [], ◌∷◌, ◌++◌, map, arith, length,
  length-map, ◌==◌, ==_refl,
}
use native.Mathlib.Nat.{zero-add}
use vdexnode.Common.Decimal.{to_string}
use vdexnode.Common.Outcome
use vdexnode.Common.Outcome.{Outcome, ok, index, assert}
use vdexnode.Mpt.Crypto.{Crypto}
use vdexnode.Mpt.Messages.{SignBroadcastPhase1, MessageA, MessageB}
use vdexnode.Mpt.SignKeys.{phase1_broadcast}
use vdexnode.Mpt.Parties.{indices, others, length-others}
use vdexnode.Mpt.Parties.Walk.{others_walk}
use vdexnode.Mpt.Rounds.Laws.{get_elem?-map}
use vdexnode.Mpt.Transport.{Sent, Entry}
use vdexnode.Mpt.Transport.Runs.{Runs, Runs-bind, Runs-lift, Runs-done, answer_after, copies}
use vdexnode.Mpt.Transport.Polling.{sendp2p-Runs, poll_for_returns}
use vdexnode.Mpt.Program.{Codec, Server}
use vdexnode.Mpt.Program.Scripts.{
  IsCodec, IsServer, Delays, message, received, exchanged, posted, exchange-Runs,
}
use vdexnode.Mpt.GenerateKey.{KeyFile}
use vdexnode.Mpt.GenerateKey.KeyFiles.{IsSound}
use vdexnode.Mpt.Sign.{position}
use vdexnode.Mpt.Sign.Loops.{read_answers}
use vdexnode.Mpt.Sign.Multiply.{Products, send_answers, multiply}
use vdexnode.Mpt.Sign.Main.{Draws}
use vdexnode.Mpt.Sign.Signers.{IsShared, signers}
use vdexnode.Mpt.Sign.Answers.{
  key_of, ek, m_a, gamma_answer, w_answer, bc1, answer_others-honest, read_round1-honest,
  read_answers_from, delta, sigma, check_answers-honest,
}

module _ (c : Crypto) where
  open c use {Seed, FE, to_bigint, keypair, modulus}

  module _ (laws : IsSound c) {n : ℕ} {file : ℕ → KeyFile c} {key : FE}
      (shared : IsShared c laws.f n file key) (draws : ℕ → Draws c) {srv : Server}
      (s : IsServer srv) (d : Delays) (uuid : String)
      (codec1 : Codec (SignBroadcastPhase1 × MessageA)) (read1 : IsCodec codec1)
      (codec2 : Codec (MessageB c × MessageB c)) (read2 : IsCodec codec2) where
    abbrev pub round1 : ℕ → String
    round1 j = codec1.print (bc1 c laws shared draws j, m_a c laws shared draws j)

    -- What signer j sends signer i.
    abbrev pub round2 : ℕ → ℕ → String
    round2 j i =
        codec2.print
          ((gamma_answer c laws shared draws j i).0, (w_answer c laws shared draws j i).0)

    module _ (me : ℕ) where
      abbrev pub answers_sent : List ℕ → List Sent
      answers_sent [] = []
      answers_sent (j ∷ js) = answer_after (d.sends "round2" j) s.ok_text ++ answers_sent js

      abbrev pub answers_set : List ℕ → List Entry
      answers_set [] = []
      answers_set (j ∷ js) =
          copies (d.sends "round2" j)
            (message s d me n uuid me (to_string j) "round2" (round2 me j) ∷ [])
          ++ answers_set js

      send_answers-Runs :
          Runs
            (send_answers c srv codec2 me uuid
              (map (λ i. (gamma_answer c laws shared draws me i).0) (others me 1 n))
              (map (λ i. (w_answer c laws shared draws me i).0) (others me 1 n))
              n
              1
              0)
            (answers_sent (others me 1 n))
            tt
            (answers_set (others me 1 n))
      unfolding send_answers others
      send_answers-Runs =
          others_walk me n
            (λ k i j.
              Runs
                (send_answers c srv codec2 me uuid
                  (map (λ i. (gamma_answer c laws shared draws me i).0) (others me 1 n))
                  (map (λ i. (w_answer c laws shared draws me i).0) (others me 1 n)) k i j)
                (answers_sent (others me i k)) tt (answers_set (others me i k)))
            (λ i j. Runs-done tt) (λ k i j lo hi h p. rw h p)
            (λ k i j lo hi h at p.
              let gamma_at : index {E = ⊥}
                    (map (λ i. (gamma_answer c laws shared draws me i).0) (others me 1 n)) j
                  ≡ ok (gamma_answer c laws shared draws me i).0 =
                ap Outcome.unwrap (get_elem?-map _ (others me 1 n) j i at) in
              let w_at : index {E = ⊥}
                    (map (λ i. (w_answer c laws shared draws me i).0) (others me 1 n)) j
                  ≡ ok (w_answer c laws shared draws me i).0 =
                ap Outcome.unwrap (get_elem?-map _ (others me 1 n) j i at) in
              rw h (
                Runs-lift _ gamma_at (
                  Runs-lift _ w_at (
                    Runs-bind _
                      (sendp2p-Runs srv.decode_unit (d.sends "round2" i) s.ok_text me i "round2"
                        (round2 me i) uuid s.read_ok)
                      p))))

      read_answers-honest :
          (threshold : ℕ)
          → threshold + 1 ≡ n
          → 1 ≤ me
          → me ≤ n
          → read_answers c codec2 (map (λ j. round2 j me) (others me 1 n)) threshold 0
            ≡ ok (
              map (λ j. (gamma_answer c laws shared draws j me).0) (others me 1 n),
              map (λ j. (w_answer c laws shared draws j me).0) (others me 1 n),
            )
      read_answers-honest threshold e lo hi =
          let size : threshold ≡ length (others me 1 n) =
            omega (arith, length-others me 1 n lo (omega arith)) in
          rw size (
            read_answers_from c laws shared draws me codec2 _
              (λ j.
                ((gamma_answer c laws shared draws j me).0, (w_answer c laws shared draws j me).0))
              read2 (others me 1 n) 0
              (λ k j p. rw zero-add (get_elem?-map (λ j. round2 j me) (others me 1 n) k j p)))

      module _
          (gamma_range : (i j : ℕ)
            → to_bigint (key_of c laws shared draws i).k_i
                  * to_bigint (key_of c laws shared draws j).gamma_i
                + ((draws j).gamma_answers i).beta_tag
              < modulus (ek c laws shared draws i))
          (w_range : (i j : ℕ)
            → to_bigint (key_of c laws shared draws i).k_i
                  * to_bigint (key_of c laws shared draws j).w_i
                + ((draws j).w_answers i).beta_tag
              < modulus (ek c laws shared draws i)) where
        abbrev pub products : Products c srv
        products = record {
          bc1_vec = map (bc1 c laws shared draws) (indices 1 n);
          decommit = (phase1_broadcast c (key_of c laws shared draws me) (draws me).blind).1;
          m_b_gamma_rec_vec = map (λ j. (gamma_answer c laws shared draws j me).0) (others me 1 n);
          delta_i = (delta c laws shared draws gamma_range w_range).0 me;
          sigma = (sigma c laws shared draws gamma_range w_range).0 me;
        }

        pub multiply-Runs :
            (own : c.EncryptionKey × c.DecryptionKey) (vss_vec : List c.VerifiableSs)
            (threshold : ℕ)
            → own ≡ keypair (shared.seed me)
            → vss_vec ≡ shared.vss_vec
            → threshold + 1 ≡ n
            → 1 ≤ me
            → me ≤ n
            → n < 2 ^ 32
            → Runs
                (multiply c srv codec1 codec2 threshold me uuid
                  (key_of c laws shared draws me)
                  own
                  (file me).paillier_key_vec
                  (signers c file n)
                  shared.xi_com_vec
                  vss_vec
                  (draws me).blind
                  (draws me).enc
                  (draws me).gamma_answers
                  (draws me).w_answers)
                (exchanged s d me n uuid "round1" round1
                  ++ (answers_sent (others me 1 n)
                      ++ (received s d me n uuid "round2" (λ j. round2 j me) ++ [])))
                products
                (posted s d me n uuid "round1" (round1 me)
                  ++ (answers_set (others me 1 n) ++ ([] ++ [])))
        unfolding multiply
        multiply-Runs own vss_vec threshold own_is vss_is e lo hi small =
            let same : assert {E = ⊥} (
                  length (signers c file n) == length (map (bc1 c laws shared draws) (indices 1 n)))
                ≡ ok tt =
              rw
                (
                  length-map (λ j. position (file j).party_num) (indices 1 n),
                  length-map (bc1 c laws shared draws) (indices 1 n),
                  ==_refl (length (indices 1 n)),
                )
                refl in
            rw (own_is, vss_is, e)
              (Runs-bind _ (exchange-Runs s d me n uuid "round1" round1) (
                Runs-lift _ (read_round1-honest c laws shared draws me codec1 read1) (
                  Runs-lift _ same (
                    Runs-lift _
                      (answer_others-honest c laws shared draws me
                        (key_of c laws shared draws me).gamma_i (draws me).gamma_answers small)
                      (Runs-lift _
                        (answer_others-honest c laws shared draws me
                          (key_of c laws shared draws me).w_i (draws me).w_answers small)
                        (Runs-bind _ send_answers-Runs (
                          Runs-bind _
                            (poll_for_returns srv.decode_entry s.pending s.read_pending
                              (d.waits "round2") (d.lost "round2")
                              (λ j.
                                s.entry_text
                                  (message s d me n uuid j (to_string me) "round2" (round2 j me)))
                              (λ j. message s d me n uuid j (to_string me) "round2" (round2 j me))
                              (λ j.
                                s.read_entry
                                  (message s d me n uuid j (to_string me) "round2" (round2 j me)))
                              me n "round2" uuid).1
                            (Runs-lift _ (read_answers-honest threshold e lo hi) (
                              Runs-lift _
                                (check_answers-honest c laws shared draws gamma_range w_range me
                                  small)
                                (Runs-lift _ ((delta c laws shared draws gamma_range w_range).1 me)
                                  (Runs-lift _
                                    ((sigma c laws shared draws gamma_range w_range).1 me)
                                    (Runs-done products))))))))))))
