-- ===== src/Mpt/GenerateKey/Valid.antt =====
-- Whatever the other parties and the server answer, a key file that
-- vDexNode/mpt/src/bin/generate_key.rs saves holds together.
use vdexnode.Common.{ℕ, Option, ◌^◌, ◌≡◌, refl, String, List, get_elem?}
use vdexnode.Common.Decimal.{parse}
use vdexnode.Common.Outcome
use vdexnode.Common.Outcome.{Outcome, ok, index}
use vdexnode.Mpt.Crypto.{Crypto}
use vdexnode.Mpt.Crypto.Laws.{IsField, IsModule, IsBinding}
use vdexnode.Mpt.Messages.{Parameters, Keys, KeyGenBroadcastMessage1, KeyGenDecommitMessage1}
use vdexnode.Mpt.Rounds.{fold_head, collect_from}
use vdexnode.Mpt.KeyGen.{
  create, verify_dlog_proofs, phase1_broadcast_phase3_proof_of_correct_key,
  phase2_verify_vss_construct_keypair_phase3_pok_dlog,
  phase1_verify_com_phase3_verify_correct_key_phase2_distribute,
}
use vdexnode.Mpt.Transport.{World, done, ◌>>=◌, pure, lift, poll_for_p2p, unwrap, signup}
use vdexnode.Mpt.Transport.Ensures.{
  Ensures-given, Ensures, Ensures-bind, Ensures-lift, Ensures-done,
}
use vdexnode.Mpt.Sealing.{Aead, read_decommits, open_shares}
use vdexnode.Mpt.Program.{Server, exchange, exchange_all, check_args, read_params}
use vdexnode.Mpt.GenerateKey.{Draws, Wire, KeyFile, send_shares, rounds, main}
use vdexnode.Mpt.GenerateKey.Consistent.{Consistent, saved}

module _ (c : Crypto) where
  open c use {GE, FE, VerifiableSs, EncryptionKey, DLogProof, ◌⊞◌}

  module _ {f : IsField c} (m : IsModule c f) (binding : IsBinding c) (n me : ℕ) (draws : Draws c)
      (threshold : ℕ) where
    abbrev own : Keys c
    own = create c draws.u draws.paillier me

    abbrev parames : Parameters
    parames = record { threshold = threshold; share_count = n }

    module _ (srv : Server) (aead : Aead) (wire : Wire c) (uuid : String) where
      -- From the message of round 3 on.
      dealt_ensured :
          (bc1_vec : List (KeyGenBroadcastMessage1 c))
          (read : List GE × List (KeyGenDecommitMessage1 c) × List ℕ) (y_sum : GE)
          (dealt : VerifiableSs × List FE × ℕ)
          → fold_head {E = ⊥} ◌⊞◌ read.0 ≡ ok y_sum
          → phase1_verify_com_phase3_verify_correct_key_phase2_distribute c own parames read.1
              bc1_vec draws.sharing
            ≡ ok dealt
          → Ensures
              (do
                round3 ← poll_for_p2p srv.decode_entry me n "round3" uuid
                party_shares ←
                    lift (open_shares c aead wire.aead_pack me read.2 dealt.1 round3 n 1 0)
                vss_scheme_vec ← exchange_all srv me n uuid wire.vss "round4" dealt.0
                made ← lift (
                    phase2_verify_vss_construct_keypair_phase3_pok_dlog c own parames read.0
                      party_shares vss_scheme_vec me draws.proof)
                dlog_proof_vec ← exchange_all srv me n uuid wire.dlog_proof "round5" made.1
                verified ← lift (verify_dlog_proofs c parames dlog_proof_vec read.0)
                paillier_key_vec ←
                    lift {E = ⊥}
                      (collect_from 0 n (λ i. Outcome.◌>>=◌ (index bc1_vec i) (λ bc1. ok bc1.e)))
                pure (record {
                  party_keys = own;
                  shared_keys = made.0;
                  party_num = me;
                  vss_scheme_vec = vss_scheme_vec;
                  paillier_key_vec = paillier_key_vec;
                  y_sum = y_sum;
                }))
              (Consistent c n me own)
      dealt_ensured bc1_vec read y_sum dealt sum first =
          let P = Consistent c n me own in
          Ensures-bind P _ (poll_for_p2p srv.decode_entry me n "round3" uuid) (λ round3.
            Ensures-lift P _ (open_shares c aead wire.aead_pack me read.2 dealt.1 round3 n 1 0)
              (λ shares _.
                Ensures-bind P _ (exchange_all srv me n uuid wire.vss "round4" dealt.0) (λ vss_vec.
                  Ensures-lift P _
                    (phase2_verify_vss_construct_keypair_phase3_pok_dlog c own parames read.0 shares
                      vss_vec me draws.proof)
                    (λ made second.
                      Ensures-bind P _ (exchange_all srv me n uuid wire.dlog_proof "round5" made.1)
                        (λ proofs.
                          Ensures-lift P _ (verify_dlog_proofs c parames proofs read.0)
                            (λ verified _.
                              Ensures-lift P _
                                (collect_from {E = ⊥} 0 n
                                  (λ i. Outcome.◌>>=◌ (index bc1_vec i) (λ bc1. ok bc1.e)))
                                (λ keys keys_are. record {
                                  at = λ w.
                                      saved c m binding n me draws threshold read.1 bc1_vec dealt
                                        read.0 y_sum shares vss_vec made keys sum first second
                                        keys_are;
                                })))))))

      ensured : Ensures (rounds c srv aead wire draws threshold n me uuid) (Consistent c n me own)
      unfolding rounds
      ensured =
          let P = Consistent c n me own in
          let sent = phase1_broadcast_phase3_proof_of_correct_key c own draws.blind in
          Ensures-bind P _ (exchange_all srv me n uuid wire.broadcast1 "round1" sent.0) (λ bc1_vec.
            Ensures-bind P _ (exchange srv me n uuid "round2" (wire.decommit1.print sent.1))
              (λ round2.
                Ensures-lift P _ (read_decommits c wire.decommit1 round2 own sent.1 me n 1 0)
                  (λ read _. Ensures-lift P _ (fold_head {E = ⊥} ◌⊞◌ read.0) (λ y_sum sum.
                    Ensures-lift P _
                      (phase1_verify_com_phase3_verify_correct_key_phase2_distribute c own parames
                        read.1 bc1_vec draws.sharing)
                      (λ dealt first.
                        Ensures-bind P _
                          (send_shares c srv aead wire me uuid read.2 dealt.1 n 1 0 0)
                          (λ _. dealt_ensured bc1_vec read y_sum dealt sum first))))))

  module _ {f : IsField c} (m : IsModule c f) (binding : IsBinding c) (srv : Server) (aead : Aead)
      (wire : Wire c) (args : List String) (config : Option String) (draws : Draws c) where
    -- A path and the text of a key file that holds together, of party `me` of `n`.
    abbrev pub Saves : String × String → Type 0
    Saves written =
        (n : ℕ) × (me : ℕ) × (file : KeyFile c) × (Consistent c n me
          (create c draws.u draws.paillier me) file)
        × (written.1 ≡ wire.key_file.print file)

    main_ensured : Ensures (main c srv aead wire args config draws) Saves
    unfolding main
    main_ensured = Ensures-lift Saves _ (check_args 2 args) (λ _ _.
        Ensures-lift Saves _ (read_params wire.params_from_str config) (λ params _.
          Ensures-bind Saves _ (unwrap (parse (2 ^ 32) params.parties)) (λ parties.
            Ensures-bind Saves _ (unwrap (parse (2 ^ 32) params.threshold)) (λ threshold.
              Ensures-bind Saves _ (signup srv.decode_signup "signupkeygen" "keygen") (λ answer.
                Ensures-bind Saves _ (unwrap answer) (λ party.
                  Ensures-given Saves _
                    (Consistent c parties party.number
                      (create c draws.u draws.paillier party.number))
                    (rounds c srv aead wire draws threshold parties party.number party.uuid)
                    (ensured m binding parties party.number draws threshold srv aead wire
                      party.uuid)
                    (λ file consistent. Ensures-bind Saves _ (unwrap (get_elem? args 2)) (λ path.
                      record { at = λ w. (parties, party.number, file, consistent, refl) }))))))))

    -- The points are a module over the field of the scalars, and a share validates only if the
    -- commitments stand for it. Then a file that the program saves is the text of a key file that
    -- holds together, whatever answers it got: its Paillier keys were proved correct, what the
    -- schemes commit to sums to the public key, and the private share belongs to the point that the
    -- signers compute for this party from the schemes.
    pub main_consistent :
        (w w' : World) (written : String × String)
        → main c srv aead wire args config draws w ≡ done written w'
        → Saves written
    main_consistent w w' written h =
        Ensures-done Saves (main c srv aead wire args config draws) w w' written main_ensured h
