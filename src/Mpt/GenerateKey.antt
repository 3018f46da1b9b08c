-- ===== src/Mpt/GenerateKey.antt =====
-- `main` of vDexNode/mpt/src/bin/generate_key.rs: the five rounds of key generation, from the
-- arguments to the key file. What the party samples is `Draws`; rust-crypto's AES-GCM and curv's
-- byte strings are an Aead. The file that is written is the program's value.
pub mod Honest
pub mod Checks
pub mod KeyFiles
pub mod Complete
pub mod Refusal
pub mod Consistent
pub mod Valid
pub mod Agreement
use vdexnode.Common.{
  ℕ, zero, suc, ◌+◌, ◌-◌, ◌^◌, String, Option, none, some, List, [], ◌∷◌, ◌==◌, if◌then◌else◌,
  get_elem?,
}
use vdexnode.Common.Decimal.{parse}
use vdexnode.Common.Outcome
use vdexnode.Common.Outcome.{Outcome}
use vdexnode.Mpt.Crypto.{Crypto}
use vdexnode.Mpt.Messages.{
  Error, Parameters, Keys, KeyGenBroadcastMessage1, KeyGenDecommitMessage1, SharedKeys,
}
use vdexnode.Mpt.Rounds.{fold_head, collect_from}
use vdexnode.Mpt.KeyGen.{
  create, phase1_broadcast_phase3_proof_of_correct_key,
  phase1_verify_com_phase3_verify_correct_key_phase2_distribute,
  phase2_verify_vss_construct_keypair_phase3_pok_dlog, verify_dlog_proofs,
}
use vdexnode.Mpt.Transport.{
  World, Ran, done, panicked, ◌>>=◌, pure, unwrap, lift, signup, sendp2p, poll_for_p2p,
}
use vdexnode.Mpt.Sealing.{Sealed, Aead, nonce, read_decommits, open_shares}
use vdexnode.Mpt.Program.{Codec, Server, Params, read_params, check_args, exchange, exchange_all}

module _ (c : Crypto) where
  open c use {
    Seed, FE, of_bigint, to_bigint, GE, ◌⊞◌, x_coor, EncryptionKey, DLogProof, VerifiableSs,
  }

  infixl 65 ◌⊞◌
  pub record Draws : Type 0 where
    pub u : FE
    pub paillier : Seed
    pub blind : ℕ
    pub sharing : Seed
    pub proof : Seed

  -- What is saved.
  pub record KeyFile : Type 0 where
    pub party_keys : Keys c
    pub shared_keys : SharedKeys c
    pub party_num : ℕ
    pub vss_scheme_vec : List VerifiableSs
    pub paillier_key_vec : List EncryptionKey
    pub y_sum : GE

  pub record Wire : Type 0 where
    pub params_from_str : String → Option Params
    pub broadcast1 : Codec (KeyGenBroadcastMessage1 c)
    pub decommit1 : Codec (KeyGenDecommitMessage1 c)
    pub aead_pack : Codec Sealed
    pub vss : Codec VerifiableSs
    pub dlog_proof : Codec DLogProof
    pub key_file : Codec KeyFile

  module _ (srv : Server) (aead : Aead) (wire : Wire) where
    -- The loop that sends each other party its share, with counters j and k.
    unfoldable pub send_shares :
        ℕ → String → List ℕ → List FE → ℕ → ℕ → ℕ → ℕ → World → Ran (Unit {0})
    unfolding sendp2p nonce
    send_shares me uuid enc_keys secret_shares zero i j k = pure tt
    send_shares me uuid enc_keys secret_shares (suc n) i j k =
        let own = send_shares me uuid enc_keys secret_shares n (i + 1) j (k + 1) in
        let other = send_shares me uuid enc_keys secret_shares n (i + 1) (j + 1) (k + 1) in
        if i == me then own else (do
          key_i ← lift {E = ⊥} (Outcome.index enc_keys j)
          share ← lift {E = ⊥} (Outcome.index secret_shares k)
          pack ← unwrap (aead.encrypt (aead.to_vec key_i) nonce (aead.to_vec (to_bigint share)))
          sent ← sendp2p srv.decode_unit me i "round3" (wire.aead_pack.print pack) uuid
          ok ← unwrap sent
          other)

    -- The rounds, for party `me` of `n`.
    unfoldable pub rounds : Draws → ℕ → ℕ → ℕ → String → World → Ran KeyFile
    unfolding send_shares
    rounds draws threshold n me uuid = do
      let parames : Parameters = record { threshold = threshold; share_count = n }
      let party_keys = create c draws.u draws.paillier me
      let first = phase1_broadcast_phase3_proof_of_correct_key c party_keys draws.blind
      bc1_vec ← exchange_all srv me n uuid wire.broadcast1 "round1" first.0
      round2 ← exchange srv me n uuid "round2" (wire.decommit1.print first.1)
      read ← lift (read_decommits c wire.decommit1 round2 party_keys first.1 me n 1 0)
      y_sum ← lift {E = ⊥} (fold_head ◌⊞◌ read.0)
      dealt ← lift (
          phase1_verify_com_phase3_verify_correct_key_phase2_distribute c party_keys parames read.1
            bc1_vec draws.sharing)
      ok ← send_shares me uuid read.2 dealt.1 n 1 0 0
      round3 ← poll_for_p2p srv.decode_entry me n "round3" uuid
      party_shares ← lift (open_shares c aead wire.aead_pack me read.2 dealt.1 round3 n 1 0)
      vss_scheme_vec ← exchange_all srv me n uuid wire.vss "round4" dealt.0
      made ← lift (
          phase2_verify_vss_construct_keypair_phase3_pok_dlog c party_keys parames read.0
            party_shares vss_scheme_vec me draws.proof)
      dlog_proof_vec ← exchange_all srv me n uuid wire.dlog_proof "round5" made.1
      verified ← lift (verify_dlog_proofs c parames dlog_proof_vec read.0)
      paillier_key_vec ← lift {E = ⊥} (
          collect_from 0 n (λ i. Outcome.◌>>=◌ (Outcome.index bc1_vec i) (λ bc1. Outcome.ok bc1.e)))
      pure (record {
        party_keys = party_keys;
        shared_keys = made.0;
        party_num = me;
        vss_scheme_vec = vss_scheme_vec;
        paillier_key_vec = paillier_key_vec;
        y_sum = y_sum;
      })

    -- The file's name and its text.
    unfoldable pub main : List String → Option String → Draws → World → Ran (String × String)
    unfolding rounds signup check_args read_params
    main args config draws = do
      checked ← lift (check_args 2 args)
      params ← lift (read_params wire.params_from_str config)
      parties ← unwrap (parse (2 ^ 32) params.parties)
      threshold ← unwrap (parse (2 ^ 32) params.threshold)
      answer ← signup srv.decode_signup "signupkeygen" "keygen"
      party ← unwrap answer
      file ← rounds draws threshold parties party.number party.uuid
      path ← unwrap (get_elem? args 2)
      pure (path, wire.key_file.print file)
