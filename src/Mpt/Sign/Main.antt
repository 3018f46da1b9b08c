-- ===== src/Mpt/Sign/Main.antt =====
-- `main` of vDexNode/mpt/src/bin/sign.rs, from the arguments to the text of the file `signature`.
-- hex::decode and curv's `BigInt::from` of bytes are parameters, and so are the texts of the files
-- that are read.
use vdexnode.Common.{ℕ, ◌+◌, ◌%◌, ◌^◌, String, Option, none, some, List, get_elem?, as_bytes}
use vdexnode.Common.Decimal.{parse}
use vdexnode.Common.Outcome
use vdexnode.Common.Outcome.{Outcome}
use vdexnode.Mpt.Crypto.{Crypto}
use vdexnode.Mpt.Messages.{
  SignBroadcastPhase1, MessageA, MessageB, Signature, SignKeys, LocalSignature,
}
use vdexnode.Mpt.PartyPrivate.{set_private}
use vdexnode.Mpt.KeyGen.{get_commitments_to_xi}
use vdexnode.Mpt.SignKeys.{create}
use vdexnode.Mpt.LocalSignature.{phase5_local_sig}
use vdexnode.Mpt.Transport.{World, Ran, ◌>>=◌, pure, unwrap, lift, signup}
use vdexnode.Mpt.Program.{Codec, Server, Params, read_params, check_args, exchange}
use vdexnode.Mpt.GenerateKey.{KeyFile}
use vdexnode.Mpt.Sign.{position}
use vdexnode.Mpt.Sign.Loops.{AnswerDraws, read_signers}
use vdexnode.Mpt.Sign.Multiply.{multiply}
use vdexnode.Mpt.Sign.Output
use vdexnode.Mpt.Sign.Output.{open_nonce, output}

-- The bytes that are signed: of a hexadecimal argument, or else of its text.
unfoldable pub message_bytes : (String → Option (List ℕ)) → String → List ℕ
unfolding as_bytes
message_bytes hex_decode message_str = elim (hex_decode message_str) [
  | some bytes ↦ bytes
  | none ↦ as_bytes message_str
]

module _ (c : Crypto) where
  open c use {Seed, FE}

  pub record Draws : Type 0 where
    pub gamma_i : FE
    pub k_i : FE
    pub blind : ℕ
    pub enc : Seed
    pub gamma_answers : ℕ → AnswerDraws c
    pub w_answers : ℕ → AnswerDraws c
    pub l_i : FE
    pub rho_i : FE
    pub blind5 : ℕ
    pub elgamal : Seed
    pub blind5c : ℕ

  pub record Wire : Type 0 where
    pub params_from_str : String → Option Params
    pub key_file_from_str : String → Option (KeyFile c)
    pub party_id : Codec ℕ
    pub round1 : Codec (SignBroadcastPhase1 × MessageA)
    pub round2 : Codec (MessageB c × MessageB c)
    pub later : Output.Wire c
    pub sign_json : Signature c → String

  module _ (srv : Server) (wire : Wire) where
    -- Round 0: the signers' positions, and this signer's keys.
    unfoldable pub gather : Draws → ℕ → KeyFile c → ℕ → String → World → Ran (List ℕ × SignKeys c)
    unfolding exchange position set_private create read_signers
    gather draws threshold file me uuid = do
      let n = threshold + 1
      round0 ← exchange srv me n uuid "round0" (wire.party_id.print file.party_num)
      signers_vec ← lift (read_signers wire.party_id round0 file.party_num me n 1 0)
      let private = set_private c file.party_keys file.shared_keys
      signer ← lift {E = ⊥} (Outcome.index signers_vec (position me))
      vss ← lift {E = ⊥} (Outcome.index file.vss_scheme_vec signer)
      pure (signers_vec, create c private vss signer signers_vec draws.gamma_i draws.k_i)

    -- Rounds 1 to 4: the local signature and the nonce point.
    unfoldable pub prepare :
        Draws
        → ℕ
        → KeyFile c
        → ℕ
        → String
        → ℕ
        → List ℕ
        → SignKeys c
        → World
        → Ran (LocalSignature c × c.GE)
    unfolding multiply open_nonce
    prepare draws threshold file me uuid message_bn signers_vec sign_keys = do
      xi_com_vec ← lift (get_commitments_to_xi c file.vss_scheme_vec)
      made ←
          multiply c srv wire.round1 wire.round2 threshold me uuid sign_keys
            (file.party_keys.ek, file.party_keys.dk) file.paillier_key_vec signers_vec xi_com_vec
            file.vss_scheme_vec draws.blind draws.enc draws.gamma_answers draws.w_answers
      r_point ←
          open_nonce c srv wire.later threshold me uuid made.delta_i made.decommit made.bc1_vec
            made.m_b_gamma_rec_vec
      local_sig ← lift (
          phase5_local_sig c draws.k_i message_bn r_point made.sigma file.y_sum draws.l_i
            draws.rho_i)
      pure (local_sig, r_point)

    -- All rounds, with the message as a number.
    unfoldable pub rounds : Draws → ℕ → KeyFile c → ℕ → String → ℕ → World → Ran (Signature c)
    unfolding gather prepare output
    rounds draws threshold file me uuid message_bn = do
      gathered ← gather draws threshold file me uuid
      prepared ← prepare draws threshold file me uuid message_bn gathered.0 gathered.1
      output c srv wire.later threshold me uuid prepared.0 prepared.1 draws.blind5 draws.elgamal
          draws.blind5c

    -- `key_data` and `config` are the texts of the key file and of config/server.conf.
    unfoldable pub main :
        (String → Option (List ℕ))
        → (List ℕ → ℕ)
        → List String
        → Option String
        → Option String
        → Draws
        → World
        → Ran String
    unfolding message_bytes rounds signup check_args read_params
    main hex_decode of_bytes args key_data config draws = do
      checked ← lift (check_args 3 args)
      message_str ← unwrap (get_elem? args 3)
      text ← unwrap key_data
      file ← unwrap (wire.key_file_from_str text)
      params ← lift (read_params wire.params_from_str config)
      threshold ← unwrap (parse (2 ^ 32) params.threshold)
      answer ← signup srv.decode_signup "signupsign" "sign"
      party ← unwrap answer
      let message_bn = of_bytes (message_bytes hex_decode message_str) % 2 ^ 256
      sig ← rounds draws threshold file party.number party.uuid message_bn
      pure (wire.sign_json sig)
