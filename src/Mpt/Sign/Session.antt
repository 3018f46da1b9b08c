-- ===== src/Mpt/Sign/Session.antt =====
-- A key generation and a signing with its keys: the programs vDexNode/mpt/src/bin/generate_key.rs
-- and bin/sign.rs, one after the other.
use vdexnode.Common.{
  ℕ, ◌+◌, ◌*◌, ◌%◌, ◌^◌, ◌≤◌, ◌<◌, ◌≡◌, ◌≢◌, refl, String, Bool, Option, some, none, List, [], ◌++◌,
  length, get_elem?,
}
use vdexnode.Common.Decimal.{parse}
use vdexnode.Common.Outcome.{ok}
use vdexnode.Mpt.Crypto.{Crypto}
use vdexnode.Mpt.Crypto.Laws.{IsReconstructing}
use vdexnode.Mpt.Messages.{Signature}
use vdexnode.Mpt.LocalSignature.{verify}
use vdexnode.Mpt.Parties.Pairs.{sum_all}
use vdexnode.Mpt.Transport.Runs.{Runs, answer_after}
use vdexnode.Mpt.Program.{Server, Params, read_params}
use vdexnode.Mpt.Program.Scripts.{IsServer, Delays}
use vdexnode.Mpt.Sealing.{Aead}
use vdexnode.Mpt.GenerateKey
use vdexnode.Mpt.GenerateKey.{KeyFile}
use vdexnode.Mpt.GenerateKey.Complete as Generation
use vdexnode.Mpt.GenerateKey.Honest.{IsAead, y}
use vdexnode.Mpt.GenerateKey.KeyFiles.{IsSound, private_key, public_key, key_file}
use vdexnode.Mpt.Sign.Main.{Draws, Wire, message_bytes, main}
use vdexnode.Mpt.Sign.Signers.{IsShared}
use vdexnode.Mpt.Sign.Answers.{key_of, ek}
use vdexnode.Mpt.Sign.Nonces.{r_point}
use vdexnode.Mpt.Sign.Complete.{IsWire, answers, sets, plain_signature, nonce_sum, rounds_signs}
use vdexnode.Mpt.Sign.Generated.{file, positions, key_file-IsShared}
use vdexnode.Mpt.Sign.Run.{main_signs}

module _ (c : Crypto) where
  open c use {FE, GE, zero_fe, to_bigint, ◌⊗◌, ◌⊞◌, x_coor, modulus, share}

  infixl 65 ◌⊞◌
  infixl 70 ◌⊗◌
  module _ (laws : IsSound c) (t n : ℕ) (keygen_draws : ℕ → GenerateKey.Draws c) (part : ℕ → ℕ → FE)
      (dealt : (j i : ℕ)
        → i < n
        → get_elem? (share t n (keygen_draws j).u (keygen_draws j).sharing).1 i ≡ some (part j i))
      (chosen : ℕ → ℕ) (from : (j : ℕ) → 1 ≤ chosen j) (to : (j : ℕ) → chosen j ≤ n)
      (few : n < 2 ^ 32)
      (rec : IsReconstructing c t n
        (positions c laws t n keygen_draws part dealt chosen (t + 1))
        laws.f)
      (draws : ℕ → Draws c) where
    -- The key files of the chosen parties are shared, and these are the signers' keys.
    abbrev pub shared :
        IsShared c laws.f
          (t + 1)
          (file c laws t n keygen_draws part dealt chosen (t + 1))
          (private_key c laws t n keygen_draws)
    shared = key_file-IsShared c laws t n keygen_draws part dealt chosen (t + 1) from to few rec

    module _
        (gamma_range : (i j : ℕ)
          → to_bigint (key_of c laws shared draws i).k_i
                * to_bigint (key_of c laws shared draws j).gamma_i
              + ((draws j).gamma_answers i).beta_tag
            < modulus (ek c laws shared draws i))
        (w_range : (i j : ℕ)
          → to_bigint (key_of c laws shared draws i).k_i
                * to_bigint (key_of c laws shared draws j).w_i
              + ((draws j).w_answers i).beta_tag
            < modulus (ek c laws shared draws i))
        (message xr : ℕ)
        (hx : x_coor (r_point c laws.m (t + 1) (key_of c laws shared draws)) ≡ some xr)
        (not_zero : sum_all c laws.f (t + 1) (λ i. (key_of c laws shared draws i).k_i)
            ⊗ sum_all c laws.f (t + 1) (λ i. (key_of c laws shared draws i).gamma_i)
          ≢ zero_fe) where
      abbrev pub signature : Signature c
      signature =
          plain_signature c (private_key c laws t n keygen_draws)
            (nonce_sum c laws shared draws gamma_range w_range message xr hx not_zero) xr message

      module _ (coordinate : ℕ → ℕ → ℕ)
          (coordinates : (i j : ℕ)
            → x_coor (y c t n keygen_draws i ⊞ y c t n keygen_draws j) ≡ some (coordinate i j))
          {aead : Aead} (sealing : IsAead aead)
          (long : (i j : ℕ) → length (aead.to_vec (coordinate i j)) ≡ 32) {srv : Server}
          (s : IsServer srv) {keygen_wire : GenerateKey.Wire c}
          (keygen_w : Generation.IsWire c keygen_wire) {wire : Wire c} (w : IsWire c wire)
          (read_back : (file : KeyFile c)
            → wire.key_file_from_str (keygen_wire.key_file.print file) ≡ some file)
          (keygen_delays delays : Delays) (keygen_uuid uuid : String) where
        -- Parties 1 to `n` generate keys with threshold `t`, and of any t + 1 of them that can
        -- reconstruct, each signs with the text that it has saved; all follow the programs, the
        -- libraries and texts do as they promise, every two parties have an encryption key of 32
        -- bytes, the draws stay in the ranges of the exchanges, and neither k times gamma nor the s
        -- of the signature is zero. Then both programs use up their answers, late and after lost
        -- sends as they may be, and return: generate_key saves the key file, and sign, reading that
        -- text, saves the signature that ECDSA would make of the message with the sum of all `u` as
        -- the private key. It is the same for every signer and valid for the public key that the
        -- key generation put out.
        pub generation_signs :
            (keygen_args args : List String) (path message_str : String)
            (keygen_config config : Option String) (keygen_lost lost : Bool)
            (keygen_params params : Params) (hex_decode : String → Option (List ℕ))
            (of_bytes : List ℕ → ℕ) (me : ℕ) (lo : 1 ≤ me) (hi : me ≤ t + 1) (two : 1 ≤ t)
            (signers_few : t + 1 < 2 ^ 32)
            → get_elem? keygen_args 2 ≡ some path
            → get_elem? keygen_args 3 ≡ none
            → read_params keygen_wire.params_from_str keygen_config ≡ ok keygen_params
            → parse (2 ^ 32) keygen_params.parties ≡ some n
            → parse (2 ^ 32) keygen_params.threshold ≡ some t
            → get_elem? args 3 ≡ some message_str
            → get_elem? args 4 ≡ none
            → read_params wire.params_from_str config ≡ ok params
            → parse (2 ^ 32) params.threshold ≡ some t
            → of_bytes (message_bytes hex_decode message_str) % 2 ^ 256 ≡ message
            → signature.s ≢ zero_fe
            → let text =
                keygen_wire.key_file.print (key_file c laws t n keygen_draws part (chosen me)) in
              Runs
                (GenerateKey.main c srv aead keygen_wire keygen_args keygen_config
                  (keygen_draws (chosen me)))
                (answer_after keygen_lost
                    (s.signup_text (record { number = chosen me; uuid = keygen_uuid }))
                  ++ (Generation.answers c laws t n keygen_draws coordinate coordinates part dealt
                        sealing long s keygen_delays keygen_uuid keygen_w
                        (chosen me)
                      ++ []))
                (path, text)
                (Generation.sets c laws t n keygen_draws coordinate coordinates part dealt sealing
                  long s keygen_delays keygen_uuid keygen_w
                  (chosen me))
              × Runs
                  (main c srv wire hex_decode of_bytes args (some text) config (draws me))
                  (answer_after lost (s.signup_text (record { number = me; uuid = uuid }))
                    ++ (answers c laws shared draws gamma_range w_range message xr hx not_zero s
                          delays uuid w t me refl two lo hi signers_few
                        ++ []))
                  (wire.sign_json signature)
                  (sets c laws shared draws gamma_range w_range message xr hx not_zero s delays uuid
                    w t me refl two lo hi signers_few)
              × (verify c signature (public_key c laws t n keygen_draws) message ≡ ok tt)
        generation_signs keygen_args args path message_str keygen_config config keygen_lost lost
              keygen_params params hex_decode of_bytes me lo hi two signers_few k_third k_no_more
              k_config k_parties k_threshold third no_more config_read e_threshold e_message
              nonzero =
            (
              Generation.main_complete c laws t n keygen_draws coordinate coordinates part dealt
                  sealing long s keygen_delays keygen_uuid keygen_w (chosen me) keygen_args path
                  keygen_config keygen_lost keygen_params k_third k_no_more k_config k_parties
                  k_threshold (from me) (to me),
              main_signs c laws shared draws gamma_range w_range message xr hx not_zero s delays
                  uuid w t me refl two lo hi signers_few hex_decode of_bytes args message_str
                  (keygen_wire.key_file.print (key_file c laws t n keygen_draws part (chosen me)))
                  config lost params third no_more
                  (read_back (key_file c laws t n keygen_draws part (chosen me))) config_read
                  e_threshold e_message nonzero,
              (rounds_signs c laws shared draws gamma_range w_range message xr hx not_zero s delays
                  uuid w t me refl two lo hi signers_few nonzero).1,
            )
