-- ===== src/Mpt/Sign/Run.antt =====
-- A whole run of vDexNode/mpt/src/bin/sign.rs, from its arguments to the text that it saves, among
-- signers that follow the program.
use vdexnode.Common.{
  ℕ, ◌+◌, ◌*◌, ◌%◌, ◌^◌, ◌≤◌, ◌<◌, ◌≡◌, ◌≢◌, String, Bool, Option, some, none, List, [], ◌++◌,
  get_elem?,
}
use vdexnode.Common.Decimal.{parse}
use vdexnode.Common.Outcome.{ok}
use vdexnode.Mpt.Crypto.{Crypto}
use vdexnode.Mpt.Parties.Pairs.{sum_all}
use vdexnode.Mpt.Transport.{PartySignup}
use vdexnode.Mpt.Transport.Runs.{
  Runs, Runs-bind, Runs-then, Runs-lift, Runs-unwrap, Runs-done, answer_after,
}
use vdexnode.Mpt.Transport.Polling.{signup-Runs}
use vdexnode.Mpt.Program.{Server, Params, check_args, read_params}
use vdexnode.Mpt.Program.Scripts.{IsServer, Delays, check_args_accepts}
use vdexnode.Mpt.GenerateKey.{KeyFile}
use vdexnode.Mpt.GenerateKey.KeyFiles.{IsSound}
use vdexnode.Mpt.Sign.Main.{Draws, Wire, message_bytes, main}
use vdexnode.Mpt.Sign.Signers.{IsShared}
use vdexnode.Mpt.Sign.Answers.{key_of, ek}
use vdexnode.Mpt.Sign.Nonces.{r_point}
use vdexnode.Mpt.Sign.Complete.{IsWire, answers, sets, plain_signature, nonce_sum, rounds_signs}

module _ (c : Crypto) where
  open c use {FE, zero_fe, to_bigint, ◌⊗◌, x_coor, modulus}

  infixl 70 ◌⊗◌
  module _ (laws : IsSound c) {n : ℕ} {file : ℕ → KeyFile c} {key : FE}
      (shared : IsShared c laws.f n file key) (draws : ℕ → Draws c)
      (gamma_range : (i j : ℕ)
        → to_bigint (key_of c laws shared draws i).k_i
              * to_bigint (key_of c laws shared draws j).gamma_i
            + ((draws j).gamma_answers i).beta_tag
          < modulus (ek c laws shared draws i))
      (w_range : (i j : ℕ)
        → to_bigint (key_of c laws shared draws i).k_i
              * to_bigint (key_of c laws shared draws j).w_i
            + ((draws j).w_answers i).beta_tag
          < modulus (ek c laws shared draws i))
      (message xr : ℕ) (hx : x_coor (r_point c laws.m n (key_of c laws shared draws)) ≡ some xr)
      (not_zero : sum_all c laws.f n (λ i. (key_of c laws shared draws i).k_i)
          ⊗ sum_all c laws.f n (λ i. (key_of c laws shared draws i).gamma_i)
        ≢ zero_fe)
      {srv : Server} (s : IsServer srv) (d : Delays) (uuid : String) {wire : Wire c}
      (w : IsWire c wire) (threshold me : ℕ) (e : threshold + 1 ≡ n) (two : 1 ≤ threshold)
      (lo : 1 ≤ me) (hi : me ≤ n) (small : n < 2 ^ 32) where
    -- The rounds come behind the reading of the arguments and the files and the signup; what they
    -- return is put in the file `signature`.
    pub main_signs :
        (hex_decode : String → Option (List ℕ)) (of_bytes : List ℕ → ℕ) (args : List String)
        (message_str key_text : String) (config : Option String) (b : Bool) (params : Params)
        → get_elem? args 3 ≡ some message_str
        → get_elem? args 4 ≡ none
        → wire.key_file_from_str key_text ≡ some (file me)
        → read_params wire.params_from_str config ≡ ok params
        → parse (2 ^ 32) params.threshold ≡ some threshold
        → of_bytes (message_bytes hex_decode message_str) % 2 ^ 256 ≡ message
        → (plain_signature c key
            (nonce_sum c laws shared draws gamma_range w_range message xr hx not_zero)
            xr
            message).s
          ≢ zero_fe
        → Runs
            (main c srv wire hex_decode of_bytes args (some key_text) config (draws me))
            (answer_after b (s.signup_text (record { number = me; uuid = uuid }))
              ++ (answers c laws shared draws gamma_range w_range message xr hx not_zero s d uuid w
                    threshold me e two lo hi small
                  ++ []))
            (wire.sign_json (
              plain_signature c key
                (nonce_sum c laws shared draws gamma_range w_range message xr hx not_zero)
                xr
                message))
            (sets c laws shared draws gamma_range w_range message xr hx not_zero s d uuid w
              threshold me e two lo hi small)
    unfolding main
    main_signs hex_decode of_bytes args message_str key_text config b params third no_more file_read
          config_read e_threshold e_message nonzero =
        let party : PartySignup = record { number = me; uuid = uuid } in
        let checked : check_args 3 args ≡ ok tt =
          check_args_accepts 3 args message_str third no_more in
        let (signs, accepted) =
          rounds_signs c laws shared draws gamma_range w_range message xr hx not_zero s d uuid w
            threshold me e two lo hi small nonzero in
        Runs-lift _ checked (
          Runs-unwrap _ third (
            Runs-unwrap _ file_read (
              Runs-lift _ config_read (
                Runs-unwrap _ e_threshold (
                  Runs-bind _
                    (signup-Runs srv.decode_signup b (s.signup_text party) "signupsign" "sign" party
                      (s.read_signup party))
                    (rw e_message (Runs-then _ signs (Runs-done _))))))))
