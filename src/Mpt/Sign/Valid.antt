-- ===== src/Mpt/Sign/Valid.antt =====
-- Whatever the other signers and the server do, a signature that the program puts out is valid.
use vdexnode.Common.Decimal.{parse}
use vdexnode.Common.{
  ℕ, ◌%◌, ◌^◌, Option, some, get_elem?, refl, ◌+◌, ◌≡◌, arith, String, List, true,
}
use vdexnode.Common.Outcome.{Outcome, ok}
use vdexnode.Mpt.Crypto.{Crypto}
use vdexnode.Mpt.Messages.{Error, SignKeys, LocalSignature, Signature}
use vdexnode.Mpt.LocalSignature.{phase5_local_sig, r_of_point, verify, is_ok, output_signature}
use vdexnode.Mpt.Transport.{World, done, unwrap, signup}
use vdexnode.Mpt.Transport.Ensures.{
  Ensures, Ensures-bind, Ensures-lift, Ensures-given, Ensures-value, Ensures-done, Ensures-unwrap,
}
use vdexnode.Mpt.Program.{Server, check_args, read_params}
use vdexnode.Mpt.GenerateKey.{KeyFile}
use vdexnode.Mpt.Sign.Output
use vdexnode.Mpt.Sign.Output.{exchange_reads, open_nonce, masks, release, conclude, output}
use vdexnode.Mpt.Sign.{position, remove}
use vdexnode.Mpt.Sign.Multiply.{multiply}
use vdexnode.Mpt.KeyGen.{get_commitments_to_xi}
use vdexnode.Mpt.Sign.Main.{Draws, Wire, message_bytes, gather, prepare, rounds, main}

module _ (c : Crypto) where
  open c use {FE, GE, Seed}

  abbrev Accepted : GE → ℕ → Signature c → Type 0
  Accepted y message sig = verify c sig y message ≡ ok tt

  -- The text of a signature that is valid for this key and message.
  abbrev pub Signs : Wire c → GE → ℕ → String → Type 0
  Signs wire y message text =
      (sig : Signature c) × (text ≡ wire.sign_json sig) × (verify c sig y message ≡ ok tt)

  output_signature_verified :
      (self : LocalSignature c) (s_vec : List FE) (sig : Signature c)
      → output_signature c self s_vec ≡ ok sig
      → verify c sig self.y self.m ≡ ok tt
  unfolding output_signature is_ok
  output_signature_verified self s_vec sig h = ground (arith, of_verdict)
    where
      of_verdict : (v : Outcome Error (Unit {0})) → is_ok c v ≡ ok true → v ≡ ok tt
      of_verdict v e = ground arith

  local_sig_data :
      (k_i : FE) (message : ℕ) (r_point : GE) (sigma : FE) (y : GE) (l_i rho_i : FE)
      (sig : LocalSignature c)
      → phase5_local_sig c k_i message r_point sigma y l_i rho_i ≡ ok sig
      → (sig.y ≡ y) × (sig.m ≡ message)
  unfolding phase5_local_sig r_of_point
  local_sig_data k_i message r_point sigma y l_i rho_i sig h = ground arith

  module _ (srv : Server) where
    module _ (wire : Output.Wire c) (threshold me : ℕ) (uuid : String)
        (local_sig : LocalSignature c) where
      conclude_valid :
          (s_i : FE)
          → Ensures
              (conclude c srv wire threshold me uuid local_sig s_i)
              (Accepted local_sig.y local_sig.m)
      unfolding conclude
      conclude_valid s_i =
          Ensures-bind (Accepted local_sig.y local_sig.m) _
            (exchange_reads srv me (threshold + 1) uuid wire.scalar "round9" s_i)
            (λ s_i_vec.
              Ensures-lift (Accepted local_sig.y local_sig.m) _ (remove s_i_vec (position me))
                (λ s_rest e.
                  Ensures-value (Accepted local_sig.y local_sig.m)
                    (output_signature c local_sig s_rest.1)
                    (output_signature_verified local_sig s_rest.1)))

      output_valid :
          (r_point : GE) (blind : ℕ) (seed : Seed) (blind2 : ℕ)
          → Ensures
              (output c srv wire threshold me uuid local_sig r_point blind seed blind2)
              (Accepted local_sig.y local_sig.m)
      unfolding output
      output_valid r_point blind seed blind2 =
          Ensures-bind (Accepted local_sig.y local_sig.m) _
            (masks c srv wire threshold me uuid local_sig r_point blind seed blind2)
            (λ opened.
              Ensures-bind (Accepted local_sig.y local_sig.m) _
                (release c srv wire threshold me uuid local_sig opened.0 opened.1 opened.2)
                (λ s_i. conclude_valid s_i))

    module _ (wire : Wire c) (draws : Draws c) (threshold : ℕ) (file : KeyFile c) (me : ℕ)
        (uuid : String) (message_bn : ℕ) where
      abbrev Intended : LocalSignature c × GE → Type 0
      Intended made = (made.0.y ≡ file.y_sum) × (made.0.m ≡ message_bn)

      prepare_data :
          (signers : List ℕ) (keys : SignKeys c)
          → Ensures
              (prepare c srv wire draws threshold file me uuid message_bn signers keys)
              Intended
      unfolding prepare
      prepare_data signers keys =
          Ensures-lift Intended _ (get_commitments_to_xi c file.vss_scheme_vec) (λ xi_com_vec _.
            Ensures-bind Intended _
              (multiply c srv wire.round1 wire.round2 threshold me uuid keys
                (file.party_keys.ek, file.party_keys.dk) file.paillier_key_vec signers xi_com_vec
                file.vss_scheme_vec draws.blind draws.enc draws.gamma_answers draws.w_answers)
              (λ made.
                Ensures-bind Intended _
                  (open_nonce c srv wire.later threshold me uuid made.delta_i made.decommit
                    made.bc1_vec made.m_b_gamma_rec_vec)
                  (λ r_point.
                    Ensures-lift Intended _
                      (phase5_local_sig c draws.k_i message_bn r_point made.sigma file.y_sum
                        draws.l_i draws.rho_i)
                      (λ local_sig e. record {
                        at = λ w.
                            local_sig_data draws.k_i message_bn r_point made.sigma file.y_sum
                              draws.l_i draws.rho_i local_sig e;
                      }))))

      ensured :
          Ensures
            (rounds c srv wire draws threshold file me uuid message_bn)
            (Accepted file.y_sum message_bn)
      unfolding rounds
      ensured =
          Ensures-bind (Accepted file.y_sum message_bn) _
            (gather c srv wire draws threshold file me uuid)
            (λ gathered.
              Ensures-given (Accepted file.y_sum message_bn) _ Intended
                (prepare c srv wire draws threshold file me uuid message_bn gathered.0 gathered.1)
                (prepare_data gathered.0 gathered.1)
                (λ prepared meant.
                  rw (← meant.0, ← meant.1)
                    (output_valid wire.later threshold me uuid prepared.0 prepared.1 draws.blind5
                      draws.elgamal draws.blind5c)))

    module _ (wire : Wire c) (hex_decode : String → Option (List ℕ)) (of_bytes : List ℕ → ℕ)
        (args : List String) (config : Option String) (draws : Draws c)
        (message_str key_text : String) (file : KeyFile c)
        (third : get_elem? args 3 ≡ some message_str)
        (file_read : wire.key_file_from_str key_text ≡ some file) where
      abbrev message : ℕ
      message = of_bytes (message_bytes hex_decode message_str) % 2 ^ 256

      abbrev Saved : String → Type 0
      Saved = Signs wire file.y_sum message

      main_ensured :
          Ensures (main c srv wire hex_decode of_bytes args (some key_text) config draws) Saved
      unfolding main
      main_ensured = Ensures-lift Saved _ (check_args 3 args) (λ _ _.
          Ensures-unwrap Saved _ (get_elem? args 3) message_str third (
            Ensures-unwrap Saved _ (wire.key_file_from_str key_text) file file_read (
              Ensures-lift Saved _ (read_params wire.params_from_str config) (λ params _.
                Ensures-bind Saved _ (unwrap (parse (2 ^ 32) params.threshold)) (λ threshold.
                  Ensures-bind Saved _ (signup srv.decode_signup "signupsign" "sign") (λ answer.
                    Ensures-bind Saved _ (unwrap answer) (λ party.
                      Ensures-given Saved _ (Accepted file.y_sum message)
                        (rounds c srv wire draws threshold file party.number party.uuid message)
                        (ensured wire draws threshold file party.number party.uuid message)
                        (λ sig accepted. record { at = λ w. (sig, refl, accepted) }))))))))

      -- The program's third argument is the message, and the text of the key file reads as `file`.
      -- Whatever answers the program gets, what it saves is the text of a signature that is valid for
      -- the public key of the file and for the message.
      pub main_valid :
          (w w' : World) (text : String)
          → main c srv wire hex_decode of_bytes args (some key_text) config draws w ≡ done text w'
          → Signs wire file.y_sum (of_bytes (message_bytes hex_decode message_str) % 2 ^ 256) text
      main_valid w w' text h =
          Ensures-done Saved (main c srv wire hex_decode of_bytes args (some key_text) config draws)
            w w' text main_ensured h
