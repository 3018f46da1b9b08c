-- ===== src/Mpt/Sign/Complete.antt =====
-- A whole run of signing among signers that follow the program.
use vdexnode.Common.{
  ℕ, ◌+◌, ◌*◌, ◌%◌, ◌^◌, ◌≤◌, ◌<◌, ◌≡◌, ◌≢◌, refl, sym, ap, ◌∙◌, String, some, List, [], ◌++◌,
  arith,
}
use vdexnode.Common.Outcome.{ok}
use vdexnode.Mpt.Crypto.{Crypto}
use vdexnode.Mpt.Messages.{SignKeys, LocalSignature, Signature}
use vdexnode.Mpt.KeyGen.{get_commitments_to_xi}
use vdexnode.Mpt.SignKeys.{phase1_broadcast}
use vdexnode.Mpt.SignKeys.Nonce.{create-IsValid}
use vdexnode.Mpt.LocalSignature.{verify}
use vdexnode.Mpt.LocalSignature.Valid.{output_signature_valid}
use vdexnode.Mpt.Parties.{others}
use vdexnode.Mpt.Parties.Pairs.{sum_all}
use vdexnode.Mpt.Transport.{Sent, Entry}
use vdexnode.Mpt.Transport.Runs.{Runs, Runs-bind, Runs-lift, Runs-done, Runs-same}
use vdexnode.Mpt.Program.{Server}
use vdexnode.Mpt.Program.Scripts.{IsCodec, IsServer, Delays, exchanged, received, posted}
use vdexnode.Mpt.GenerateKey.{KeyFile}
use vdexnode.Mpt.GenerateKey.KeyFiles.{IsSound}
use vdexnode.Mpt.Sign.Main.{Draws, Wire, prepare, rounds}
use vdexnode.Mpt.Sign.Signers.{IsShared, signers, round0, gather-Runs}
use vdexnode.Mpt.Sign.Answers.{key_of, ek, gamma_answer, delta, sigma}
use vdexnode.Mpt.Sign.Products.{round1, round2, answers_sent, answers_set, multiply-Runs}
use vdexnode.Mpt.Sign.Nonces.{r_point, open_nonce-Runs}
use vdexnode.Mpt.Sign.Shares
use vdexnode.Mpt.Sign.Shares.{later_answers, later_sets, output-Runs}
use vdexnode.Mpt.Sign.Local.{
  sig, whole, point, own_local_sig, local_sig_lem, delta_sum, proved, agrees, scaled, sigma_sum,
  s_sum, balance,
}

pub record IsWire (c : Crypto) (wire : Wire c) : Type 0 where
  pub party_id_read : IsCodec wire.party_id
  pub round1_read : IsCodec wire.round1
  pub round2_read : IsCodec wire.round2
  pub later_reads : Shares.IsWire c wire.later

module _ (c : Crypto) where
  open c use {
    Seed, FE, GE, zero_fe, of_bigint, to_bigint, order, ◌⊕◌, ◌⊗◌, generator, ◌⊞◌, ◌⊛◌, x_coor,
    modulus, pk,
  }

  infixl 65 ◌⊕◌ ◌⊞◌
  infixl 70 ◌⊗◌ ◌⊛◌
  -- ECDSA with one private key: the signature for the inverse of k as the secret of the nonce, whose
  -- point has the coordinate xr.
  abbrev pub plain_signature : FE → FE → ℕ → ℕ → Signature c
  plain_signature x k xr message =
      let r = of_bigint (xr % order) in record { r = r; s = k ⊗ (of_bigint message ⊕ (r ⊗ x)) }

  module _ (laws : IsSound c) {n : ℕ} {file : ℕ → KeyFile c} {key : FE}
      (shared : IsShared c laws.f n file key) (draws : ℕ → Draws c)
      (gamma_range : (i j : ℕ)
        → to_bigint (key_of c laws shared draws i).k_i
              * to_bigint (key_of c laws shared draws j).gamma_i
            + ((draws j).gamma_answers i).beta_tag
          < modulus (ek c laws shared draws i))
      (w_range : (i j : ℕ)
        → to_bigint (key_of c laws shared draws i).k_i
              * to_bigint (key_of c laws shared draws j).w_i
            + ((draws j).w_answers i).beta_tag
          < modulus (ek c laws shared draws i))
      (message xr : ℕ) (hx : x_coor (r_point c laws.m n (key_of c laws shared draws)) ≡ some xr)
      (not_zero : sum_all c laws.f n (λ i. (key_of c laws shared draws i).k_i)
          ⊗ sum_all c laws.f n (λ i. (key_of c laws shared draws i).gamma_i)
        ≢ zero_fe) where
    abbrev signature : ℕ → LocalSignature c
    signature = sig c laws shared draws gamma_range w_range message xr hx not_zero

    abbrev nonce : GE
    nonce = point c laws shared draws gamma_range w_range message xr hx not_zero

    abbrev signed : Signature c
    signed = whole c laws shared draws gamma_range w_range message xr hx not_zero

    abbrev pub nonce_sum : FE
    nonce_sum = sum_all c laws.f n (λ i. (draws i).k_i)

    abbrev signer : ℕ → SignKeys c
    signer = key_of c laws shared draws

    module _ {srv : Server} (s : IsServer srv) (d : Delays) (uuid : String) {wire : Wire c}
        (w : IsWire c wire) where
      -- The messages of rounds 1 to 4, by signer.
      abbrev pub first_round : ℕ → String
      first_round =
          round1 c laws shared draws s d uuid wire.round1 w.round1_read wire.round2 w.round2_read

      abbrev pub second_round : ℕ → ℕ → String
      second_round =
          round2 c laws shared draws s d uuid wire.round1 w.round1_read wire.round2 w.round2_read

      abbrev pub third_round : ℕ → String
      third_round j = wire.later.scalar.print ((delta c laws shared draws gamma_range w_range).0 j)

      abbrev pub fourth_round : ℕ → String
      fourth_round j = wire.later.decommit.print (phase1_broadcast c (signer j) (draws j).blind).1

      module _ (threshold me : ℕ) (e : threshold + 1 ≡ n) (two : 1 ≤ threshold) (lo : 1 ≤ me)
          (hi : me ≤ n) (small : n < 2 ^ 32) where
        abbrev middle_answers : List Sent
        middle_answers =
            (exchanged s d me n uuid "round1" first_round
              ++ (answers_sent c laws shared draws s d uuid wire.round1 w.round1_read wire.round2
                    w.round2_read me (others me 1 n)
                  ++ (received s d me n uuid "round2" (λ j. second_round j me) ++ [])))
            ++ ((exchanged s d me n uuid "round3" third_round
                  ++ (exchanged s d me n uuid "round4" fourth_round ++ []))
                ++ [])

        abbrev middle_sets : List Entry
        middle_sets =
            (posted s d me n uuid "round1" (first_round me)
              ++ (answers_set c laws shared draws s d uuid wire.round1 w.round1_read wire.round2
                    w.round2_read me (others me 1 n)
                  ++ ([] ++ [])))
            ++ ((posted s d me n uuid "round3" (third_round me)
                  ++ (posted s d me n uuid "round4" (fourth_round me) ++ []))
                ++ [])

        prepare-Runs :
            Runs
              (prepare c srv wire
                (draws me)
                threshold
                (file me)
                me
                uuid
                message
                (signers c file n)
                (signer me))
              middle_answers
              (signature me, nonce)
              middle_sets
        unfolding prepare
        prepare-Runs =
            let own : ((file me).party_keys.ek, (file me).party_keys.dk)
                ≡ c.keypair (shared.seed me) =
              rw (shared.ek_at me, shared.dk_at me) refl in
            let points : get_commitments_to_xi c (file me).vss_scheme_vec ≡ ok shared.xi_com_vec =
              rw (shared.same_vss me) shared.xi_coms in
            (Runs-lift _ points (
              Runs-bind _
                (multiply-Runs c laws shared draws s d uuid wire.round1 w.round1_read wire.round2
                  w.round2_read me gamma_range w_range _ _ threshold own (shared.same_vss me) e lo
                  hi small)
                (Runs-bind _
                  (open_nonce-Runs c laws.m s d uuid wire.later w.later_reads.scalar_read
                    w.later_reads.decommit_read n me signer (λ j. create-IsValid c _ _ _ _ _ _)
                    (λ j. (draws j).blind) (λ j. (gamma_answer c laws shared draws j me).0)
                    (proved c laws shared draws gamma_range w_range message xr hx not_zero me)
                    (delta c laws shared draws gamma_range w_range).0
                    (delta c laws shared draws gamma_range w_range).2
                    (delta_sum c laws shared draws gamma_range w_range message xr hx not_zero)
                    threshold e two lo hi small)
                  (Runs-lift _
                    (own_local_sig c laws shared draws gamma_range w_range message xr hx not_zero
                      me)
                    (Runs-done (signature me, nonce))))))

        -- The answers that the signer gets in a run, and what it sets.
        abbrev pub answers : List Sent
        answers =
            (exchanged s d me n uuid "round0"
                (round0 c shared draws s d uuid wire w.party_id_read me)
              ++ [])
            ++ (middle_answers
                ++ later_answers c laws.m laws.complete n message xr nonce (generator ⊛ key)
                    signature
                    (agrees c laws shared draws gamma_range w_range message xr hx not_zero)
                    (λ j. (draws j).blind5) (λ j. (draws j).elgamal) (λ j. (draws j).blind5c) hx
                    (balance c laws shared draws gamma_range w_range message xr hx not_zero) s d
                    uuid w.later_reads threshold me e two lo hi small)

        abbrev pub sets : List Entry
        sets =
            (posted s d me n uuid "round0"
                (round0 c shared draws s d uuid wire w.party_id_read me me)
              ++ [])
            ++ (middle_sets
                ++ later_sets c laws.m laws.complete n message xr nonce (generator ⊛ key) signature
                    (agrees c laws shared draws gamma_range w_range message xr hx not_zero)
                    (λ j. (draws j).blind5) (λ j. (draws j).elgamal) (λ j. (draws j).blind5c) hx
                    (balance c laws shared draws gamma_range w_range message xr hx not_zero) s d
                    uuid w.later_reads threshold me e two lo hi small)

        -- Signers 1 to `n`, two or more, follow the program with key files of one key generation,
        -- their draws stay in the ranges of the exchanges, and neither k times gamma nor the s of
        -- the signature is zero. Then the rounds of signer `me`, who gets the others' messages, late
        -- and after lost sends as `d` says, return what ECDSA with the whole private key and the sum
        -- of all `k_i` would: the same signature for every signer, and a valid one for its public
        -- key.
        pub rounds_signs :
            (plain_signature key nonce_sum xr message).s ≢ zero_fe
            → Runs
                (rounds c srv wire (draws me) threshold (file me) me uuid message)
                answers
                (plain_signature key nonce_sum xr message)
                sets
              × (verify c (plain_signature key nonce_sum xr message) (file me).y_sum message
                  ≡ ok tt)
        unfolding rounds
        rounds_signs nonzero =
            let plain : signed ≡ plain_signature key nonce_sum xr message =
              ap (λ (z : FE). record { r = of_bigint (xr % order); s = z })
                (s_sum c laws shared draws gamma_range w_range message xr hx not_zero) in
            let (called, accepted) =
              output_signature_valid c laws.m n me message xr nonce key (λ i. (draws i).k_i)
                (sigma c laws shared draws gamma_range w_range).0 (λ j. (draws j).l_i)
                (λ j. (draws j).rho_i) signature lo (omega arith) hx
                (scaled c laws shared draws gamma_range w_range message xr hx not_zero)
                (sigma_sum c laws shared draws gamma_range w_range message xr hx not_zero)
                (local_sig_lem c laws shared draws gamma_range w_range message xr hx not_zero)
                (λ z. nonzero (
                  sym (s_sum c laws shared draws gamma_range w_range message xr hx not_zero)
                  ∙ z)) in
            (
              Runs-bind _
                  (gather-Runs c shared draws s d uuid wire w.party_id_read me threshold e lo hi
                    small)
                  (Runs-bind _ prepare-Runs (
                    Runs-same plain (
                      output-Runs c laws.m laws.complete n message xr nonce (generator ⊛ key)
                        signature
                        (agrees c laws shared draws gamma_range w_range message xr hx not_zero)
                        (λ j. (draws j).blind5) (λ j. (draws j).elgamal) (λ j. (draws j).blind5c) hx
                        (balance c laws shared draws gamma_range w_range message xr hx not_zero) s d
                        uuid w.later_reads threshold me e two lo hi small signed called))),
              rw (shared.key_at me, ← plain) accepted,
            )
