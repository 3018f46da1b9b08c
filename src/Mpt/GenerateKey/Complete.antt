-- ===== src/Mpt/GenerateKey/Complete.antt =====
-- A whole run of key generation among honest parties.
use vdexnode.Common.{
  ℕ, suc, ◌-◌, Bool, Option, ◌^◌, ◌≤◌, ◌<◌, ◌≡◌, refl, String, some, none, List, [], ◌++◌, map,
  arith, length, get_elem?,
}
use vdexnode.Common.Decimal.{parse, to_string}
use vdexnode.Common.Outcome.{ok}
use vdexnode.Mpt.Crypto.{Crypto}
use vdexnode.Mpt.Parties.{indices, others}
use vdexnode.Mpt.KeyGen.{phase2_verify_vss_construct_keypair_phase3_pok_dlog}
use vdexnode.Mpt.KeyGen.Phase2.{phase2_verify_complete}
use vdexnode.Mpt.Transport.{PartySignup, Sent, Entry}
use vdexnode.Mpt.Transport.Runs.{
  Runs, Runs-bind, Runs-then, Runs-lift, Runs-unwrap, Runs-done, answer_after,
}
use vdexnode.Mpt.Transport.Polling.{signup-Runs, poll_for_returns}
use vdexnode.Mpt.Program.{Server, Params, check_args, read_params}
use vdexnode.Mpt.Program.Scripts.{
  IsCodec, IsServer, Delays, message, received, exchanged, posted, exchange-Runs, exchange_all-Runs,
  check_args_accepts,
}
use vdexnode.Mpt.Sealing.{Aead}
use vdexnode.Mpt.GenerateKey.{Draws, Wire, rounds, main}
use vdexnode.Mpt.GenerateKey.Honest.{
  IsAead, keys, broadcast1, decommit1, y, pack, shares_sent, shares_set, read_decommits-honest,
  send_shares-Runs, open_shares-honest,
}
use vdexnode.Mpt.GenerateKey.KeyFiles
use vdexnode.Mpt.GenerateKey.KeyFiles.{IsSound, key_file}
use vdexnode.Mpt.GenerateKey.Checks.{dealt_shares, proofs_verify, y_sum_lem, paillier_keys}

-- Every message is read back as it was printed.
pub record IsWire (c : Crypto) (wire : Wire c) : Type 0 where
  pub broadcast1_read : IsCodec wire.broadcast1
  pub decommit1_read : IsCodec wire.decommit1
  pub aead_pack_read : IsCodec wire.aead_pack
  pub vss_read : IsCodec wire.vss
  pub dlog_proof_read : IsCodec wire.dlog_proof

module _ (c : Crypto) where
  open c use {
    FE, GE, generator, ◌⊞◌, ◌⊛◌, x_coor, share, VerifiableSs, DLogProof, prove_dlog, keypair,
  }

  infixl 65 ◌⊞◌
  infixl 70 ◌⊛◌
  module _ (laws : IsSound c) (t n : ℕ) (draws : ℕ → Draws c) (coordinate : ℕ → ℕ → ℕ)
      (coordinates : (i j : ℕ) → x_coor (y c t n draws i ⊞ y c t n draws j) ≡ some (coordinate i j))
      (part : ℕ → ℕ → FE)
      (dealt : (j i : ℕ)
        → i < n
        → get_elem? (share t n (draws j).u (draws j).sharing).1 i ≡ some (part j i))
      {aead : Aead} (sealing : IsAead aead)
      (long : (i j : ℕ) → length (aead.to_vec (coordinate i j)) ≡ 32) {srv : Server}
      (s : IsServer srv) (d : Delays) (uuid : String) {wire : Wire c} (w : IsWire c wire) where
    abbrev scheme : ℕ → VerifiableSs
    scheme = KeyFiles.scheme c laws t n draws

    abbrev proof : ℕ → DLogProof
    proof = KeyFiles.proof c laws t n draws part

    abbrev x : ℕ → FE
    x = KeyFiles.x c laws t n draws part

    abbrev public_key : GE
    public_key = KeyFiles.public_key c laws t n draws

    -- The messages that party j broadcasts, by round, and what it sends party i.
    abbrev pub round1 : ℕ → String
    round1 j = wire.broadcast1.print (broadcast1 c t n draws j)

    abbrev pub round2 : ℕ → String
    round2 j = wire.decommit1.print (decommit1 c t n draws j)

    abbrev pub round3 : ℕ → ℕ → String
    round3 i j =
        wire.aead_pack.print (pack c t n draws coordinate coordinates part dealt sealing long j i)

    abbrev pub round4 : ℕ → String
    round4 j = wire.vss.print (scheme j)

    abbrev pub round5 : ℕ → String
    round5 j = wire.dlog_proof.print (proof j)

    module _ (me : ℕ) where
      -- The answers that the party gets in a run, and what it sets.
      abbrev pub answers : List Sent
      answers =
          exchanged s d me n uuid "round1" round1
          ++ (exchanged s d me n uuid "round2" round2
              ++ (shares_sent c t n draws coordinate coordinates part dealt sealing long s d uuid
                    wire me (others me 1 n)
                  ++ (received s d me n uuid "round3" (round3 me)
                      ++ (exchanged s d me n uuid "round4" round4
                          ++ (exchanged s d me n uuid "round5" round5 ++ [])))))

      abbrev pub sets : List Entry
      sets =
          posted s d me n uuid "round1" (round1 me)
          ++ (posted s d me n uuid "round2" (round2 me)
              ++ (shares_set c t n draws coordinate coordinates part dealt sealing long s d uuid
                    wire me (others me 1 n)
                  ++ ([]
                      ++ (posted s d me n uuid "round4" (round4 me)
                          ++ (posted s d me n uuid "round5" (round5 me) ++ [])))))

      pub rounds_complete :
          1 ≤ me
          → me ≤ n
          → Runs
              (rounds c srv aead wire (draws me) t n me uuid)
              answers
              (key_file c laws t n draws part me)
              sets
      unfolding rounds
      rounds_complete lo hi =
          Runs-bind _
            (exchange_all-Runs s d me n uuid wire.broadcast1 "round1" (broadcast1 c t n draws)
              w.broadcast1_read)
            (Runs-bind _ (exchange-Runs s d me n uuid "round2" round2) (
              Runs-lift _
                (read_decommits-honest c t n draws coordinate coordinates part dealt wire.decommit1
                  me w.decommit1_read)
                (Runs-lift _ (y_sum_lem c laws.m laws.paillier t n draws (omega arith)) (
                  Runs-lift _ (dealt_shares c laws.m laws.paillier t n draws me) (
                    Runs-bind _
                      (send_shares-Runs c t n draws coordinate coordinates part dealt sealing long s
                        d uuid wire me)
                      (Runs-bind _
                        (poll_for_returns srv.decode_entry s.pending s.read_pending
                          (d.waits "round3") (d.lost "round3")
                          (λ j.
                            s.entry_text
                              (message s d me n uuid j (to_string me) "round3" (round3 me j)))
                          (λ j. message s d me n uuid j (to_string me) "round3" (round3 me j))
                          (λ j.
                            s.read_entry
                              (message s d me n uuid j (to_string me) "round3" (round3 me j)))
                          me n "round3" uuid).1
                        (Runs-lift _
                          (open_shares-honest c t n draws coordinate coordinates part dealt sealing
                            long s d uuid wire me laws.f laws.m w.aead_pack_read)
                          (Runs-bind _
                            (exchange_all-Runs s d me n uuid wire.vss "round4" scheme w.vss_read)
                            (Runs-lift _ accepted (
                              Runs-bind _
                                (exchange_all-Runs s d me n uuid wire.dlog_proof "round5" proof
                                  w.dlog_proof_read)
                                (Runs-lift _
                                  (proofs_verify c laws.m laws.paillier t n draws laws.complete x
                                    (y c t n draws))
                                  (Runs-lift _ (paillier_keys c laws.m laws.paillier t n draws)
                                    (Runs-done (key_file c laws t n draws part me))))))))))))))
        where
          at : suc (me - 1) ≡ me
          at = omega arith

          accepted :
              phase2_verify_vss_construct_keypair_phase3_pok_dlog c
                (keys c t n draws me)
                (record { threshold = t; share_count = n })
                (map (y c t n draws) (indices 1 n))
                (map (λ j. part j (me - 1)) (indices 1 n))
                (map scheme (indices 1 n))
                me
                (draws me).proof
              ≡ ok (record { y = public_key; x_i = x me }, proof me)
          accepted = rw at at (
              phase2_verify_complete c laws.m laws.sharing t n (λ j. (draws j).u)
                (λ j. (draws j).sharing) part dealt (keys c t n draws me)
                (record { threshold = t; share_count = n }) (me - 1) (draws me).proof refl
                (omega arith))

      -- Parties 1 to `n` follow the program, every two have an encryption key of 32 bytes, the
      -- libraries and the text forms do as they promise, and the files and arguments are readable.
      -- Then the run of the party that signs up as `me` uses up its answers and returns. It writes
      -- to the path of its second argument its keys, G times the sum of all `u` as the public key,
      -- and the sum of what it was dealt as its share. What it sets are its messages, as the
      -- answers of the other parties hold them.
      pub main_complete :
          (args : List String) (path : String) (config : Option String) (b : Bool) (params : Params)
          → get_elem? args 2 ≡ some path
          → get_elem? args 3 ≡ none
          → read_params wire.params_from_str config ≡ ok params
          → parse (2 ^ 32) params.parties ≡ some n
          → parse (2 ^ 32) params.threshold ≡ some t
          → 1 ≤ me
          → me ≤ n
          → Runs
              (main c srv aead wire args config (draws me))
              (answer_after b (s.signup_text (record { number = me; uuid = uuid }))
                ++ (answers ++ []))
              (path, wire.key_file.print (key_file c laws t n draws part me))
              sets
      unfolding main
      main_complete args path config b params third no_more config_read e_parties e_threshold lo
            hi =
          let party : PartySignup = record { number = me; uuid = uuid } in
          let checked : check_args 2 args ≡ ok tt = check_args_accepts 2 args path third no_more in
          Runs-lift _ checked (
            Runs-lift _ config_read (
              Runs-unwrap _ e_parties (
                Runs-unwrap _ e_threshold (
                  Runs-bind _
                    (signup-Runs srv.decode_signup b (s.signup_text party) "signupkeygen" "keygen"
                      party (s.read_signup party))
                    (Runs-then _ (rounds_complete lo hi) (Runs-unwrap _ third (Runs-done _)))))))
