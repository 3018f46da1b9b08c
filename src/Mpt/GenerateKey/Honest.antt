-- ===== src/Mpt/GenerateKey/Honest.antt =====
-- What the parties of a key generation hold and send when they follow the program, and the loops
-- over the others' messages.
use vdexnode.Common.{
  ℕ, ◌+◌, ◌-◌, ◌<◌, ◌≡◌, refl, sym, ap, ◌∙◌, String, some, List, [], ◌∷◌, ◌++◌, map, arith, length,
  get_elem?, ==_iff,
}
use vdexnode.Common.Decimal.{to_string}
use vdexnode.Common.Outcome.{ok, index}
use vdexnode.Mpt.Crypto.{Crypto}
use vdexnode.Mpt.Crypto.Laws.{IsField, IsModule}
use vdexnode.Mpt.Messages.{Keys, KeyGenBroadcastMessage1, KeyGenDecommitMessage1}
use vdexnode.Mpt.Parties.{indices, others}
use vdexnode.Mpt.Parties.Walk.{others_walk}
use vdexnode.Mpt.Rounds.Laws.{get_elem?-map}
use vdexnode.Mpt.KeyGen.{create, phase1_broadcast_phase3_proof_of_correct_key}
use vdexnode.Mpt.Transport.{Sent, Entry}
use vdexnode.Mpt.Transport.Runs.{
  Runs, Runs-bind, Runs-lift, Runs-unwrap, Runs-done, answer_after, copies,
}
use vdexnode.Mpt.Transport.Polling.{sendp2p-Runs}
use vdexnode.Mpt.Program.{Codec, Server}
use vdexnode.Mpt.Program.Scripts.{IsCodec, IsServer, Delays, message}
use vdexnode.Mpt.Sealing.{Sealed, Aead, nonce, read_decommits, open_shares}
use vdexnode.Mpt.GenerateKey.{Draws, Wire, send_shares}

-- With a key of 32 bytes a text can be sealed and is opened again; bytes stand for their number.
pub record IsAead (aead : Aead) : Type 0 where
  pub seal : List ℕ → List ℕ → Sealed
  pub encrypt-seal :
      (key text : List ℕ) → length key ≡ 32 → aead.encrypt key nonce text ≡ some (seal key text)
  pub decrypt-seal :
      (key text : List ℕ) → length key ≡ 32 → aead.decrypt key nonce (seal key text) ≡ some text
  pub of_bytes-to_vec : (k : ℕ) → aead.of_bytes (aead.to_vec k) ≡ k

some_eq : {a b : ℕ} → some a ≡ some b → a ≡ b
some_eq e = cc

module _ (c : Crypto) (t n : ℕ) (draws : ℕ → Draws c) where
  open c use {FE, GE, of_bigint, to_bigint, generator, ◌⊞◌, ◌⊛◌, x_coor, share}

  infixl 65 ◌⊞◌
  infixl 70 ◌⊛◌
  -- Party j's keys and its two first messages.
  abbrev pub keys : ℕ → Keys c
  keys j = create c (draws j).u (draws j).paillier j

  abbrev pub broadcast1 : ℕ → KeyGenBroadcastMessage1 c
  broadcast1 j = (phase1_broadcast_phase3_proof_of_correct_key c (keys j) (draws j).blind).0

  abbrev pub decommit1 : ℕ → KeyGenDecommitMessage1 c
  decommit1 j = (phase1_broadcast_phase3_proof_of_correct_key c (keys j) (draws j).blind).1

  abbrev pub y : ℕ → GE
  y j = generator ⊛ (draws j).u

  -- `coordinate i j` is the key between parties i and j, and `part j i` is what party j deals to
  -- position i.
  module _ (coordinate : ℕ → ℕ → ℕ)
      (coordinates : (i j : ℕ) → x_coor (y i ⊞ y j) ≡ some (coordinate i j)) (part : ℕ → ℕ → FE)
      (dealt : (j i : ℕ)
        → i < n
        → get_elem? (share t n (draws j).u (draws j).sharing).1 i ≡ some (part j i)) where
    pub read_decommits-honest :
        (codec : Codec (KeyGenDecommitMessage1 c)) (me : ℕ)
        → IsCodec codec
        → read_decommits c codec
            (map (λ j. codec.print (decommit1 j)) (others me 1 n))
            (keys me)
            (decommit1 me)
            me
            n
            1
            0
          ≡ ok (
            map y (indices 1 n),
            map decommit1 (indices 1 n),
            map (coordinate me) (others me 1 n),
          )
    unfolding read_decommits indices others create phase1_broadcast_phase3_proof_of_correct_key
    read_decommits-honest codec me e =
        others_walk me n
          (λ k i j.
            read_decommits c codec (map (λ j. codec.print (decommit1 j)) (others me 1 n)) (keys me)
              (decommit1 me) me k i j
            ≡ ok (
              map y (indices i k),
              map decommit1 (indices i k),
              map (coordinate me) (others me i k),
            ))
          (λ i j. refl) (λ k i j lo hi h p. rw (h, p, (==_iff i me).0 h) refl)
          (λ k i j lo hi h at p.
            rw
              (
                h,
                get_elem?-map (λ j. codec.print (decommit1 j)) (others me 1 n) j i at,
                e (decommit1 i),
                coordinates me i,
                p,
              )
              refl)

    module _ {aead : Aead} (sealing : IsAead aead)
        (long : (i j : ℕ) → length (aead.to_vec (coordinate i j)) ≡ 32) where
      -- What party i sends party j in round 3.
      abbrev pub pack : ℕ → ℕ → Sealed
      pack i j =
          sealing.seal (aead.to_vec (coordinate i j)) (aead.to_vec (to_bigint (part i (j - 1))))

      module _ {srv : Server} (s : IsServer srv) (d : Delays) (uuid : String) (wire : Wire c)
          (me : ℕ) where
        abbrev pub share_message : ℕ → Entry
        share_message j =
            message s d me n uuid me (to_string j) "round3" (wire.aead_pack.print (pack me j))

        -- The answers to the messages that send the shares, and what these set.
        abbrev pub shares_sent : List ℕ → List Sent
        shares_sent [] = []
        shares_sent (j ∷ js) = answer_after (d.sends "round3" j) s.ok_text ++ shares_sent js

        abbrev pub shares_set : List ℕ → List Entry
        shares_set [] = []
        shares_set (j ∷ js) = copies (d.sends "round3" j) (share_message j ∷ []) ++ shares_set js

        pub send_shares-Runs :
            Runs
              (send_shares c srv aead wire me uuid
                (map (coordinate me) (others me 1 n))
                (share t n (draws me).u (draws me).sharing).1
                n
                1
                0
                0)
              (shares_sent (others me 1 n))
              tt
              (shares_set (others me 1 n))
        unfolding send_shares others
        send_shares-Runs =
            others_walk me n
              (λ k i j.
                Runs
                  (send_shares c srv aead wire me uuid (map (coordinate me) (others me 1 n))
                    (share t n (draws me).u (draws me).sharing).1 k i j (i - 1))
                  (shares_sent (others me i k)) tt (shares_set (others me i k)))
              (λ i j. Runs-done tt)
              (λ k i j lo hi h p. let at : i + 1 - 1 ≡ i - 1 + 1 = omega arith in rw (h, ← at) p)
              (λ k i j lo hi h at p.
                let next : i + 1 - 1 ≡ i - 1 + 1 = omega arith in
                rw (h, ← next)
                  (Runs-lift _ {a = coordinate me i} {E = ⊥}
                    {o = index (map (coordinate me) (others me 1 n)) j}
                    (rw (get_elem?-map (coordinate me) (others me 1 n) j i at) refl)
                    (Runs-lift _ {a = part me (i - 1)} {E = ⊥}
                      {o = index (share t n (draws me).u (draws me).sharing).1 (i - 1)}
                      (rw (dealt me (i - 1) (omega arith)) refl)
                      (Runs-unwrap _
                        (sealing.encrypt-seal (aead.to_vec (coordinate me i))
                          (aead.to_vec (to_bigint (part me (i - 1)))) (long me i))
                        (Runs-bind _
                          (sendp2p-Runs srv.decode_unit (d.sends "round3" i) s.ok_text me i "round3"
                            (wire.aead_pack.print (pack me i)) uuid s.read_ok)
                          p)))))

        pub open_shares-honest :
            (f : IsField c) (m : IsModule c f)
            → IsCodec wire.aead_pack
            → open_shares c aead wire.aead_pack me
                (map (coordinate me) (others me 1 n))
                (share t n (draws me).u (draws me).sharing).1
                (map (λ j. wire.aead_pack.print (pack j me)) (others me 1 n))
                n
                1
                0
              ≡ ok (map (λ j. part j (me - 1)) (indices 1 n))
        unfolding open_shares indices
        open_shares-honest f m e =
            others_walk me n
              (λ k i j.
                open_shares c aead wire.aead_pack me (map (coordinate me) (others me 1 n))
                  (share t n (draws me).u (draws me).sharing).1
                  (map (λ j. wire.aead_pack.print (pack j me)) (others me 1 n)) k i j
                ≡ ok (map (λ j. part j (me - 1)) (indices i k)))
              (λ i j. refl)
              (λ k i j lo hi h p.
                let own : i ≡ me = (==_iff i me).0 h in
                rw (h, dealt me (i - 1) (omega arith), p, own) refl)
              (λ k i j lo hi h at p.
                rw
                  (
                    h,
                    get_elem?-map (λ j. wire.aead_pack.print (pack j me)) (others me 1 n) j i at,
                    e (pack i me),
                    get_elem?-map (coordinate me) (others me 1 n) j i at,
                    same f m i,
                    sealing.decrypt-seal (aead.to_vec (coordinate i me))
                        (aead.to_vec (to_bigint (part i (me - 1)))) (long i me),
                    p,
                    sealing.of_bytes-to_vec,
                    f.of_bigint-to_bigint,
                  )
                  refl)
          where
            same : (f : IsField c) (m : IsModule c f) (i : ℕ) → coordinate me i ≡ coordinate i me
            same f m i =
                some_eq
                  (sym (coordinates me i) ∙ ap x_coor (m.add_comm (y me) (y i)) ∙ coordinates i me)
