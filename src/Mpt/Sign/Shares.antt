-- ===== src/Mpt/Sign/Shares.antt =====
-- Rounds 5 to 9 of a signer among signers that follow the program: the masks, the shares and the
-- signature.
use vdexnode.Common.{
  if◌then◌else◌, str_eq, ℕ, ◌+◌, ◌%◌, ◌^◌, ◌≤◌, ◌<◌, ◌≡◌, sym, String, some, List, [], ◌++◌, map,
  arith, length,
}
use vdexnode.Common.Outcome
use vdexnode.Common.Outcome.{Outcome, ok, index}
use vdexnode.Mpt.Crypto.{Crypto}
use vdexnode.Mpt.Crypto.Laws.{IsField, IsModule, IsComplete}
use vdexnode.Mpt.Messages.{
  LocalSignature, Signature, Phase5Com1, Phase5Com2, Phase5ADecom1, Phase5DDecom2,
}
use vdexnode.Mpt.LocalSignature.{output_signature}
use vdexnode.Mpt.LocalSignature.Phase5c.{Agrees, com1, decom1, proof1, com2, decom2, phase5c_value}
use vdexnode.Mpt.LocalSignature.Phase5d.{phase5d_complete}
use vdexnode.Mpt.Parties.{indices, others, length-indices, length-others}
use vdexnode.Mpt.Parties.Pairs.{sum_all}
use vdexnode.Mpt.Rounds.{collect_from}
use vdexnode.Mpt.Rounds.Laws.{collect-field}
use vdexnode.Mpt.Transport.{Sent, Entry}
use vdexnode.Mpt.Transport.Runs.{Runs, Runs-bind, Runs-lift, Runs-done, Runs-value}
use vdexnode.Mpt.Program.{Server}
use vdexnode.Mpt.Program.Scripts.{IsCodec, IsServer, Delays, exchanged, posted}
use vdexnode.Mpt.Sign.Output.{Wire, masks, release, conclude, output}
use vdexnode.Mpt.Sign.Nonces.{exchange_reads-Runs, remove_own}

pub record IsWire (c : Crypto) (wire : Wire c) : Type 0 where
  pub scalar_read : IsCodec wire.scalar
  pub decommit_read : IsCodec wire.decommit
  pub com1_read : IsCodec wire.com1
  pub decom1_read : IsCodec wire.decom1
  pub com2_read : IsCodec wire.com2
  pub decom2_read : IsCodec wire.decom2

-- The loops that read one half of each pair.
collect_pairs :
    {A B : Type 0} (v : ℕ → A) (p : A → B) (js : List ℕ) (k : ℕ)
    → k ≡ length js
    → collect_from {E = ⊥} 0 k (λ i. Outcome.◌>>=◌ (index (map v js) i) (λ x. ok (p x)))
      ≡ ok (map (λ j. p (v j)) js)
collect_pairs v p js k e = rw e (collect-field {E = ⊥} v p js)

module _ (c : Crypto) where
  open c use {Seed, FE, GE, of_bigint, order, ◌⊞◌, generator, ◌⊛◌, x_coor}

  infixl 65 ◌⊞◌
  infixl 70 ◌⊛◌
  module _ {f : IsField c} (m : IsModule c f) (complete : IsComplete c) (n message xr : ℕ)
      (r_point y : GE) (sig : ℕ → LocalSignature c) (agrees : Agrees c r_point y message sig)
      (blind : ℕ → ℕ) (seed : ℕ → Seed) (blind2 : ℕ → ℕ) (hx : x_coor r_point ≡ some xr)
      (balance : r_point ⊛ sum_all c f n (λ j. (sig j).s_i)
        ≡ (generator ⊛ of_bigint message) ⊞ (y ⊛ of_bigint (xr % order)))
      {srv : Server} (s : IsServer srv) (d : Delays) (uuid : String) {wire : Wire c}
      (w : IsWire c wire) where
    abbrev first1 : ℕ → Phase5Com1
    first1 = com1 c m complete n message xr r_point y sig agrees blind seed

    abbrev opened1 : ℕ → Phase5ADecom1 c
    opened1 = decom1 c m complete n message xr r_point y sig agrees blind seed

    abbrev pub pair1 : ℕ → Phase5ADecom1 c × c.HomoElGamalProof
    pair1 j = (opened1 j, proof1 c m complete n message xr r_point y sig agrees blind seed j)

    abbrev pub first2 : ℕ → Phase5Com2
    first2 = com2 c m complete n message xr r_point y sig agrees blind seed blind2

    abbrev pub opened2 : ℕ → Phase5DDecom2 c
    opened2 = decom2 c m complete n message xr r_point y sig agrees blind seed blind2

    abbrev pub round5 : ℕ → String
    round5 j = wire.com1.print (first1 j)

    abbrev pub round6 : ℕ → String
    round6 j = wire.decom1.print (pair1 j)

    abbrev pub round7 : ℕ → String
    round7 j = wire.com2.print (first2 j)

    abbrev pub round8 : ℕ → String
    round8 j = wire.decom2.print (opened2 j)

    abbrev pub round9 : ℕ → String
    round9 j = wire.scalar.print (sig j).s_i

    -- What signer `j` sends in rounds 5 to 9.
    abbrev pub later_text : String → ℕ → String
    later_text round j =
        if str_eq round "round5"
        then round5 j
        else if str_eq round "round6"
        then round6 j
        else if str_eq round "round7"
        then round7 j
        else if str_eq round "round8"
        then round8 j
        else round9 j

    module _ (threshold me : ℕ) (e : threshold + 1 ≡ n) (two : 1 ≤ threshold) (lo : 1 ≤ me)
        (hi : me ≤ n) (small : n < 2 ^ 32) where
      masks-Runs :
          Runs
            (masks c srv wire threshold me uuid (sig me) r_point (blind me) (seed me) (blind2 me))
            (exchanged s d me n uuid "round5" round5
              ++ (exchanged s d me n uuid "round6" round6 ++ []))
            (map pair1 (indices 1 n), first2 me, opened2 me)
            (posted s d me n uuid "round5" (round5 me)
              ++ (posted s d me n uuid "round6" (round6 me) ++ []))
      unfolding masks
      masks-Runs =
          let size : threshold ≡ length (others me 1 n) =
            omega (arith, length-others me 1 n lo (omega arith)) in
          rw e (
            Runs-bind _
              (exchange_reads-Runs s d me n uuid wire.com1 "round5" first1 w.com1_read lo hi)
              (Runs-bind _
                (exchange_reads-Runs s d me n uuid wire.decom1 "round6" pair1 w.decom1_read lo hi)
                (Runs-lift _ (remove_own pair1 me n lo hi small) (
                  Runs-lift _ (remove_own first1 me n lo hi small) (
                    Runs-lift _ (collect_pairs pair1 (λ p. p.0) (others me 1 n) threshold size) (
                      Runs-lift _ (collect_pairs pair1 (λ p. p.1) (others me 1 n) threshold size) (
                        Runs-lift _
                          (phase5c_value c m complete n message xr r_point y sig agrees blind seed
                            hx balance me lo (omega arith) blind2 (omega arith))
                          (Runs-done _))))))))

      release-Runs :
          Runs
            (release c srv wire threshold me uuid
              (sig me)
              (map pair1 (indices 1 n))
              (first2 me)
              (opened2 me))
            (exchanged s d me n uuid "round7" round7
              ++ (exchanged s d me n uuid "round8" round8 ++ []))
            (sig me).s_i
            (posted s d me n uuid "round7" (round7 me)
              ++ (posted s d me n uuid "round8" (round8 me) ++ []))
      unfolding release
      release-Runs = rw e (
          Runs-bind _
            (exchange_reads-Runs s d me n uuid wire.com2 "round7" first2 w.com2_read lo hi)
            (Runs-bind _
              (exchange_reads-Runs s d me n uuid wire.decom2 "round8" opened2 w.decom2_read lo hi)
              (Runs-lift _
                (collect_pairs pair1 (λ p. p.0) (indices 1 n) n (sym (length-indices 1 n)))
                (Runs-value (
                  phase5d_complete c m complete n message xr r_point y sig agrees blind seed blind2
                    first2 opened2 me hx balance (omega arith)
                    (λ i lo hi.
                      phase5c_value c m complete n message xr r_point y sig agrees blind seed hx
                        balance i lo hi blind2 (omega arith)))))))

      conclude-Runs :
          (whole : Signature c)
          → output_signature c (sig me) (map (λ j. (sig j).s_i) (others me 1 n)) ≡ ok whole
          → Runs
              (conclude c srv wire threshold me uuid (sig me) (sig me).s_i)
              (exchanged s d me n uuid "round9" round9 ++ [])
              whole
              (posted s d me n uuid "round9" (round9 me) ++ [])
      unfolding conclude
      conclude-Runs whole h = rw e (
          Runs-bind _
            (exchange_reads-Runs s d me n uuid wire.scalar "round9" (λ j. (sig j).s_i) w.scalar_read
              lo hi)
            (Runs-lift _ (remove_own (λ j. (sig j).s_i) me n lo hi small) (Runs-value h)))

      abbrev pub later_answers : List Sent
      later_answers =
          (exchanged s d me n uuid "round5" round5
            ++ (exchanged s d me n uuid "round6" round6 ++ []))
          ++ ((exchanged s d me n uuid "round7" round7
                ++ (exchanged s d me n uuid "round8" round8 ++ []))
              ++ (exchanged s d me n uuid "round9" round9 ++ []))

      abbrev pub later_sets : List Entry
      later_sets =
          (posted s d me n uuid "round5" (round5 me)
            ++ (posted s d me n uuid "round6" (round6 me) ++ []))
          ++ ((posted s d me n uuid "round7" (round7 me)
                ++ (posted s d me n uuid "round8" (round8 me) ++ []))
              ++ (posted s d me n uuid "round9" (round9 me) ++ []))

      pub output-Runs :
          (whole : Signature c)
          → output_signature c (sig me) (map (λ j. (sig j).s_i) (others me 1 n)) ≡ ok whole
          → Runs
              (output c srv wire threshold me uuid
                (sig me)
                r_point
                (blind me)
                (seed me)
                (blind2 me))
              later_answers
              whole
              later_sets
      unfolding output
      output-Runs whole h =
          Runs-bind _ masks-Runs (Runs-bind _ release-Runs (conclude-Runs whole h))
