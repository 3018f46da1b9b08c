-- ===== src/Tests/Session.antt =====
-- Two parties of the small curve generate keys and then sign with them.
use vdexnode.Common.{
  ℕ, zero, suc, ◌+◌, ◌*◌, ◌^◌, ◌≤◌, ◌<◌, ◌≡◌, ◌≢◌, refl, true, false, some, get_elem?, [], ◌∷◌,
  ◌++◌, arith,
}
use vdexnode.Common.Decimal.{parse}
use vdexnode.Common.Outcome.{ok}
use vdexnode.Mpt.Crypto.Laws.{IsReconstructing}
use vdexnode.Mpt.Messages.{SignKeys, Signature}
use vdexnode.Mpt.LocalSignature.{verify}
use vdexnode.Mpt.Parties.{indices}
use vdexnode.Mpt.Parties.Pairs.{sum_all}
use vdexnode.Mpt.Program.{read_params}
use vdexnode.Mpt.SignKeys.{create as create_keys}
use vdexnode.Mpt.Transport.Runs.{Runs, answer_after}
use vdexnode.Mpt.GenerateKey
use vdexnode.Mpt.GenerateKey.Complete as Generation
use vdexnode.Mpt.GenerateKey.KeyFiles.{key_file, public_key}
use vdexnode.Mpt.Sign.{position}
use vdexnode.Mpt.Sign.Main.{message_bytes, main}
use vdexnode.Mpt.Sign.Answers.{key_of}
use vdexnode.Mpt.Sign.Nonces.{r_point}
use vdexnode.Mpt.Sign.Generated.{positions}
use vdexnode.Mpt.Sign.Complete.{answers, sets}
use vdexnode.Mpt.Sign.Session.{shared, signature, generation_signs}
use vdexnode.Tests.Toy.{
  F3, f0, f1, f2, copies_at, mul, to_bigint, toy, toy-IsField, toy-IsReconstructing,
}
use vdexnode.Tests.Toy.Coding.{codec-IsCodec}
use vdexnode.Tests.Programs.{
  of_bytes, delays, key_file_coding, params, toy-IsSound, toy_aead, toy_aead-IsAead, toy_draws,
  toy_server, toy_server-IsServer, toy_wire, toy_wire-IsWire,
}
use vdexnode.Tests.SignRun.{draws, number, small, wire, wire-IsWire}

from : (j : ℕ) → 1 ≤ number j
from zero = omega arith
from (suc zero) = omega arith
from (suc (suc j)) = omega arith

to : (j : ℕ) → number j ≤ 2
to zero = omega arith
to (suc zero) = omega arith
to (suc (suc j)) = omega arith

few : 2 < 2 ^ 32
few = omega arith

one : 1 ≤ 1
one = omega arith

two : 1 ≤ 2
two = omega arith

-- Each party deals f1 to both.
abbrev part : ℕ → ℕ → F3
part j i = f1

abbrev dealt :
    (j i : ℕ)
    → i < 2
    → get_elem? (toy.share 1 2 (toy_draws j).u (toy_draws j).sharing).1 i ≡ some (part j i)
dealt j i lt = copies_at 2 i f1 lt

both :
    IsReconstructing toy 1 2
      (positions toy toy-IsSound 1 2 toy_draws part dealt number 2)
      toy-IsField
unfolding position indices
both = toy-IsReconstructing

abbrev keys : ℕ → SignKeys toy
keys =
    key_of toy toy-IsSound
      (shared toy toy-IsSound 1 2 toy_draws part dealt number from to few both draws) draws

gamma_small : (i j : ℕ) → to_bigint (keys i).k_i * to_bigint (keys j).gamma_i + 7 < 1000
gamma_small i j = small (keys i).k_i (keys j).gamma_i

w_small : (i j : ℕ) → to_bigint (keys i).k_i * to_bigint (keys j).w_i + 7 < 1000
w_small i j = small (keys i).k_i (keys j).w_i

coordinate : toy.x_coor (r_point toy toy-IsSound.m 2 keys) ≡ some 1
unfolding create_keys indices
coordinate = refl

product :
    mul
      (sum_all toy toy-IsField 2 (λ i. (keys i).k_i))
      (sum_all toy toy-IsField 2 (λ i. (keys i).gamma_i))
    ≢ f0
unfolding create_keys indices
product e = f1_f0 e
  where
    f1_f0 : f1 ≡ f0 → ⊥
    f1_f0 e = cc

abbrev signed : Signature toy
signed =
    signature toy toy-IsSound 1 2 toy_draws part dealt number from to few both draws gamma_small
      w_small 5 1 coordinate product

whole_sum : signed.s ≢ f0
unfolding indices
whole_sum e = f2_f0 e
  where
    f2_f0 : f2 ≡ f0 → ⊥
    f2_f0 e = cc

generation_signs_example :
    let text = toy_wire.key_file.print (key_file toy toy-IsSound 1 2 toy_draws part 1) in
    Runs
      (GenerateKey.main toy toy_server toy_aead toy_wire
        ("a" ∷ "b" ∷ "keys1" ∷ [])
        (some "")
        (toy_draws 1))
      (answer_after true (toy_server-IsServer.signup_text (record { number = 1; uuid = "gen" }))
        ++ (Generation.answers toy toy-IsSound 1 2 toy_draws
              (λ i j. 1)
              (λ i j. refl)
              part
              dealt
              toy_aead-IsAead
              (λ i j. refl)
              toy_server-IsServer
              delays
              "gen"
              toy_wire-IsWire
              1
            ++ []))
      ("keys1", text)
      (Generation.sets toy toy-IsSound 1 2 toy_draws
        (λ i j. 1)
        (λ i j. refl)
        part
        dealt
        toy_aead-IsAead
        (λ i j. refl)
        toy_server-IsServer
        delays
        "gen"
        toy_wire-IsWire
        1)
    × Runs
        (main toy toy_server wire
          (λ s. some (5 ∷ []))
          of_bytes
          ("a" ∷ "b" ∷ "keys1" ∷ "05" ∷ [])
          (some text)
          (some "")
          (draws 1))
        (answer_after false (toy_server-IsServer.signup_text (record { number = 1; uuid = "id" }))
          ++ (answers toy toy-IsSound
                (shared toy toy-IsSound 1 2 toy_draws part dealt number from to few both draws)
                draws
                gamma_small
                w_small
                5
                1
                coordinate
                product
                toy_server-IsServer
                delays
                "id"
                wire-IsWire
                1
                1
                refl
                one
                one
                two
                few
              ++ []))
        (wire.sign_json signed)
        (sets toy toy-IsSound
          (shared toy toy-IsSound 1 2 toy_draws part dealt number from to few both draws)
          draws
          gamma_small
          w_small
          5
          1
          coordinate
          product
          toy_server-IsServer
          delays
          "id"
          wire-IsWire
          1
          1
          refl
          one
          one
          two
          few)
    × (verify toy signed (public_key toy toy-IsSound 1 2 toy_draws) 5 ≡ ok tt)
unfolding read_params parse message_bytes
generation_signs_example =
    generation_signs toy toy-IsSound 1 2 toy_draws part dealt number from to few both draws
      gamma_small w_small 5 1 coordinate product (λ i j. 1) (λ i j. refl) toy_aead-IsAead
      (λ i j. refl) toy_server-IsServer toy_wire-IsWire wire-IsWire (codec-IsCodec key_file_coding)
      delays delays "gen" "id" ("a" ∷ "b" ∷ "keys1" ∷ []) ("a" ∷ "b" ∷ "keys1" ∷ "05" ∷ []) "keys1"
      "05" (some "") (some "") true false params params (λ s. some (5 ∷ [])) of_bytes 1 one two one
      few refl refl refl refl refl refl refl refl refl refl whole_sum
