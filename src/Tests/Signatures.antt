-- ===== src/Tests/Signatures.antt =====
-- The signature that a run between two signers of the small curve saves.
use vdexnode.Common.{◌%◌, ◌^◌, ◌≤◌, ◌<◌, ◌≡◌, refl, String, true, some, [], ◌∷◌, ◌++◌, arith}
use vdexnode.Common.Decimal.{parse}
use vdexnode.Mpt.Transport.{World, done}
use vdexnode.Mpt.Transport.Runs.{answer_after}
use vdexnode.Mpt.Program.{read_params}
use vdexnode.Mpt.Sign.Main.{message_bytes, main}
use vdexnode.Mpt.Sign.Complete.{answers}
use vdexnode.Mpt.Sign.Run.{main_signs}
use vdexnode.Mpt.Sign.Valid.{Signs, main_valid}
use vdexnode.Tests.Toy.{f2, toy}
use vdexnode.Tests.Toy.Coding.{codec, codec-IsCodec}
use vdexnode.Tests.Programs.{
  of_bytes, delays, key_file_coding, params, toy-IsSound, toy_server, toy_server-IsServer,
}
use vdexnode.Tests.SignRun.{
  file, shared, draws, gamma_small, w_small, coordinate, plain, product, whole_sum, wire,
  wire-IsWire,
}

one : 1 ≤ 1
one = omega arith

two : 1 ≤ 2
two = omega arith

few : 2 < 2 ^ 32
few = omega arith

abbrev key_text : String
key_text = (codec key_file_coding).print (file 1)

read_back : wire.key_file_from_str key_text ≡ some (file 1)
read_back = codec-IsCodec key_file_coding (file 1)

abbrev before : World
before = record {
  script =
      (answer_after true (toy_server-IsServer.signup_text (record { number = 1; uuid = "id" }))
        ++ (answers toy toy-IsSound shared draws gamma_small w_small 5 1 coordinate product
              toy_server-IsServer delays "id" wire-IsWire 1 1 refl one one two few
            ++ []))
      ++ [];
  requests = [];
}

ended :
    (w : World) × (main toy toy_server wire
        (λ s. some (5 ∷ []))
        of_bytes
        ("a" ∷ "b" ∷ "keys1" ∷ "05" ∷ [])
        (some key_text)
        (some "")
        (draws 1)
        before
      ≡ done (wire.sign_json plain) w)
unfolding read_params parse message_bytes
ended =
    let (requests, e, posted) =
      (main_signs toy toy-IsSound shared draws gamma_small w_small 5 1 coordinate product
          toy_server-IsServer delays "id" wire-IsWire 1 1 refl one one two few (λ s. some (5 ∷ []))
          of_bytes ("a" ∷ "b" ∷ "keys1" ∷ "05" ∷ []) "05" key_text (some "") true params refl refl
          read_back refl refl refl whole_sum).at
        [] [] in
    (record { script = []; requests = requests }, e)

main_valid_example : Signs toy wire f2 (5 % 2 ^ 256) (wire.sign_json plain)
unfolding message_bytes
main_valid_example =
    main_valid toy toy_server wire (λ s. some (5 ∷ [])) of_bytes ("a" ∷ "b" ∷ "keys1" ∷ "05" ∷ [])
      (some "") (draws 1) "05" key_text (file 1) refl read_back before ended.0
      (wire.sign_json plain) ended.1
