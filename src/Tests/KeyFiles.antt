-- ===== src/Tests/KeyFiles.antt =====
-- The key file that a run between two parties of the small curve saves.
use vdexnode.Common.{◌≡◌, refl, String, true, some, [], ◌∷◌, ◌++◌, arith}
use vdexnode.Common.Decimal.{parse}
use vdexnode.Mpt.Transport.{World, done}
use vdexnode.Mpt.Transport.Runs.{answer_after}
use vdexnode.Mpt.Program.{read_params}
use vdexnode.Mpt.GenerateKey.{main}
use vdexnode.Mpt.GenerateKey.KeyFiles.{key_file}
use vdexnode.Mpt.GenerateKey.Complete.{answers, main_complete}
use vdexnode.Mpt.GenerateKey.Valid.{Saves, main_consistent}
use vdexnode.Tests.Toy.{f1, copies_at, toy, toy-IsModule, toy-IsBinding}
use vdexnode.Tests.Programs.{
  delays, params, toy-IsSound, toy_aead, toy_aead-IsAead, toy_draws, toy_server,
  toy_server-IsServer, toy_wire, toy_wire-IsWire,
}

abbrev before : World
before = record {
  script =
      (answer_after true (toy_server-IsServer.signup_text (record { number = 2; uuid = "id" }))
        ++ (answers toy toy-IsSound 1 2 toy_draws (λ i j. 1) (λ i j. refl) (λ j i. f1)
              (λ j i lt. copies_at 2 i f1 lt) toy_aead-IsAead (λ i j. refl) toy_server-IsServer
              delays "id" toy_wire-IsWire 2
            ++ []))
      ++ [];
  requests = [];
}

abbrev saved : String × String
saved = ("keys2", toy_wire.key_file.print (key_file toy toy-IsSound 1 2 toy_draws (λ j i. f1) 2))

ended :
    (w : World) × (main toy toy_server toy_aead toy_wire
        ("a" ∷ "b" ∷ "keys2" ∷ [])
        (some "")
        (toy_draws 2)
        before
      ≡ done saved w)
unfolding read_params parse
ended =
    let (requests, e, posted) =
      (main_complete toy toy-IsSound 1 2 toy_draws (λ i j. 1) (λ i j. refl) (λ j i. f1)
          (λ j i lt. copies_at 2 i f1 lt) toy_aead-IsAead (λ i j. refl) toy_server-IsServer delays
          "id" toy_wire-IsWire 2 ("a" ∷ "b" ∷ "keys2" ∷ []) "keys2" (some "") true params refl refl
          refl refl refl (omega arith) (omega arith)).at
        [] [] in
    (record { script = []; requests = requests }, e)

main_consistent_example :
    Saves toy toy-IsModule toy-IsBinding toy_server toy_aead toy_wire
      ("a" ∷ "b" ∷ "keys2" ∷ [])
      (some "")
      (toy_draws 2)
      saved
main_consistent_example =
    main_consistent toy toy-IsModule toy-IsBinding toy_server toy_aead toy_wire
      ("a" ∷ "b" ∷ "keys2" ∷ []) (some "") (toy_draws 2) before ended.0 saved ended.1
