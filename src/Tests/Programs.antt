-- ===== src/Tests/Programs.antt =====
-- A whole run of key generation between two parties over the small curve, with a server and a cipher
-- of its own.
use vdexnode.Common.{
  ℕ, zero, suc, ◌≡◌, refl, String, true, Option, some, none, List, [], ◌∷◌, ◌++◌, map, arith,
  length, ◌==◌, if◌then◌else◌, inl,
}
use Prim.Native.String.{String, [], ◌∷◌}
use vdexnode.Common.Decimal.{parse}
use vdexnode.Mpt.Messages.{Keys, KeyGenBroadcastMessage1, KeyGenDecommitMessage1}
use vdexnode.Mpt.Transport.{panicked, PartySignup, Entry}
use vdexnode.Mpt.Transport.Runs.{Runs, answer_after}
use vdexnode.Mpt.Program.{Server, Params, read_params}
use vdexnode.Mpt.Program.Scripts.{IsServer, Delays}
use vdexnode.Mpt.Sealing.{Sealed, Aead}
use vdexnode.Mpt.GenerateKey.{Draws, KeyFile, Wire, main}
use vdexnode.Mpt.GenerateKey.Honest.{IsAead}
use vdexnode.Mpt.GenerateKey.KeyFiles.{IsSound, key_file}
use vdexnode.Mpt.GenerateKey.Complete.{IsWire, answers, sets, main_complete}
use vdexnode.Mpt.GenerateKey.Refusal.{main_refuses}
use vdexnode.Tests.Toy.{
  F3, f1, copies_at, toy, toy-IsField, toy-IsModule, toy-IsSharing, toy-IsComplete, toy-IsPaillier,
  to_bigint, of_bigint, of_bigint-to_bigint,
}
use vdexnode.Tests.Toy.Coding.{Coding, nat, string, list, pair, image, codec, codec-IsCodec}

-- Numbers as 32 bytes, of which the first is the number.
abbrev zeros : ℕ → List ℕ
zeros zero = []
zeros (suc n) = 0 ∷ zeros n

abbrev pub of_bytes : List ℕ → ℕ
of_bytes [] = 0
of_bytes (b ∷ bs) = b

-- A cipher that adds 1 to each byte, and whose tag is the key.
abbrev lower : ℕ → ℕ
lower zero = zero
lower (suc b) = b

abbrev pub toy_aead : Aead
toy_aead = record {
  encrypt = λ key nonce text.
      if length key == 32 then some (record { ciphertext = map suc text; tag = key }) else none;
  decrypt = λ key nonce pack. if length key == 32 then some (map lower pack.ciphertext) else none;
  to_vec = λ k. k ∷ zeros 31;
  of_bytes = of_bytes;
}

pub lower-suc : (bs : List ℕ) → map lower (map suc bs) ≡ bs
lower-suc [] = refl
lower-suc (b ∷ bs) = rw (lower-suc bs) refl

abbrev pub toy_aead-IsAead : IsAead toy_aead
toy_aead-IsAead = record {
  seal = λ key text. record { ciphertext = map suc text; tag = key };
  encrypt-seal = λ key text e. rw e refl;
  decrypt-seal = λ key text e. rw (e, lower-suc text) refl;
  of_bytes-to_vec = λ k. refl;
}

-- The small curve's values in texts.
abbrev pub f3 : Coding F3
f3 = image nat of_bigint to_bigint of_bigint-to_bigint

abbrev pack : Coding Sealed
pack =
    image (pair list list) (λ p. record { ciphertext = p.0; tag = p.1 })
      (λ s. (s.ciphertext, s.tag)) (λ s. refl)

abbrev broadcast1 : Coding (KeyGenBroadcastMessage1 toy)
broadcast1 =
    image (pair nat (pair nat nat))
      (λ p. record { e = p.0; commitment = p.1.0; correct_key_proof = p.1.1 })
      (λ b. (b.e, (b.commitment, b.correct_key_proof))) (λ b. refl)

abbrev decommit1 : Coding (KeyGenDecommitMessage1 toy)
decommit1 =
    image (pair nat f3) (λ p. record { blind_factor = p.0; y_i = p.1 })
      (λ d. (d.blind_factor, d.y_i)) (λ d. refl)

pub scalars_read : (xs : List F3) → map of_bigint (map to_bigint xs) ≡ xs
scalars_read [] = refl
scalars_read (x ∷ xs) = rw (of_bigint-to_bigint x, scalars_read xs) refl

abbrev scalars : Coding (List F3)
scalars = image list (map of_bigint) (map to_bigint) scalars_read

abbrev keys : Coding (Keys toy)
keys =
    image (pair (pair f3 f3) (pair nat (pair nat nat)))
      (λ p. record { u_i = p.0.0; y_i = p.0.1; dk = p.1.0; ek = p.1.1.0; party_index = p.1.1.1 })
      (λ k. ((k.u_i, k.y_i), (k.dk, (k.ek, k.party_index)))) (λ k. refl)

abbrev pub key_file_coding : Coding (KeyFile toy)
key_file_coding =
    image (pair (pair keys (pair f3 f3)) (pair nat (pair scalars (pair list f3))))
      (λ p. record {
        party_keys = p.0.0;
        shared_keys = record { y = p.0.1.0; x_i = p.0.1.1 };
        party_num = p.1.0;
        vss_scheme_vec = p.1.1.0;
        paillier_key_vec = p.1.1.1.0;
        y_sum = p.1.1.1.1;
      })
      (λ f. (
        (f.party_keys, (f.shared_keys.y, f.shared_keys.x_i)),
        (f.party_num, (f.vss_scheme_vec, (f.paillier_key_vec, f.y_sum))),
      ))
      (λ f. refl)

abbrev pub params : Params
params = record { parties = "2"; threshold = "1" }

abbrev pub toy_wire : Wire toy
toy_wire = record {
  params_from_str = λ text. some params;
  broadcast1 = codec broadcast1;
  decommit1 = codec decommit1;
  aead_pack = codec pack;
  vss = codec f3;
  dlog_proof = codec (pair f3 f3);
  key_file = codec key_file_coding;
}

abbrev pub toy_wire-IsWire : IsWire toy toy_wire
toy_wire-IsWire = record {
  broadcast1_read = codec-IsCodec broadcast1;
  decommit1_read = codec-IsCodec decommit1;
  aead_pack_read = codec-IsCodec pack;
  vss_read = codec-IsCodec f3;
  dlog_proof_read = codec-IsCodec (pair f3 f3);
}

abbrev entry_coding : Coding Entry
entry_coding =
    image (pair string (pair string (pair string (pair string string))))
      (λ p. record {
        key = record { first = p.0; second = p.1.0; third = p.1.1.0; fourth = p.1.1.1.0 };
        value = p.1.1.1.1;
      })
      (λ e. (e.key.first, (e.key.second, (e.key.third, (e.key.fourth, e.value))))) (λ e. refl)

abbrev signup_coding : Coding PartySignup
signup_coding =
    image (pair nat string) (λ p. record { number = p.0; uuid = p.1 }) (λ p. (p.number, p.uuid))
      (λ p. refl)

-- The empty text says that nothing is there yet.
abbrev decode_entry : String → Option (Option Entry)
decode_entry [] = some none
decode_entry (c ∷ s) = some ((codec entry_coding).read s)

abbrev pub toy_server : Server
toy_server = record {
  decode_unit = λ text. some (some tt);
  decode_signup = λ text. some ((codec signup_coding).read text);
  decode_entry = decode_entry;
}

abbrev pub toy_server-IsServer : IsServer toy_server
toy_server-IsServer = record {
  ok_text = "ok";
  read_ok = refl;
  pending = "";
  read_pending = refl;
  entry_text = λ e. "x" ∷ (codec entry_coding).print e;
  read_entry = λ e. rw (codec-IsCodec entry_coding e) refl;
  signup_text = (codec signup_coding).print;
  read_signup = λ p. rw (codec-IsCodec signup_coding p) refl;
}

-- Some sends are lost, some messages come late.
abbrev pub delays : Delays
delays = record {
  sends = λ round j. j == 0;
  waits = λ round j. true ∷ [];
  lost = λ round j. j == 1;
}

abbrev pub toy_draws : ℕ → Draws toy
toy_draws j = record { u = f1; paillier = j; blind = j; sharing = j; proof = j }

abbrev pub toy-IsSound : IsSound toy
toy-IsSound = record {
  f = toy-IsField;
  m = toy-IsModule;
  sharing = toy-IsSharing;
  complete = toy-IsComplete;
  paillier = toy-IsPaillier;
}

main_complete_example :
    Runs
      (main toy toy_server toy_aead toy_wire ("a" ∷ "b" ∷ "keys2" ∷ []) (some "") (toy_draws 2))
      (answer_after true (toy_server-IsServer.signup_text (record { number = 2; uuid = "id" }))
        ++ (answers toy toy-IsSound 1 2 toy_draws
              (λ i j. 1)
              (λ i j. refl)
              (λ j i. f1)
              (λ j i lt. copies_at 2 i f1 lt)
              toy_aead-IsAead
              (λ i j. refl)
              toy_server-IsServer
              delays
              "id"
              toy_wire-IsWire
              2
            ++ []))
      ("keys2", toy_wire.key_file.print (key_file toy toy-IsSound 1 2 toy_draws (λ j i. f1) 2))
      (sets toy toy-IsSound 1 2 toy_draws
        (λ i j. 1)
        (λ i j. refl)
        (λ j i. f1)
        (λ j i lt. copies_at 2 i f1 lt)
        toy_aead-IsAead
        (λ i j. refl)
        toy_server-IsServer
        delays
        "id"
        toy_wire-IsWire
        2)
unfolding read_params parse
main_complete_example =
    main_complete toy toy-IsSound 1 2 toy_draws (λ i j. 1) (λ i j. refl) (λ j i. f1)
      (λ j i lt. copies_at 2 i f1 lt) toy_aead-IsAead (λ i j. refl) toy_server-IsServer delays "id"
      toy_wire-IsWire 2 ("a" ∷ "b" ∷ "keys2" ∷ []) "keys2" (some "") true params refl refl refl refl
      refl (omega arith) (omega arith)

main_refuses_example :
    main toy toy_server toy_aead toy_wire
      ("a" ∷ "b" ∷ [])
      (some "")
      (toy_draws 2)
      (record { script = []; requests = [] })
    ≡ panicked
main_refuses_example =
    main_refuses toy toy_server toy_aead toy_wire ("a" ∷ "b" ∷ []) (some "") (toy_draws 2)
      (record { script = []; requests = [] }) (inl (λ e. absurd (two_three e)))
  where
    two_three : ◌≡◌ {A = ℕ} 2 3 → ⊥
    two_three e = omega arith
