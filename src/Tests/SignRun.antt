-- ===== src/Tests/SignRun.antt =====
-- A whole run of signing between the two parties of the small curve.
use vdexnode.Common.{
  ℕ, zero, suc, ◌+◌, ◌*◌, ◌≡◌, ◌<◌, ◌≤◌, ◌^◌, ◌≢◌, refl, some, [], ◌∷◌, arith, get_elem?,
}
use vdexnode.Common.Outcome.{ok}
use vdexnode.Mpt.Messages.{
  SignBroadcastPhase1, SignDecommitPhase1, Phase5Com1, Phase5Com2, Phase5ADecom1, Phase5DDecom2,
  MessageA, MessageB, Signature,
}
use vdexnode.Mpt.KeyGen.{get_commitments_to_xi, commitment_to_xi, update_commitments_to_xi}
use vdexnode.Mpt.LocalSignature.{verify}
use vdexnode.Mpt.Rounds.{collect_from, fold_head, fold}
use vdexnode.Mpt.Parties.{indices}
use vdexnode.Mpt.Transport.Runs.{Runs}
use vdexnode.Mpt.GenerateKey.{KeyFile}
use vdexnode.Mpt.Sign.{position}
use vdexnode.Mpt.Sign.Loops.{AnswerDraws}
use vdexnode.Mpt.Sign.Main.{Draws, Wire, rounds}
use vdexnode.Mpt.Sign.Signers.{IsShared, signers, weight}
use vdexnode.Mpt.Sign.Answers.{key_of}
use vdexnode.Mpt.Sign.Nonces.{r_point}
use vdexnode.Mpt.Parties.Pairs.{sum_all}
use native.Mathlib.Nat.{zero-mul}
use vdexnode.Mpt.SignKeys.{create as create_keys}
use vdexnode.Mpt.Sign.Complete.{IsWire, answers, sets, plain_signature, rounds_signs}
use vdexnode.Tests.Toy.{F3, f0, f1, f2, add, mul, to_bigint, toy, toy-IsField}
use vdexnode.Tests.Toy.Coding.{Coding, nat, pair, image, codec, codec-IsCodec}
use vdexnode.Tests.Programs.{
  params, key_file_coding, f3, toy_server, toy_server-IsServer, delays, toy-IsSound,
}

-- Party 1 signs as signer 1, party 2 as every other one.
abbrev pub number : ℕ → ℕ
number (suc zero) = 1
number _ = 2

abbrev pub file : ℕ → KeyFile toy
file j = record {
  party_keys = record { u_i = f1; y_i = f1; dk = 1000; ek = 1000; party_index = number j };
  shared_keys = record { y = f2; x_i = f2 };
  party_num = number j;
  vss_scheme_vec = f1 ∷ f1 ∷ [];
  paillier_key_vec = 1000 ∷ 1000 ∷ [];
  y_sum = f2;
}

abbrev answer_draws : ℕ → AnswerDraws toy
answer_draws j = record { beta_tag = 7; enc = 0; b_proof = 0; beta_proof = 0 }

abbrev pub draws : ℕ → Draws toy
draws j = record {
  gamma_i = f1;
  k_i = f1;
  blind = j;
  enc = j;
  gamma_answers = answer_draws;
  w_answers = answer_draws;
  l_i = f1;
  rho_i = f2;
  blind5 = j;
  elgamal = j;
  blind5c = j;
}

pub shared : IsShared toy toy-IsField 2 file f2
unfolding position get_commitments_to_xi commitment_to_xi update_commitments_to_xi collect_from
    fold_head fold indices
shared = record {
  seed = λ j. j;
  ek_at = λ j. refl;
  dk_at = λ j. refl;
  vss_vec = f1 ∷ f1 ∷ [];
  same_vss = λ j. refl;
  vss = λ j. f1;
  vss_at = scheme_at;
  paillier_at = λ i j. key_at j;
  xi_com_vec = f2 ∷ f2 ∷ [];
  xi_coms = refl;
  xi_com = λ j. f2;
  xi_com_at = point_at;
  weight_at = weighted;
  key_at = λ j. refl;
  weights_sum = refl;
}
  where
    scheme_at : (j : ℕ) → get_elem? (f1 ∷ f1 ∷ []) (position (number j)) ≡ some f1
    scheme_at zero = refl
    scheme_at (suc zero) = refl
    scheme_at (suc (suc j)) = refl

    key_at : (j : ℕ) → get_elem? {A = ℕ} (1000 ∷ 1000 ∷ []) (position (number j)) ≡ some 1000
    key_at zero = refl
    key_at (suc zero) = refl
    key_at (suc (suc j)) = refl

    point_at : (j : ℕ) → get_elem? (f2 ∷ f2 ∷ []) (position (number j)) ≡ some f2
    point_at zero = refl
    point_at (suc zero) = refl
    point_at (suc (suc j)) = refl

    weighted :
        (j : ℕ)
        → update_commitments_to_xi toy f2 f1 (position (number j)) (signers toy file 2)
          ≡ mul f1 (weight toy file 2 f1 j)
    weighted zero = refl
    weighted (suc zero) = refl
    weighted (suc (suc j)) = refl

-- The text forms of the messages.
abbrev commitment : Coding SignBroadcastPhase1
commitment = image nat (λ k. record { commitment = k }) (λ b. b.commitment) (λ b. refl)

abbrev com1 : Coding Phase5Com1
com1 = image nat (λ k. record { commitment = k }) (λ b. b.commitment) (λ b. refl)

abbrev com2 : Coding Phase5Com2
com2 = image nat (λ k. record { commitment = k }) (λ b. b.commitment) (λ b. refl)

abbrev message_a : Coding MessageA
message_a = image nat (λ k. record { c_a = k }) (λ b. b.c_a) (λ b. refl)

abbrev message_b : Coding (MessageB toy)
message_b =
    image (pair nat (pair (pair f3 f3) (pair f3 f3)))
      (λ p. record { c_b = p.0; b_proof = p.1.0; beta_tag_proof = p.1.1 })
      (λ m. (m.c_b, (m.b_proof, m.beta_tag_proof))) (λ m. refl)

abbrev decommit : Coding (SignDecommitPhase1 toy)
decommit =
    image (pair nat f3) (λ p. record { blind_factor = p.0; g_gamma_i = p.1 })
      (λ d. (d.blind_factor, d.g_gamma_i)) (λ d. refl)

abbrev decom1 : Coding (Phase5ADecom1 toy)
decom1 =
    image (pair (pair f3 f3) (pair f3 nat))
      (λ p. record { v_i = p.0.0; a_i = p.0.1; b_i = p.1.0; blind_factor = p.1.1 })
      (λ d. ((d.v_i, d.a_i), (d.b_i, d.blind_factor))) (λ d. refl)

abbrev decom2 : Coding (Phase5DDecom2 toy)
decom2 =
    image (pair f3 (pair f3 nat)) (λ p. record { u_i = p.0; t_i = p.1.0; blind_factor = p.1.1 })
      (λ d. (d.u_i, (d.t_i, d.blind_factor))) (λ d. refl)

abbrev pub wire : Wire toy
wire = record {
  params_from_str = λ text. some params;
  key_file_from_str = (codec key_file_coding).read;
  party_id = codec nat;
  round1 = codec (pair commitment message_a);
  round2 = codec (pair message_b message_b);
  later = record {
    scalar = codec f3;
    decommit = codec decommit;
    com1 = codec com1;
    decom1 = codec (pair decom1 (pair f3 f3));
    com2 = codec com2;
    decom2 = codec decom2;
  };
  sign_json = λ sig. "signature";
}

abbrev pub wire-IsWire : IsWire toy wire
wire-IsWire = record {
  party_id_read = codec-IsCodec nat;
  round1_read = codec-IsCodec (pair commitment message_a);
  round2_read = codec-IsCodec (pair message_b message_b);
  later_reads = record {
    scalar_read = codec-IsCodec f3;
    decommit_read = codec-IsCodec decommit;
    com1_read = codec-IsCodec com1;
    decom1_read = codec-IsCodec (pair decom1 (pair f3 f3));
    com2_read = codec-IsCodec com2;
    decom2_read = codec-IsCodec decom2;
  };
}

-- Nothing that these signers draw reaches the modulus.
pub small : (a b : F3) → to_bigint a * to_bigint b + 7 < 1000
small f0 b = rw (zero-mul (to_bigint b)) (omega arith)
small f1 f0 = omega arith
small f1 f1 = omega arith
small f1 f2 = omega arith
small f2 f0 = omega arith
small f2 f1 = omega arith
small f2 f2 = omega arith

pub gamma_small :
    (i j : ℕ)
    → to_bigint (key_of toy toy-IsSound shared draws i).k_i
          * to_bigint (key_of toy toy-IsSound shared draws j).gamma_i
        + 7
      < 1000
gamma_small i j =
    small (key_of toy toy-IsSound shared draws i).k_i
      (key_of toy toy-IsSound shared draws j).gamma_i

pub w_small :
    (i j : ℕ)
    → to_bigint (key_of toy toy-IsSound shared draws i).k_i
          * to_bigint (key_of toy toy-IsSound shared draws j).w_i
        + 7
      < 1000
w_small i j =
    small (key_of toy toy-IsSound shared draws i).k_i (key_of toy toy-IsSound shared draws j).w_i

pub coordinate :
    toy.x_coor (r_point toy toy-IsSound.m 2 (key_of toy toy-IsSound shared draws)) ≡ some 1
unfolding create_keys indices
coordinate = refl

pub product :
    mul
      (sum_all toy toy-IsField 2 (λ i. (key_of toy toy-IsSound shared draws i).k_i))
      (sum_all toy toy-IsField 2 (λ i. (key_of toy toy-IsSound shared draws i).gamma_i))
    ≢ f0
unfolding create_keys indices
product e = f1_f0 e
  where
    f1_f0 : f1 ≡ f0 → ⊥
    f1_f0 e = cc

pub whole_sum :
    mul
      (sum_all toy toy-IsField 2 (λ i. (draws i).k_i))
      (add (toy.of_bigint 5) (mul (toy.of_bigint 1) f2))
    ≢ f0
unfolding indices
whole_sum e = f2_f0 e
  where
    f2_f0 : f2 ≡ f0 → ⊥
    f2_f0 e = cc

-- The private key is f2, and so is the sum of the nonces.
abbrev pub plain : Signature toy
plain = plain_signature toy f2 (sum_all toy toy-IsField 2 (λ i. (draws i).k_i)) 1 5

one : 1 ≤ 1
one = omega arith

two : 1 ≤ 2
two = omega arith

few : 2 < 2 ^ 32
few = omega arith

rounds_signs_example :
    Runs
      (rounds toy toy_server wire (draws 1) 1 (file 1) 1 "id" 5)
      (answers toy toy-IsSound shared draws gamma_small w_small 5 1 coordinate product
        toy_server-IsServer delays "id" wire-IsWire 1 1 refl one one two few)
      plain
      (sets toy toy-IsSound shared draws gamma_small w_small 5 1 coordinate product
        toy_server-IsServer delays "id" wire-IsWire 1 1 refl one one two few)
    × (verify toy plain f2 5 ≡ ok tt)
rounds_signs_example =
    rounds_signs toy toy-IsSound shared draws gamma_small w_small 5 1 coordinate product
      toy_server-IsServer delays "id" wire-IsWire 1 1 refl one one two few whole_sum
