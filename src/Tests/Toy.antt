-- ===== src/Tests/Toy.antt =====
-- A small stand-in for the crates' curve and proofs: the field with three elements acts on itself,
-- encryption is the identity modulo 1000, and shares are those of constant polynomials.
pub mod Coding
use native.Mathlib.Nat.{zero-mul}
use vdexnode.Common.{
  ℕ, zero, suc, ◌+◌, ◌*◌, ◌%◌, ◌<◌, ◌≡◌, refl, sym, ◌∙◌, ap, ◌≢◌, ◌↔◌, Bool, true, false, ◌&&◌,
  some, none, List, [], ◌∷◌, arith, ◌==◌, if◌then◌else◌, length, get_elem?,
}
use vdexnode.Mpt.Crypto.{Crypto}
use vdexnode.Mpt.Crypto.Laws.{
  IsField, IsModule, IsComplete, IsPaillier, IsSharing, IsBinding, IsReconstructing,
}

pub data F3 : Type 0 where
  f0 f1 f2 : F3

abbrev pub next : F3 → F3
next f0 = f1
next f1 = f2
next f2 = f0

abbrev pub add : F3 → F3 → F3
add f0 b = b
add f1 b = next b
add f2 b = next (next b)

abbrev pub neg : F3 → F3
neg f0 = f0
neg f1 = f2
neg f2 = f1

abbrev pub mul : F3 → F3 → F3
mul f0 b = f0
mul f1 b = b
mul f2 b = neg b

abbrev pub eq : F3 → F3 → Bool
eq f0 f0 = true
eq f1 f1 = true
eq f2 f2 = true
eq _ _ = false

abbrev pub of_bigint : ℕ → F3
of_bigint zero = f0
of_bigint (suc n) = add f1 (of_bigint n)

abbrev pub to_bigint : F3 → ℕ
to_bigint f0 = 0
to_bigint f1 = 1
to_bigint f2 = 2

abbrev pub hash : List F3 → F3
hash [] = f1
hash (p ∷ ps) = add p (mul f2 (hash ps))

abbrev pub copies : ℕ → F3 → List F3
copies zero u = []
copies (suc n) u = u ∷ copies n u

abbrev pub weight : ℕ → List ℕ → F3
weight i [] = f0
weight i (j ∷ js) = if i == j then f1 else f0

abbrev pub toy : Crypto
toy = record {
  Seed = ℕ;
  FE = F3;
  zero_fe = f0;
  order = 3;
  of_bigint = of_bigint;
  to_bigint = to_bigint;
  ◌⊕◌ = add;
  ◌⊖◌ = λ a b. add a (neg b);
  ◌⊗◌ = mul;
  invert = λ a. a;
  fe_eq = eq;
  GE = F3;
  generator = f1;
  ◌⊞◌ = add;
  ◌⊟◌ = λ a b. add a (neg b);
  ◌⊛◌ = mul;
  x_coor = λ p. elim p [ f0 ↦ none | f1 ↦ some 1 | f2 ↦ some 1 ];
  compressed = to_bigint;
  ge_eq = eq;
  create_commitment = λ m r. m + 3 * r;
  create_hash_from_ge = hash;
  DLogProof = F3 × F3;
  prove_dlog = λ x s. (x, x);
  verify_dlog = λ p. eq p.0 p.1;
  pk = λ p. p.0;
  HomoElGamalProof = F3 × F3;
  prove_elgamal = λ r x g h y d e s. (r, x);
  verify_elgamal = λ p g h y d e. eq d (add (mul h p.1) (mul y p.0)) && eq e (mul g p.0);
  EncryptionKey = ℕ;
  DecryptionKey = ℕ;
  modulus = λ n. n;
  keypair = λ s. (1000, 1000);
  encrypt = λ n m s. m;
  mul_cipher = λ n a k. a * k;
  add_cipher = λ n a b. a + b;
  decrypt = λ n a. a % n;
  NiCorrectKeyProof = ℕ;
  prove_key = λ n. n;
  verify_key = λ p n. p == n;
  VerifiableSs = F3;
  share = λ t n u s. (u, copies n u);
  commitments = λ v. v ∷ [];
  validate_share = λ v x i. eq x v;
  get_point_commitment = λ v i. v;
  map_share_to_new_params = λ v i s. weight i s;
}

pub add_assoc : (a b d : F3) → add (add a b) d ≡ add a (add b d)
add_assoc a b d = ground arith

pub add_comm : (a b : F3) → add a b ≡ add b a
add_comm a b = ground arith

pub mul_assoc : (a b d : F3) → mul (mul a b) d ≡ mul a (mul b d)
mul_assoc a b d = ground arith

pub mul_comm : (a b : F3) → mul a b ≡ mul b a
mul_comm a b = ground arith

pub mul-add : (a b d : F3) → mul a (add b d) ≡ add (mul a b) (mul a d)
mul-add a b d = ground arith

pub sub-add : (a b : F3) → add (add a (neg b)) b ≡ a
sub-add a b = ground arith

pub add-sub : (a b : F3) → add (add a b) (neg b) ≡ a
add-sub a b = ground arith

pub mul-zero_fe : (a : F3) → mul a f0 ≡ f0
mul-zero_fe a = ground arith

pub mul-one : (a : F3) → mul a f1 ≡ a
mul-one a = ground arith

pub invert-mul : (a : F3) → a ≢ f0 → mul a a ≡ f1
invert-mul f0 h = absurd (h refl)
invert-mul f1 h = refl
invert-mul f2 h = refl

pub eq_iff : (a b : F3) → (eq a b ≡ true) ↔ (a ≡ b)
eq_iff a b = ground arith

pub eq_refl : (a : F3) → eq a a ≡ true
eq_refl a = (eq_iff a a).1 refl

pub of_bigint-add : (m n : ℕ) → of_bigint (m + n) ≡ add (of_bigint m) (of_bigint n)
of_bigint-add zero n = let e : 0 + n ≡ n = omega arith in ap of_bigint e
of_bigint-add (suc m) n =
    let e : suc m + n ≡ suc (m + n) = omega arith in
    ap of_bigint e
    ∙ ap (add f1) (of_bigint-add m n)
    ∙ sym (add_assoc f1 (of_bigint m) (of_bigint n))

pub of_bigint-mul : (m n : ℕ) → of_bigint (m * n) ≡ mul (of_bigint m) (of_bigint n)
of_bigint-mul zero n = rw zero-mul
of_bigint-mul (suc m) n =
    let e : suc m * n ≡ n + m * n = omega arith in
    ap of_bigint e
    ∙ of_bigint-add n (m * n)
    ∙ ap (add (of_bigint n)) (of_bigint-mul m n)
    ∙ distribute (of_bigint m) (of_bigint n)
  where
    distribute : (a b : F3) → add b (mul a b) ≡ mul (add f1 a) b
    distribute a b = ground arith

pub of_bigint-to_bigint : (a : F3) → of_bigint (to_bigint a) ≡ a
of_bigint-to_bigint f0 = refl
of_bigint-to_bigint f1 = refl
of_bigint-to_bigint f2 = refl

abbrev pub toy-IsField : IsField toy
toy-IsField = record {
  one = f1;
  add_assoc = add_assoc;
  add_comm = add_comm;
  zero-add = λ a. refl;
  sub-add = sub-add;
  mul_assoc = mul_assoc;
  mul_comm = mul_comm;
  one-mul = λ a. refl;
  mul-add = mul-add;
  mul-zero = mul-zero_fe;
  invert-mul = invert-mul;
  fe_eq_iff = eq_iff;
  of_bigint-add = of_bigint-add;
  of_bigint-mul = of_bigint-mul;
  of_bigint-to_bigint = of_bigint-to_bigint;
}

abbrev pub toy-IsModule : IsModule toy toy-IsField
toy-IsModule = record {
  infinity = f0;
  add_assoc = add_assoc;
  add_comm = add_comm;
  infinity-add = λ p. refl;
  add-sub = add-sub;
  scale_assoc = mul_assoc;
  scale-one = mul-one;
  scale-zero = mul-zero_fe;
  scale-add = mul-add;
  add-scale = λ p q a. mul_comm (add p q) a ∙ mul-add a p q ∙ rw (mul_comm a p, mul_comm a q);
  ge_eq_iff = eq_iff;
}

verify_elgamal_lem :
    (r x g h y d e : F3)
    → d ≡ add (mul h x) (mul y r)
    → e ≡ mul g r
    → (eq d (add (mul h x) (mul y r)) && eq e (mul g r)) ≡ true
verify_elgamal_lem r x g h y d e p q =
    rw (p, q, eq_refl (add (mul h x) (mul y r)), eq_refl (mul g r))

pub toy-IsComplete : IsComplete toy
toy-IsComplete = record {
  verify-prove = λ x s. eq_refl x;
  pk-prove = λ x s. refl;
  verify-prove_elgamal = λ r x g h y d e s p q. verify_elgamal_lem r x g h y d e p q;
}

pub toy-IsPaillier : IsPaillier toy
toy-IsPaillier = record { decrypt_linear = λ s t u m k n. refl; verify-prove_key = λ s. refl }

length-copies : (n : ℕ) (u : F3) → length (copies n u) ≡ n
length-copies zero u = refl
length-copies (suc n) u = ap suc (length-copies n u)

of_copies : (n i : ℕ) (u x : F3) → get_elem? (copies n u) i ≡ some x → x ≡ u
of_copies zero i u x h = ground arith
of_copies (suc n) zero u x h = ground arith
of_copies (suc n) (suc i) u x h = of_copies n i u x h

pub copies_at : (n i : ℕ) (u : F3) → i < n → get_elem? (copies n u) i ≡ some u
copies_at zero i u h = elim h [ ]
copies_at (suc n) zero u h = refl
copies_at (suc n) (suc i) u h = copies_at n i u (omega arith)

pub toy-IsSharing : IsSharing toy
toy-IsSharing = record {
  length-share = λ t n u s. length-copies n u;
  validate-share = λ t n i u x s h. rw (of_copies n i u x h) (eq_refl u);
  point-share = λ t n i u x s h. sym (of_copies n i u x h);
  head-share = λ t n u s. refl;
}

-- Every share is the scheme itself.
valid_share : (v x : F3) → eq x v ≡ true → v ≡ mul f1 x
valid_share f0 f0 h = refl
valid_share f1 f1 h = refl
valid_share f2 f2 h = refl
valid_share v x h = ground arith

pub toy-IsBinding : IsBinding toy
toy-IsBinding = record { point-valid = λ v x i. valid_share v x }

abbrev pub two_signers : List ℕ
two_signers = 0 ∷ 1 ∷ []

first_part :
    (u : F3) (part : ℕ → F3)
    → ((i : ℕ) → i < 2 → get_elem? (copies 2 u) i ≡ some (part i))
    → add (part 0) f0 ≡ u
first_part u part h = ground (arith, h 0 (omega arith), add_comm (part 0) f0)

-- The first two of two parties are qualified signers.
pub toy-IsReconstructing : IsReconstructing toy 1 2 two_signers toy-IsField
toy-IsReconstructing = record {
  coefficient = λ i. weight i two_signers;
  map_share = λ u s i. refl;
  reconstruct = λ u s part h. first_part u part h;
}
