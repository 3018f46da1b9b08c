-- ===== src/Mpt/Crypto/Laws.antt =====
-- What the documentation of those libraries promises, one record for each of them. A theorem takes
-- the ones that it needs, and `Tests.Toy` has values that meet them all.
use vdexnode.Common.{List, ◌<◌, ℕ, suc, ◌+◌, ◌*◌, ◌%◌, ◌≡◌, ◌≢◌, ◌↔◌, true, some, length, get_elem?}
use vdexnode.Mpt.Crypto.{Crypto}
use vdexnode.Mpt.Sums.{total}

module _ (c : Crypto) where
  open c use {
    Seed, FE, zero_fe, ◌⊕◌, ◌⊖◌, ◌⊗◌, invert, of_bigint, to_bigint, fe_eq, GE, generator, ◌⊞◌, ◌⊟◌,
    ◌⊛◌, ge_eq, prove_dlog, verify_dlog, pk, prove_elgamal, verify_elgamal, EncryptionKey,
    DecryptionKey, modulus, keypair, encrypt, mul_cipher, add_cipher, decrypt, prove_key,
    verify_key, VerifiableSs, share, commitments, validate_share, get_point_commitment,
    map_share_to_new_params,
  }

  infixl 65 ◌⊕◌ ◌⊖◌ ◌⊞◌ ◌⊟◌
  infixl 70 ◌⊗◌ ◌⊛◌
  -- The scalars are a field, onto which the integers map.
  pub record IsField : Type 0 where
    pub one : FE
    pub add_assoc : (a b d : FE) → (a ⊕ b) ⊕ d ≡ a ⊕ (b ⊕ d)
    pub add_comm : (a b : FE) → a ⊕ b ≡ b ⊕ a
    pub zero-add : (a : FE) → zero_fe ⊕ a ≡ a
    pub sub-add : (a b : FE) → (a ⊖ b) ⊕ b ≡ a
    pub mul_assoc : (a b d : FE) → (a ⊗ b) ⊗ d ≡ a ⊗ (b ⊗ d)
    pub mul_comm : (a b : FE) → a ⊗ b ≡ b ⊗ a
    pub one-mul : (a : FE) → one ⊗ a ≡ a
    pub mul-add : (a b d : FE) → a ⊗ (b ⊕ d) ≡ (a ⊗ b) ⊕ (a ⊗ d)
    pub mul-zero : (a : FE) → a ⊗ zero_fe ≡ zero_fe
    pub invert-mul : (a : FE) → a ≢ zero_fe → invert a ⊗ a ≡ one
    pub fe_eq_iff : (a b : FE) → (fe_eq a b ≡ true) ↔ (a ≡ b)
    pub of_bigint-add : (m n : ℕ) → of_bigint (m + n) ≡ of_bigint m ⊕ of_bigint n
    pub of_bigint-mul : (m n : ℕ) → of_bigint (m * n) ≡ of_bigint m ⊗ of_bigint n
    pub of_bigint-to_bigint : (a : FE) → of_bigint (to_bigint a) ≡ a

  -- The points are a commutative group on which the scalars act.
  pub record IsModule (f : IsField) : Type 0 where
    pub infinity : GE
    pub add_assoc : (p q r : GE) → (p ⊞ q) ⊞ r ≡ p ⊞ (q ⊞ r)
    pub add_comm : (p q : GE) → p ⊞ q ≡ q ⊞ p
    pub infinity-add : (p : GE) → infinity ⊞ p ≡ p
    pub add-sub : (p q : GE) → (p ⊞ q) ⊟ q ≡ p
    pub scale_assoc : (p : GE) (a b : FE) → (p ⊛ a) ⊛ b ≡ p ⊛ (a ⊗ b)
    pub scale-one : (p : GE) → p ⊛ f.one ≡ p
    pub scale-zero : (p : GE) → p ⊛ zero_fe ≡ infinity
    pub scale-add : (p : GE) (a b : FE) → p ⊛ (a ⊕ b) ≡ (p ⊛ a) ⊞ (p ⊛ b)
    pub add-scale : (p q : GE) (a : FE) → (p ⊞ q) ⊛ a ≡ (p ⊛ a) ⊞ (q ⊛ a)
    pub ge_eq_iff : (p q : GE) → (ge_eq p q ≡ true) ↔ (p ≡ q)

  -- Proofs made for a true statement verify, and a discrete-log proof carries its point.
  pub record IsComplete : Type 0 where
    pub verify-prove : (x : FE) (s : Seed) → verify_dlog (prove_dlog x s) ≡ true
    pub pk-prove : (x : FE) (s : Seed) → pk (prove_dlog x s) ≡ generator ⊛ x
    pub verify-prove_elgamal :
        (r x : FE) (g h y d e : GE) (s : Seed)
        → d ≡ (h ⊛ x) ⊞ (y ⊛ r)
        → e ≡ g ⊛ r
        → verify_elgamal (prove_elgamal r x g h y d e s) g h y d e ≡ true

  -- Paillier: what decrypts under the keys of one pair is linear, modulo the public modulus.
  pub record IsPaillier : Type 0 where
    pub decrypt_linear :
        (s t u : Seed) (m k n : ℕ)
        → let ek = (keypair s).0 in
          decrypt (keypair s).1 (add_cipher ek (mul_cipher ek (encrypt ek m t) k) (encrypt ek n u))
          ≡ (m * k + n) % modulus ek
    pub verify-prove_key : (s : Seed) → verify_key (prove_key (keypair s).1) (keypair s).0 ≡ true

  -- Feldman sharing of `u` among `n` with threshold `t`: there is a share for each party, it
  -- validates at the party's number, and the commitments stand for the shares and the secret.
  pub record IsSharing : Type 0 where
    pub length-share : (t n : ℕ) (u : FE) (s : Seed) → length (share t n u s).1 ≡ n
    pub validate-share :
        (t n i : ℕ) (u x : FE) (s : Seed)
        → get_elem? (share t n u s).1 i ≡ some x
        → validate_share (share t n u s).0 x (suc i) ≡ true
    pub point-share :
        (t n i : ℕ) (u x : FE) (s : Seed)
        → get_elem? (share t n u s).1 i ≡ some x
        → get_point_commitment (share t n u s).0 (suc i) ≡ generator ⊛ x
    pub head-share :
        (t n : ℕ) (u : FE) (s : Seed)
        → get_elem? (commitments (share t n u s).0) 0 ≡ some (generator ⊛ u)

  -- A share validates at a number only if the commitments stand for it there.
  pub record IsBinding : Type 0 where
    pub point-valid :
        (vss : VerifiableSs) (x : FE) (i : ℕ)
        → validate_share vss x i ≡ true
        → get_point_commitment vss i ≡ generator ⊛ x

  -- Shamir's reconstruction for the positions `s` of a qualified set of signers: the coefficients
  -- depend on the set alone, and weigh the shares of each sharing to its secret.
  pub record IsReconstructing (t n : ℕ) (s : List ℕ) (f : IsField) : Type 0 where
    pub coefficient : ℕ → FE
    pub map_share :
        (u : FE) (seed : Seed) (i : ℕ)
        → map_share_to_new_params (share t n u seed).0 i s ≡ coefficient i
    pub reconstruct :
        (u : FE) (seed : Seed) (part : ℕ → FE)
        → ((i : ℕ) → i < n → get_elem? (share t n u seed).1 i ≡ some (part i))
        → total ◌⊕◌ zero_fe (λ i. coefficient i ⊗ part i) s ≡ u
