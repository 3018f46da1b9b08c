-- ===== src/Mpt/Crypto.antt =====
-- What the crate takes from curv, paillier, zk_paillier and the centipede proofs: a parameter of
-- every definition of `Mpt`. `BigInt` is used at nonnegative values only, and is the native ℕ.
-- What a primitive draws at random is its `Seed` argument.
pub mod Laws
use vdexnode.Common.{ℕ, Bool, Option, List}

pub record Crypto : Type 1 where
  pub Seed : Type 0
  -- curv::FE, the scalars of the curve; `of_bigint` is `ECScalar::from`, `order` is `FE::q()`.
  pub FE : Type 0
  pub zero_fe : FE
  pub order : ℕ
  pub of_bigint : ℕ → FE
  pub to_bigint : FE → ℕ
  pub ◌⊕◌ : FE → FE → FE
  pub ◌⊖◌ : FE → FE → FE
  pub ◌⊗◌ : FE → FE → FE
  pub invert : FE → FE
  pub fe_eq : FE → FE → Bool
  -- curv::GE, the points; `p ⊛ x` is `p * &x`, `compressed` is `bytes_compressed_to_big_int`.
  pub GE : Type 0
  pub generator : GE
  pub ◌⊞◌ : GE → GE → GE
  pub ◌⊟◌ : GE → GE → GE
  pub ◌⊛◌ : GE → FE → GE
  pub x_coor : GE → Option ℕ
  pub compressed : GE → ℕ
  pub ge_eq : GE → GE → Bool
  -- HashCommitment::create_commitment_with_user_defined_randomness, HSha256::create_hash_from_ge
  pub create_commitment : ℕ → ℕ → ℕ
  pub create_hash_from_ge : List GE → FE
  -- sigma_dlog
  pub DLogProof : Type 0
  pub prove_dlog : FE → Seed → DLogProof
  pub verify_dlog : DLogProof → Bool
  pub pk : DLogProof → GE
  -- sigma_correct_homomorphic_elgamal_enc: witness r x, statement G H Y D E
  pub HomoElGamalProof : Type 0
  pub prove_elgamal : FE → FE → GE → GE → GE → GE → GE → Seed → HomoElGamalProof
  pub verify_elgamal : HomoElGamalProof → GE → GE → GE → GE → GE → Bool
  -- paillier; ciphertexts and plaintexts are the BigInts they wrap
  pub EncryptionKey : Type 0
  pub DecryptionKey : Type 0
  pub modulus : EncryptionKey → ℕ
  pub keypair : Seed → EncryptionKey × DecryptionKey
  pub encrypt : EncryptionKey → ℕ → Seed → ℕ
  pub mul_cipher : EncryptionKey → ℕ → ℕ → ℕ
  pub add_cipher : EncryptionKey → ℕ → ℕ → ℕ
  pub decrypt : DecryptionKey → ℕ → ℕ
  -- zk_paillier
  pub NiCorrectKeyProof : Type 0
  pub prove_key : DecryptionKey → NiCorrectKeyProof
  pub verify_key : NiCorrectKeyProof → EncryptionKey → Bool
  -- feldman_vss
  pub VerifiableSs : Type 0
  pub share : ℕ → ℕ → FE → Seed → VerifiableSs × List FE
  pub commitments : VerifiableSs → List GE
  pub validate_share : VerifiableSs → FE → ℕ → Bool
  pub get_point_commitment : VerifiableSs → ℕ → GE
  pub map_share_to_new_params : VerifiableSs → ℕ → List ℕ → FE
