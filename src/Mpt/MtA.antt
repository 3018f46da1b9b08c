-- ===== src/Mpt/MtA.antt =====
-- vDexNode/mpt/src/utils/sign_utils.rs: two parties turn a product into a sum.
-- What a method samples is an argument.
pub mod Correct
use vdexnode.Common.{ℕ, Bool, ◌&&◌, if◌then◌else◌}
use vdexnode.Common.Outcome.{Outcome, ok, err}
use vdexnode.Mpt.Crypto.{Crypto}
use vdexnode.Mpt.Messages.{Error, invalid_key, MessageA, MessageB}

module _ (c : Crypto) where
  open c use {
    Seed, FE, zero_fe, of_bigint, to_bigint, ◌⊖◌, GE, generator, ◌⊞◌, ◌⊛◌, ge_eq, prove_dlog,
    verify_dlog, pk, EncryptionKey, DecryptionKey, encrypt, mul_cipher, add_cipher, decrypt,
  }

  infixl 65 ◌⊖◌ ◌⊞◌
  infixl 70 ◌⊛◌
  unfoldable pub message_a : FE → EncryptionKey → Seed → MessageA
  message_a a alice_ek seed = record { c_a = encrypt alice_ek (to_bigint a) seed }

  -- `beta_tag` is `sample_below(&alice_ek.n)`; the seeds are of the encryption and the two proofs.
  unfoldable pub message_b :
      FE → EncryptionKey → MessageA → ℕ → Seed → Seed → Seed → MessageB c × FE
  message_b b alice_ek m_a beta_tag enc_seed b_seed beta_seed =
      let beta_tag_fe = of_bigint beta_tag in
      let c_beta_tag = encrypt alice_ek beta_tag enc_seed in
      let b_c_a = mul_cipher alice_ek m_a.c_a (to_bigint b) in
      let c_b = add_cipher alice_ek b_c_a c_beta_tag in
      let beta = zero_fe ⊖ beta_tag_fe in
      (
        record {
          c_b = c_b;
          b_proof = prove_dlog b b_seed;
          beta_tag_proof = prove_dlog beta_tag_fe beta_seed;
        },
        beta,
      )

  unfoldable pub verify_proofs_get_alpha : MessageB c → DecryptionKey → FE → Outcome Error FE
  verify_proofs_get_alpha self dk a =
      let alice_share = decrypt dk self.c_b in
      let alpha = of_bigint alice_share in
      let g_alpha = generator ⊛ alpha in
      let ba_btag = (pk self.b_proof ⊛ a) ⊞ pk self.beta_tag_proof in
      if verify_dlog self.b_proof && (verify_dlog self.beta_tag_proof && ge_eq ba_btag g_alpha)
      then ok alpha
      else err invalid_key

  unfoldable pub verify_b_against_public : GE → GE → Bool
  verify_b_against_public public_gb mta_gb = ge_eq public_gb mta_gb
