-- ===== src/Mpt/MtA/Correct.antt =====
-- The exchange of MtA.antt between two parties that follow it, and what an accepted answer shows.
use vdexnode.Common.{ℕ, ◌+◌, ◌*◌, ◌<◌, ◌≡◌, sym, ◌∙◌, ap, true, arith, ◌⊎◌}
use native.Mathlib.Nat.{mod-eq_of_lt}
use vdexnode.Common.Outcome.{ok, err}
use vdexnode.Mpt.Crypto.{Crypto}
use vdexnode.Mpt.Crypto.Laws.{IsField, IsModule, IsComplete, IsPaillier}
use vdexnode.Mpt.Algebra.{add-neg, ge_eq_refl}
use vdexnode.Mpt.Messages.{invalid_key, MessageB}
use vdexnode.Mpt.MtA.{message_a, message_b, verify_proofs_get_alpha}

module _ (c : Crypto) {f : IsField c} (m : IsModule c f) where
  open c use {
    Seed, FE, GE, of_bigint, to_bigint, ◌⊕◌, ◌⊗◌, generator, ◌⊞◌, ◌⊛◌, modulus, keypair, prove_dlog,
    pk, decrypt, verify_dlog, DecryptionKey, ge_eq,
  }

  infixl 65 ◌⊕◌ ◌⊞◌
  infixl 70 ◌⊗◌ ◌⊛◌
  -- What decrypts is the product and the mask, as scalars, if their integers stay below the modulus.
  decrypted_scalar :
      (p : IsPaillier c) (a b : FE) (n : ℕ) (s t u : Seed)
      → to_bigint a * to_bigint b + n < modulus (keypair s).0
      → of_bigint (
          decrypt (keypair s).1 (
            c.add_cipher
              (keypair s).0
              (c.mul_cipher (keypair s).0 (c.encrypt (keypair s).0 (to_bigint a) t) (to_bigint b))
              (c.encrypt (keypair s).0 n u)))
        ≡ (a ⊗ b) ⊕ of_bigint n
  decrypted_scalar p a b n s t u h =
      ap of_bigint (p.decrypt_linear s t u (to_bigint a) (to_bigint b) n ∙ mod-eq_of_lt h)
      ∙ f.of_bigint-add _ n
      ∙ ap (λ (x : FE). x ⊕ of_bigint n) (f.of_bigint-mul _ _)
      ∙ rw (f.of_bigint-to_bigint a, f.of_bigint-to_bigint b)

  -- The two sides of the last test, for the points of `b` and of the mask `d`.
  points_agree : (a b d : FE) → ((generator ⊛ b) ⊛ a) ⊞ (generator ⊛ d) ≡ generator ⊛ ((a ⊗ b) ⊕ d)
  points_agree a b d =
      ap (λ (p : GE). p ⊞ (generator ⊛ d))
        (m.scale_assoc generator b a ∙ ap (λ (x : FE). generator ⊛ x) (f.mul_comm b a))
      ∙ sym (m.scale-add generator (a ⊗ b) d)

  -- Alice's call on an answer whose proofs verify for `b` and `d` and that decrypts to `a ⊗ b ⊕ d`.
  accepted :
      (dk : DecryptionKey) (a b d : FE) (msg : MessageB c)
      → verify_dlog msg.b_proof ≡ true
      → verify_dlog msg.beta_tag_proof ≡ true
      → pk msg.b_proof ≡ generator ⊛ b
      → pk msg.beta_tag_proof ≡ generator ⊛ d
      → of_bigint (decrypt dk msg.c_b) ≡ (a ⊗ b) ⊕ d
      → verify_proofs_get_alpha c msg dk a ≡ ok ((a ⊗ b) ⊕ d)
  unfolding verify_proofs_get_alpha
  accepted dk a b d msg hb hd pb pd e =
      rw (hb, hd, pb, pd, e, points_agree a b d, ge_eq_refl c m (generator ⊛ ((a ⊗ b) ⊕ d)))

  -- If Alice and Bob follow the protocol, and the integers of `a ⊗ b` and of the mask stay below
  -- Alice's modulus, then Alice accepts Bob's answer, and her share and Bob's sum to `a ⊗ b`.
  pub verify_proofs_get_alpha-message_b :
      (k : IsComplete c) (p : IsPaillier c) (a b : FE) (beta_tag : ℕ) (s t u v w : Seed)
      → to_bigint a * to_bigint b + beta_tag < modulus (keypair s).0
      → let answer = message_b c b (keypair s).0 (message_a c a (keypair s).0 t) beta_tag u v w in
        (alpha : FE) × (verify_proofs_get_alpha c answer.0 (keypair s).1 a ≡ ok alpha)
        × (alpha ⊕ answer.1 ≡ a ⊗ b)
  unfolding message_a message_b
  verify_proofs_get_alpha-message_b k p a b n s t u v w h = (
    (a ⊗ b) ⊕ of_bigint n,
    accepted (keypair s).1 a b (of_bigint n) _ (k.verify-prove b v) (k.verify-prove (of_bigint n) w)
        (k.pk-prove b v) (k.pk-prove (of_bigint n) w) (decrypted_scalar p a b n s t u h),
    add-neg c f (a ⊗ b) (of_bigint n),
  )

  -- Whatever Bob sent: a share that Alice accepts is the scalar of what she decrypts, both proofs
  -- of the answer verify, and the share lies over the points that they are proofs of. Any other
  -- outcome is the error `InvalidKey`.
  pub verify_proofs_get_alpha_sound :
      (msg : MessageB c) (dk : DecryptionKey) (a : FE)
      → (verify_proofs_get_alpha c msg dk a ≡ err invalid_key)
        ⊎ ((verify_proofs_get_alpha c msg dk a ≡ ok (of_bigint (decrypt dk msg.c_b)))
            × (verify_dlog msg.b_proof ≡ true)
            × (verify_dlog msg.beta_tag_proof ≡ true)
            × ((pk msg.b_proof ⊛ a) ⊞ pk msg.beta_tag_proof
                ≡ generator ⊛ of_bigint (decrypt dk msg.c_b)))
  unfolding verify_proofs_get_alpha
  verify_proofs_get_alpha_sound msg dk a = ground (
    arith,
    m.ge_eq_iff ((pk msg.b_proof ⊛ a) ⊞ pk msg.beta_tag_proof)
        (generator ⊛ of_bigint (decrypt dk msg.c_b)),
  )
