-- ===== src/Tests/Signing.antt =====
-- Two signers over the small curve: k = 2, R = 2, private key 1, message 1.
use vdexnode.Common.{ℕ, ◌≡◌, ◌≢◌, refl, ◌⊎◌, map, arith, true}
use vdexnode.Common.Outcome.{ok, err}
use vdexnode.Mpt.Messages.{invalid_key, SignKeys, LocalSignature, MessageB}
use vdexnode.Mpt.Parties.{indices, others}
use vdexnode.Mpt.Parties.Pairs.{sum_all}
use vdexnode.Mpt.MtA.{message_a, message_b, verify_proofs_get_alpha}
use vdexnode.Mpt.MtA.Correct.{verify_proofs_get_alpha-message_b, verify_proofs_get_alpha_sound}
use vdexnode.Mpt.Sign.{nonce_point}
use vdexnode.Mpt.SignKeys.{phase3_reconstruct_delta, phase4}
use vdexnode.Mpt.SignKeys.Nonce.{IsValid, broadcast_of, decommit_of, phase4_nonce}
use vdexnode.Mpt.LocalSignature.{phase5_local_sig, r_of_point, output_signature, verify}
use vdexnode.Mpt.LocalSignature.Valid.{output_signature_valid}
use vdexnode.Tests.Toy.{
  F3, f0, f1, f2, add, mul, toy, toy-IsField, toy-IsModule, toy-IsComplete, toy-IsPaillier,
}

f1-ne-f0 : f1 ≢ f0
f1-ne-f0 = λ e. cc

f2-ne-f0 : f2 ≢ f0
f2-ne-f0 = λ e. cc

verify_proofs_get_alpha-message_b_example :
    (alpha : F3) × (verify_proofs_get_alpha toy
        (message_b toy f2 1000 (message_a toy f2 1000 1) 77 2 3 4).0
        1000
        f2
      ≡ ok alpha)
    × (add alpha (message_b toy f2 1000 (message_a toy f2 1000 1) 77 2 3 4).1 ≡ mul f2 f2)
verify_proofs_get_alpha-message_b_example =
    verify_proofs_get_alpha-message_b toy toy-IsModule toy-IsComplete toy-IsPaillier f2 f2 77 0 1 2
      3 4 (omega arith)

abbrev answer : MessageB toy
answer = record { c_b = 6; b_proof = (f2, f2); beta_tag_proof = (f2, f1) }

verify_proofs_get_alpha_sound_example :
    (verify_proofs_get_alpha toy answer 1000 f2 ≡ err invalid_key)
    ⊎ ((verify_proofs_get_alpha toy answer 1000 f2 ≡ ok (toy.of_bigint 6))
        × (toy.verify_dlog answer.b_proof ≡ true)
        × (toy.verify_dlog answer.beta_tag_proof ≡ true)
        × (add (mul f2 f2) f2 ≡ mul f1 (toy.of_bigint 6)))
verify_proofs_get_alpha_sound_example =
    verify_proofs_get_alpha_sound toy toy-IsModule answer 1000 f2

abbrev keys : ℕ → SignKeys toy
keys j = record { w_i = f2; g_w_i = f2; k_i = f1; gamma_i = f1; g_gamma_i = f1 }

keys-IsValid : (j : ℕ) → IsValid toy (keys j)
keys-IsValid j = record { gamma_at = refl; w_at = refl }

phase4_nonce_example :
    (r_others : F3) × (phase4 toy
        (phase3_reconstruct_delta toy (map (λ (j : ℕ). f2) (indices 1 2)))
        (map (λ (j : ℕ). (f1, f1)) (others 2 1 2))
        (map (decommit_of toy toy-IsModule keys (λ j. j)) (others 2 1 2))
        (map (broadcast_of toy toy-IsModule keys (λ j. j)) (others 2 1 2))
      ≡ ok r_others)
    × (mul
          (nonce_point toy r_others
            (decommit_of toy toy-IsModule keys (λ j. j) 2)
            (phase3_reconstruct_delta toy (map (λ (j : ℕ). f2) (indices 1 2))))
          (sum_all toy toy-IsField 2 (λ j. f1))
        ≡ f1)
unfolding indices
phase4_nonce_example =
    phase4_nonce toy toy-IsModule 2 2 keys (λ j. j) (λ j. (f1, f1)) (λ j. f2) (omega arith)
      (omega arith) (omega arith) keys-IsValid (λ j. refl) refl f1-ne-f0

abbrev sig : ℕ → LocalSignature toy
sig j = record { l_i = f1; rho_i = f2; r_point = f2; s_i = f2; m = 1; y = f1 }

output_signature_valid_example :
    (output_signature toy (sig 1) (map (λ (j : ℕ). f2) (others 1 1 2))
      ≡ ok (record { r = f1; s = sum_all toy toy-IsField 2 (λ j. f2) }))
    × (verify toy (record { r = f1; s = sum_all toy toy-IsField 2 (λ j. f2) }) f1 1 ≡ ok tt)
unfolding indices phase5_local_sig r_of_point
output_signature_valid_example =
    output_signature_valid toy toy-IsModule 2 1 1 1 f2 f1 (λ j. f1) (λ j. f1) (λ j. f1) (λ j. f2)
      sig (omega arith) (omega arith) refl refl refl (λ j. refl) f1-ne-f0
