-- ===== src/Mpt/KeyGen/Phase1.antt =====
-- The checks of key generation: what makes a party accept the others' messages.
use vdexnode.Common.{
  ℕ, ◌+◌, ◌<◌, ◌≡◌, sym, ◌∙◌, Bool, true, false, List, arith, length, ◌==◌, ==_refl, get_elem?,
  some, ◌&&◌, ◌⊎◌, inl, inr, ◌↔◌,
}
use native.Mathlib.Nat.{zero-add}
use vdexnode.Common.Outcome.{Outcome, ok, err}
use vdexnode.Mpt.Crypto.{Crypto}
use vdexnode.Mpt.Messages.{
  Error, invalid_key, Parameters, Keys, KeyGenBroadcastMessage1, KeyGenDecommitMessage1,
}
use vdexnode.Mpt.Rounds.{all_from}
use vdexnode.Mpt.Rounds.Laws.{
  all_from-true, all_from_sound, all_from_answer, get_elem?_of_lt, lt_of_get_elem?,
}
use vdexnode.Mpt.KeyGen.{
  correct_key_correct_decom, phase1_verify_com_phase3_verify_correct_key_phase2_distribute,
}

module _ (c : Crypto) where
  open c use {
    Seed, FE, GE, create_commitment, compressed, verify_key, share, DLogProof, verify_dlog, keypair,
  }

  -- The pair of messages of one party is sound.
  abbrev pub Opens : KeyGenDecommitMessage1 c → KeyGenBroadcastMessage1 c → Type 0
  Opens d b =
      (create_commitment (compressed d.y_i) d.blind_factor ≡ b.commitment)
      × (verify_key b.correct_key_proof b.e ≡ true)

  module _ (decom_vec : List (KeyGenDecommitMessage1 c))
      (bc1_vec : List (KeyGenBroadcastMessage1 c)) where
    -- Every position that both lists have holds a sound pair.
    abbrev pub AllOpen : Type 0
    AllOpen =
        (i : ℕ) (d : KeyGenDecommitMessage1 c) (b : KeyGenBroadcastMessage1 c)
        → get_elem? decom_vec i ≡ some d
        → get_elem? bc1_vec i ≡ some b
        → Opens d b

    test_value :
        (i : ℕ) (d : KeyGenDecommitMessage1 c) (b : KeyGenBroadcastMessage1 c)
        → get_elem? decom_vec i ≡ some d
        → get_elem? bc1_vec i ≡ some b
        → (correct_key_correct_decom c decom_vec bc1_vec i ≡ ok true) ↔ Opens d b
    unfolding correct_key_correct_decom
    test_value i d b hd hb = rw (hd, hb) (ground arith)

    test_answers :
        length decom_vec ≡ length bc1_vec
        → (k : ℕ) → k < length bc1_vec
        → (b : Bool) × (correct_key_correct_decom c decom_vec bc1_vec (0 + k) ≡ ok b)
    unfolding correct_key_correct_decom
    test_answers e k lt =
        let (d, hd) = get_elem?_of_lt decom_vec k (omega arith) in
        let (b, hb) = get_elem?_of_lt bc1_vec k lt in
        (
          create_commitment (compressed d.y_i) d.blind_factor == b.commitment
              && verify_key b.correct_key_proof b.e,
          rw (zero-add k, hd, hb),
        )

    test_sound :
        all_from 0 (length bc1_vec) (correct_key_correct_decom c decom_vec bc1_vec) ≡ ok true
        → AllOpen
    test_sound h i d b hd hb =
        (test_value i d b hd hb).0 (
          rw zero-add at (all_from_sound 0 (length bc1_vec) _ h i (lt_of_get_elem? bc1_vec i b hb)))

    test_complete :
        length decom_vec ≡ length bc1_vec
        → AllOpen
        → all_from 0 (length bc1_vec) (correct_key_correct_decom c decom_vec bc1_vec) ≡ ok true
    test_complete e h = all_from-true 0 (length bc1_vec) _ (λ k lt.
        let (d, hd) = get_elem?_of_lt decom_vec k (omega arith) in
        let (b, hb) = get_elem?_of_lt bc1_vec k lt in
        rw (zero-add k) ((test_value k d b hd hb).1 (h k d b hd hb)))

  -- On as many messages as there are parties, the call deals the party's own shares exactly when
  -- every commitment opens and every Paillier key is proved correct. Otherwise it is `InvalidKey`.
  pub phase1_verify_exact :
      (self : Keys c) (params : Parameters) (decom_vec : List (KeyGenDecommitMessage1 c))
      (bc1_vec : List (KeyGenBroadcastMessage1 c)) (seed : Seed)
      → length decom_vec ≡ params.share_count
      → length bc1_vec ≡ params.share_count
      → let result =
          phase1_verify_com_phase3_verify_correct_key_phase2_distribute c self params decom_vec
            bc1_vec seed in
        let dealt = share params.threshold params.share_count self.u_i seed in
        ((result ≡ ok (dealt.0, dealt.1, self.party_index)) × AllOpen decom_vec bc1_vec)
        ⊎ ((result ≡ err invalid_key) × ¬ (AllOpen decom_vec bc1_vec))
  unfolding phase1_verify_com_phase3_verify_correct_key_phase2_distribute
  phase1_verify_exact self params decom_vec bc1_vec seed hd hb =
      let same : length decom_vec ≡ length bc1_vec = hd ∙ sym hb in
      decide (
        all_from_answer 0 (length bc1_vec) (correct_key_correct_decom c decom_vec bc1_vec)
          (test_answers decom_vec bc1_vec same))
    where
      decide :
          (b : Bool) × (all_from 0 (length bc1_vec) (correct_key_correct_decom c decom_vec bc1_vec)
              ≡ ok b)
          → ((phase1_verify_com_phase3_verify_correct_key_phase2_distribute c self params decom_vec
                  bc1_vec seed
                ≡ ok (
                  (share params.threshold params.share_count self.u_i seed).0,
                  (share params.threshold params.share_count self.u_i seed).1,
                  self.party_index,
                ))
              × AllOpen decom_vec bc1_vec)
            ⊎ ((phase1_verify_com_phase3_verify_correct_key_phase2_distribute c self params
                    decom_vec bc1_vec seed
                  ≡ err invalid_key)
                × ¬ (AllOpen decom_vec bc1_vec))
      decide (true, e) =
          inl (rw (hd, hb, ==_refl params.share_count, ← hb, e), test_sound decom_vec bc1_vec e)
      decide (false, e) = inr (
        rw (hd, hb, ==_refl params.share_count, ← hb, e),
        λ open_all.
            absurd (true_false (sym (test_complete decom_vec bc1_vec (hd ∙ sym hb) open_all) ∙ e)),
      )
        where
          true_false : ◌≡◌ {A = Outcome Error Bool} (ok true) (ok false) → ⊥
          true_false p = cc
