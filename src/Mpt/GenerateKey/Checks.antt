-- ===== src/Mpt/GenerateKey/Checks.antt =====
-- The checks of key generation accept what honest parties send.
use vdexnode.Common.{
  ℕ, ◌<◌, ◌≡◌, refl, sym, ap, ◌∙◌, true, some, List, map, length-map, get_elem?, ==_refl,
}
use vdexnode.Common.Outcome.{Outcome, ok, index}
use vdexnode.Common.Outcome
use vdexnode.Mpt.Algebra.{points, scale-sum}
use vdexnode.Mpt.Crypto.{Crypto}
use vdexnode.Mpt.Crypto.Laws.{IsField, IsModule, IsComplete, IsPaillier}
use vdexnode.Mpt.Messages.{Error}
use vdexnode.Mpt.Parties.{indices, length-indices}
use vdexnode.Mpt.Parties.Pairs.{sum_all}
use vdexnode.Mpt.Rounds.{fold_head, collect_from}
use vdexnode.Mpt.Rounds.Laws.{all_from-map, get_elem?-map, collect-field}
use vdexnode.Mpt.Sums.{fold_head-total}
use vdexnode.Mpt.KeyGen.{
  create, phase1_broadcast_phase3_proof_of_correct_key, correct_key_correct_decom,
  phase1_verify_com_phase3_verify_correct_key_phase2_distribute, verify_dlog_proofs,
}
use vdexnode.Mpt.GenerateKey.{Draws}
use vdexnode.Mpt.GenerateKey.Honest.{keys, broadcast1, decommit1}

module _ (c : Crypto) {f : IsField c} (m : IsModule c f) (paillier : IsPaillier c) (t n : ℕ)
    (draws : ℕ → Draws c) where
  open c use {FE, GE, Seed, generator, ◌⊞◌, ◌⊛◌, share, prove_dlog, keypair}

  infixl 65 ◌⊞◌
  infixl 70 ◌⊛◌
  opens :
      (js : List ℕ) (k j : ℕ)
      → get_elem? js k ≡ some j
      → correct_key_correct_decom c
          (map (decommit1 c t n draws) js)
          (map (broadcast1 c t n draws) js)
          k
        ≡ ok true
  unfolding correct_key_correct_decom create phase1_broadcast_phase3_proof_of_correct_key
  opens js k j h =
      rw
        (
          get_elem?-map (decommit1 c t n draws) js k j h,
          get_elem?-map (broadcast1 c t n draws) js k j h,
          ==_refl (c.create_commitment (c.compressed (generator ⊛ (draws j).u)) (draws j).blind),
          paillier.verify-prove_key (draws j).paillier,
        )
        refl

  pub dealt_shares :
      (me : ℕ)
      → phase1_verify_com_phase3_verify_correct_key_phase2_distribute c
          (keys c t n draws me)
          (record { threshold = t; share_count = n })
          (map (decommit1 c t n draws) (indices 1 n))
          (map (broadcast1 c t n draws) (indices 1 n))
          (draws me).sharing
        ≡ (let dealt = share t n (draws me).u (draws me).sharing in ok (dealt.0, dealt.1, me))
  unfolding phase1_verify_com_phase3_verify_correct_key_phase2_distribute create
  dealt_shares me =
      rw
        (
          all_from-map (broadcast1 c t n draws) (indices 1 n) _ (opens (indices 1 n)),
          length-map (decommit1 c t n draws) (indices 1 n),
          length-map (broadcast1 c t n draws) (indices 1 n),
          length-indices 1 n,
          ==_refl n,
        )
        refl

  pub proofs_verify :
      IsComplete c
      → (x : ℕ → FE) (ys : ℕ → GE)
      → verify_dlog_proofs c
          (record { threshold = t; share_count = n })
          (map (λ j. prove_dlog (x j) (draws j).proof) (indices 1 n))
          (map ys (indices 1 n))
        ≡ ok tt
  unfolding verify_dlog_proofs
  proofs_verify complete x ys =
      rw
        (
          all_from-map ys (indices 1 n)
              (λ i.
                Outcome.◌>>=◌
                  (index {E = Error} (map (λ j. prove_dlog (x j) (draws j).proof) (indices 1 n)) i)
                  (λ proof. ok (c.verify_dlog proof)))
              (λ k j h.
                rw (get_elem?-map (λ j. prove_dlog (x j) (draws j).proof) (indices 1 n) k j h)
                  (ap ok (complete.verify-prove (x j) (draws j).proof))),
          length-map (λ j. prove_dlog (x j) (draws j).proof) (indices 1 n),
          length-map ys (indices 1 n),
          length-indices 1 n,
          ==_refl n,
        )
        refl

  pub y_sum_lem :
      0 < n
      → fold_head {E = ⊥} ◌⊞◌ (map (λ j. generator ⊛ (draws j).u) (indices 1 n))
        ≡ ok (generator ⊛ sum_all c f n (λ j. (draws j).u))
  y_sum_lem h =
      fold_head-total {E = ⊥} (points c m) (λ j. generator ⊛ (draws j).u) (indices 1 n)
        (rw length-indices h)
      ∙ ap ok (sym (scale-sum c m generator (λ j. (draws j).u) (indices 1 n)))

  pub paillier_keys :
      collect_from {E = ⊥} 0 n (λ i.
        Outcome.◌>>=◌ (index (map (broadcast1 c t n draws) (indices 1 n)) i) (λ bc1. ok bc1.e))
      ≡ ok (map (λ j. (keypair (draws j).paillier).0) (indices 1 n))
  unfolding create phase1_broadcast_phase3_proof_of_correct_key
  paillier_keys =
      ap
        (λ (k : ℕ). collect_from {E = ⊥} 0 k (λ i.
          Outcome.◌>>=◌ (index (map (broadcast1 c t n draws) (indices 1 n)) i) (λ bc1. ok bc1.e)))
        (sym (length-indices 1 n))
      ∙ collect-field {E = ⊥} (broadcast1 c t n draws) (λ bc1. bc1.e) (indices 1 n)
