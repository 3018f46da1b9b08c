-- ===== src/Tests/KeyGeneration.antt =====
-- Key generation between two parties over the small curve.
use vdexnode.Common.{ℕ, ◌<◌, ◌≡◌, refl, true, ◌⊎◌, List, [], ◌∷◌, map, arith, some, get_elem?}
use vdexnode.Common.Outcome.{ok, err}
use vdexnode.Mpt.Messages.{
  invalid_key, Parameters, Keys, KeyGenBroadcastMessage1, KeyGenDecommitMessage1,
}
use vdexnode.Mpt.Parties.{indices}
use vdexnode.Mpt.Parties.Pairs.{sum_all}
use vdexnode.Mpt.KeyGen.{
  correct_ss, create, phase1_broadcast_phase3_proof_of_correct_key,
  phase1_verify_com_phase3_verify_correct_key_phase2_distribute,
  phase2_verify_vss_construct_keypair_phase3_pok_dlog,
}
use vdexnode.Mpt.KeyGen.Phase1.{AllOpen, phase1_verify_exact}
use vdexnode.Mpt.KeyGen.Phase2.{phase2_verify_complete, phase2_verify_sound}
use vdexnode.Mpt.Rounds.{all_from, fold, fold_head}
use vdexnode.Tests.Toy.{
  F3, f1, f2, mul, copies, copies_at, toy, toy-IsField, toy-IsModule, toy-IsSharing,
}

abbrev params : Parameters
params = record { threshold = 1; share_count = 2 }

abbrev keys : ℕ → Keys toy
keys i = record { u_i = f2; y_i = f2; dk = 1000; ek = 1000; party_index = i }

abbrev broadcasts : List (KeyGenBroadcastMessage1 toy)
broadcasts =
    record { e = 1000; commitment = 14; correct_key_proof = 1000 }
    ∷ record { e = 1000; commitment = 17; correct_key_proof = 1000 }
    ∷ []

abbrev decommits : List (KeyGenDecommitMessage1 toy)
decommits = record { blind_factor = 4; y_i = f2 } ∷ record { blind_factor = 5; y_i = f2 } ∷ []

broadcast_run : phase1_broadcast_phase3_proof_of_correct_key toy (create toy f2 0 1) 4 ≡ (
  record { e = 1000; commitment = 14; correct_key_proof = 1000 },
  record { blind_factor = 4; y_i = f2 },
)
unfolding phase1_broadcast_phase3_proof_of_correct_key create
broadcast_run = refl

phase1_verify_exact_example :
    ((phase1_verify_com_phase3_verify_correct_key_phase2_distribute toy
          (keys 1)
          params
          decommits
          broadcasts
          0
        ≡ ok (f2, f2 ∷ f2 ∷ [], 1))
      × AllOpen toy decommits broadcasts)
    ⊎ ((phase1_verify_com_phase3_verify_correct_key_phase2_distribute toy
            (keys 1)
            params
            decommits
            broadcasts
            0
          ≡ err invalid_key)
        × ¬ (AllOpen toy decommits broadcasts))
phase1_verify_exact_example =
    phase1_verify_exact toy (keys 1) params decommits broadcasts 0 refl refl

abbrev secrets : ℕ → F3
secrets j = f2

abbrev parts : ℕ → ℕ → F3
parts j i = f2

dealt : (j i : ℕ) → i < 2 → get_elem? (copies 2 (secrets j)) i ≡ some (parts j i)
dealt j i h = copies_at 2 i f2 h

phase2_verify_complete_example :
    phase2_verify_vss_construct_keypair_phase3_pok_dlog toy
      (keys 1)
      params
      (map (λ (j : ℕ). f2) (indices 1 2))
      (map (λ (j : ℕ). f2) (indices 1 2))
      (map (λ (j : ℕ). f2) (indices 1 2))
      1
      0
    ≡ ok (
      record {
        y = mul f1 (sum_all toy toy-IsField 2 secrets);
        x_i = sum_all toy toy-IsField 2 (λ j. parts j 0);
      },
      (sum_all toy toy-IsField 2 (λ j. parts j 0), sum_all toy toy-IsField 2 (λ j. parts j 0)),
    )
phase2_verify_complete_example =
    phase2_verify_complete toy toy-IsModule toy-IsSharing 1 2 secrets (λ j. 0) parts dealt (keys 1)
      params 0 0 refl (omega arith)

phase2_run :
    phase2_verify_vss_construct_keypair_phase3_pok_dlog toy
      (keys 1)
      params
      (f2 ∷ f2 ∷ [])
      (f2 ∷ f2 ∷ [])
      (f2 ∷ f2 ∷ [])
      1
      0
    ≡ ok (record { y = f1; x_i = f1 }, (f1, f1))
unfolding phase2_verify_vss_construct_keypair_phase3_pok_dlog correct_ss all_from fold_head fold
phase2_run = refl

phase2_verify_sound_example :
    ◌≡◌ {A = ℕ} 2 2
    × ◌≡◌ {A = ℕ} 2 2
    × ◌≡◌ {A = ℕ} 2 2
    × (toy.validate_share f2 f2 1 ≡ true)
    × (get_elem? (toy.commitments f2) 0 ≡ some f2)
phase2_verify_sound_example =
    phase2_verify_sound toy toy-IsModule (keys 1) params (f2 ∷ f2 ∷ []) (f2 ∷ f2 ∷ [])
      (f2 ∷ f2 ∷ []) 1 0 (record { y = f1; x_i = f1 }, (f1, f1)) 1 f2 f2 f2 phase2_run refl refl
      refl
