-- ===== src/Mpt/GenerateKey/Consistent.antt =====
-- The key files of vDexNode/mpt/src/bin/generate_key.rs that hold together, and what a party has
-- checked before it saves one.
use mathlib.Core.List.{map-id}
use vdexnode.Common.{
  ℕ, ◌<◌, ◌≡◌, refl, sym, ◌∙◌, true, List, map, arith, length, get_elem?, some, All, All-map,
  length-map, inl, inr,
}
use vdexnode.Common.Outcome
use vdexnode.Common.Outcome.{Outcome, ok, index}
use vdexnode.Mpt.Crypto.{Crypto}
use vdexnode.Mpt.Crypto.Laws.{IsField, IsModule, IsBinding}
use vdexnode.Mpt.Messages.{
  Error, Parameters, Keys, SharedKeys, KeyGenBroadcastMessage1, KeyGenDecommitMessage1,
}
use vdexnode.Mpt.Rounds.{fold_head, collect_from}
use vdexnode.Mpt.Rounds.Laws.{collect-field, fold_head-ok, get_elem?_of_lt, lt_of_get_elem?}
use vdexnode.Mpt.KeyGen.{
  create, commitment_to_xi, phase2_verify_vss_construct_keypair_phase3_pok_dlog,
  phase1_verify_com_phase3_verify_correct_key_phase2_distribute,
}
use vdexnode.Mpt.KeyGen.Phase1.{phase1_verify_exact}
use vdexnode.Mpt.KeyGen.Accepted.{phase2_verify_consistent}
use vdexnode.Mpt.GenerateKey.{Draws, KeyFile}

module _ (c : Crypto) where
  open c use {
    Seed, GE, generator, ◌⊞◌, ◌⊛◌, FE, VerifiableSs, commitments, EncryptionKey, DLogProof,
    NiCorrectKeyProof, verify_key,
  }

  infixl 65 ◌⊞◌
  infixl 70 ◌⊛◌
  -- The key file of party `me` of `n`, which made the keys `keys`.
  pub record Consistent (n me : ℕ) (keys : Keys c) (file : KeyFile c) : Type 0 where
    pub own_keys : file.party_keys ≡ keys
    pub own_number : file.party_num ≡ me
    -- There is a Paillier key of each party, and each was proved correct.
    pub paillier_count : length file.paillier_key_vec ≡ n
    pub paillier_proved :
        All (λ e. (proof : NiCorrectKeyProof) × (verify_key proof e ≡ true)) file.paillier_key_vec
    -- There is a scheme of each party, and what they commit to first sums to the public key.
    pub scheme_count : length file.vss_scheme_vec ≡ n
    pub public_points : List GE
    pub heads : map (λ v. get_elem? (commitments v) 0) file.vss_scheme_vec ≡ map some public_points
    pub points_sum : fold_head {E = Error} ◌⊞◌ public_points ≡ ok file.y_sum
    pub same_key : file.shared_keys.y ≡ file.y_sum
    -- The private share belongs to the point that the signers compute for this party.
    pub share_point :
        commitment_to_xi c file.vss_scheme_vec me ≡ ok (generator ⊛ file.shared_keys.x_i)

  module _ (self : Keys c) (params : Parameters) (decom_vec : List (KeyGenDecommitMessage1 c))
      (bc1_vec : List (KeyGenBroadcastMessage1 c)) (seed : Seed)
      (dealt : VerifiableSs × List FE × ℕ)
      (h : phase1_verify_com_phase3_verify_correct_key_phase2_distribute c self params decom_vec
          bc1_vec seed
        ≡ ok dealt) where
    phase1_verify_lengths :
        (length decom_vec ≡ params.share_count) × (length bc1_vec ≡ params.share_count)
    unfolding phase1_verify_com_phase3_verify_correct_key_phase2_distribute
    phase1_verify_lengths = ground arith

    -- A first phase that is accepted has checked each party's Paillier key.
    keys_proved :
        All
          (λ e. (proof : NiCorrectKeyProof) × (verify_key proof e ≡ true))
          (map (λ b. b.e) bc1_vec)
    keys_proved =
        let (hd, hb) = phase1_verify_lengths in
        All-map (λ b. b.e) _ bc1_vec
          (λ k b at_b.
            let lt : k < length decom_vec = omega (arith, lt_of_get_elem? bc1_vec k b at_b) in
            let (d, at_d) = get_elem?_of_lt decom_vec k lt in
            elim (phase1_verify_exact c self params decom_vec bc1_vec seed hd hb) [
              | inl (e, all_open) ↦ (b.correct_key_proof, (all_open k d b at_d at_b).1)
              | inr (e, refused) ↦ absurd cc
            ])

    keys_read :
        (n : ℕ) (keys : List EncryptionKey)
        → params.share_count ≡ n
        → collect_from {E = ⊥} 0 n (λ i. Outcome.◌>>=◌ (index bc1_vec i) (λ bc1. ok bc1.e))
          ≡ ok keys
        → (length keys ≡ n)
          × All (λ e. (proof : NiCorrectKeyProof) × (verify_key proof e ≡ true)) keys
    keys_read n keys hn read =
        let (hd, hb) = phase1_verify_lengths in
        let here : collect_from {E = ⊥} 0 (length bc1_vec)
              (λ i. Outcome.◌>>=◌ (index bc1_vec i) (λ bc1. ok bc1.e))
            ≡ ok (map (λ b. b.e) bc1_vec) =
          rw map-id at (collect-field {E = ⊥} (λ b. b) (λ b. b.e) bc1_vec) in
        let count : n ≡ length bc1_vec = omega arith in
        let is : keys ≡ map (λ b. b.e) bc1_vec = ok_of (sym read ∙ rw count here) in
        rw is (length-map (λ b. b.e) bc1_vec ∙ sym count, keys_proved)
      where
        ok_of :
            {a b : List EncryptionKey}
            → ◌≡◌ {A = Outcome ⊥ (List EncryptionKey)} (ok a) (ok b)
            → a ≡ b
        ok_of e = cc

  module _ {f : IsField c} (m : IsModule c f) (binding : IsBinding c) (n me : ℕ) (draws : Draws c)
      (threshold : ℕ) where
    abbrev own : Keys c
    own = create c draws.u draws.paillier me

    abbrev parames : Parameters
    parames = record { threshold = threshold; share_count = n }

    pub saved :
        (decom_vec : List (KeyGenDecommitMessage1 c)) (bc1_vec : List (KeyGenBroadcastMessage1 c))
        (dealt : VerifiableSs × List FE × ℕ) (y_vec : List GE) (y_sum : GE) (shares : List FE)
        (vss_vec : List VerifiableSs) (made : SharedKeys c × DLogProof) (keys : List EncryptionKey)
        → fold_head {E = ⊥} ◌⊞◌ y_vec ≡ ok y_sum
        → phase1_verify_com_phase3_verify_correct_key_phase2_distribute c own parames decom_vec
            bc1_vec draws.sharing
          ≡ ok dealt
        → phase2_verify_vss_construct_keypair_phase3_pok_dlog c own parames y_vec shares vss_vec me
            draws.proof
          ≡ ok made
        → collect_from {E = ⊥} 0 n (λ i. Outcome.◌>>=◌ (index bc1_vec i) (λ bc1. ok bc1.e))
          ≡ ok keys
        → Consistent n me own (record {
          party_keys = own;
          shared_keys = made.0;
          party_num = me;
          vss_scheme_vec = vss_vec;
          paillier_key_vec = keys;
          y_sum = y_sum;
        })
    saved decom_vec bc1_vec dealt y_vec y_sum shares vss_vec made keys sum first second read =
        let (count, proved) =
          keys_read own parames decom_vec bc1_vec draws.sharing dealt first n keys refl read in
        let (schemes, first_points, points, share) =
          phase2_verify_consistent c m binding own parames y_vec shares vss_vec me draws.proof made
            second in
        let summed = (fold_head-ok {F = Error} ◌⊞◌ y_vec y_sum sum).0 in
        record {
          own_keys = refl;
          own_number = refl;
          paillier_count = count;
          paillier_proved = proved;
          scheme_count = schemes;
          public_points = y_vec;
          heads = first_points;
          points_sum = summed;
          same_key = ok_of (sym points ∙ summed);
          share_point = share;
        }
      where
        ok_of : {a b : GE} → ◌≡◌ {A = Outcome Error GE} (ok a) (ok b) → a ≡ b
        ok_of e = cc
