-- ===== src/Mpt/KeyGen/Accepted.antt =====
-- The second phase of key generation that a party has accepted, whoever sent what it checked.
use mathlib.Core.List.{map-id}
use vdexnode.Common.{ℕ, ◌<◌, ◌≡◌, refl, sym, ◌∙◌, List, map, arith, length, get_elem?, some}
use vdexnode.Common.Outcome.{ok, ◌>>=◌, index}
use vdexnode.Mpt.Crypto.{Crypto}
use vdexnode.Mpt.Crypto.Laws.{IsField, IsModule, IsBinding}
use vdexnode.Mpt.Algebra.{scalars, points, scale-sum}
use vdexnode.Mpt.Messages.{Error, Parameters, Keys, SharedKeys}
use vdexnode.Mpt.Rounds.{collect_from, fold, fold_head}
use vdexnode.Mpt.Rounds.Laws.{
  collect-field, fold_head-ok, get_elem?_of_lt, lt_of_get_elem?, map-agree,
}
use vdexnode.Mpt.KeyGen.{commitment_to_xi, phase2_verify_vss_construct_keypair_phase3_pok_dlog}
use vdexnode.Mpt.KeyGen.Phase2.{phase2_verify_sound}
use vdexnode.Mpt.Sums.{fold-total, fold_head-total}

module _ (c : Crypto) {f : IsField c} (m : IsModule c f) (binding : IsBinding c) where
  open c use {
    Seed, FE, GE, zero_fe, ◌⊕◌, generator, ◌⊞◌, ◌⊛◌, VerifiableSs, commitments, DLogProof,
    get_point_commitment,
  }

  infixl 65 ◌⊕◌ ◌⊞◌
  infixl 70 ◌⊛◌
  -- The points sum to the public key, the shares to the private share.
  phase2_verify_sums :
      (self : Keys c) (params : Parameters) (y_vec : List GE) (shares : List FE)
      (vss_vec : List VerifiableSs) (number : ℕ) (s : Seed) (result : SharedKeys c × DLogProof)
      → phase2_verify_vss_construct_keypair_phase3_pok_dlog c self params y_vec shares vss_vec
          number s
        ≡ ok result
      → (length y_vec ≡ params.share_count)
        × (length shares ≡ params.share_count)
        × (length vss_vec ≡ params.share_count)
        × (fold_head {E = Error} ◌⊞◌ y_vec ≡ ok result.0.y)
        × (result.0.x_i ≡ fold ◌⊕◌ zero_fe shares)
  unfolding phase2_verify_vss_construct_keypair_phase3_pok_dlog
  phase2_verify_sums self params y_vec shares vss_vec number s result h = ground arith

  -- The points of all schemes at a number, where they are those of shares.
  commitment_of_shares :
      (vss_vec : List VerifiableSs) (shares : List FE) (number : ℕ)
      → map (λ v. get_point_commitment v number) vss_vec ≡ map (λ x. generator ⊛ x) shares
      → 0 < length shares
      → commitment_to_xi c vss_vec number ≡ ok (generator ⊛ fold ◌⊕◌ zero_fe shares)
  unfolding commitment_to_xi
  commitment_of_shares vss_vec shares number agree some_share =
      let read : collect_from {E = Error} 0 (length vss_vec)
            (λ j. do vss ← index vss_vec j; ok (get_point_commitment vss number))
          ≡ ok (map (λ v. get_point_commitment v number) vss_vec) =
        rw map-id at
          (collect-field {E = Error} (λ v. v) (λ v. get_point_commitment v number) vss_vec) in
      rw
        (
          read,
          agree,
          fold_head-total {E = Error} (points c m) (λ x. generator ⊛ x) shares some_share,
          fold-total (scalars c f) (λ (x : FE). x) zero_fe shares,
          f.zero-add,
          scale-sum c m generator (λ x. x) shares,
        )
        refl

  module _ (self : Keys c) (params : Parameters) (y_vec : List GE) (shares : List FE)
      (vss_vec : List VerifiableSs) (number : ℕ) (s : Seed) (result : SharedKeys c × DLogProof)
      (h : phase2_verify_vss_construct_keypair_phase3_pok_dlog c self params y_vec shares vss_vec
          number s
        ≡ ok result) where
    -- The schemes commit first to the points.
    heads : map (λ v. get_elem? (commitments v) 0) vss_vec ≡ map some y_vec
    heads =
        let (hy, hx, hv, _, _) =
          phase2_verify_sums self params y_vec shares vss_vec number s result h in
        map-agree (λ v. get_elem? (commitments v) 0) some vss_vec y_vec (hv ∙ sym hy)
          (λ k v y at_v at_y.
            let lt : k < length shares = omega (arith, lt_of_get_elem? y_vec k y at_y) in
            let (x, at_x) = get_elem?_of_lt shares k lt in
            (phase2_verify_sound c m self params y_vec shares vss_vec number s result k y x v h at_y
              at_x at_v).4)

    -- The schemes' points at the party's number are those of the shares.
    shares_agree :
        map (λ v. get_point_commitment v number) vss_vec ≡ map (λ x. generator ⊛ x) shares
    shares_agree =
        let (hy, hx, hv, _, _) =
          phase2_verify_sums self params y_vec shares vss_vec number s result h in
        map-agree (λ v. get_point_commitment v number) (λ x. generator ⊛ x) vss_vec shares
          (hv ∙ sym hx)
          (λ k v x at_v at_x.
            let lt : k < length y_vec = omega (arith, lt_of_get_elem? shares k x at_x) in
            let (y, at_y) = get_elem?_of_lt y_vec k lt in
            binding.point-valid v x number
              (phase2_verify_sound c m self params y_vec shares vss_vec number s result k y x v h
                at_y at_x at_v).3)

    -- A second phase that is accepted, whatever the points, shares and schemes are: there are as
    -- many schemes as parties, they commit first to the points, the points sum to the public key,
    -- and what anybody computes from the schemes for the party's number is the point of its private
    -- share.
    pub phase2_verify_consistent :
        (length vss_vec ≡ params.share_count)
        × (map (λ v. get_elem? (commitments v) 0) vss_vec ≡ map some y_vec)
        × (fold_head {E = Error} ◌⊞◌ y_vec ≡ ok result.0.y)
        × (commitment_to_xi c vss_vec number ≡ ok (generator ⊛ result.0.x_i))
    phase2_verify_consistent =
        let (hy, hx, hv, sum, share_is) =
          phase2_verify_sums self params y_vec shares vss_vec number s result h in
        let some_point = (fold_head-ok {F = Error} ◌⊞◌ y_vec result.0.y sum).1 in
        (
          hv,
          heads,
          sum,
          rw share_is (commitment_of_shares vss_vec shares number shares_agree (omega arith)),
        )
