-- ===== src/Mpt/LocalSignature.antt =====
-- `impl LocalSignature` and `verify` of vDexNode/mpt/src/utils/key_gen_utils.rs.
-- What a method samples is an argument.
pub mod Valid
pub mod Phase5c
pub mod Phase5d
use vdexnode.Common.{true, false, ℕ, ◌%◌, Bool, List, [], ◌∷◌, ◌==◌, if◌then◌else◌, length}
use vdexnode.Common.Outcome.{Outcome, ok, err, panic, ◌>>=◌, ◌>>◌, assert, index, unwrap}
use vdexnode.Mpt.Crypto.{Crypto}
use vdexnode.Mpt.Messages.{
  Error, invalid_key, invalid_com, invalid_sig, LocalSignature, Phase5Com1, Phase5Com2,
  Phase5ADecom1, Phase5DDecom2, Signature,
}
use vdexnode.Mpt.Rounds.{all_from, collect_from, fold, fold_head}

module _ (c : Crypto) where
  open c use {
    Seed, FE, order, of_bigint, to_bigint, ◌⊕◌, ◌⊗◌, invert, fe_eq, GE, generator, ◌⊞◌, ◌⊟◌, ◌⊛◌,
    x_coor, ge_eq, create_commitment, create_hash_from_ge, HomoElGamalProof, prove_elgamal,
    verify_elgamal,
  }

  infixl 65 ◌⊕◌ ◌⊞◌ ◌⊟◌
  infixl 70 ◌⊗◌ ◌⊛◌
  -- `ECScalar::from(&point.x_coor().unwrap().mod_floor(&FE::q()))`
  unfoldable pub r_of_point : GE → Outcome Error FE
  r_of_point point = do x ← unwrap (x_coor point); ok (of_bigint (x % order))

  -- `l_i` and `rho_i` are the two calls of `new_random()`.
  unfoldable pub phase5_local_sig :
      FE → ℕ → GE → FE → GE → FE → FE → Outcome Error (LocalSignature c)
  phase5_local_sig k_i message r_point sigma_i pubkey l_i rho_i = do
    r ← r_of_point r_point
    let s_i = (of_bigint message ⊗ k_i) ⊕ (r ⊗ sigma_i)
    ok (record { l_i = l_i; rho_i = rho_i; r_point = r_point; s_i = s_i; m = message; y = pubkey })

  unfoldable pub phase5a_broadcast_5b_zkproof :
      LocalSignature c → ℕ → Seed → Phase5Com1 × Phase5ADecom1 c × HomoElGamalProof
  phase5a_broadcast_5b_zkproof self blind_factor seed =
      let a_i = generator ⊛ self.rho_i in
      let l_i_rho_i = self.l_i ⊗ self.rho_i in
      let b_i = generator ⊛ l_i_rho_i in
      let v_i = (self.r_point ⊛ self.s_i) ⊞ (generator ⊛ self.l_i) in
      let input_hash = to_bigint (create_hash_from_ge (v_i ∷ a_i ∷ b_i ∷ [])) in
      (
        record { commitment = create_commitment input_hash blind_factor },
        record { v_i = v_i; a_i = a_i; b_i = b_i; blind_factor = blind_factor },
        prove_elgamal self.l_i self.s_i a_i self.r_point generator v_i b_i seed,
      )

  -- The closure: signer i's commitment opens and its proof verifies for `r_point`.
  unfoldable pub com_elgamal :
      List (Phase5ADecom1 c) → List Phase5Com1 → List HomoElGamalProof → GE → ℕ → Outcome Error Bool
  com_elgamal decom_vec com_vec elgamal_proofs r_point i = do
    decom ← index decom_vec i
    com1 ← index com_vec i
    let input_hash = to_bigint (create_hash_from_ge (decom.v_i ∷ decom.a_i ∷ decom.b_i ∷ []))
    if create_commitment input_hash decom.blind_factor == com1.commitment
        then (do
          proof ← index elgamal_proofs i
          ok (verify_elgamal proof decom.a_i r_point generator decom.v_i decom.b_i))
        else ok false

  unfoldable pub phase5c :
      LocalSignature c
      → List (Phase5ADecom1 c)
      → List Phase5Com1
      → List HomoElGamalProof
      → GE
      → GE
      → ℕ
      → Outcome Error (Phase5Com2 × Phase5DDecom2 c)
  phase5c self decom_vec com_vec elgamal_proofs v_i r_point blind_factor = do
    assert (length decom_vec == length com_vec)
    passed ← all_from 0 (length com_vec) (com_elgamal decom_vec com_vec elgamal_proofs r_point)
    v_vec ← collect_from 0 (length com_vec) (λ i. do d ← index decom_vec i; ok d.v_i)
    a_vec ← collect_from 0 (length com_vec) (λ i. do d ← index decom_vec i; ok d.a_i)
    let v_sum = fold ◌⊞◌ v_i v_vec
    a ← fold_head ◌⊞◌ a_vec
    r ← r_of_point self.r_point
    let yr = self.y ⊛ r
    let gm = generator ⊛ of_bigint self.m
    let v = (v_sum ⊟ gm) ⊟ yr
    let u_i = v ⊛ self.rho_i
    let t_i = a ⊛ self.l_i
    let input_hash = to_bigint (create_hash_from_ge (u_i ∷ t_i ∷ []))
    if passed
        then ok (
          record { commitment = create_commitment input_hash blind_factor },
          record { u_i = u_i; t_i = t_i; blind_factor = blind_factor },
        )
        else err invalid_com

  -- The closure: signer i's second commitment opens.
  unfoldable pub com2_opens : List (Phase5DDecom2 c) → List Phase5Com2 → ℕ → Outcome Error Bool
  com2_opens decom_vec2 com_vec2 i = do
    decom ← index decom_vec2 i
    com2 ← index com_vec2 i
    let input_hash = to_bigint (create_hash_from_ge (decom.u_i ∷ decom.t_i ∷ []))
    ok (create_commitment input_hash decom.blind_factor == com2.commitment)

  -- `zip`, which ends with the shorter list
  unfoldable pub fold_zip : GE → List GE → List GE → GE
  fold_zip acc [] bs = acc
  fold_zip acc (t ∷ ts) [] = acc
  fold_zip acc (t ∷ ts) (b ∷ bs) = fold_zip ((acc ⊞ t) ⊞ b) ts bs

  unfoldable pub phase5d :
      LocalSignature c
      → List (Phase5DDecom2 c)
      → List Phase5Com2
      → List (Phase5ADecom1 c)
      → Outcome Error FE
  phase5d self decom_vec2 com_vec2 decom_vec1 = do
    assert (length decom_vec2 == length decom_vec1)
    assert (length decom_vec2 == length com_vec2)
    passed ← all_from 0 (length com_vec2) (com2_opens decom_vec2 com_vec2)
    t_vec ← collect_from 0 (length com_vec2) (λ i. do d ← index decom_vec2 i; ok d.t_i)
    u_vec ← collect_from 0 (length com_vec2) (λ i. do d ← index decom_vec2 i; ok d.u_i)
    b_vec ← collect_from 0 (length decom_vec1) (λ i. do d ← index decom_vec1 i; ok d.b_i)
    let biased_sum_tb = fold_zip generator t_vec b_vec
    let biased_sum_tb_minus_u = fold ◌⊟◌ biased_sum_tb u_vec
    if passed
        then (if ge_eq generator biased_sum_tb_minus_u then ok self.s_i else err invalid_key)
        else err invalid_com

  unfoldable pub verify : Signature c → GE → ℕ → Outcome Error (Unit {0})
  verify sig y message = do
    let b = invert sig.s
    let a = of_bigint message
    let u1 = a ⊗ b
    let u2 = sig.r ⊗ b
    r ← r_of_point ((generator ⊛ u1) ⊞ (y ⊛ u2))
    if fe_eq sig.r r then ok tt else err invalid_sig

  -- `verify(..).is_ok()`: a panic is not caught.
  unfoldable pub is_ok : Outcome Error (Unit {0}) → Outcome Error Bool
  is_ok (ok _) = ok true
  is_ok (err _) = ok false
  is_ok panic = panic

  unfoldable pub output_signature : LocalSignature c → List FE → Outcome Error (Signature c)
  unfolding is_ok
  output_signature self s_vec = do
    let s = fold ◌⊕◌ self.s_i s_vec
    r ← r_of_point self.r_point
    let sig : Signature c = record { r = r; s = s }
    ver ← is_ok (verify sig self.y self.m)
    if ver then ok sig else err invalid_sig
