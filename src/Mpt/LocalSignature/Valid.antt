-- ===== src/Mpt/LocalSignature/Valid.antt =====
-- The signature that the signers' shares add up to is one that `verify` accepts.
use vdexnode.Common.{ℕ, ◌+◌, ◌%◌, ◌≤◌, ◌<◌, ◌≡◌, refl, sym, ◌∙◌, ap, ◌≢◌, map, arith, some}
use mathlib.Core.Path.{fun_ext}
use vdexnode.Common.Outcome.{ok}
use vdexnode.Mpt.Crypto.{Crypto}
use vdexnode.Mpt.Crypto.Laws.{IsField, IsModule}
use vdexnode.Mpt.Algebra.{scalars, mul-sum, mul_left_comm, fe_eq_refl, mul-invert, add-mul}
use vdexnode.Mpt.Messages.{LocalSignature, Signature}
use vdexnode.Mpt.Parties.{indices, others, total-others}
use vdexnode.Mpt.Parties.Pairs.{sum_all}
use vdexnode.Mpt.Rounds.{fold}
use vdexnode.Mpt.LocalSignature.{phase5_local_sig, r_of_point, verify, output_signature}
use vdexnode.Mpt.Sums.{total-map, fold-total, total-op}

module _ (c : Crypto) {f : IsField c} (m : IsModule c f) where
  open c use {
    FE, GE, zero_fe, of_bigint, order, ◌⊕◌, ◌⊗◌, invert, generator, ◌⊞◌, ◌⊛◌, x_coor, fe_eq,
  }

  infixl 65 ◌⊕◌ ◌⊞◌
  infixl 70 ◌⊗◌ ◌⊛◌
  -- The point that `verify` computes, for s = k (a + r x) over the nonce point of k.
  signature_point :
      (r_point : GE) (k x a r s : FE)
      → r_point ⊛ k ≡ generator
      → s ≡ k ⊗ (a ⊕ (r ⊗ x))
      → s ≢ zero_fe
      → (generator ⊛ (a ⊗ invert s)) ⊞ ((generator ⊛ x) ⊛ (r ⊗ invert s)) ≡ r_point
  signature_point r_point k x a r s hr hs hz =
      ap (λ (p : GE). (generator ⊛ (a ⊗ b)) ⊞ p)
        (m.scale_assoc generator x (r ⊗ b)
          ∙ ap (λ (z : FE). generator ⊛ z)
              (sym (f.mul_assoc x r b) ∙ ap (λ (z : FE). z ⊗ b) (f.mul_comm x r)))
      ∙ sym (m.scale-add generator (a ⊗ b) ((r ⊗ x) ⊗ b))
      ∙ ap (λ (z : FE). generator ⊛ z) (sym (add-mul c f a (r ⊗ x) b))
      ∙ ap (λ (p : GE). p ⊛ (e ⊗ b)) (sym hr)
      ∙ m.scale_assoc r_point k (e ⊗ b)
      ∙ ap (λ (z : FE). r_point ⊛ z)
          (sym (f.mul_assoc k e b) ∙ ap (λ (z : FE). z ⊗ b) (sym hs) ∙ mul-invert c f s hz)
      ∙ m.scale-one r_point
    where
      b : FE
      b = invert s

      e : FE
      e = a ⊕ (r ⊗ x)

  pub r_of_point-some :
      (p : GE) (n : ℕ) → x_coor p ≡ some n → r_of_point c p ≡ ok (of_bigint (n % order))
  unfolding r_of_point
  r_of_point-some p n h = rw h

  -- A pair (r, s) with s = k (m + r x) and r the coordinate of a point R with `R * k = G` verifies
  -- against the public key `G * x`.
  pub verify_valid :
      (r_point : GE) (n message : ℕ) (k x s : FE)
      → x_coor r_point ≡ some n
      → r_point ⊛ k ≡ generator
      → s ≡ k ⊗ (of_bigint message ⊕ (of_bigint (n % order) ⊗ x))
      → s ≢ zero_fe
      → verify c (record { r = of_bigint (n % order); s = s }) (generator ⊛ x) message ≡ ok tt
  unfolding verify
  verify_valid r_point n message k x s hx hr hs hz = rw (
    signature_point r_point k x (of_bigint message) (of_bigint (n % order)) s hr hs hz,
    r_of_point-some r_point n hx,
    fe_eq_refl c f (of_bigint (n % order)),
  )

  -- The shares of all signers add up to k (m + r x).
  shares_sum :
      (n : ℕ) (k sigma : ℕ → FE) (a r x : FE)
      → sum_all c f n sigma ≡ sum_all c f n k ⊗ x
      → sum_all c f n (λ j. (a ⊗ k j) ⊕ (r ⊗ sigma j)) ≡ sum_all c f n k ⊗ (a ⊕ (r ⊗ x))
  shares_sum n k sigma a r x h =
      total-op (scalars c f) (λ j. a ⊗ k j) (λ j. r ⊗ sigma j) (indices 1 n)
      ∙ rw
          (
            sym (mul-sum c f a k (indices 1 n)),
            sym (mul-sum c f r sigma (indices 1 n)),
            h,
            f.mul-add,
          )
          (rw (f.mul_comm a (sum_all c f n k))
            (ap (λ (z : FE). (sum_all c f n k ⊗ a) ⊕ z) (mul_left_comm c f r (sum_all c f n k) x)))

  -- What `phase5_local_sig` returns on a nonce point that has a coordinate.
  pub phase5_local_sig-some :
      (k : FE) (message n : ℕ) (r_point : GE) (sigma : FE) (y : GE) (l rho : FE)
      → (sig : LocalSignature c) → x_coor r_point ≡ some n
      → phase5_local_sig c k message r_point sigma y l rho ≡ ok sig
      → sig ≡ record {
        l_i = l;
        rho_i = rho;
        r_point = r_point;
        s_i = (of_bigint message ⊗ k) ⊕ (of_bigint (n % order) ⊗ sigma);
        m = message;
        y = y;
      }
  unfolding phase5_local_sig r_of_point
  phase5_local_sig-some k message n r_point sigma y l rho sig hx h = ground arith

  module _ (n message xr : ℕ) (r_point : GE) (x : FE) (k sigma l rho : ℕ → FE)
      (sig : ℕ → LocalSignature c) (hx : x_coor r_point ≡ some xr)
      (h : (j : ℕ)
        → phase5_local_sig c (k j) message r_point (sigma j) (generator ⊛ x) (l j) (rho j)
          ≡ ok (sig j)) where
    pub sig_fields :
        (j : ℕ)
        → sig j ≡ record {
          l_i = l j;
          rho_i = rho j;
          r_point = r_point;
          s_i = (of_bigint message ⊗ k j) ⊕ (of_bigint (xr % order) ⊗ sigma j);
          m = message;
          y = generator ⊛ x;
        }
    sig_fields j =
        phase5_local_sig-some (k j) message xr r_point (sigma j) (generator ⊛ x) (l j) (rho j)
          (sig j) hx (h j)

    pub s_i_sum :
        sum_all c f n sigma ≡ sum_all c f n k ⊗ x
        → sum_all c f n (λ j. (sig j).s_i)
          ≡ sum_all c f n k ⊗ (of_bigint message ⊕ (of_bigint (xr % order) ⊗ x))
    s_i_sum hs =
        ap (λ (g : ℕ → FE). sum_all c f n g)
          (fun_ext (λ j. ap (λ (t : LocalSignature c). t.s_i) (sig_fields j)))
        ∙ shares_sum n k sigma (of_bigint message) (of_bigint (xr % order)) x hs

    -- The fold of `output_signature` is the sum over all signers.
    folded_s :
        (me : ℕ)
        → 1 ≤ me
        → me < 1 + n
        → fold ◌⊕◌ (sig me).s_i (map (λ j. (sig j).s_i) (others me 1 n))
          ≡ sum_all c f n (λ j. (sig j).s_i)
    folded_s me lo hi =
        fold-total (scalars c f) (λ (z : FE). z) (sig me).s_i
          (map (λ j. (sig j).s_i) (others me 1 n))
        ∙ ap (λ (z : FE). (sig me).s_i ⊕ z)
            (total-map ◌⊕◌ zero_fe (λ (z : FE). z) (λ j. (sig j).s_i) (others me 1 n))
        ∙ sym (total-others (scalars c f) (λ j. (sig j).s_i) me 1 n lo hi)

    -- `output_signature` once its sum is known to verify.
    output_of_verified :
        (me : ℕ) (s : FE)
        → 1 ≤ me
        → me < 1 + n
        → sum_all c f n (λ j. (sig j).s_i) ≡ s
        → verify c (record { r = of_bigint (xr % order); s = s }) (generator ⊛ x) message ≡ ok tt
        → output_signature c (sig me) (map (λ j. (sig j).s_i) (others me 1 n))
          ≡ ok (record { r = of_bigint (xr % order); s = s })
    unfolding output_signature
    output_of_verified me s lo hi e v = rw (
      folded_s me lo hi,
      e,
      ap (λ (t : LocalSignature c). t.r_point) (sig_fields me),
      r_of_point-some r_point xr hx,
      ap (λ (t : LocalSignature c). t.y) (sig_fields me),
      ap (λ (t : LocalSignature c). t.m) (sig_fields me),
      v,
    )

  -- Signers 1 to `n` make their local signatures of one message on one nonce point R with
  -- `R * k = G`, where k sums the `k_i`, and the sigma shares sum to k times the private key x.
  -- If the sum of the `s_i` is not zero, then for every signer `me`, given the others' `s_i`,
  -- `output_signature` returns the pair of R's coordinate and of that sum, and `verify` accepts
  -- the pair for the public key `G * x`.
  pub output_signature_valid :
      (n me message xr : ℕ) (r_point : GE) (x : FE) (k sigma l rho : ℕ → FE)
      (sig : ℕ → LocalSignature c)
      → 1 ≤ me
      → me < 1 + n
      → x_coor r_point ≡ some xr
      → r_point ⊛ sum_all c f n k ≡ generator
      → sum_all c f n sigma ≡ sum_all c f n k ⊗ x
      → ((j : ℕ)
          → phase5_local_sig c (k j) message r_point (sigma j) (generator ⊛ x) (l j) (rho j)
            ≡ ok (sig j))
      → sum_all c f n (λ j. (sig j).s_i) ≢ zero_fe
      → let whole : Signature c = record {
        r = of_bigint (xr % order);
        s = sum_all c f n (λ j. (sig j).s_i);
      } in
        (output_signature c (sig me) (map (λ j. (sig j).s_i) (others me 1 n)) ≡ ok whole)
        × (verify c whole (generator ⊛ x) message ≡ ok tt)
  output_signature_valid n me message xr r_point x k sigma l rho sig lo hi hx hr hs h hz =
      let v =
        verify_valid r_point xr message (sum_all c f n k) x (sum_all c f n (λ j. (sig j).s_i)) hx hr
          (s_i_sum n message xr r_point x k sigma l rho sig hx h hs) hz in
      (
        output_of_verified n message xr r_point x k sigma l rho sig hx h me
            (sum_all c f n (λ j. (sig j).s_i)) lo hi refl v,
        v,
      )
