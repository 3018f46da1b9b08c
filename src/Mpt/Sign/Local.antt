-- ===== src/Mpt/Sign/Local.antt =====
-- The local signatures of signers that follow the program, on their common nonce point.
use vdexnode.Common.{ℕ, ◌+◌, ◌*◌, ◌%◌, ◌<◌, ◌≡◌, ◌≢◌, refl, sym, ap, ◌∙◌, some}
use vdexnode.Common.Outcome.{ok}
use vdexnode.Mpt.Crypto.{Crypto}
use vdexnode.Mpt.Messages.{SignKeys, LocalSignature, Signature}
use vdexnode.Mpt.Algebra.{mul-ne-zero_left}
use vdexnode.Mpt.PartyPrivate.{set_private}
use vdexnode.Mpt.MtA.{message_b}
use vdexnode.Mpt.SignKeys.{create}
use vdexnode.Mpt.LocalSignature.{phase5_local_sig}
use vdexnode.Mpt.LocalSignature.Valid.{r_of_point-some, s_i_sum}
use vdexnode.Mpt.LocalSignature.Phase5c.{Agrees}
use vdexnode.Mpt.Parties.Pairs.{sum_all}
use vdexnode.Mpt.GenerateKey.{KeyFile}
use vdexnode.Mpt.GenerateKey.KeyFiles.{IsSound}
use vdexnode.Mpt.Sign.Main.{Draws}
use vdexnode.Mpt.Sign.Signers.{IsShared}
use vdexnode.Mpt.Sign.Answers.{key_of, ek, gamma_answer, delta, sigma}
use vdexnode.Mpt.Sign.Nonces.{r_point, r_point-scaled}

module _ (c : Crypto) where
  open c use {
    Seed, FE, GE, zero_fe, of_bigint, to_bigint, order, ◌⊕◌, ◌⊗◌, generator, ◌⊞◌, ◌⊛◌, x_coor,
    modulus, pk,
  }

  infixl 65 ◌⊕◌ ◌⊞◌
  infixl 70 ◌⊗◌ ◌⊛◌
  module _ (laws : IsSound c) {n : ℕ} {file : ℕ → KeyFile c} {key : FE}
      (shared : IsShared c laws.f n file key) (draws : ℕ → Draws c)
      (gamma_range : (i j : ℕ)
        → to_bigint (key_of c laws shared draws i).k_i
              * to_bigint (key_of c laws shared draws j).gamma_i
            + ((draws j).gamma_answers i).beta_tag
          < modulus (ek c laws shared draws i))
      (w_range : (i j : ℕ)
        → to_bigint (key_of c laws shared draws i).k_i
              * to_bigint (key_of c laws shared draws j).w_i
            + ((draws j).w_answers i).beta_tag
          < modulus (ek c laws shared draws i))
      (message xr : ℕ) (hx : x_coor (r_point c laws.m n (key_of c laws shared draws)) ≡ some xr)
      (not_zero : sum_all c laws.f n (λ i. (key_of c laws shared draws i).k_i)
          ⊗ sum_all c laws.f n (λ i. (key_of c laws shared draws i).gamma_i)
        ≢ zero_fe) where
    abbrev pub ks : ℕ → SignKeys c
    ks = key_of c laws shared draws

    abbrev pub point : GE
    point = r_point c laws.m n ks

    -- The local signatures.
    abbrev pub sig : ℕ → LocalSignature c
    sig j = record {
      l_i = (draws j).l_i;
      rho_i = (draws j).rho_i;
      r_point = point;
      s_i =
          (of_bigint message ⊗ (draws j).k_i)
          ⊕ (of_bigint (xr % order) ⊗ (sigma c laws shared draws gamma_range w_range).0 j);
      m = message;
      y = generator ⊛ key;
    }

    abbrev pub whole : Signature c
    whole = record { r = of_bigint (xr % order); s = sum_all c laws.f n (λ j. (sig j).s_i) }

    pub local_sig_lem :
        (j : ℕ)
        → phase5_local_sig c
            (draws j).k_i
            message
            point
            ((sigma c laws shared draws gamma_range w_range).0 j)
            (generator ⊛ key)
            (draws j).l_i
            (draws j).rho_i
          ≡ ok (sig j)
    unfolding phase5_local_sig
    local_sig_lem j = rw (r_of_point-some c laws.m point xr hx) refl

    pub own_local_sig :
        (j : ℕ)
        → phase5_local_sig c
            (draws j).k_i
            message
            point
            ((sigma c laws shared draws gamma_range w_range).0 j)
            (file j).y_sum
            (draws j).l_i
            (draws j).rho_i
          ≡ ok (sig j)
    own_local_sig j = rw (shared.key_at j) (local_sig_lem j)

    pub delta_sum : sum_all c laws.f n (delta c laws shared draws gamma_range w_range).0 ≢ zero_fe
    delta_sum e = not_zero (sym (delta c laws shared draws gamma_range w_range).2 ∙ e)

    pub proved :
        (i j : ℕ) → pk (gamma_answer c laws shared draws j i).0.b_proof ≡ generator ⊛ (ks j).gamma_i
    unfolding message_b
    proved i j = laws.complete.pk-prove (ks j).gamma_i ((draws j).gamma_answers i).b_proof

    pub agrees : Agrees c point (generator ⊛ key) message sig
    agrees = record { same_point = λ j. refl; same_key = λ j. refl; same_message = λ j. refl }

    pub scaled : point ⊛ sum_all c laws.f n (λ i. (draws i).k_i) ≡ generator
    unfolding create
    scaled = r_point-scaled c laws.m n ks (mul-ne-zero_left c laws.f _ _ not_zero)

    pub sigma_sum :
        sum_all c laws.f n (sigma c laws shared draws gamma_range w_range).0
        ≡ sum_all c laws.f n (λ i. (draws i).k_i) ⊗ key
    unfolding create set_private
    sigma_sum =
        (sigma c laws shared draws gamma_range w_range).2
        ∙ ap (λ (x : FE). sum_all c laws.f n (λ i. (draws i).k_i) ⊗ x) shared.weights_sum

    pub s_sum :
        sum_all c laws.f n (λ j. (sig j).s_i)
        ≡ sum_all c laws.f n (λ i. (draws i).k_i)
          ⊗ (of_bigint message ⊕ (of_bigint (xr % order) ⊗ key))
    s_sum =
        s_i_sum c laws.m n message xr point key (λ i. (draws i).k_i)
          (sigma c laws shared draws gamma_range w_range).0 (λ j. (draws j).l_i)
          (λ j. (draws j).rho_i) sig hx local_sig_lem sigma_sum

    pub balance :
        point ⊛ sum_all c laws.f n (λ j. (sig j).s_i)
        ≡ (generator ⊛ of_bigint message) ⊞ ((generator ⊛ key) ⊛ of_bigint (xr % order))
    balance =
        ap (λ (x : FE). point ⊛ x) s_sum
        ∙ sym (laws.m.scale_assoc point _ _)
        ∙ ap (λ (p : GE). p ⊛ (of_bigint message ⊕ (of_bigint (xr % order) ⊗ key))) scaled
        ∙ laws.m.scale-add generator _ _
        ∙ ap (λ (p : GE). (generator ⊛ of_bigint message) ⊞ p)
            (ap (λ (x : FE). generator ⊛ x) (laws.f.mul_comm _ key)
              ∙ sym (laws.m.scale_assoc generator key _))
