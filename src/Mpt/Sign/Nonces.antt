-- ===== src/Mpt/Sign/Nonces.antt =====
-- Rounds 3 and 4 of a signer among signers that follow the program: all have one nonce point.
use vdexnode.Common.{
  ℕ, ◌+◌, ◌-◌, ◌^◌, ◌≤◌, ◌<◌, ◌≡◌, ◌≢◌, sym, ap, ◌∙◌, String, [], ◌++◌, map, arith,
}
use vdexnode.Common.Outcome.{ok}
use vdexnode.Mpt.Crypto.{Crypto}
use vdexnode.Mpt.Crypto.Laws.{IsField, IsModule}
use vdexnode.Mpt.Algebra.{mul-invert, mul-ne-zero_left}
use vdexnode.Mpt.Messages.{SignKeys, MessageB}
use vdexnode.Mpt.SignKeys.Nonce.{IsValid, broadcast_of, decommit_of, phase4_nonce}
use vdexnode.Mpt.Parties.{indices, others}
use vdexnode.Mpt.Parties.Pairs.{sum_all}
use vdexnode.Mpt.Vectors.Laws.{format_vec_from_reads_values}
use vdexnode.Mpt.Transport.Runs.{
  Runs, Runs-bind, Runs-then, Runs-lift, Runs-done, Runs-value, Runs-script, Runs-same,
}
use mathlib.Core.List.{append-nil, map-map}
use vdexnode.Mpt.Program.{Codec, Server}
use vdexnode.Mpt.Program.Scripts.{IsCodec, IsServer, Delays, exchanged, posted, exchange-Runs}
use vdexnode.Mpt.Sign.{position, remove}
use vdexnode.Mpt.Sign.Output.{exchange_reads, Wire, open_nonce}
use vdexnode.Mpt.Sign.Signers.{position_lem, remove-indices}

-- Everybody has all values, in the order of the signers.
pub exchange_reads-Runs :
    {srv : Server} (s : IsServer srv) (d : Delays) (me n : ℕ) (uuid : String) {A : Type 0}
    (codec : Codec A) (round : String) (value : ℕ → A)
    → IsCodec codec
    → 1 ≤ me
    → me ≤ n
    → Runs
        (exchange_reads srv me n uuid codec round (value me))
        (exchanged s d me n uuid round (λ j. codec.print (value j)))
        (map value (indices 1 n))
        (posted s d me n uuid round (codec.print (value me)))
unfolding exchange_reads
exchange_reads-Runs s d me n uuid codec round value e lo hi = Runs-script (append-nil _) (
    Runs-then _ (exchange-Runs s d me n uuid round (λ j. codec.print (value j))) (
      Runs-value (
        format_vec_from_reads_values codec.read value (λ j. codec.print (value j)) me n
          (λ k. e (value k)) lo (omega arith))))

pub remove_own :
    {A : Type 0} (v : ℕ → A) (me n : ℕ)
    → 1 ≤ me
    → me ≤ n
    → n < 2 ^ 32
    → remove (map v (indices 1 n)) (position me) ≡ ok (v me, map v (others me 1 n))
remove_own v me n lo hi small =
    let place : position me ≡ me - 1 = position_lem me lo (omega arith) in
    rw place (remove-indices v 1 n (me - 1) me (omega arith) (omega arith))

module _ (c : Crypto) {f : IsField c} (m : IsModule c f) where
  open c use {FE, GE, zero_fe, ◌⊗◌, invert, generator, ◌⊛◌, pk}

  infixl 70 ◌⊗◌ ◌⊛◌
  -- Only one point becomes the generator when it is taken k times.
  divided : (p : GE) (k : FE) → p ⊛ k ≡ generator → k ≢ zero_fe → p ≡ generator ⊛ invert k
  divided p k h hk =
      sym (m.scale-one p)
      ∙ ap (λ (x : FE). p ⊛ x) (sym (mul-invert c f k hk))
      ∙ sym (m.scale_assoc p k (invert k))
      ∙ ap (λ (q : GE). q ⊛ invert k) h

  abbrev pub r_point : ℕ → (ℕ → SignKeys c) → GE
  r_point n keys = generator ⊛ invert (sum_all c f n (λ i. (keys i).k_i))

  pub r_point-scaled :
      (n : ℕ) (keys : ℕ → SignKeys c)
      → sum_all c f n (λ i. (keys i).k_i) ≢ zero_fe
      → r_point n keys ⊛ sum_all c f n (λ i. (keys i).k_i) ≡ generator
  r_point-scaled n keys h =
      m.scale_assoc generator _ _
      ∙ ap (λ (x : FE). generator ⊛ x) (f.invert-mul _ h)
      ∙ m.scale-one generator

  module _ {srv : Server} (s : IsServer srv) (d : Delays) (uuid : String) (wire : Wire c)
      (read_scalar : IsCodec wire.scalar) (read_decommit : IsCodec wire.decommit) (n me : ℕ)
      (keys : ℕ → SignKeys c) (valid : (j : ℕ) → IsValid c (keys j)) (blind : ℕ → ℕ)
      (msg : ℕ → MessageB c) (proved : (j : ℕ) → pk (msg j).b_proof ≡ generator ⊛ (keys j).gamma_i)
      (delta : ℕ → FE)
      (shares : sum_all c f n delta
        ≡ sum_all c f n (λ i. (keys i).k_i) ⊗ sum_all c f n (λ i. (keys i).gamma_i))
      (not_zero : sum_all c f n delta ≢ zero_fe) where
    abbrev pub round3 : ℕ → String
    round3 j = wire.scalar.print (delta j)

    abbrev pub round4 : ℕ → String
    round4 j = wire.decommit.print (decommit_of c m keys blind j)

    k_not_zero : sum_all c f n (λ i. (keys i).k_i) ≢ zero_fe
    k_not_zero = mul-ne-zero_left c f _ _ (λ e. not_zero (shares ∙ e))

    pub open_nonce-Runs :
        (threshold : ℕ)
        → threshold + 1 ≡ n
        → 1 ≤ threshold
        → 1 ≤ me
        → me ≤ n
        → n < 2 ^ 32
        → Runs
            (open_nonce c srv wire threshold me uuid
              (delta me)
              (decommit_of c m keys blind me)
              (map (broadcast_of c m keys blind) (indices 1 n))
              (map msg (others me 1 n)))
            (exchanged s d me n uuid "round3" round3
              ++ (exchanged s d me n uuid "round4" round4 ++ []))
            (r_point n keys)
            (posted s d me n uuid "round3" (round3 me)
              ++ (posted s d me n uuid "round4" (round4 me) ++ []))
    unfolding open_nonce
    open_nonce-Runs threshold e two lo hi small =
        let (r_others, called, scaled) =
          phase4_nonce c m n me keys blind (λ j. (msg j).b_proof) delta lo (omega arith)
            (omega arith) valid proved shares not_zero in
        rw (e, map-map (λ (m_b : MessageB c). m_b.b_proof) msg (others me 1 n))
          (Runs-same (divided _ _ scaled k_not_zero) (
            Runs-bind _
              (exchange_reads-Runs s d me n uuid wire.scalar "round3" delta read_scalar lo hi)
              (Runs-bind _
                (exchange_reads-Runs s d me n uuid wire.decommit "round4"
                  (decommit_of c m keys blind) read_decommit lo hi)
                (Runs-lift _ (remove_own (decommit_of c m keys blind) me n lo hi small) (
                  Runs-lift _ (remove_own (broadcast_of c m keys blind) me n lo hi small)
                    (Runs-lift _ called (Runs-done _)))))))
