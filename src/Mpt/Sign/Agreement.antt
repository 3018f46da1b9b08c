-- ===== src/Mpt/Sign/Agreement.antt =====
-- What the signers that follow the program set: for each round, sender and addressee one text.
use vdexnode.Common.{
  ℕ, ◌+◌, ◌*◌, ◌^◌, ◌≤◌, ◌<◌, ◌≡◌, ◌≢◌, refl, String, none, some, List, [], ◌∷◌, arith, All,
  All-append, if◌then◌else◌, str_eq,
}
use vdexnode.Common.Decimal.{parse, to_string}
use vdexnode.Common.Decimal.RoundTrip.{parse-to_string}
use vdexnode.Mpt.Crypto.{Crypto}
use vdexnode.Mpt.Parties.{others, others_below}
use vdexnode.Mpt.Parties.Pairs.{sum_all}
use vdexnode.Mpt.Program.{Server}
use vdexnode.Mpt.Program.Agreement.{Message, All-copies, message-Message, posted-Message}
use vdexnode.Mpt.Program.Scripts.{IsServer, Delays}
use vdexnode.Mpt.GenerateKey.{KeyFile}
use vdexnode.Mpt.GenerateKey.KeyFiles.{IsSound}
use vdexnode.Mpt.Sign.Main.{Draws, Wire}
use vdexnode.Mpt.Sign.Signers.{IsShared, round0}
use vdexnode.Mpt.Sign.Answers.{key_of, ek}
use vdexnode.Mpt.Sign.Nonces.{r_point}
use vdexnode.Mpt.Sign.Products.{answers_set}
use vdexnode.Mpt.Sign.Shares.{later_text}
use vdexnode.Mpt.Sign.Local.{sig, point, agrees, balance}
use vdexnode.Mpt.Sign.Complete.{IsWire, first_round, second_round, third_round, fourth_round, sets}

module _ (c : Crypto) where
  open c use {FE, zero_fe, to_bigint, generator, ◌⊗◌, ◌⊛◌, x_coor, modulus}

  infixl 70 ◌⊗◌ ◌⊛◌
  module _ (laws : IsSound c) {n : ℕ} {file : ℕ → KeyFile c} {key : FE}
      (shared : IsShared c laws.f n file key) (draws : ℕ → Draws c)
      (gamma_range : (i j : ℕ)
        → to_bigint (key_of c laws shared draws i).k_i
              * to_bigint (key_of c laws shared draws j).gamma_i
            + ((draws j).gamma_answers i).beta_tag
          < modulus (ek c laws shared draws i))
      (w_range : (i j : ℕ)
        → to_bigint (key_of c laws shared draws i).k_i
              * to_bigint (key_of c laws shared draws j).w_i
            + ((draws j).w_answers i).beta_tag
          < modulus (ek c laws shared draws i))
      (message xr : ℕ) (hx : x_coor (r_point c laws.m n (key_of c laws shared draws)) ≡ some xr)
      (not_zero : sum_all c laws.f n (λ i. (key_of c laws shared draws i).k_i)
          ⊗ sum_all c laws.f n (λ i. (key_of c laws shared draws i).gamma_i)
        ≢ zero_fe)
      {srv : Server} (s : IsServer srv) (d : Delays) (uuid : String) {wire : Wire c}
      (w : IsWire c wire) where
    -- The text of signer `from`, by round and addressee.
    abbrev pub said : ℕ → String → String → String
    said from round to =
        if str_eq round "round0"
        then round0 c shared draws s d uuid wire w.party_id_read from from
        else if str_eq round "round1"
        then first_round c laws shared draws gamma_range w_range message xr hx not_zero s d uuid w
            from
        else if str_eq round "round2"
        then elim (parse (2 ^ 32) to) [
          | some i ↦
              second_round c laws shared draws gamma_range w_range message xr hx not_zero s d uuid w
                from i
          | none ↦ ""
        ]
        else if str_eq round "round3"
        then third_round c laws shared draws gamma_range w_range message xr hx not_zero s d uuid w
            from
        else if str_eq round "round4"
        then fourth_round c laws shared draws gamma_range w_range message xr hx not_zero s d uuid w
            from
        else later_text c laws.m laws.complete n message xr
            (point c laws shared draws gamma_range w_range message xr hx not_zero) (generator ⊛ key)
            (sig c laws shared draws gamma_range w_range message xr hx not_zero)
            (agrees c laws shared draws gamma_range w_range message xr hx not_zero)
            (λ j. (draws j).blind5) (λ j. (draws j).elgamal) (λ j. (draws j).blind5c) hx
            (balance c laws shared draws gamma_range w_range message xr hx not_zero) s d uuid
            w.later_reads round from

    answer_said :
        (me j : ℕ)
        → j < 2 ^ 32
        → said me "round2" (to_string j)
          ≡ second_round c laws shared draws gamma_range w_range message xr hx not_zero s d uuid w
              me j
    answer_said me j h = rw (parse-to_string (2 ^ 32) j h) refl

    answers_set-Messages :
        (me : ℕ) (js : List ℕ)
        → All (λ j. j < 2 ^ 32) js
        → All (Message uuid said) (
            answers_set c laws shared draws s d uuid wire.round1 w.round1_read wire.round2
              w.round2_read me js)
    answers_set-Messages me [] below = tt
    answers_set-Messages me (j ∷ js) (h, below) =
        All-append (Message uuid said) _ _
          (All-copies (Message uuid said) (d.sends "round2" j) _
            (message-Message uuid said s d me n (to_string j) "round2" _ (answer_said me j h)))
          (answers_set-Messages me js below)

    -- All that a signer sets are messages of its session.
    pub sets-Messages :
        (threshold me : ℕ) (e : threshold + 1 ≡ n) (two : 1 ≤ threshold) (lo : 1 ≤ me) (hi : me ≤ n)
        (small : n < 2 ^ 32)
        → All (Message uuid said) (
            sets c laws shared draws gamma_range w_range message xr hx not_zero s d uuid w threshold
              me e two lo hi small)
    sets-Messages threshold me e two lo hi small =
        let posted = posted-Message uuid said s d me n in
        let both = All-append (Message uuid said) in
        both _ _ (both _ _ (posted "round0" _ refl) tt) (
          both _ _
            (both _ _
              (both _ _ (posted "round1" _ refl) (
                both _ _
                  (answers_set-Messages me (others me 1 n) (others_below me 1 n (omega arith))) tt))
              (both _ _ (both _ _ (posted "round3" _ refl) (both _ _ (posted "round4" _ refl) tt))
                tt))
            (both _ _ (both _ _ (posted "round5" _ refl) (both _ _ (posted "round6" _ refl) tt)) (
              both _ _ (both _ _ (posted "round7" _ refl) (both _ _ (posted "round8" _ refl) tt))
                (both _ _ (posted "round9" _ refl) tt))))
