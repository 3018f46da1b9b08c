-- ===== src/Mpt/GenerateKey/Agreement.antt =====
-- What the honest parties of a key generation set: for each round, sender and addressee one text.
use vdexnode.Common.{
  ℕ, ◌^◌, ◌<◌, ◌≡◌, refl, String, none, some, List, [], ◌∷◌, arith, length, get_elem?, All,
  All-append, if◌then◌else◌, str_eq,
}
use vdexnode.Common.Decimal.{parse, to_string}
use vdexnode.Common.Decimal.RoundTrip.{parse-to_string}
use vdexnode.Mpt.Crypto.{Crypto}
use vdexnode.Mpt.Parties.{others, others_below}
use vdexnode.Mpt.Program.{Server}
use vdexnode.Mpt.Program.Agreement.{Message, All-copies, message-Message, posted-Message}
use vdexnode.Mpt.Program.Scripts.{IsServer, Delays}
use vdexnode.Mpt.Sealing.{Aead}
use vdexnode.Mpt.GenerateKey.{Draws, Wire}
use vdexnode.Mpt.GenerateKey.Complete.{IsWire, round1, round2, round3, round4, round5, sets}
use vdexnode.Mpt.GenerateKey.Honest.{IsAead, y, shares_set}
use vdexnode.Mpt.GenerateKey.KeyFiles.{IsSound}

module _ (c : Crypto) where
  open c use {FE, ◌⊞◌, x_coor, share}

  infixl 65 ◌⊞◌
  module _ (laws : IsSound c) (t n : ℕ) (draws : ℕ → Draws c) (coordinate : ℕ → ℕ → ℕ)
      (coordinates : (i j : ℕ) → x_coor (y c t n draws i ⊞ y c t n draws j) ≡ some (coordinate i j))
      (part : ℕ → ℕ → FE)
      (dealt : (j i : ℕ)
        → i < n
        → get_elem? (share t n (draws j).u (draws j).sharing).1 i ≡ some (part j i))
      {aead : Aead} (sealing : IsAead aead)
      (long : (i j : ℕ) → length (aead.to_vec (coordinate i j)) ≡ 32) {srv : Server}
      (s : IsServer srv) (d : Delays) (uuid : String) {wire : Wire c} (w : IsWire c wire)
      (few : n < 2 ^ 32) where
    -- The text of party `from`, by round and addressee.
    abbrev pub said : ℕ → String → String → String
    said from round to =
        if str_eq round "round1"
        then round1 c laws t n draws coordinate coordinates part dealt sealing long s d uuid w from
        else if str_eq round "round2"
        then round2 c laws t n draws coordinate coordinates part dealt sealing long s d uuid w from
        else if str_eq round "round4"
        then round4 c laws t n draws coordinate coordinates part dealt sealing long s d uuid w from
        else if str_eq round "round5"
        then round5 c laws t n draws coordinate coordinates part dealt sealing long s d uuid w from
        else elim (parse (2 ^ 32) to) [
          | some i ↦
              round3 c laws t n draws coordinate coordinates part dealt sealing long s d uuid w i
                from
          | none ↦ ""
        ]

    share_said :
        (me j : ℕ)
        → j < 2 ^ 32
        → said me "round3" (to_string j)
          ≡ round3 c laws t n draws coordinate coordinates part dealt sealing long s d uuid w j me
    share_said me j h = rw (parse-to_string (2 ^ 32) j h) refl

    shares_set-Messages :
        (me : ℕ) (js : List ℕ)
        → All (λ j. j < 2 ^ 32) js
        → All (Message uuid said) (
            shares_set c t n draws coordinate coordinates part dealt sealing long s d uuid wire me
              js)
    shares_set-Messages me [] small = tt
    shares_set-Messages me (j ∷ js) (h, small) =
        All-append (Message uuid said) _ _
          (All-copies (Message uuid said) (d.sends "round3" j) _ (
            message-Message uuid said s d me n (to_string j) "round3"
              (round3 c laws t n draws coordinate coordinates part dealt sealing long s d uuid w j
                me)
              (share_said me j h)))
          (shares_set-Messages me js small)

    -- All that a party of the key generation sets are messages of its session.
    pub sets-Messages :
        (me : ℕ)
        → All
            (Message uuid said)
            (sets c laws t n draws coordinate coordinates part dealt sealing long s d uuid w me)
    sets-Messages me =
        let posted = posted-Message uuid said s d me n in
        All-append (Message uuid said) _ _ (posted "round1" _ refl) (
          All-append (Message uuid said) _ _ (posted "round2" _ refl) (
            All-append (Message uuid said) _ _
              (shares_set-Messages me (others me 1 n) (others_below me 1 n (omega arith)))
              (All-append (Message uuid said) _ _ (posted "round4" _ refl)
                (All-append (Message uuid said) _ _ (posted "round5" _ refl) tt))))
