-- ===== src/Mpt/Sign/Signers.antt =====
-- The signers of a session that follow the program: what they hold, and round 0.
use vdexnode.Common.{
  ℕ, zero, suc, ◌+◌, ◌-◌, ◌^◌, ◌≤◌, ◌<◌, ◌≡◌, refl, ap, ◌∙◌, String, some, List, [], ◌++◌, map,
  arith, get_elem?, ◌==◌, ==_iff, Bool-cases, inl, inr,
}
use vdexnode.Common.Outcome.{Outcome, ok, index}
use vdexnode.Common.Outcome
use vdexnode.Mpt.Crypto.{Crypto}
use vdexnode.Mpt.Crypto.Laws.{IsField}
use vdexnode.Mpt.Messages.{SignKeys}
use vdexnode.Mpt.PartyPrivate.{set_private}
use vdexnode.Mpt.KeyGen.{get_commitments_to_xi, update_commitments_to_xi}
use vdexnode.Mpt.SignKeys.{create}
use vdexnode.Mpt.Parties.{indices, others, others_above}
use vdexnode.Mpt.Parties.Walk.{others_walk}
use vdexnode.Mpt.Parties.Pairs.{sum_all}
use vdexnode.Mpt.Rounds.Laws.{get_elem?-map}
use vdexnode.Mpt.Transport.Runs.{Runs, Runs-bind, Runs-lift, Runs-done}
use vdexnode.Mpt.Program.{Server}
use vdexnode.Mpt.Program.Scripts.{IsCodec, IsServer, Delays, exchanged, posted, exchange-Runs}
use vdexnode.Mpt.GenerateKey.{KeyFile}
use vdexnode.Mpt.Sign.{position, remove}
use vdexnode.Mpt.Sign.Loops.{read_signers}
use vdexnode.Mpt.Sign.Main.{Draws, Wire, gather}

pub position_lem : (k : ℕ) → 1 ≤ k → k ≤ 2 ^ 32 → position k ≡ k - 1
unfolding position
position_lem k lo hi = omega arith

-- Position k of a range holds its k-th number.
pub indices_at : (i n k : ℕ) → k < n → get_elem? (indices i n) k ≡ some (i + k)
unfolding indices
indices_at i zero k h = elim h [ ]
indices_at i (suc n) zero h = let e : i ≡ i + 0 = omega arith in ap some e
indices_at i (suc n) (suc k) h =
    let e : i + 1 + k ≡ i + suc k = omega arith in indices_at (i + 1) n k (omega arith) ∙ ap some e

-- The list of all parties' values holds party i's at the place that the code looks up.
pub value_at :
    {A : Type 0} (v : ℕ → A) (n i : ℕ)
    → 1 ≤ i
    → i ≤ n
    → n < 2 ^ 32
    → get_elem? (map v (indices 1 n)) (position i) ≡ some (v i)
value_at v n i lo hi small =
    let place : position i ≡ i - 1 = position_lem i lo (omega arith) in
    let next : 1 + (i - 1) ≡ i = omega arith in
    rw place
      (get_elem?-map v (indices 1 n) (i - 1) i (rw next at (indices_at 1 n (i - 1) (omega arith))))

-- What is taken out of everybody's values leaves the others'.
pub remove-indices :
    {A : Type 0} (v : ℕ → A) (i n k me : ℕ)
    → k < n
    → i + k ≡ me
    → remove (map v (indices i n)) k ≡ ok (v me, map v (others me i n))
unfolding remove indices others
remove-indices v i zero k me h e = elim h [ ]
remove-indices v i (suc n) zero me h e =
    let p : i ≡ me = omega arith in
    rw ((==_iff i me).1 p, p, others_above me (me + 1) n (omega arith)) refl
remove-indices v i (suc n) (suc k) me h e = elim (Bool-cases (i == me)) [
  | inl t ↦ absurd (let p : i ≡ me = (==_iff i me).0 t in omega arith)
  | inr t ↦ rw (t, remove-indices v (i + 1) n k me (omega arith) (omega arith)) refl
]

module _ (c : Crypto) where
  open c use {Seed, FE, GE, ◌⊗◌, generator, ◌⊛◌, keypair, VerifiableSs, map_share_to_new_params}

  infixl 70 ◌⊗◌ ◌⊛◌
  abbrev pub signers : (ℕ → KeyFile c) → ℕ → List ℕ
  signers file n = map (λ j. position (file j).party_num) (indices 1 n)

  -- The signers' list holds signer i's position at the place that the code looks up.
  pub signer_at :
      (file : ℕ → KeyFile c) (n i : ℕ)
      → 1 ≤ i
      → i ≤ n
      → n < 2 ^ 32
      → get_elem? (signers file n) (position i) ≡ some (position (file i).party_num)
  signer_at file n i = value_at (λ j. position (file j).party_num) n i

  abbrev pub weight : (ℕ → KeyFile c) → ℕ → VerifiableSs → ℕ → FE
  weight file n vss j =
      map_share_to_new_params vss (position (file j).party_num) (signers file n)
      ⊗ (file j).shared_keys.x_i

  -- The key files of signers 1 to `n` belong to one key generation: they hold one list of schemes
  -- and one of Paillier keys, with each signer's at its place, and the signers' weighted shares add
  -- up to the private key `key`.
  pub record IsShared (f : IsField c) (n : ℕ) (file : ℕ → KeyFile c) (key : FE) : Type 0 where
    pub seed : ℕ → Seed
    pub ek_at : (j : ℕ) → (file j).party_keys.ek ≡ (keypair (seed j)).0
    pub dk_at : (j : ℕ) → (file j).party_keys.dk ≡ (keypair (seed j)).1
    pub vss_vec : List VerifiableSs
    pub same_vss : (j : ℕ) → (file j).vss_scheme_vec ≡ vss_vec
    pub vss : ℕ → VerifiableSs
    pub vss_at : (j : ℕ) → get_elem? vss_vec (position (file j).party_num) ≡ some (vss j)
    pub paillier_at :
        (i j : ℕ)
        → get_elem? (file i).paillier_key_vec (position (file j).party_num)
          ≡ some (keypair (seed j)).0
    pub xi_com_vec : List GE
    pub xi_coms : get_commitments_to_xi c vss_vec ≡ ok xi_com_vec
    pub xi_com : ℕ → GE
    pub xi_com_at : (j : ℕ) → get_elem? xi_com_vec (position (file j).party_num) ≡ some (xi_com j)
    pub weight_at :
        (j : ℕ)
        → update_commitments_to_xi c
            (xi_com j)
            (vss j)
            (position (file j).party_num)
            (signers file n)
          ≡ generator ⊛ weight file n (vss j) j
    pub key_at : (j : ℕ) → (file j).y_sum ≡ generator ⊛ key
    pub weights_sum : sum_all c f n (λ j. weight file n (vss j) j) ≡ key

  module _ {f : IsField c} {n : ℕ} {file : ℕ → KeyFile c} {key : FE}
      (shared : IsShared f n file key) (draws : ℕ → Draws c) where
    -- Signer j's keys.
    abbrev pub keys : ℕ → SignKeys c
    keys j =
        create c (set_private c (file j).party_keys (file j).shared_keys) (shared.vss j)
          (position (file j).party_num) (signers file n) (draws j).gamma_i (draws j).k_i

    module _ {srv : Server} (s : IsServer srv) (d : Delays) (uuid : String) (wire : Wire c)
        (codec : IsCodec wire.party_id) (me : ℕ) where
      abbrev pub round0 : ℕ → String
      round0 j = wire.party_id.print (file j).party_num

      read_signers-honest :
          read_signers wire.party_id (map round0 (others me 1 n)) (file me).party_num me n 1 0
          ≡ ok (signers file n)
      unfolding read_signers indices
      read_signers-honest =
          others_walk me n
            (λ k i j.
              read_signers wire.party_id (map round0 (others me 1 n)) (file me).party_num me k i j
              ≡ ok (map (λ j. position (file j).party_num) (indices i k)))
            (λ i j. refl) (λ k i j lo hi h p. rw (h, p, (==_iff i me).0 h) refl)
            (λ k i j lo hi h at p.
              rw (h, get_elem?-map round0 (others me 1 n) j i at, codec (file i).party_num, p) refl)

      pub gather-Runs :
          (threshold : ℕ)
          → threshold + 1 ≡ n
          → 1 ≤ me
          → me ≤ n
          → n < 2 ^ 32
          → Runs
              (gather c srv wire (draws me) threshold (file me) me uuid)
              (exchanged s d me n uuid "round0" round0 ++ [])
              (signers file n, keys me)
              (posted s d me n uuid "round0" (round0 me) ++ [])
      unfolding gather
      gather-Runs threshold e lo hi small =
          let scheme_at : index {E = ⊥} (file me).vss_scheme_vec (position (file me).party_num)
              ≡ ok (shared.vss me) =
            rw (shared.same_vss me) (ap Outcome.unwrap (shared.vss_at me)) in
          rw e (
            Runs-bind _ (exchange-Runs s d me n uuid "round0" round0) (
              Runs-lift _ read_signers-honest (
                Runs-lift _ (ap Outcome.unwrap (signer_at file n me lo hi small))
                  (Runs-lift _ scheme_at (Runs-done (signers file n, keys me))))))
