-- ===== src/Mpt/GenerateKey/KeyFiles.antt =====
-- What the parties of a key generation hold when all of them follow the program.
use vdexnode.Common.{ℕ, ◌-◌, map}
use vdexnode.Mpt.Crypto.{Crypto}
use vdexnode.Mpt.Crypto.Laws.{IsField, IsModule, IsComplete, IsPaillier, IsSharing}
use vdexnode.Mpt.Parties.{indices}
use vdexnode.Mpt.Parties.Pairs.{sum_all}
use vdexnode.Mpt.GenerateKey.{Draws, KeyFile}
use vdexnode.Mpt.GenerateKey.Honest.{keys}

-- The libraries' promises that a run relies on.
pub record IsSound (c : Crypto) : Type 0 where
  pub f : IsField c
  pub m : IsModule c f
  pub sharing : IsSharing c
  pub complete : IsComplete c
  pub paillier : IsPaillier c

module _ (c : Crypto) (laws : IsSound c) (t n : ℕ) (draws : ℕ → Draws c) where
  open c use {FE, GE, generator, ◌⊛◌, share, VerifiableSs, DLogProof, prove_dlog, keypair}

  infixl 70 ◌⊛◌
  abbrev pub private_key : FE
  private_key = sum_all c laws.f n (λ j. (draws j).u)

  abbrev pub public_key : GE
  public_key = generator ⊛ private_key

  abbrev pub scheme : ℕ → VerifiableSs
  scheme j = (share t n (draws j).u (draws j).sharing).0

  -- `part j i` is what party j deals to position i.
  module _ (part : ℕ → ℕ → FE) where
    -- The private share and the proof of party j.
    abbrev pub x : ℕ → FE
    x j = sum_all c laws.f n (λ k. part k (j - 1))

    abbrev pub proof : ℕ → DLogProof
    proof j = prove_dlog (x j) (draws j).proof

    -- What is saved by party `me`.
    abbrev pub key_file : ℕ → KeyFile c
    key_file me = record {
      party_keys = keys c t n draws me;
      shared_keys = record { y = public_key; x_i = x me };
      party_num = me;
      vss_scheme_vec = map scheme (indices 1 n);
      paillier_key_vec = map (λ j. (keypair (draws j).paillier).0) (indices 1 n);
      y_sum = public_key;
    }
