-- ===== src/Mpt/Sealing.antt =====
-- How vDexNode/mpt/src/bin/generate_key.rs encrypts the shares: the keys of each pair of parties,
-- and the loop that opens what the others sealed.
use vdexnode.Common.{ℕ, zero, suc, ◌+◌, ◌-◌, String, Option, List, [], ◌∷◌, ◌==◌, if◌then◌else◌}
use vdexnode.Common.Outcome.{Outcome, ok, ◌>>=◌, index, unwrap}
use vdexnode.Mpt.Crypto.{Crypto}
use vdexnode.Mpt.Messages.{Keys, KeyGenDecommitMessage1}
use vdexnode.Mpt.Program.{Codec}

-- AEAD
pub record Sealed : Type 0 where
  pub ciphertext : List ℕ
  pub tag : List ℕ

-- `encrypt` and `decrypt` take the key, the nonce, and the text or the sealed text: `none` is a
-- panic of the library, or a tag that does not fit. `to_vec` and `of_bytes` are curv's BigInt.
pub record Aead : Type 0 where
  pub encrypt : List ℕ → List ℕ → List ℕ → Option Sealed
  pub decrypt : List ℕ → List ℕ → Sealed → Option (List ℕ)
  pub to_vec : ℕ → List ℕ
  pub of_bytes : List ℕ → ℕ

-- `repeat(byte).take(count)`
unfoldable pub replicate : ℕ → ℕ → List ℕ
replicate zero byte = []
replicate (suc count) byte = byte ∷ replicate count byte

unfoldable pub nonce : List ℕ
unfolding replicate
nonce = replicate 12 3

module _ (c : Crypto) where
  open c use {FE, of_bigint, GE, ◌⊞◌, x_coor}

  infixl 65 ◌⊞◌
  -- The loop behind round 2, with `n` parties left from i on, at answer j: the points, the
  -- openings, and the keys of the encryption between this party and each other one.
  unfoldable pub read_decommits :
      Codec (KeyGenDecommitMessage1 c)
      → List String
      → Keys c
      → KeyGenDecommitMessage1 c
      → ℕ
      → ℕ
      → ℕ
      → ℕ
      → Outcome ⊥ (List GE × List (KeyGenDecommitMessage1 c) × List ℕ)
  read_decommits codec answers party_keys decom_i me zero i j = ok ([], [], [])
  read_decommits codec answers party_keys decom_i me (suc n) i j =
      let own = read_decommits codec answers party_keys decom_i me n (i + 1) j in
      let other = read_decommits codec answers party_keys decom_i me n (i + 1) (j + 1) in
      if i == me
      then (do rest ← own; ok (party_keys.y_i ∷ rest.0, decom_i ∷ rest.1, rest.2))
      else (do
        text ← index answers j
        decom_j ← unwrap (codec.read text)
        enc_key ← unwrap (x_coor (party_keys.y_i ⊞ decom_j.y_i))
        rest ← other
        ok (decom_j.y_i ∷ rest.0, decom_j ∷ rest.1, enc_key ∷ rest.2))

  -- The loop behind round 3.
  unfoldable pub open_shares :
      Aead → Codec Sealed → ℕ → List ℕ → List FE → List String → ℕ → ℕ → ℕ → Outcome ⊥ (List FE)
  unfolding nonce
  open_shares aead codec me enc_keys secret_shares answers zero i j = ok []
  open_shares aead codec me enc_keys secret_shares answers (suc n) i j =
      let own = open_shares aead codec me enc_keys secret_shares answers n (i + 1) j in
      let other = open_shares aead codec me enc_keys secret_shares answers n (i + 1) (j + 1) in
      if i == me
      then (do share ← index secret_shares (i - 1); rest ← own; ok (share ∷ rest))
      else (do
        text ← index answers j
        pack ← unwrap (codec.read text)
        key_i ← index enc_keys j
        out ← unwrap (aead.decrypt (aead.to_vec key_i) nonce pack)
        rest ← other
        ok (of_bigint (aead.of_bytes out) ∷ rest))
