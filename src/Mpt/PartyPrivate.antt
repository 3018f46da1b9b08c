-- ===== src/Mpt/PartyPrivate.antt =====
-- `impl PartyPrivate` of vDexNode/mpt/src/utils/key_gen_utils.rs. Centipede's segmentation is an
-- argument, and the party's secret is what it is called on.
use vdexnode.Common.{ℕ}
use vdexnode.Mpt.Crypto.{Crypto}
use vdexnode.Mpt.Messages.{Keys, SharedKeys, PartyPrivate}

module _ (c : Crypto) where
  open c use {Seed, FE, ◌⊕◌, GE, generator, ◌⊛◌, keypair, decrypt}

  infixl 65 ◌⊕◌
  infixl 70 ◌⊛◌
  unfoldable pub set_private : Keys c → SharedKeys c → PartyPrivate c
  set_private key shared_key = record { u_i = key.u_i; x_i = shared_key.x_i; dk = key.dk }

  unfoldable pub y_i : PartyPrivate c → GE
  y_i self = generator ⊛ self.u_i

  unfoldable pub decrypt_cipher : PartyPrivate c → ℕ → ℕ
  decrypt_cipher self ciphertext = decrypt self.dk ciphertext

  unfoldable pub refresh_private_key : PartyPrivate c → FE → ℕ → Seed → Keys c
  refresh_private_key self factor number seed =
      let u = self.u_i ⊕ factor in
      let (ek, dk) = keypair seed in
      record { u_i = u; y_i = generator ⊛ u; dk = dk; ek = ek; party_index = number }

  unfoldable pub to_encrypted_segment :
      {Witness Segmented : Type 0}
      → (FE → ℕ → ℕ → GE → GE → Witness × Segmented)
      → PartyPrivate c
      → ℕ
      → ℕ
      → GE
      → GE
      → Witness × Segmented
  to_encrypted_segment to_encrypted_segments self segment_size num_of_segments pub_ke_y g =
      to_encrypted_segments self.u_i segment_size num_of_segments pub_ke_y g

  unfoldable pub update_private_key : PartyPrivate c → FE → FE → PartyPrivate c
  update_private_key self factor_u_i factor_x_i = record {
    u_i = self.u_i ⊕ factor_u_i;
    x_i = self.x_i ⊕ factor_x_i;
    dk = self.dk;
  }
