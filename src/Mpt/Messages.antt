-- ===== src/Mpt/Messages.antt =====
-- The structs of vDexNode/mpt/src/utils and the crate's error type, vDexNode/mpt/src/lib.rs.
use vdexnode.Common.{ℕ}
use vdexnode.Mpt.Crypto.{Crypto}

pub data Error : Type 0 where
  invalid_key invalid_ss invalid_com invalid_sig : Error

-- SECURITY, the bits of a sampled blind factor
abbrev pub security : ℕ
security = 256

pub record Parameters : Type 0 where
  pub threshold : ℕ
  pub share_count : ℕ

module _ (c : Crypto) where
  open c use {FE, GE, DecryptionKey, EncryptionKey, NiCorrectKeyProof, DLogProof}

  pub record Keys : Type 0 where
    pub u_i : FE
    pub y_i : GE
    pub dk : DecryptionKey
    pub ek : EncryptionKey
    pub party_index : ℕ

  pub record PartyPrivate : Type 0 where
    pub u_i : FE
    pub x_i : FE
    pub dk : DecryptionKey

  pub record KeyGenBroadcastMessage1 : Type 0 where
    pub e : EncryptionKey
    pub commitment : ℕ
    pub correct_key_proof : NiCorrectKeyProof

  pub record KeyGenDecommitMessage1 : Type 0 where
    pub blind_factor : ℕ
    pub y_i : GE

  pub record SharedKeys : Type 0 where
    pub y : GE
    pub x_i : FE

  pub record SignKeys : Type 0 where
    pub w_i : FE
    pub g_w_i : GE
    pub k_i : FE
    pub gamma_i : FE
    pub g_gamma_i : GE

  pub record SignDecommitPhase1 : Type 0 where
    pub blind_factor : ℕ
    pub g_gamma_i : GE

  pub record LocalSignature : Type 0 where
    pub l_i : FE
    pub rho_i : FE
    pub r_point : GE
    pub s_i : FE
    pub m : ℕ
    pub y : GE

  pub record Phase5ADecom1 : Type 0 where
    pub v_i : GE
    pub a_i : GE
    pub b_i : GE
    pub blind_factor : ℕ

  pub record Phase5DDecom2 : Type 0 where
    pub u_i : GE
    pub t_i : GE
    pub blind_factor : ℕ

  pub record Signature : Type 0 where
    pub r : FE
    pub s : FE

  pub record MessageB : Type 0 where
    pub c_b : ℕ
    pub b_proof : DLogProof
    pub beta_tag_proof : DLogProof

-- The three commitment messages hold one number each.
pub record SignBroadcastPhase1 : Type 0 where
  pub commitment : ℕ

pub record Phase5Com1 : Type 0 where
  pub commitment : ℕ

pub record Phase5Com2 : Type 0 where
  pub commitment : ℕ

pub record MessageA : Type 0 where
  pub c_a : ℕ
