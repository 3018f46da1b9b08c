-- ===== src/Mpt/Sign.antt =====
-- Parts of vDexNode/mpt/src/bin/sign.rs that compute between the rounds.
pub mod Loops
pub mod Multiply
pub mod Output
pub mod Main
pub mod Valid
pub mod Signers
pub mod Answers
pub mod Products
pub mod Nonces
pub mod Shares
pub mod Local
pub mod Generated
pub mod Agreement
pub mod Complete
pub mod Run
pub mod Session
use vdexnode.Common.{ℕ, zero, suc, ◌+◌, ◌-◌, ◌%◌, ◌^◌, List, [], ◌∷◌}
use vdexnode.Common.Outcome.{Outcome, ok, panic, ◌>>=◌}
use vdexnode.Mpt.Crypto.{Crypto}
use vdexnode.Mpt.Messages.{SignDecommitPhase1}

-- `(number - 1) as usize` for a u32, as a release build computes it.
unfoldable pub position : ℕ → ℕ
position number = (number + (2 ^ 32 - 1)) % 2 ^ 32

-- `Vec::remove`: the element and the rest.
unfoldable pub remove : {A : Type 0} → List A → ℕ → Outcome ⊥ (A × List A)
remove [] k = panic
remove (x ∷ xs) zero = ok (x, xs)
remove (x ∷ xs) (suc k) = do rest ← remove xs k; ok (rest.0, x ∷ rest.1)

module _ (c : Crypto) where
  open c use {FE, GE, ◌⊞◌, ◌⊛◌}

  infixl 65 ◌⊞◌
  infixl 70 ◌⊛◌
  -- `let R = R + decomm_i.g_gamma_i * &delta_inv`
  unfoldable pub nonce_point : GE → SignDecommitPhase1 c → FE → GE
  nonce_point r_others decomm_i delta_inv = r_others ⊞ (decomm_i.g_gamma_i ⊛ delta_inv)
