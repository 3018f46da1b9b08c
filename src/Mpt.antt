-- ===== src/Mpt.antt =====
-- The threshold-signing crate, vDexNode/mpt.
pub mod Crypto
pub mod Rounds
pub mod Sums
pub mod Parties
pub mod Algebra
pub mod Messages
pub mod KeyGen
pub mod PartyPrivate
pub mod SignKeys
pub mod LocalSignature
pub mod MtA
pub mod Sign
pub mod Transport
pub mod Vectors
pub mod Program
pub mod Sealing
pub mod GenerateKey
