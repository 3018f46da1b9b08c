-- ===== src/Tests.antt =====
-- Concrete runs: a small curve, and the theorems at inputs that meet their hypotheses.
mod Toy
mod KeyGeneration
mod Signing
mod Programs
mod SignRun
mod KeyFiles
mod Signatures
mod Session
mod Transport
mod ToyNetwork
mod Wallet
mod Server
mod Service
mod Sessions
mod SigningService
mod Startup
mod ChatLoop
mod Locations
