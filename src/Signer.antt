-- ===== src/Signer.antt =====
-- signer/src: signers of chain messages.
pub mod Key
pub mod Subnet
pub mod Interface
pub mod Wallet
pub mod Void
