-- ===== src/Sdk.antt =====
-- sdk/src: machines on the chain, the networks, and funds.
pub mod Machine
pub mod Accumulator
pub mod Fees
pub mod ObjectStore
pub mod Network
pub mod Account
pub mod Void
pub mod Wallets
pub mod Evm
