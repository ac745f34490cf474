-- ===== src/Cli/Choice.antt =====
-- cli/src/main.rs: the choices of a network and of a broadcast mode among the arguments, which stand
-- for those of the SDK.
use basin.Provider.Tx
use basin.Sdk.Network as SdkNetwork

pub data Network : Type 0 where
  mainnet testnet localnet devnet : Network

-- `Network::get`
abbrev pub get_network : Network → SdkNetwork.Network
get_network mainnet = SdkNetwork.mainnet
get_network testnet = SdkNetwork.testnet
get_network localnet = SdkNetwork.localnet
get_network devnet = SdkNetwork.devnet

pub data BroadcastMode : Type 0 where
  async sync commit : BroadcastMode

-- `BroadcastMode::get`
abbrev pub get_broadcast_mode : BroadcastMode → Tx.BroadcastMode
get_broadcast_mode async = Tx.async
get_broadcast_mode sync = Tx.sync
get_broadcast_mode commit = Tx.commit
