-- ===== src/Provider.antt =====
-- provider/src: the provider crate, which talks to a node and to the object API.
pub mod Tx
pub mod Message
pub mod Response
pub mod Extract
pub mod Query
pub mod Interface
pub mod JsonRpc
pub mod Http
pub mod Util
