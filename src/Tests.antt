-- ===== src/Tests.antt =====
-- A small world in which the theorems are applied: the libraries' interfaces filled by concrete
-- functions, and one example of each theorem.
mod Encodings
mod Toy
mod OfProvider
mod OfSigner
mod OfSdk
mod OfFees
mod OfCli
mod OfEvm
mod OfCommands
mod OfExamples
