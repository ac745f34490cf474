-- ===== src/Lib.antt =====
-- Basin: a client of the ADM network of subnets, with which objects and accumulators are kept on a
-- chain. This library models the crates `provider`, `signer`, `sdk` with its examples,
-- and `cli`.
--
-- How the parts interact. A `Provider` sends queries and signed transactions to a node and objects
-- to an object API. A `Signer` owns a key and a sequence, and turns a request into a signed
-- transaction. A machine of the SDK (accumulator, object store) encodes the parameters of an
-- actor's method, has the signer make the transaction and the provider send it, and decodes what
-- comes back. The EVM manager moves funds between a subnet and its parent by calls of a gateway
-- contract. The command line makes a provider and a wallet of arguments and presets, runs one
-- operation of the SDK and prints what it gave.
--
-- The files. Prelude: names of the libraries, Boolean tests, lists, decimal numbers. Result: what
-- a fallible call gives, a value, an error, or a stop of the process (panic or exit). Run: code
-- that reads and writes a state and may fail; what was done before a failure stays done. Foreign:
-- the interface of the libraries that the crates call (fvm, fendermint, tendermint, ipc_api,
-- reqwest, ethers, rust_unixfs); Foreign/Evm has the part towards an Ethereum endpoint, and
-- Foreign/Host the terminal, the files and the random generator. All definitions take it as a
-- parameter, and Foreign/Laws, Foreign/Int256 and the records beside the theorems state the
-- documented behaviour on which a theorem relies.
--   provider/src/tx.rs, message.rs, response.rs: Provider/Tx, Provider/Message, Provider/Response.
--   provider/src/query.rs: Provider/Extract reads answers (`extract`, `extract_opt`,
--   `parse_deliver_tx`), Provider/Query has the methods of `QueryProvider` (`call` is `run_call`).
--   provider/src/json_rpc.rs: Provider/JsonRpc (`query`, `perform`, `upload`, `download`, `size`)
--   and Provider/Http (proxies and constructors). provider/src/provider.rs: Provider/Interface.
--   provider/src/util.rs: Provider/Util. Float has Rust's `f64`, through which
--   `parse_token_amount` goes: IEEE 754 binary64, counted in units of 2^-1074, with `str::parse`.
--   signer/src/key.rs, subnet.rs, signer.rs, wallet.rs, void.rs: Signer/Key, Signer/Subnet,
--   Signer/Interface, Signer/Wallet, Signer/Void.
--   sdk/src/machine.rs, machine/accumulator.rs, machine/objectstore.rs: Sdk/Machine,
--   Sdk/Accumulator, Sdk/ObjectStore (Content: `generate_cid` and the copying loop of `get`; Access:
--   `get` and `query`). sdk/src/ipc/manager.rs: Sdk/Fees, the estimate of fees, and
--   Sdk/Evm, `EvmManager` (`deposit` is `evm_deposit`, and so on) and `client_send`.
--   sdk/src/network.rs, ipc/subnet.rs: Sdk/Network. sdk/src/account.rs: Sdk/Account.
--   Sdk/Void puts the machines and the void signer together, and Sdk/Wallets the machines and a
--   wallet.
--   cli/src/main.rs: Cli, the functions that choose an argument or a preset (with those of
--   account.rs), Cli/Choice, the choices of a network and a broadcast mode, Cli/Command, what the
--   handlers share and `print_json`, and Cli/Main, `main`.
--   cli/src/account.rs, machine.rs, machine/accumulator.rs, machine/objectstore.rs: Cli/Account,
--   Cli/Machine, Cli/Accumulator, Cli/Objectstore; each has the arguments, the commands and the
--   handler, with one function per command.
--   sdk/examples: Examples/Account (`account_create`, `account_balance`, `account_deposit`),
--   Examples/Accumulator (`accumulator_push`) and Examples/Objectstore (`objectstore_add`).
-- Effects follows the calls that each operation makes in the world, up to `main`: Effects/Provider,
-- Effects/Sdk and Effects/Queries, Effects/Evm, Effects/Cli with one file for each group of commands,
-- and Effects/Success for the runs that succeed.
-- Tests fills the interface with a small world and applies each theorem there.
--
-- How code is rendered. An `async` function is a step on the state of the signer and of the world,
-- with the `.await?` in the code's order; the world stands for everything outside the process. The
-- mutex of a wallet puts concurrent `transaction` calls in some order, for which
-- Signer/Wallet/Nonces takes lists of requests; Signer/Wallet/Clones has the interleavings as a
-- step relation, and Signer/Wallet/Lifetime all that happens to a wallet as another. A u64 or
-- usize counter keeps its wrap-around, `% 2 ^ 64`, as in a release build; a debug build panics
-- there. A U256 is a natural number and what its arithmetic does out of range is left to the
-- interface. The loops are structural recursion on the reads, the chunks, the rewards and the
-- segments, so that no fuel is needed; only the number of binary digits of a float (Float,
-- `bits_up_to`) takes fuel, the number itself. The `HashMap` of the metadata is the list of its
-- entries, and a parameter makes it of the arguments. The text of a number's parse error is not
-- kept.
--
-- A handler of the command line works on the terminal beside the world: what it prints is a
-- Document, the contents of the `json!` value, whose rendering is a parameter.
--
-- Not modelled: progress output and logging; clap's parsing of the command line, from whose result
-- the model of the command line starts.
pub mod Prelude
pub mod Result
pub mod Run
pub mod Float
pub mod Foreign
pub mod Provider
pub mod Signer
pub mod Sdk
pub mod Cli
pub mod Examples
pub mod Effects
pub mod Tests
