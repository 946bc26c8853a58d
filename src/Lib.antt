-- ===== src/Lib.antt =====
-- Solarium is a test driver for Solana with a simulated Pyth price program.
--
-- The driver is the crate in src/. It keeps keypairs (src/actor.rs), builds instructions for mints and
-- token accounts (src/token.rs), price accounts (src/pyth.rs) and serum markets (src/serum.rs), and
-- hands them as transactions to a validator, which it starts as a process (src/sandbox.rs). Programs
-- are deployed by command line tools (src/actor.rs). The command src/bin/create_serum_market.rs uses
-- all of these to set up a market with four participants, and writes their keys to a file.
--
-- The price program is the crate in pyth/. A client builds an instruction (pyth/src/instruction.rs),
-- whose payload is an identifier and the packed fields (pyth/src/pack.rs). The runtime hands the
-- payload and the accounts to `process` (pyth/src/processor.rs), which goes by the identifier to a
-- handler in pyth/src/processor/ (the runtime calls it through pyth/src/entrypoint.rs); the handlers
-- write the account's buffer, whose layout is that of the structs of pyth/src/state.rs.
--
-- Base and its children hold what all modules share. `Outcome` is Rust's `Result` with two more
-- ways to end: a panic, and a loop that has used up its rounds.
-- Solana is what the program takes from solana_program: keys, account metas, errors and account
-- handles are abstract; the buffers of the accounts stand in a store, by the name of their cell.
-- Pyth/Bytes models the integers as bytes, slices and indices, Pyth/Types the structs and enums.
-- Pyth/Crates is what the program takes from arrayref and num_enum, with their documented laws;
-- Pyth/Crates/Documented meets them.
-- Pyth/Pack models the traits, Pyth/State/* the implementations for the account structs,
-- Pyth/Instruction the instructions and their builders, Pyth/Processor the dispatch and the handlers,
-- Pyth/Entrypoint the entry point, and Pyth/ErrorCodes the checks that report their line
-- (pyth/src/error.rs). Pyth/Processor/Invariant has the program over its life, as a step relation.
-- An integer of `w` bytes is a number below 256 ^ w; the predicates named `Fits` say so for each field.
-- Loops of the price program run over lists or over a count of rounds that the source fixes, and need
-- no fuel.
--
-- Driver/Host is what the driver takes from outside: the RPC client and the validator, keys,
-- transactions, temporary files, and the instructions of the system program and of spl_token;
-- Driver/Serum has what it takes from serum_dex. A call of the driver is a function of the `World`
-- outside (Driver/Monad), which also records the signed transactions that are handed to the client, and
-- with each whether the client confirmed it; a submitted transaction is one that is recorded so. The
-- argument `sandbox` is that world, so one sandbox is used at a time. Driver/Sandbox, Driver/Actor,
-- Driver/Token, Driver/PriceAccount and Driver/Serum/* model the files above, function by function;
-- Driver/Sends and Driver/Submits have the rules by which the transactions of a call are found from
-- its shape, Driver/Submits/Worlds those that also keep the worlds between the calls, and
-- Driver/Delivery goes through the answers that the client can give to one transaction.
-- Driver/Returns has the rules by which a call is seen to return, and Driver/Calls,
-- Driver/Serum/Calls and Driver/Serum/Market/Returns go through the calls by them.
-- Driver/Machine is what the driver takes from the machine that it runs on: paths, temporary
-- directories, unused ports and processes; Driver/Text has texts as lists of codes, and the printing of
-- numbers. Driver/Sandbox/Start models the start and the end of the validator, Driver/Actor/Deploy the
-- deployments, and Driver/CreateSerumMarket the command, with the files it writes as an interface.
-- The loops of `airdrop`, `create_vault_address` and `Sandbox::new` take a number of rounds and end as
-- `spin` when these are used up: any number above the denials of the client, above the nonce that is
-- found, and above the failures of a validator that is not up yet, are enough; 2 ^ 64 always are for
-- the second. The command ends in `loop {}`, which is `spin` too.
-- Sizes are `usize` of 64 bits, and an overflow is a panic, as in the dev profile.
--
-- Not modelled: what a failing call leaves in a buffer (the runtime discards it), the macro
-- `entrypoint!`, log messages and what is printed, the parsing of the command line, the text of the
-- JSON file (serde_json is a parameter), the destructors of temporary files and directories, the
-- accessors of the driver's structs, which are the fields of the records here, and the enum
-- `BaseOrQuote` of src/token.rs, which nothing uses.
pub mod Base
pub mod Solana
pub mod Pyth
pub mod Driver
