-- ===== src/Pyth.antt =====
-- The simulated Pyth program (pyth/src).
pub mod Bytes
pub mod Types
pub mod Crates
pub mod Pack
pub mod State
pub mod Instruction
pub mod Processor
pub mod ErrorCodes
pub mod Entrypoint
pub mod Tests
