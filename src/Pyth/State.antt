-- ===== src/Pyth/State.antt =====
-- pyth/src/state.rs: the implementations of `PythPack` for the account structs, one child each.
pub mod NeverErr
pub mod PriceInfo
pub mod Ema
pub mod PriceComp
pub mod Price
