-- ===== src/Driver.antt =====
-- The test driver (src): actors, tokens, price accounts and markets, over a client of a validator.
pub mod Text
pub mod Host
pub mod Machine
pub mod Monad
pub mod Sandbox
pub mod Sends
pub mod Delivery
pub mod Submits
pub mod Returns
pub mod Actor
pub mod Token
pub mod Calls
pub mod PriceAccount
pub mod Serum
pub mod CreateSerumMarket
mod Tests
