-- ===== src/Driver/Serum.antt =====
-- src/serum.rs. Here: what it takes from serum_dex and from `Pubkey::create_program_address`.
pub mod Sizes
pub mod Vault
pub mod Market
pub mod Participant
pub mod Orders
pub mod Guards
pub mod Calls
use solarium.Base.{ℕ, List, Option, Outcome}
use solarium.Solana.{Instruction}
use solarium.Driver.Host.{Host}

pub record SerumDex (h : Host) : Type 1 where
  pub Side : Type 0
  pub OrderType : Type 0
  pub SelfTradeBehavior : Type 0
  -- `DexErrorCode`, as `DexError`
  pub request_queue_empty : h.DexError
  pub event_queue_too_small : h.DexError
  pub slab_too_small : h.DexError
  -- Lengths and sizes
  pub account_head_padding : ℕ
  pub account_tail_padding : ℕ
  pub request_queue_header : ℕ
  pub request : ℕ
  pub event_queue_header : ℕ
  pub event : ℕ
  pub any_node : ℕ
  pub market_state_v2 : ℕ
  pub market_state : ℕ
  pub open_orders : ℕ
  -- `Pubkey::as_ref`, `Pubkey::create_program_address`, the ids of spl_token and of the rent sysvar
  pub as_ref : h.Pubkey → List ℕ
  pub create_program_address : List (List ℕ) → h.Pubkey → Option h.Pubkey
  pub rent_id : h.Pubkey
  pub gen_vault_signer_key : ℕ → h.Pubkey → h.Pubkey → Outcome h.ProgramError h.Pubkey
  -- Instructions, with the arguments in the order of serum_dex
  pub initialize_market :
      h.Pubkey
      → h.Pubkey
      → h.Pubkey
      → h.Pubkey
      → h.Pubkey
      → h.Pubkey
      → Option h.Pubkey
      → Option h.Pubkey
      → Option h.Pubkey
      → h.Pubkey
      → h.Pubkey
      → h.Pubkey
      → h.Pubkey
      → ℕ
      → ℕ
      → ℕ
      → ℕ
      → Outcome h.DexError (Instruction h.solana)
  pub new_order :
      h.Pubkey
      → h.Pubkey
      → h.Pubkey
      → h.Pubkey
      → h.Pubkey
      → h.Pubkey
      → h.Pubkey
      → h.Pubkey
      → h.Pubkey
      → h.Pubkey
      → h.Pubkey
      → h.Pubkey
      → Option h.Pubkey
      → h.Pubkey
      → Side
      → ℕ
      → ℕ
      → OrderType
      → ℕ
      → SelfTradeBehavior
      → ℕ
      → ℕ
      → Outcome h.DexError (Instruction h.solana)
  pub consume_events :
      h.Pubkey
      → List h.Pubkey
      → h.Pubkey
      → h.Pubkey
      → h.Pubkey
      → h.Pubkey
      → ℕ
      → Outcome h.DexError (Instruction h.solana)
  pub settle_funds :
      h.Pubkey
      → h.Pubkey
      → h.Pubkey
      → h.Pubkey
      → h.Pubkey
      → h.Pubkey
      → h.Pubkey
      → h.Pubkey
      → h.Pubkey
      → Option h.Pubkey
      → h.Pubkey
      → Outcome h.DexError (Instruction h.solana)
  pub cancel_order :
      h.Pubkey
      → h.Pubkey
      → h.Pubkey
      → h.Pubkey
      → h.Pubkey
      → h.Pubkey
      → h.Pubkey
      → Side
      → ℕ
      → Outcome h.DexError (Instruction h.solana)
  pub init_open_orders :
      h.Pubkey
      → h.Pubkey
      → h.Pubkey
      → h.Pubkey
      → Option h.Pubkey
      → Outcome h.DexError (Instruction h.solana)
