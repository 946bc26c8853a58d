-- ===== src/Driver/Host.antt =====
-- What the driver takes from outside: the RPC client and the validator behind it, keys and
-- transactions of solana_sdk, temporary files, and the instructions of the system program and of
-- spl_token. `State` is all that a call may read or change out there.
use solarium.Base.{ℕ, Bool, List, Option, Outcome}
use solarium.Solana.{SolanaProgram, Instruction}

pub record Host : Type 1 where
  pub solana : SolanaProgram
  pub open solana use {Pubkey, ProgramError, AccountInfo, cell}
  pub State : Type 0
  pub Keypair : Type 0
  pub Keyfile : Type 0
  pub Hash : Type 0
  pub Signature : Type 0
  pub Transaction : Type 0
  pub ClientError : Type 0
  pub IoError : Type 0
  pub DexError : Type 0
  pub Account : Type 0
  pub TokenState : Type 0
  -- `std::io::ErrorKind::NotFound`
  pub not_found : IoError
  -- `Keypair::new`, `Keypair::pubkey`
  pub keypair_new : State → Keypair × State
  pub pubkey_of : Keypair → Pubkey
  -- `NamedTempFile::new_in` (`none` where it fails), `write_keypair_file` and `flush` (whether they
  -- succeed)
  pub tempfile : State → Option Keyfile × State
  pub write_keypair_file : Keypair → Keyfile → State → Bool × State
  pub flush : Keyfile → State → Bool × State
  -- `thread::sleep` of 10 milliseconds
  pub sleep : State → State
  -- `Transaction::new_signed_with_payer`, `none` where it panics, and `Transaction::new_with_payer`
  pub new_signed_with_payer :
      List (Instruction solana) → Option Pubkey → List Keypair → Hash → Option Transaction
  pub new_with_payer : List (Instruction solana) → Option Pubkey → Transaction
  -- `RpcClient`
  pub get_latest_blockhash : State → Outcome ClientError Hash × State
  pub send_and_confirm_transaction : Transaction → State → Outcome ClientError Signature × State
  pub request_airdrop : Pubkey → ℕ → State → Outcome ClientError Signature × State
  pub confirm_transaction : Signature → State → Outcome ClientError Bool × State
  pub get_minimum_balance_for_rent_exemption : ℕ → State → Outcome ClientError ℕ × State
  pub get_account : Pubkey → State → Outcome ClientError Account × State
  pub get_account_data : Pubkey → State → Outcome ClientError (List ℕ) × State
  -- `system_instruction::create_account`
  pub system_create_account : Pubkey → Pubkey → ℕ → ℕ → Pubkey → Instruction solana
  -- spl_token: its id, the lengths of its accounts, and its instructions
  pub token_id : Pubkey
  pub mint_len : ℕ
  pub account_len : ℕ
  -- `spl_token::state::Account::unpack_from_slice`
  pub unpack_token_state : List ℕ → Outcome ProgramError TokenState
  pub initialize_mint :
      Pubkey → Pubkey → Pubkey → Option Pubkey → ℕ → Outcome ProgramError (Instruction solana)
  pub initialize_account :
      Pubkey → Pubkey → Pubkey → Pubkey → Outcome ProgramError (Instruction solana)
  pub mint_to :
      Pubkey
      → Pubkey
      → Pubkey
      → Pubkey
      → List Pubkey
      → ℕ
      → Outcome ProgramError (Instruction solana)

-- src/errors.rs: `Error`.
pub data Error (h : Host) : Type 0 where
  solana_client_error : h.ClientError → Error h
  solana_program_error : h.ProgramError → Error h
  input_output_error : h.IoError → Error h
  serum_dex_error : h.DexError → Error h

-- A signed transaction that was handed to the client, and whether the client then said that it is
-- confirmed. The client may also answer with an error about a transaction that it has sent.
pub record Submission (h : Host) : Type 0 where
  pub instructions : List (Instruction h.solana)
  pub payer : Option h.Pubkey
  pub signers : List h.Keypair
  pub confirmed : Bool

-- What lies outside, with a record of the signed transactions that were handed to the client, last
-- one first. The program does not keep this record.
pub record World (h : Host) : Type 0 where
  pub state : h.State
  pub sent : List (Submission h)
