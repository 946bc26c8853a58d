-- ===== src/Pyth/Processor.antt =====
-- pyth/src/processor.rs: the dispatch on the identifier, to the handlers of pyth/src/processor/. A
-- run that returns an error or panics has no store: the runtime discards what it wrote.
pub mod CreatePriceAccount
pub mod PublishPrice
pub mod Dispatch
pub mod Effects
pub mod History
pub mod Written
pub mod Invariant
pub mod Errors
pub mod LastPrice
use solarium.Base.{ℕ, List, [], ◌∷◌, Outcome, ok, err, unwrap, map_err, ◌>>=◌, Option}
use solarium.Pyth.Types.{Result, PythError, PythInstructionId, error_discriminant}
use solarium.Pyth.Types.{CreateMappingAccountInstruction, CreateProductAccountInstruction}
use solarium.Pyth.Crates.{Crates}
use solarium.Pyth.Instruction.{
  create_price_account, create_product_account, create_mapping_account, unpack_publish,
}
use solarium.Solana.{SolanaProgram, Store}
use CreatePriceAccount.{PythClient}

module _ (s : SolanaProgram) where
  -- `impl From<PythError> for ProgramError`
  abbrev pub into_program_error : PythError → s.ProgramError
  into_program_error e = s.custom (error_discriminant e)

  -- pyth/src/processor/create_product_account.rs
  pub handle_product :
      s.Pubkey
      → List s.AccountInfo
      → CreateProductAccountInstruction
      → Store
      → Outcome s.ProgramError Store
  handle_product program_id accounts instr store = ok store

  -- pyth/src/processor/create_mapping_account.rs
  pub handle_mapping :
      s.Pubkey
      → List s.AccountInfo
      → CreateMappingAccountInstruction
      → Store
      → Outcome s.ProgramError Store
  handle_mapping program_id accounts instr store = ok store

module _ (c : Crates) (s : SolanaProgram) (client : PythClient) (clock : Option ℕ) where
  dispatch :
      s.Pubkey
      → List s.AccountInfo
      → PythInstructionId
      → List ℕ
      → Store
      → Outcome s.ProgramError Store
  unfolding handle_product handle_mapping
  dispatch program_id accounts PythInstructionId.create_price_account instruction_data store = do
    instr ← map_err (into_program_error s) (create_price_account.unpack_from_slice instruction_data)
    CreatePriceAccount.handle s client program_id accounts instr store
  dispatch program_id accounts PythInstructionId.publish_price instruction_data store = do
    instr ← map_err (into_program_error s) (unpack_publish c instruction_data)
    PublishPrice.handle c s (into_program_error s) clock program_id accounts instr store
  dispatch program_id accounts PythInstructionId.create_product_account instruction_data store = do
    instr ←
        map_err (into_program_error s) (create_product_account.unpack_from_slice instruction_data)
    handle_product s program_id accounts instr store
  dispatch program_id accounts PythInstructionId.create_mapping_account instruction_data store = do
    instr ←
        map_err (into_program_error s) (create_mapping_account.unpack_from_slice instruction_data)
    handle_mapping s program_id accounts instr store

  unfoldable pub process :
      s.Pubkey → List s.AccountInfo → List ℕ → Store → Outcome s.ProgramError Store
  unfolding dispatch
  process program_id accounts [] store =
      err (into_program_error s PythError.could_not_decode_instruction)
  process program_id accounts (first ∷ instruction_data) store = do
    instruction_id ← unwrap (c.id.try_from_primitive first)
    dispatch program_id accounts instruction_id instruction_data store
