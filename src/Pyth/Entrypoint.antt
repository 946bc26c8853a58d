-- ===== src/Pyth/Entrypoint.antt =====
-- pyth/src/entrypoint.rs. The macro `entrypoint!`, which turns the runtime's input into these
-- arguments, is not modelled.
use solarium.Base.{ℕ, List, Option, Outcome}
use solarium.Pyth.Crates.{Crates}
use solarium.Pyth.Processor.{process}
use solarium.Pyth.Processor.CreatePriceAccount.{PythClient}
use solarium.Solana.{SolanaProgram, Store}

unfoldable pub process_instruction :
    Crates
    → (s : SolanaProgram) → PythClient
    → Option ℕ
    → s.Pubkey
    → List s.AccountInfo
    → List ℕ
    → Store
    → Outcome s.ProgramError Store
process_instruction c s client clock program_id accounts instruction_data store =
    process c s client clock program_id accounts instruction_data store
