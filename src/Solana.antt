-- ===== src/Solana.antt =====
-- What the programs take from the crates solana_program and solana_sdk. Keys, account metas, errors
-- and account handles are abstract. An `AccountInfo` refers to the buffer of its account
-- (`Rc<RefCell<&mut [u8]>>`), and two handles of one account refer to the same buffer: `cell` names
-- the buffer, and the buffers stand in a store.
use solarium.Base.{ℕ, Bool, List, [], ◌∷◌, ◌≡◌, Outcome, ok, err, ◌==◌, if◌then◌else◌}

pub record SolanaProgram : Type 1 where
  pub Pubkey : Type 0
  pub AccountMeta : Type 0
  pub ProgramError : Type 0
  pub AccountInfo : Type 0
  -- `AccountMeta::new_readonly` and `AccountMeta::new`
  pub new_readonly : Pubkey → Bool → AccountMeta
  pub new_writable : Pubkey → Bool → AccountMeta
  -- `ProgramError::Custom` and `ProgramError::NotEnoughAccountKeys`
  pub custom : ℕ → ProgramError
  pub not_enough_account_keys : ProgramError
  pub next_account_info : List AccountInfo → Outcome ProgramError (AccountInfo × List AccountInfo)
  pub cell : AccountInfo → ℕ

-- `next_account_info` takes the first account that is left, and fails when there is none.
pub record SolanaProgramLaws (s : SolanaProgram) : Type 0 where
  pub next_cons :
      (a : s.AccountInfo) (rest : List s.AccountInfo)
      → s.next_account_info (a ∷ rest) ≡ ok (a, rest)
  pub next_nil : s.next_account_info [] ≡ err s.not_enough_account_keys

-- `solana_program::instruction::Instruction`; its field `data` is `payload` here
pub record Instruction (s : SolanaProgram) : Type 0 where
  pub program_id : s.Pubkey
  pub accounts : List s.AccountMeta
  pub payload : List ℕ

-- The buffers of the accounts, by name.
abbrev pub Store : Type 0
Store = ℕ → List ℕ

abbrev pub update : Store → ℕ → List ℕ → Store
update store cell buffer other = if cell == other then buffer else store other
