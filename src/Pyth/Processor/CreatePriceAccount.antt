-- ===== src/Pyth/Processor/CreatePriceAccount.antt =====
-- pyth/src/processor/create_price_account.rs
pub mod Loops
pub mod Initial
pub mod Laws
pub mod Short
use solarium.Base.{ℕ, zero, suc, ◌+◌, ◌-◌, List, Outcome, ok, ◌>>=◌}
use solarium.Base.Int.{pos}
use solarium.Pyth.Bytes.{to_le_bytes, signed_to_le_bytes, index, set_index}
use solarium.Pyth.Types.{CreatePriceAccountInstruction}
use solarium.Solana.{SolanaProgram, Store, update}

-- The constants of the crate pyth_client: `MAGIC`, `VERSION_2`, and `AccountType::Price`,
-- `PriceStatus::Trading` and `CorpAction::NoCorpAct` as `u32`.
pub record PythClient : Type 0 where
  pub magic : ℕ
  pub version_2 : ℕ
  pub account_type_price : ℕ
  pub status_trading : ℕ
  pub no_corp_act : ℕ

module _ {ℓ} {E : Type ℓ} where
  -- `for x in start..end { data[x] = bytes[x - start]; }` from `x` on, with the rounds left.
  pub store_bytes : ℕ → ℕ → ℕ → List ℕ → List ℕ → Outcome E (List ℕ)
  unfolding index set_index
  store_bytes zero x start bytes buffer = ok buffer
  store_bytes (suc n) x start bytes buffer = do
    b ← index bytes (x - start)
    buffer ← set_index buffer x b
    store_bytes n (x + 1) start bytes buffer

  -- `for x in start..end { data[x] = 0; }`
  pub store_zeros : ℕ → ℕ → List ℕ → Outcome E (List ℕ)
  unfolding set_index
  store_zeros zero x buffer = ok buffer
  store_zeros (suc n) x buffer = do buffer ← set_index buffer x 0; store_zeros n (x + 1) buffer

module _ (client : PythClient) where
  -- The writes to `data`, in order.
  pub initialize {ℓ} : {E : Type ℓ} → List ℕ → Outcome E (List ℕ)
  initialize buffer = do
    buffer ← store_bytes 4 0 0 (to_le_bytes 4 client.magic) buffer
    buffer ← store_bytes 4 4 4 (to_le_bytes 4 client.version_2) buffer
    buffer ← store_bytes 4 8 8 (to_le_bytes 4 client.account_type_price) buffer
    buffer ← store_zeros 3300 12 buffer
    let pr = pos 0
    let conf : ℕ = 100
    let status = client.status_trading
    let corp_act = client.no_corp_act
    let pub_slot : ℕ = 0
    buffer ← store_bytes 8 208 208 (signed_to_le_bytes 8 pr) buffer
    buffer ← store_bytes 8 216 216 (to_le_bytes 8 conf) buffer
    buffer ← store_bytes 4 224 224 (to_le_bytes 4 status) buffer
    buffer ← store_bytes 4 228 228 (to_le_bytes 4 corp_act) buffer
    store_bytes 8 232 232 (to_le_bytes 8 pub_slot) buffer

module _ (s : SolanaProgram) (client : PythClient) where
  unfoldable pub handle :
      s.Pubkey
      → List s.AccountInfo
      → CreatePriceAccountInstruction
      → Store
      → Outcome s.ProgramError Store
  handle program_id accounts initialize_instr store = do
    (payer_acct, ai_iter) ← s.next_account_info accounts
    (acct_pkey, ai_iter) ← s.next_account_info ai_iter
    buffer ← initialize client (store (s.cell acct_pkey))
    ok (update store (s.cell acct_pkey) buffer)
