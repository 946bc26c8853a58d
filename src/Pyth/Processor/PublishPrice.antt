-- ===== src/Pyth/Processor/PublishPrice.antt =====
-- pyth/src/processor/publish_price.rs
pub mod Laws
use solarium.Base.{ℕ, List, Option, Outcome, ok, unwrap, map_err, ◌>>=◌}
use solarium.Base.Int.{ℤ}
use solarium.Pyth.Types.{PythError, Price, PublishPriceInstruction}
use solarium.Pyth.Crates.{Crates}
use solarium.Pyth.State.Price.{unpack_from_slice, pack_into_slice}
use solarium.Solana.{SolanaProgram, Store, update}

-- The three fields that a publication sets.
abbrev pub publish : Price → ℤ → ℤ → ℕ → Price
publish p price decimal slot = record p {
  agg = record p.agg { price = price; pub_slot = slot };
  expo = decimal;
}

module _ (c : Crates) (s : SolanaProgram) (into : PythError → s.ProgramError)
    (clock : Option ℕ) where
  -- `clock` is the slot of `Clock::get()`, or `none` where that fails.
  unfoldable pub handle :
      s.Pubkey → List s.AccountInfo → PublishPriceInstruction → Store → Outcome s.ProgramError Store
  unfolding unpack_from_slice pack_into_slice
  handle program_id accounts pub_instr store = do
    (payer_acct, ai_iter) ← s.next_account_info accounts
    (acct_pkey, ai_iter) ← s.next_account_info ai_iter
    let price = pub_instr.price
    let decimal = pub_instr.decimal
    price_struct ← map_err into (unpack_from_slice c (store (s.cell acct_pkey)))
    slot ← unwrap clock
    let price_struct = publish price_struct price decimal slot
    buffer ← map_err into (pack_into_slice c price_struct (store (s.cell acct_pkey)))
    ok (update store (s.cell acct_pkey) buffer)
