-- ===== src/Driver/PriceAccount.antt =====
-- src/pyth.rs: price accounts of the pyth program, over the instructions of pyth/src/instruction.rs.
pub mod Laws
use solarium.Base.{ℕ, List, [], ◌∷◌, some}
use solarium.Base.Int.{ℤ}
use solarium.Pyth.Crates.{Crates}
use solarium.Pyth.Instruction.{create_price_acc}
use solarium.Pyth.Instruction
use solarium.Driver.Host.{Host}
use solarium.Driver.Monad.{M, ◌>>=◌, ◌>>◌, pure, expect_ok}
use solarium.Driver.Sandbox.{send_signed_transaction_with_payers}
use solarium.Driver.Actor.{Actor, create_account}
use solarium.Driver.Actor

pub record PriceAccount (h : Host) : Type 0 where
  pub account : Actor h

module _ (c : Crates) (h : Host) where
  unfoldable pub new : h.Pubkey → Actor h → M h (PriceAccount h)
  new pyth payer = do
    acc ← Actor.new h
    create_account ← create_account h payer acc.pubkey 3312 pyth
    create_instr ← expect_ok (create_price_acc c h.solana pyth payer.pubkey acc.pubkey)
    send_signed_transaction_with_payers h (create_account ∷ create_instr ∷ []) (some payer.pubkey)
          (payer.keypair ∷ acc.keypair ∷ [])
        >> pure (record { account = acc })

  unfoldable pub publish_price : PriceAccount h → h.Pubkey → Actor h → ℤ → ℤ → M h (Unit {0})
  publish_price self pyth payer price decimal = do
    publish_instr ←
        expect_ok
          (Instruction.publish_price c h.solana pyth payer.pubkey self.account.pubkey price decimal)
    send_signed_transaction_with_payers h (publish_instr ∷ []) (some payer.pubkey)
        (payer.keypair ∷ [])
