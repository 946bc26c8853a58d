-- ===== src/Driver/PriceAccount/Laws.antt =====
-- The transactions of src/pyth.rs, and what the price program does with them.
use solarium.Base.{
  ℕ, ◌≡◌, refl, sym, ap, ◌∙◌, List, [], ◌∷◌, ◌++◌, All, Option, some, true, false, panic, ok,
  ok-injective,
}
use solarium.Base.Int.{ℤ}
use solarium.Pyth.Bytes.{IsByte, IsSigned, IsUnsigned, zeros}
use solarium.Pyth.Types.{Price}
use solarium.Pyth.Crates.{Crates, CratesLaws}
use solarium.Pyth.State.Price.{unpack_from_slice, layout}
use solarium.Pyth.Instruction.Laws.{publish_price_lem}
use solarium.Pyth.Processor.{process}
use solarium.Pyth.Processor.CreatePriceAccount.{PythClient}
use solarium.Pyth.Processor.CreatePriceAccount.Initial.{initial}
use solarium.Pyth.Processor.PublishPrice.Laws.{published}
use solarium.Pyth.Processor.Dispatch.{process-publish_price}
use solarium.Solana.{SolanaProgramLaws, Instruction, Store, update}
use solarium.Driver.Host.{Host, Submission}
use solarium.Driver.Delivery.Operates.{Operates, unwrapped-Operates}
use solarium.Pyth.Instruction as PythInstruction
use solarium.Driver.Sends.{Sends, Sends-expect_ok, submission, send_signed_last-Sends}
use solarium.Driver.Actor.{Actor}
use solarium.Driver.PriceAccount.{PriceAccount, publish_price}

module _ (c : Crates) (L : CratesLaws c) (h : Host) (S : SolanaProgramLaws h.solana)
    (client : PythClient) (pyth : h.Pubkey) (payer : Actor h) (payer_acct acct : h.AccountInfo)
    (rest : List h.AccountInfo) (store : Store) where
  -- The transaction that creates a price account, and its second instruction as the price program
  -- processes it.
  pub record PriceCreation (clock : Option ℕ) (a : PriceAccount h) (t : Submission h) : Type 0 where
    pub rent : ℕ
    pub create : Instruction h.solana
    pub submission_lem :
        t
        ≡ submission h
            (h.system_create_account payer.pubkey a.account.pubkey rent 3312 pyth ∷ create ∷ [])
            (some payer.pubkey)
            (payer.keypair ∷ a.account.keypair ∷ [])
    pub accounts_lem :
        create.accounts
        ≡ h.solana.new_readonly payer.pubkey true
          ∷ h.solana.new_writable a.account.pubkey false
          ∷ []
    pub process_lem :
        process c h.solana client clock pyth (payer_acct ∷ acct ∷ rest) create.payload store
        ≡ ok (update store (h.cell acct) (layout (initial client) ++ zeros 3072))

  -- The transaction that publishes a price, as the price program processes it in slot `slot`.
  pub record Publishing (self : PriceAccount h) (price decimal : ℤ) (slot : ℕ) (p : Price)
      (done : Unit {0}) (t : Submission h) : Type 0 where
    pub instruction : Instruction h.solana
    pub submission_lem :
        t ≡ submission h (instruction ∷ []) (some payer.pubkey) (payer.keypair ∷ [])
    pub accounts_lem :
        instruction.accounts
        ≡ h.solana.new_readonly payer.pubkey true
          ∷ h.solana.new_writable self.account.pubkey false
          ∷ []
    pub process_lem :
        process c h.solana client
          (some slot)
          pyth
          (payer_acct ∷ acct ∷ rest)
          instruction.payload
          store
        ≡ ok (
            update store (h.cell acct) (
              published
                (record p { agg = record p.agg { price = price; pub_slot = slot }; expo = decimal })
                (store (h.cell acct))))

  -- For a price of 64 bits and an exponent of 32: `PriceAccount::publish_price` ends as the client's
  -- answers say. Where there is no block hash it returns the client's error, where the transaction
  -- cannot be signed it panics, and else it hands one transaction to the client; it succeeds where the
  -- client confirms it and returns the client's error where not. Whatever happens, it hands over no
  -- other transaction. The payer pays and signs alone. The only instruction names the payer and the
  -- price account; on an account of bytes that reads as the price `p`, in a slot of 64 bits, the
  -- program sets price, exponent and slot in it.
  pub publish_price-Sends :
      (self : PriceAccount h) (price decimal : ℤ) (slot : ℕ) (p : Price)
      → IsSigned 8 price
      → IsSigned 4 decimal
      → IsUnsigned 8 slot
      → All IsByte (store (h.cell acct))
      → unpack_from_slice c (store (h.cell acct)) ≡ ok p
      → Sends h
          (Publishing self price decimal slot p)
          (publish_price c h self pyth payer price decimal)
        × Operates h
            (PythInstruction.publish_price c h.solana pyth payer.pubkey self.account.pubkey price
              decimal)
            payer.pubkey
            (payer.keypair ∷ [])
            (λ e. panic)
            (publish_price c h self pyth payer price decimal)
  unfolding publish_price
  publish_price-Sends self price decimal slot p hv hd hs b r = (
    Sends-expect_ok h (Publishing self price decimal slot p) _ _ λ instruction e.
        send_signed_last-Sends h _ _ _ (Publishing self price decimal slot p) (record {
          instruction = instruction;
          submission_lem = refl;
          accounts_lem =
              ap (λ (i : Instruction h.solana). i.accounts)
                (sym (
                  ok-injective _ instruction (
                    sym (
                      publish_price_lem c L h.solana pyth payer.pubkey self.account.pubkey price
                        decimal hv hd)
                    ∙ e)));
          process_lem =
              process-publish_price c L h.solana S client pyth payer_acct acct rest store
                payer.pubkey self.account.pubkey price decimal slot instruction p hv hd hs b r e;
        }),
    unwrapped-Operates h _ _ _,
  )
