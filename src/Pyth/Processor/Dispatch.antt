-- ===== src/Pyth/Processor/Dispatch.antt =====
-- `process` on the payloads that pyth/src/instruction.rs builds, and on every other input.
use solarium.Base.{
  ℕ, ◌≤◌, ◌<◌, ◌≡◌, sym, ap, ◌∙◌, List, [], ◌∷◌, ◌++◌, length, drop, All, Option, some, ok, panic,
  ok-injective,
}
use solarium.Base.Int.{ℤ}
use solarium.Pyth.Bytes.{IsByte, IsSigned, IsUnsigned, zeros}
use solarium.Pyth.Types.{
  PythInstructionId, Price, PublishPriceInstruction, PublishPriceFits, id_discriminant,
}
use solarium.Pyth.Crates.{Crates, CratesLaws}
use solarium.Pyth.Pack.Laws.{unpack-layout_whole}
use solarium.Pyth.State.Price.{unpack_from_slice, layout}
use solarium.Pyth.Instruction.{create_price_acc, publish_price, publish_layout}
use solarium.Pyth.Instruction.Laws.{create_price_acc_lem, publish_price_lem, publish_price-PackLaws}
use solarium.Pyth.Processor.{into_program_error, dispatch, process}
use solarium.Pyth.Processor.CreatePriceAccount.{PythClient, initialize}
use solarium.Pyth.Processor.CreatePriceAccount.Initial.{PythClientLaws, initial}
use solarium.Pyth.Processor.CreatePriceAccount.Laws.{initialize_lem}
use solarium.Pyth.Processor.CreatePriceAccount.Short.{initialize_short}
use solarium.Pyth.Processor.CreatePriceAccount
use solarium.Pyth.Processor.PublishPrice.Laws.{published, handle_publish_lem}
use solarium.Solana.{SolanaProgram, SolanaProgramLaws, Instruction, Store, update}

module _ (c : Crates) (L : CratesLaws c) (s : SolanaProgram) (S : SolanaProgramLaws s)
    (client : PythClient) (clock : Option ℕ) (program_id : s.Pubkey) where
  process_id :
      (accounts : List s.AccountInfo) (id : PythInstructionId) (payload : List ℕ) (store : Store)
      → process c s client clock program_id accounts (id_discriminant id ∷ payload) store
        ≡ dispatch c s client clock program_id accounts id payload store
  unfolding process
  process_id accounts id payload store = rw (L.id.from_discriminant id)

  module _ (payer acct : s.AccountInfo) (rest : List s.AccountInfo) (store : Store) where
    -- Processing what `create_price_acc` builds, on an account of 3312 bytes or more: the account
    -- begins with the layout of the initial price, then come zeros up to byte 3312, what lies behind
    -- is kept, and no other account changes.
    pub process-create_price_acc :
        (key1 key2 : s.Pubkey) (instr : Instruction s)
        → PythClientLaws client
        → 3312 ≤ length (store (s.cell acct))
        → create_price_acc c s program_id key1 key2 ≡ ok instr
        → process c s client clock program_id (payer ∷ acct ∷ rest) instr.payload store
          ≡ ok (
              update store
                (s.cell acct)
                (layout (initial client) ++ (zeros 3072 ++ drop 3312 (store (s.cell acct)))))
    unfolding dispatch CreatePriceAccount.handle
    process-create_price_acc key1 key2 instr K h e =
        let built : _ ≡ instr =
          ok-injective _ instr (sym (create_price_acc_lem c L s program_id key1 key2) ∙ e) in
        ap
          (λ (i : Instruction s).
            process c s client clock program_id (payer ∷ acct ∷ rest) i.payload store)
          (sym built)
        ∙ process_id (payer ∷ acct ∷ rest) PythInstructionId.create_price_account [] store
        ∙ rw (S.next_cons payer (acct ∷ rest), S.next_cons acct rest)
            (rw (initialize_lem client (store (s.cell acct)) K h))

    -- On a smaller account the same payload is a panic.
    pub process-create_price_acc_short :
        (key1 key2 : s.Pubkey) (instr : Instruction s)
        → length (store (s.cell acct)) < 3312
        → create_price_acc c s program_id key1 key2 ≡ ok instr
        → process c s client clock program_id (payer ∷ acct ∷ rest) instr.payload store ≡ panic
    unfolding dispatch CreatePriceAccount.handle
    process-create_price_acc_short key1 key2 instr h e =
        let built : _ ≡ instr =
          ok-injective _ instr (sym (create_price_acc_lem c L s program_id key1 key2) ∙ e) in
        ap
          (λ (i : Instruction s).
            process c s client clock program_id (payer ∷ acct ∷ rest) i.payload store)
          (sym built)
        ∙ process_id (payer ∷ acct ∷ rest) PythInstructionId.create_price_account [] store
        ∙ rw (S.next_cons payer (acct ∷ rest), S.next_cons acct rest)
            (rw (initialize_short client (store (s.cell acct)) h))

module _ (c : Crates) (L : CratesLaws c) (s : SolanaProgram) (S : SolanaProgramLaws s)
    (client : PythClient) (program_id : s.Pubkey) (payer acct : s.AccountInfo)
    (rest : List s.AccountInfo) (store : Store) where
  -- Processing what `publish_price` builds, on an account that reads as the price `p`, in slot
  -- `slot`: the account reads as `p` with the new price, slot and exponent; what lies behind its 240
  -- bytes is kept, and no other account changes.
  pub process-publish_price :
      (key1 key2 : s.Pubkey) (value decimal : ℤ) (slot : ℕ) (instr : Instruction s) (p : Price)
      → IsSigned 8 value
      → IsSigned 4 decimal
      → IsUnsigned 8 slot
      → All IsByte (store (s.cell acct))
      → unpack_from_slice c (store (s.cell acct)) ≡ ok p
      → publish_price c s program_id key1 key2 value decimal ≡ ok instr
      → process c s client (some slot) program_id (payer ∷ acct ∷ rest) instr.payload store
        ≡ ok (
            update store (s.cell acct) (
              published
                (record p { agg = record p.agg { price = value; pub_slot = slot }; expo = decimal })
                (store (s.cell acct))))
  unfolding dispatch
  process-publish_price key1 key2 value decimal slot instr p hv hd hs b r e =
      let i : PublishPriceInstruction = record { price = value; decimal = decimal } in
      let fits : PublishPriceFits i = record { price = hv; decimal = hd } in
      let built : _ ≡ instr =
        ok-injective _ instr
          (sym (publish_price_lem c L s program_id key1 key2 value decimal hv hd) ∙ e) in
      ap
        (λ (i : Instruction s).
          process c s client (some slot) program_id (payer ∷ acct ∷ rest) i.payload store)
        (sym built)
      ∙ process_id c L s S client (some slot) program_id (payer ∷ acct ∷ rest)
          PythInstructionId.publish_price (publish_layout i) store
      ∙ rw (unpack-layout_whole (publish_price-PackLaws c L) i fits) (
          handle_publish_lem c L s S (into_program_error s) program_id payer acct rest i store slot
            p fits hs b r)
