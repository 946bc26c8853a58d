-- ===== src/Pyth/Processor/Effects.antt =====
-- What a run of `process` may change, and how it may fail, whatever its input is.
use solarium.Base.{
  ℕ, ◌≡◌, ◌≢◌, sym, ap, ◌∙◌, List, [], ◌∷◌, Option, Outcome, ok, ok-injective, unwrap, map_err,
  ◌>>=◌, >>=-eq-ok, arith,
}
use solarium.Pyth.Types.{PythInstructionId, PublishPriceInstruction}
use solarium.Pyth.Crates.{Crates}
use solarium.Pyth.State.Price.{unpack_from_slice, pack_into_slice}
use solarium.Pyth.Instruction.{unpack_publish}
use solarium.Pyth.Processor.{into_program_error, dispatch, process, handle_product, handle_mapping}
use solarium.Pyth.Processor.CreatePriceAccount
use solarium.Pyth.Processor.CreatePriceAccount.{PythClient, initialize}
use solarium.Pyth.Processor.PublishPrice
use solarium.Pyth.Processor.PublishPrice.{publish}
use solarium.Solana.{SolanaProgram, SolanaProgramLaws, Store, update}

update_other :
    (store : Store) (cell other : ℕ) (buffer : List ℕ)
    → cell ≢ other
    → update store cell buffer other ≡ store other
update_other store cell other buffer differ = ground arith

module _ (s : SolanaProgram) (store after : Store) where
  -- A run leaves every account as it was but the second one.
  abbrev pub OnlySecond : List s.AccountInfo → Type 0
  OnlySecond (payer ∷ acct ∷ rest) = (other : ℕ) → s.cell acct ≢ other → after other ≡ store other
  OnlySecond _ = (other : ℕ) → after other ≡ store other

module _ (s : SolanaProgram) (S : SolanaProgramLaws s) (store : Store) where
  -- Both handlers begin by taking two accounts.
  abbrev pub with_accounts :
      (s.AccountInfo → Outcome s.ProgramError Store)
      → List s.AccountInfo
      → Outcome s.ProgramError Store
  with_accounts body accounts = do
    (payer_acct, ai_iter) ← s.next_account_info accounts
    (acct_pkey, ai_iter) ← s.next_account_info ai_iter
    body acct_pkey

  with_accounts-OnlySecond :
      (body : s.AccountInfo → Outcome s.ProgramError Store) (accounts : List s.AccountInfo)
      (after : Store)
      → ((acct : s.AccountInfo)
          → body acct ≡ ok after
          → (other : ℕ) → s.cell acct ≢ other
          → after other ≡ store other)
      → with_accounts body accounts ≡ ok after
      → OnlySecond s store after accounts
  with_accounts-OnlySecond body [] after h e = cc (rw S.next_nil at e)
  with_accounts-OnlySecond body (payer ∷ []) after h e =
      cc (rw (S.next_cons payer [], S.next_nil) at e)
  with_accounts-OnlySecond body (payer ∷ acct ∷ rest) after h e =
      h acct (rw (S.next_cons payer (acct ∷ rest), S.next_cons acct rest) at e)

module _ (c : Crates) (s : SolanaProgram) (S : SolanaProgramLaws s) (client : PythClient)
    (clock : Option ℕ) (program_id : s.Pubkey) (store after : Store) where
  handle_create-OnlySecond :
      (accounts : List s.AccountInfo)
      → CreatePriceAccount.handle s client program_id accounts (record {}) store ≡ ok after
      → OnlySecond s store after accounts
  unfolding CreatePriceAccount.handle
  handle_create-OnlySecond accounts e =
      with_accounts-OnlySecond s S store _ accounts after
        (λ acct p other differ.
          let (buffer, q, r) = >>=-eq-ok (initialize client (store (s.cell acct))) _ p in
          ap (λ (f : Store). f other) (sym (ok-injective _ after r))
          ∙ update_other store (s.cell acct) other buffer differ)
        e

  handle_publish-OnlySecond :
      (accounts : List s.AccountInfo) (instr : PublishPriceInstruction)
      → PublishPrice.handle c s (into_program_error s) clock program_id accounts instr store
        ≡ ok after
      → OnlySecond s store after accounts
  unfolding PublishPrice.handle
  handle_publish-OnlySecond accounts instr e =
      with_accounts-OnlySecond s S store _ accounts after
        (λ acct p other differ.
          let (price, q, p) =
            >>=-eq-ok (map_err (into_program_error s) (unpack_from_slice c (store (s.cell acct)))) _
              p in
          let (slot, q, p) = >>=-eq-ok (unwrap clock) _ p in
          let (buffer, q, p) =
            >>=-eq-ok
              (map_err (into_program_error s) (
                pack_into_slice c (publish price instr.price instr.decimal slot)
                  (store (s.cell acct))))
              _ p in
          ap (λ (f : Store). f other) (sym (ok-injective _ after p))
          ∙ update_other store (s.cell acct) other buffer differ)
        e

  unchanged-OnlySecond :
      (accounts : List s.AccountInfo) → store ≡ after → OnlySecond s store after accounts
  unchanged-OnlySecond [] e = λ other. ap (λ (f : Store). f other) (sym e)
  unchanged-OnlySecond (payer ∷ []) e = λ other. ap (λ (f : Store). f other) (sym e)
  unchanged-OnlySecond (payer ∷ acct ∷ rest) e = λ other differ. ap (λ (f : Store). f other) (sym e)

  dispatch-OnlySecond :
      (accounts : List s.AccountInfo) (id : PythInstructionId) (payload : List ℕ)
      → dispatch c s client clock program_id accounts id payload store ≡ ok after
      → OnlySecond s store after accounts
  unfolding dispatch handle_product handle_mapping
  dispatch-OnlySecond accounts PythInstructionId.create_price_account payload e =
      handle_create-OnlySecond accounts e
  dispatch-OnlySecond accounts PythInstructionId.publish_price payload e =
      let (instr, q, e) =
        >>=-eq-ok (map_err (into_program_error s) (unpack_publish c payload)) _ e in
      handle_publish-OnlySecond accounts instr e
  dispatch-OnlySecond accounts PythInstructionId.create_product_account payload e =
      unchanged-OnlySecond accounts (ok-injective store after e)
  dispatch-OnlySecond accounts PythInstructionId.create_mapping_account payload e =
      unchanged-OnlySecond accounts (ok-injective store after e)

  -- A run that succeeds, on any payload, changes at most the buffer of the second account.
  pub process-OnlySecond :
      (accounts : List s.AccountInfo) (payload : List ℕ)
      → process c s client clock program_id accounts payload store ≡ ok after
      → OnlySecond s store after accounts
  unfolding process
  process-OnlySecond accounts [] e = cc
  process-OnlySecond accounts (first ∷ payload) e =
      let (id, q, e) = >>=-eq-ok (unwrap (c.id.try_from_primitive first)) _ e in
      dispatch-OnlySecond accounts id payload e
