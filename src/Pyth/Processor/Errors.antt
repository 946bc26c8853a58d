-- ===== src/Pyth/Processor/Errors.antt =====
-- The errors that `process` of pyth/src/processor.rs can return.
use solarium.Base.{
  ℕ, ◌<◌, ◌≡◌, refl, subst, err-injective, >>=-eq-err, List, [], ◌∷◌, length, Option, Outcome, ok,
  err, unwrap, map_err, ◌>>=◌, NeverErr, NeverErr-ok, NeverErr-unwrap, NeverErr-bind,
  NeverErr-map_err, NeverErr-panic, le-cases, inl, inr, arith,
}
use solarium.Pyth.Types.{PythInstructionId, PythError, PublishPriceInstruction}
use solarium.Pyth.Crates.{Crates}
use solarium.Pyth.State.NeverErr.{price-unpack, price-pack, read_fields-NeverErr}
use solarium.Pyth.State.Price.{unpack_from_slice, pack_into_slice}
use solarium.Pyth.Instruction.{unpack_publish, read_publish}
use solarium.Pyth.Processor.{into_program_error, dispatch, process, handle_product, handle_mapping}
use solarium.Pyth.Processor.CreatePriceAccount
use solarium.Pyth.Processor.CreatePriceAccount.{PythClient, initialize}
use solarium.Pyth.Processor.CreatePriceAccount.Initial.{PythClientLaws}
use solarium.Pyth.Processor.CreatePriceAccount.Laws.{initialize_lem}
use solarium.Pyth.Processor.CreatePriceAccount.Short.{initialize_short}
use solarium.Pyth.Processor.Effects.{with_accounts}
use solarium.Pyth.Processor.PublishPrice
use solarium.Pyth.Processor.PublishPrice.{publish}
use solarium.Solana.{SolanaProgram, SolanaProgramLaws, Store, update}

read_publish-NeverErr : (ps : List (List ℕ)) → NeverErr (read_publish ps)
unfolding read_publish
read_publish-NeverErr (price ∷ decimal ∷ []) = NeverErr-ok _
read_publish-NeverErr _ = NeverErr-panic

-- An error, with what it says of the input.
pub data Reports (s : SolanaProgram) (accounts : List s.AccountInfo) (payload : List ℕ)
    : s.ProgramError → Type 0 where
  no_payload :
      payload ≡ []
      → Reports s accounts payload (into_program_error s PythError.could_not_decode_instruction)
  few_accounts : length accounts < 2 → Reports s accounts payload s.not_enough_account_keys

module _ (c : Crates) (s : SolanaProgram) (S : SolanaProgramLaws s) (client : PythClient)
    (K : PythClientLaws client) (clock : Option ℕ) (program_id : s.Pubkey) (store : Store)
    (payload : List ℕ) where
  unpack_publish-NeverErr : (src : List ℕ) → NeverErr (unpack_publish c src)
  unfolding unpack_publish
  unpack_publish-NeverErr src = read_fields-NeverErr c _ _ _ src read_publish-NeverErr

  initialize-NeverErr : (buffer : List ℕ) → NeverErr (initialize client {E = s.ProgramError} buffer)
  initialize-NeverErr buffer = elim (le-cases 3312 (length buffer)) [
    | inl room ↦ rw (initialize_lem client {E = s.ProgramError} buffer K room) (NeverErr-ok _)
    | inr short ↦ rw (initialize_short client {E = s.ProgramError} buffer short) NeverErr-panic
  ]

  with_accounts-Reports :
      (body : s.AccountInfo → Outcome s.ProgramError Store) (accounts : List s.AccountInfo)
      (e : s.ProgramError)
      → ((acct : s.AccountInfo) → NeverErr (body acct))
      → with_accounts s S store body accounts ≡ err e
      → Reports s accounts payload e
  with_accounts-Reports body [] e n h =
      subst (Reports s [] payload) (err-injective _ e (rw S.next_nil at h))
        (few_accounts (omega arith))
  with_accounts-Reports body (payer ∷ []) e n h =
      subst (Reports s (payer ∷ []) payload)
        (err-injective _ e (rw (S.next_cons payer [], S.next_nil) at h))
        (few_accounts (omega arith))
  with_accounts-Reports body (payer ∷ acct ∷ rest) e n h =
      absurd ((n acct).never e (rw (S.next_cons payer (acct ∷ rest), S.next_cons acct rest) at h))

  create-NeverErr :
      (acct : s.AccountInfo)
      → NeverErr (do
        buffer ← initialize client {E = s.ProgramError} (store (s.cell acct))
        ok (update store (s.cell acct) buffer))
  create-NeverErr acct =
      NeverErr-bind (initialize client (store (s.cell acct))) _
        (initialize-NeverErr (store (s.cell acct))) λ buffer. NeverErr-ok _

  publish-NeverErr :
      (instr : PublishPriceInstruction) (acct : s.AccountInfo)
      → NeverErr {E = s.ProgramError} (do
        price_struct ← map_err (into_program_error s) (unpack_from_slice c (store (s.cell acct)))
        slot ← unwrap clock
        let price_struct = publish price_struct instr.price instr.decimal slot
        buffer ←
            map_err (into_program_error s) (pack_into_slice c price_struct (store (s.cell acct)))
        ok (update store (s.cell acct) buffer))
  publish-NeverErr instr acct =
      NeverErr-bind (map_err (into_program_error s) (unpack_from_slice c (store (s.cell acct)))) _
        (NeverErr-map_err (into_program_error s) _ (price-unpack c (store (s.cell acct))))
        λ p. NeverErr-bind (unwrap clock) _ (NeverErr-unwrap clock) λ slot.
          NeverErr-bind
            (map_err (into_program_error s)
              (pack_into_slice c (publish p instr.price instr.decimal slot) (store (s.cell acct))))
            _
            (NeverErr-map_err (into_program_error s) _
              (price-pack c (publish p instr.price instr.decimal slot) (store (s.cell acct))))
            λ buffer. NeverErr-ok _

  dispatch-Reports :
      (accounts : List s.AccountInfo) (id : PythInstructionId) (src : List ℕ) (e : s.ProgramError)
      → dispatch c s client clock program_id accounts id src store ≡ err e
      → Reports s accounts payload e
  unfolding dispatch handle_product handle_mapping CreatePriceAccount.handle PublishPrice.handle
  dispatch-Reports accounts PythInstructionId.create_price_account src e h =
      with_accounts-Reports _ accounts e create-NeverErr h
  dispatch-Reports accounts PythInstructionId.publish_price src e h =
      let (instr, h) =
        >>=-eq-err (map_err (into_program_error s) (unpack_publish c src)) _
          (NeverErr-map_err (into_program_error s) _ (unpack_publish-NeverErr src)) h in
      with_accounts-Reports _ accounts e (publish-NeverErr instr) h
  dispatch-Reports accounts PythInstructionId.create_product_account src e h = cc
  dispatch-Reports accounts PythInstructionId.create_mapping_account src e h = cc

module _ (c : Crates) (s : SolanaProgram) (S : SolanaProgramLaws s) (client : PythClient)
    (K : PythClientLaws client) (clock : Option ℕ) (program_id : s.Pubkey) (store : Store) where
  -- The only errors that `process` returns are `CouldNotDecodeInstruction` as a custom error, and
  -- then the payload is empty, and `NotEnoughAccountKeys`, and then there are fewer than two accounts.
  -- Whatever else goes wrong is a panic.
  pub process-Reports :
      (accounts : List s.AccountInfo) (payload : List ℕ) (e : s.ProgramError)
      → process c s client clock program_id accounts payload store ≡ err e
      → Reports s accounts payload e
  unfolding process
  process-Reports accounts [] e h =
      subst (Reports s accounts []) (err-injective _ e h) (no_payload refl)
  process-Reports accounts (first ∷ src) e h =
      let (id, h) =
        >>=-eq-err (unwrap (c.id.try_from_primitive first)) _
          (NeverErr-unwrap (c.id.try_from_primitive first)) h in
      dispatch-Reports c s S client K clock program_id store (first ∷ src) accounts id src e h
