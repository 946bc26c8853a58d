-- ===== src/Pyth/Processor/Written.antt =====
-- What a successful run of `process` writes, whatever its payload is.
use solarium.Base.{
  ℕ, ◌+◌, ◌≡◌, sym, ap, ◌∙◌, List, [], ◌∷◌, ◌++◌, length, length-append, length-drop, drop, All,
  All-append, All-drop, Option, some, none, Outcome, ok, err, panic, spin, ok-injective, unwrap,
  map_err, >>=-eq-ok, unwrap-eq-ok, le-cases, inl, inr, arith,
}
use solarium.Pyth.Bytes.{IsByte, IsUnsigned, zeros}
use solarium.Pyth.Bytes.Slices.{length-zeros, zeros-IsByte}
use solarium.Pyth.Types.{
  Price, PriceFits, PythInstructionId, PublishPriceInstruction, PublishPriceFits,
}
use solarium.Pyth.Crates.{Crates, CratesLaws}
use solarium.Pyth.State.Price.{unpack_from_slice, pack_into_slice, layout}
use solarium.Pyth.State.Price.Laws.{price-PackLaws}
use solarium.Pyth.Instruction.{unpack_publish}
use solarium.Pyth.Instruction.Laws.{publish_price-PackLaws}
use solarium.Pyth.Processor.{into_program_error, dispatch, process, handle_product, handle_mapping}
use solarium.Pyth.Processor.CreatePriceAccount
use solarium.Pyth.Processor.CreatePriceAccount.{PythClient, initialize}
use solarium.Pyth.Processor.CreatePriceAccount.Initial.{PythClientLaws, initial, initial-PriceFits}
use solarium.Pyth.Processor.CreatePriceAccount.Laws.{initialize_lem}
use solarium.Pyth.Processor.CreatePriceAccount.Short.{initialize_short}
use solarium.Pyth.Processor.Effects.{with_accounts}
use solarium.Pyth.Processor.PublishPrice
use solarium.Pyth.Processor.PublishPrice.{publish}
use solarium.Pyth.Processor.PublishPrice.Laws.{publish-PriceFits, unpack-inversion}
use solarium.Solana.{SolanaProgram, SolanaProgramLaws, Store, update}

-- The slot that the runtime reports, if it does, is a u64.
abbrev pub ClockFits : Option ℕ → Type 0
ClockFits none = Unit
ClockFits (some slot) = IsUnsigned 8 slot

map_err-eq-ok {ℓ κ μ} :
    {E : Type ℓ} {F : Type κ} {A : Type μ} (into : E → F) (r : Outcome E A) (a : A)
    → map_err into r ≡ ok a
    → r ≡ ok a
map_err-eq-ok into (ok b) a e = ap ok (ok-injective b a e)
map_err-eq-ok into (err x) a e = cc
map_err-eq-ok into panic a e = cc
map_err-eq-ok into spin a e = cc

-- One account's buffer was replaced, by as many bytes that begin with the layout of a price.
pub record Replaced (store after : Store) (cell : ℕ) : Type 0 where
  pub price : Price
  pub fits : PriceFits price
  pub behind : List ℕ
  pub behind_lem : All IsByte behind
  pub after_lem : after ≡ update store cell (layout price ++ behind)
  pub length_lem : 240 + length behind ≡ length (store cell)

-- A run changes nothing, or it replaces the buffer of one account.
pub data Written (store after : Store) : Type 0 where
  unchanged : store ≡ after → Written store after
  replaced : (cell : ℕ) → Replaced store after cell → Written store after

module _ (s : SolanaProgram) (S : SolanaProgramLaws s) where
  with_accounts-eq-ok :
      (body : s.AccountInfo → Outcome s.ProgramError Store) (accounts : List s.AccountInfo)
      (after : Store)
      → with_accounts s S after body accounts ≡ ok after
      → (acct : s.AccountInfo) × (body acct ≡ ok after)
  with_accounts-eq-ok body [] after e = cc (rw S.next_nil at e)
  with_accounts-eq-ok body (payer ∷ []) after e = cc (rw (S.next_cons payer [], S.next_nil) at e)
  with_accounts-eq-ok body (payer ∷ acct ∷ rest) after e =
      (acct, rw (S.next_cons payer (acct ∷ rest), S.next_cons acct rest) at e)

module _ (c : Crates) (L : CratesLaws c) (s : SolanaProgram) (S : SolanaProgramLaws s)
    (client : PythClient) (K : PythClientLaws client) (clock : Option ℕ)
    (clock_fits : ClockFits clock) (program_id : s.Pubkey) (store after : Store)
    (bytes : (cell : ℕ) → All IsByte (store cell)) where
  initialize-Replaced :
      (cell : ℕ) (buffer : List ℕ)
      → initialize client {E = s.ProgramError} (store cell) ≡ ok buffer
      → update store cell buffer ≡ after
      → Replaced store after cell
  initialize-Replaced cell buffer e u = elim (le-cases 3312 (length (store cell))) [
    | inr short ↦ cc (initialize_short client {E = s.ProgramError} (store cell) short)
    | inl room ↦
        let same =
          ok-injective _ buffer
            (sym (initialize_lem client {E = s.ProgramError} (store cell) K room) ∙ e) in
        record {
          price = initial client;
          fits = initial-PriceFits client K;
          behind = zeros 3072 ++ drop 3312 (store cell);
          behind_lem =
              All-append IsByte (zeros 3072) (drop 3312 (store cell)) (zeros-IsByte 3072)
                (All-drop IsByte 3312 (store cell) (bytes cell));
          after_lem = sym u ∙ ap (update store cell) (sym same);
          length_lem = omega (
            arith,
            length-append (zeros 3072) (drop 3312 (store cell)),
            length-zeros 3072,
            length-drop 3312 (store cell),
            room,
          );
        }
  ]

  slot-fits : (o : Option ℕ) (slot : ℕ) → ClockFits o → o ≡ some slot → IsUnsigned 8 slot
  slot-fits none slot f e = cc
  slot-fits (some n) slot f e = ground (arith)

  publish-Replaced :
      (instr : PublishPriceInstruction) (cell : ℕ) (p : Price) (slot : ℕ) (buffer : List ℕ)
      → PublishPriceFits instr
      → unpack_from_slice c (store cell) ≡ ok p
      → clock ≡ some slot
      → pack_into_slice c (publish p instr.price instr.decimal slot) (store cell) ≡ ok buffer
      → update store cell buffer ≡ after
      → Replaced store after cell
  publish-Replaced instr cell p slot buffer f e k packed u =
      let (room, fit) = unpack-inversion c L (store cell) p (bytes cell) e in
      let q = publish p instr.price instr.decimal slot in
      let q_fits =
        publish-PriceFits p instr.price instr.decimal slot fit f.price f.decimal
          (slot-fits clock slot clock_fits k) in
      let laws = price-PackLaws c L in
      let same = ok-injective _ buffer (sym (laws.pack_lem q (store cell) q_fits room) ∙ packed) in
      record {
        price = q;
        fits = q_fits;
        behind = drop 240 (store cell);
        behind_lem = All-drop IsByte 240 (store cell) (bytes cell);
        after_lem = sym u ∙ ap (update store cell) (sym same);
        length_lem = omega (arith, length-drop 240 (store cell), room);
      }

  handle_create-Written :
      (accounts : List s.AccountInfo)
      → CreatePriceAccount.handle s client program_id accounts (record {}) store ≡ ok after
      → Written store after
  unfolding CreatePriceAccount.handle
  handle_create-Written accounts e =
      let (acct, e) = with_accounts-eq-ok s S _ accounts after e in
      let (buffer, made, u) = >>=-eq-ok (initialize client (store (s.cell acct))) _ e in
      replaced (s.cell acct)
        (initialize-Replaced (s.cell acct) buffer made (ok-injective _ after u))

  handle_publish-Written :
      (accounts : List s.AccountInfo) (instr : PublishPriceInstruction)
      → PublishPriceFits instr
      → PublishPrice.handle c s (into_program_error s) clock program_id accounts instr store
        ≡ ok after
      → Written store after
  unfolding PublishPrice.handle
  handle_publish-Written accounts instr f e =
      let (acct, e) = with_accounts-eq-ok s S _ accounts after e in
      let (p, read, e) =
        >>=-eq-ok (map_err (into_program_error s) (unpack_from_slice c (store (s.cell acct)))) _
          e in
      let (slot, ticked, e) = >>=-eq-ok (unwrap clock) _ e in
      let (buffer, packed, e) =
        >>=-eq-ok
          (map_err (into_program_error s)
            (pack_into_slice c (publish p instr.price instr.decimal slot) (store (s.cell acct))))
          _ e in
      replaced (s.cell acct) (
        publish-Replaced instr (s.cell acct) p slot buffer f
          (map_err-eq-ok (into_program_error s) (unpack_from_slice c (store (s.cell acct))) p read)
          (unwrap-eq-ok clock slot ticked)
          (map_err-eq-ok (into_program_error s)
            (pack_into_slice c (publish p instr.price instr.decimal slot) (store (s.cell acct)))
            buffer packed)
          (ok-injective _ after e))

  dispatch-Written :
      (accounts : List s.AccountInfo) (id : PythInstructionId) (payload : List ℕ)
      → All IsByte payload
      → dispatch c s client clock program_id accounts id payload store ≡ ok after
      → Written store after
  unfolding dispatch handle_product handle_mapping
  dispatch-Written accounts PythInstructionId.create_price_account payload b e =
      handle_create-Written accounts e
  dispatch-Written accounts PythInstructionId.publish_price payload b e =
      let (instr, read, e) =
        >>=-eq-ok (map_err (into_program_error s) (unpack_publish c payload)) _ e in
      let fits =
        ((publish_price-PackLaws c L).layout-unpack instr payload b
          (map_err-eq-ok (into_program_error s) (unpack_publish c payload) instr read)).1 in
      handle_publish-Written accounts instr fits e
  dispatch-Written accounts PythInstructionId.create_product_account payload b e =
      unchanged (ok-injective store after e)
  dispatch-Written accounts PythInstructionId.create_mapping_account payload b e =
      unchanged (ok-injective store after e)

  -- On accounts that hold bytes, in a slot that is a u64, a successful run on any payload of bytes
  -- leaves every account as it was, or replaces the buffer of one account by as many bytes, which
  -- begin with the layout of a price that fits its fields.
  pub process-Written :
      (accounts : List s.AccountInfo) (payload : List ℕ)
      → All IsByte payload
      → process c s client clock program_id accounts payload store ≡ ok after
      → Written store after
  unfolding process
  process-Written accounts [] b e = cc
  process-Written accounts (first ∷ payload) b e =
      let (id, q, e) = >>=-eq-ok (unwrap (c.id.try_from_primitive first)) _ e in
      dispatch-Written accounts id payload b.1 e
