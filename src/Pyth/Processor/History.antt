-- ===== src/Pyth/Processor/History.antt =====
-- The life of a price account: it is created, and then any number of prices are published to it, each
-- by the payload that pyth/src/instruction.rs builds and `process` of pyth/src/processor.rs.
use mathlib.Core.Path.{subst}
use solarium.Base.{
  ℕ, ◌≤◌, ◌≡◌, ◌≢◌, refl, sym, ap, ◌∙◌, List, [], ◌∷◌, ◌++◌, length, drop, All, All-append,
  All-drop, some, Outcome, ok, err, panic, spin, ◌>>=◌, bind-ok, arith, true, false, ==-refl,
}
use solarium.Base.Int.{ℤ}
use solarium.Pyth.Bytes.{IsByte, IsSigned, IsUnsigned, zeros}
use solarium.Pyth.Bytes.Slices.{zeros-IsByte}
use solarium.Pyth.Types.{Price, PriceFits}
use solarium.Pyth.Crates.{Crates, CratesLaws}
use solarium.Pyth.State.Price
use solarium.Pyth.State.Price.{unpack_from_slice}
use solarium.Pyth.State.Price.Laws.{price-PackLaws}
use solarium.Pyth.Instruction.{publish_layout, create_price_acc, publish_price}
use solarium.Pyth.Instruction.Laws.{create_price_acc_lem, publish_price_lem}
use solarium.Pyth.Processor.{process}
use solarium.Pyth.Processor.CreatePriceAccount.{PythClient}
use solarium.Pyth.Processor.CreatePriceAccount.Initial.{PythClientLaws, initial, initial-PriceFits}
use solarium.Pyth.Processor.PublishPrice.Laws.{
  published, published-unpack, published-IsByte, publish-PriceFits, unpack-inversion,
}
use solarium.Pyth.Processor.Dispatch.{process-create_price_acc, process-publish_price}
use solarium.Solana.{SolanaProgram, SolanaProgramLaws, Store, update}

pub record Publication : Type 0 where
  pub value : ℤ
  pub decimal : ℤ
  pub slot : ℕ

pub record PublicationFits (x : Publication) : Type 0 where
  pub value : IsSigned 8 x.value
  pub decimal : IsSigned 4 x.decimal
  pub slot : IsUnsigned 8 x.slot

-- The price with the value, the exponent and the slot of a publication, and nothing else changed.
abbrev pub publish_one : Price → Publication → Price
publish_one p x = record p {
  agg = record p.agg { price = x.value; pub_slot = x.slot };
  expo = x.decimal;
}

-- The price after the publications.
abbrev pub publish_each : Price → List Publication → Price
publish_each p [] = p
publish_each p (x ∷ xs) = publish_each (publish_one p x) xs

-- `r.unwrap()` of a result that was built in the client.
abbrev pub unwrap_result {ℓ κ μ} :
    {E : Type ℓ} {F : Type κ} {A : Type μ} → Outcome E A → Outcome F A
unwrap_result (ok a) = ok a
unwrap_result (err e) = panic
unwrap_result panic = panic
unwrap_result spin = spin

module _ (c : Crates) (s : SolanaProgram) (client : PythClient) (program_id key1 key2 : s.Pubkey)
    (accounts : List s.AccountInfo) where
  unfoldable pub publish_all : List Publication → Store → Outcome s.ProgramError Store
  publish_all [] store = ok store
  publish_all (x ∷ xs) store = do
    instr ← unwrap_result (publish_price c s program_id key1 key2 x.value x.decimal)
    store ← process c s client (some x.slot) program_id accounts instr.payload store
    publish_all xs store

  pub create_and_publish : List Publication → Store → Outcome s.ProgramError Store
  create_and_publish xs store = do
    instr ← unwrap_result (create_price_acc c s program_id key1 key2)
    store ← process c s client (some 0) program_id accounts instr.payload store
    publish_all xs store

pub update_self :
    (store : Store) (cell : ℕ) (buffer : List ℕ) → update store cell buffer cell ≡ buffer
update_self store cell buffer = rw (==-refl cell)

update_other :
    (store : Store) (cell other : ℕ) (buffer : List ℕ)
    → cell ≢ other
    → update store cell buffer other ≡ store other
update_other store cell other buffer differ = ground arith

module _ (c : Crates) (L : CratesLaws c) (s : SolanaProgram) (S : SolanaProgramLaws s)
    (client : PythClient) (program_id key1 key2 : s.Pubkey) (payer acct : s.AccountInfo)
    (rest : List s.AccountInfo) where
  -- The store after a run: the account reads as `p`, and every other account is as it was.
  pub record Reads (before : Store) (p : Price) (r : Outcome s.ProgramError Store) : Type 0 where
    pub after : Store
    pub succeeds : r ≡ ok after
    pub reads : unpack_from_slice c (after (s.cell acct)) ≡ ok p
    pub others : (other : ℕ) → s.cell acct ≢ other → after other ≡ before other

  abbrev pub buffer_after : Store → Price → Publication → List ℕ
  buffer_after store p x = published (publish_one p x) (store (s.cell acct))

  abbrev pub store_after : Store → Price → Publication → Store
  store_after store p x = update store (s.cell acct) (buffer_after store p x)

  module _ (x : Publication) (store : Store) (p : Price) (fits : PublicationFits x)
      (bytes : All IsByte (store (s.cell acct)))
      (reads : unpack_from_slice c (store (s.cell acct)) ≡ ok p) where
    pub one-PriceFits : PriceFits (publish_one p x)
    one-PriceFits =
        publish-PriceFits p x.value x.decimal x.slot
          (unpack-inversion c L (store (s.cell acct)) p bytes reads).1 fits.value fits.decimal
          fits.slot

    here : store_after store p x (s.cell acct) ≡ buffer_after store p x
    here = update_self store (s.cell acct) (buffer_after store p x)

    pub one-IsByte : All IsByte (store_after store p x (s.cell acct))
    one-IsByte =
        subst (All IsByte) (sym here)
          (published-IsByte c L (store (s.cell acct)) (publish_one p x) bytes one-PriceFits)

    pub one_reads : unpack_from_slice c (store_after store p x (s.cell acct)) ≡ ok (publish_one p x)
    one_reads =
        ap (unpack_from_slice c) here
        ∙ published-unpack c L (store (s.cell acct)) (publish_one p x) one-PriceFits

    pub one_more :
        (xs : List Publication) (r : Outcome s.ProgramError Store)
        → publish_all c s client program_id key1 key2
            (payer ∷ acct ∷ rest)
            xs
            (store_after store p x)
          ≡ r
        → publish_all c s client program_id key1 key2 (payer ∷ acct ∷ rest) (x ∷ xs) store ≡ r
    unfolding publish_all
    one_more xs r e = bind-ok _ (ap unwrap_result built) (
        bind-ok _
          (process-publish_price c L s S client program_id payer acct rest store key1 key2 x.value
            x.decimal x.slot _ p fits.value fits.decimal fits.slot bytes reads built)
          e)
      where
        built :
            publish_price c s program_id key1 key2 x.value x.decimal
            ≡ ok (record {
              program_id = program_id;
              accounts = s.new_readonly key1 true ∷ s.new_writable key2 false ∷ [];
              payload = 3 ∷ publish_layout (record { price = x.value; decimal = x.decimal });
            })
        built =
            publish_price_lem c L s program_id key1 key2 x.value x.decimal fits.value fits.decimal

  -- However many prices are published to an account that reads as `p`, every run succeeds, the
  -- account reads as `p` with the last price, slot and exponent, and no other account changes.
  pub publish_all_lem :
      (xs : List Publication) (store : Store) (p : Price)
      → All PublicationFits xs
      → All IsByte (store (s.cell acct))
      → unpack_from_slice c (store (s.cell acct)) ≡ ok p
      → Reads store
          (publish_each p xs)
          (publish_all c s client program_id key1 key2 (payer ∷ acct ∷ rest) xs store)
  unfolding publish_all
  publish_all_lem [] store p f b e = record {
    after = store;
    succeeds = refl;
    reads = e;
    others = λ other differ. refl;
  }
  publish_all_lem (x ∷ xs) store p (fx, f) b e =
      let ih =
        publish_all_lem xs (store_after store p x) (publish_one p x) f (one-IsByte x store p fx b e)
          (one_reads x store p fx b e) in
      record {
        after = ih.after;
        succeeds = one_more x store p fx b e xs (ok ih.after) ih.succeeds;
        reads = ih.reads;
        others = λ other differ.
            ih.others other differ
            ∙ update_other store (s.cell acct) other (buffer_after store p x) differ;
      }

  -- On an account of 3312 bytes or more, creation and then any publications succeed: the account
  -- reads as the initial price with the publications, and no other account changes.
  pub create_and_publish_lem :
      (xs : List Publication) (store : Store)
      → PythClientLaws client
      → All PublicationFits xs
      → All IsByte (store (s.cell acct))
      → 3312 ≤ length (store (s.cell acct))
      → Reads store
          (publish_each (initial client) xs)
          (create_and_publish c s client program_id key1 key2 (payer ∷ acct ∷ rest) xs store)
  unfolding create_and_publish
  create_and_publish_lem xs store K f b room =
      let behind = zeros 3072 ++ drop 3312 (store (s.cell acct)) in
      let buffer = Price.layout (initial client) ++ behind in
      let laws = price-PackLaws c L in
      let fits = initial-PriceFits client K in
      let here = update_self store (s.cell acct) buffer in
      let bytes : All IsByte buffer =
        All-append IsByte (Price.layout (initial client)) behind
          (laws.layout-IsByte (initial client) fits)
          (All-append IsByte (zeros 3072) (drop 3312 (store (s.cell acct))) (zeros-IsByte 3072)
            (All-drop IsByte 3312 (store (s.cell acct)) b)) in
      let run =
        publish_all_lem xs (update store (s.cell acct) buffer) (initial client) f
          (subst (All IsByte) (sym here) bytes)
          (ap (unpack_from_slice c) here ∙ laws.unpack-layout (initial client) behind fits) in
      record {
        after = run.after;
        succeeds = bind-ok _ (ap unwrap_result (create_price_acc_lem c L s program_id key1 key2)) (
            bind-ok _
              (process-create_price_acc c L s S client (some 0) program_id payer acct rest store
                key1 key2 _ K room (create_price_acc_lem c L s program_id key1 key2))
              run.succeeds);
        reads = run.reads;
        others = λ other differ.
            run.others other differ ∙ update_other store (s.cell acct) other buffer differ;
      }
