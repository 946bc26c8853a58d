-- ===== src/Pyth/Processor/PublishPrice/Laws.antt =====
-- What pyth/src/processor/publish_price.rs does to the account, on every branch.
use solarium.Base.{
  ℕ, ◌≤◌, ◌<◌, ◌≡◌, List, ◌∷◌, ◌++◌, length, drop, All, All-append, All-drop, Option, some, ok,
  panic, Bool-cases, inl, inr, leb, arith,
}
use solarium.Base.Int.{ℤ}
use solarium.Pyth.Bytes.{IsByte, IsSigned, IsUnsigned}
use solarium.Pyth.Types.{PythError, Price, PriceFits, PublishPriceInstruction, PublishPriceFits}
use solarium.Pyth.Crates.{Crates, CratesLaws}
use solarium.Pyth.Pack.Laws.{PackLaws}
use solarium.Pyth.State.Price.{unpack_from_slice, layout, price}
use solarium.Pyth.State.Price.Laws.{price-PackLaws}
use solarium.Pyth.Processor.PublishPrice.{publish, handle}
use solarium.Solana.{SolanaProgram, SolanaProgramLaws, Store, update}

pub publish-PriceFits :
    (p : Price) (value decimal : ℤ) (slot : ℕ)
    → PriceFits p
    → IsSigned 8 value
    → IsSigned 4 decimal
    → IsUnsigned 8 slot
    → PriceFits (publish p value decimal slot)
publish-PriceFits p value decimal slot f hp hd hs = record {
  magic = f.magic;
  ver = f.ver;
  atype = f.atype;
  size = f.size;
  num = f.num;
  num_qt = f.num_qt;
  last_slot = f.last_slot;
  valid_slot = f.valid_slot;
  twap = f.twap;
  twac = f.twac;
  drv1 = f.drv1;
  drv2 = f.drv2;
  prod = f.prod;
  next = f.next;
  prev_slot = f.prev_slot;
  prev_price = f.prev_price;
  prev_conf = f.prev_conf;
  drv3 = f.drv3;
  expo = hd;
  agg = record { price = hp; conf = f.agg.conf; pub_slot = hs };
}

-- The buffer after a publication.
abbrev pub published : Price → List ℕ → List ℕ
published p buffer = layout p ++ drop 240 buffer

module _ (c : Crates) (L : CratesLaws c) where
  laws : PackLaws (price c) PriceFits layout
  laws = price-PackLaws c L

  -- A buffer that reads as a price holds 240 bytes, and its price fits.
  pub unpack-inversion :
      (buffer : List ℕ) (p : Price)
      → All IsByte buffer
      → unpack_from_slice c buffer ≡ ok p
      → (240 ≤ length buffer) × PriceFits p
  unpack-inversion buffer p b e = elim (Bool-cases (leb 240 (length buffer))) [
    | inl enough ↦ (ground arith, (laws.layout-unpack p buffer b e).1)
    | inr short ↦ let h : length buffer < 240 = ground arith in cc (laws.unpack_short buffer h)
  ]

  pub published-unpack :
      (buffer : List ℕ) (p : Price) → PriceFits p → unpack_from_slice c (published p buffer) ≡ ok p
  published-unpack buffer p f = laws.unpack-layout p (drop 240 buffer) f

  pub published-IsByte :
      (buffer : List ℕ) (p : Price)
      → All IsByte buffer
      → PriceFits p
      → All IsByte (published p buffer)
  published-IsByte buffer p b f =
      All-append IsByte (layout p) (drop 240 buffer) (laws.layout-IsByte p f)
        (All-drop IsByte 240 buffer b)

module _ (c : Crates) (L : CratesLaws c) (s : SolanaProgram) (S : SolanaProgramLaws s)
    (into : PythError → s.ProgramError) (program_id : s.Pubkey) (payer acct : s.AccountInfo)
    (rest : List s.AccountInfo) (instr : PublishPriceInstruction) (store : Store) where
  pub handle_publish_lem :
      (slot : ℕ) (p : Price)
      → PublishPriceFits instr
      → IsUnsigned 8 slot
      → All IsByte (store (s.cell acct))
      → unpack_from_slice c (store (s.cell acct)) ≡ ok p
      → handle c s into (some slot) program_id (payer ∷ acct ∷ rest) instr store
        ≡ ok (
            update store
              (s.cell acct)
              (published (publish p instr.price instr.decimal slot) (store (s.cell acct))))
  unfolding handle
  handle_publish_lem slot p f u b e =
      let (room, fit) = unpack-inversion c L (store (s.cell acct)) p b e in
      let q = publish p instr.price instr.decimal slot in
      let packed =
        (laws c L).pack_lem q (store (s.cell acct))
          (publish-PriceFits p instr.price instr.decimal slot fit f.price f.decimal u) room in
      rw (S.next_cons payer (acct ∷ rest), S.next_cons acct rest, e, packed)

  pub handle_publish_unreadable :
      (clock : Option ℕ)
      → unpack_from_slice c (store (s.cell acct)) ≡ panic
      → handle c s into clock program_id (payer ∷ acct ∷ rest) instr store ≡ panic
  unfolding handle
  handle_publish_unreadable clock e = rw (S.next_cons payer (acct ∷ rest), S.next_cons acct rest, e)
