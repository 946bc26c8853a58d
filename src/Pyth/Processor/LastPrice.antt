-- ===== src/Pyth/Processor/LastPrice.antt =====
-- Of several publications to one account only the last one counts.
use mathlib.Core.Path.{fun_ext}
use solarium.Base.{
  ℕ, ◌≡◌, refl, sym, ap, ◌∙◌, List, [], ◌∷◌, ◌++◌, drop, drop-append, All, ok, ◌==◌, if◌then◌else◌,
  Bool, true, false,
}
use solarium.Pyth.Bytes.{IsByte}
use solarium.Pyth.Types.{Price, PriceFits}
use solarium.Pyth.Crates.{Crates, CratesLaws}
use solarium.Pyth.State.Price.{unpack_from_slice, layout}
use solarium.Pyth.State.Price.Laws.{price-PackLaws}
use solarium.Pyth.Processor.CreatePriceAccount.{PythClient}
use solarium.Pyth.Processor.PublishPrice.Laws.{published}
use solarium.Pyth.Processor.History.{
  Publication, PublicationFits, publish_one, publish_all, store_after, update_self, one-PriceFits,
  one-IsByte, one_reads, one_more,
}
use solarium.Solana.{SolanaProgram, SolanaProgramLaws, Store, update}

update_twice :
    (store : Store) (cell : ℕ) (first second : List ℕ)
    → update (update store cell first) cell second ≡ update store cell second
update_twice store cell first second = fun_ext λ other. pointwise (cell == other) (store other)
  where
    pointwise :
        (b : Bool) (old : List ℕ)
        → (if b then second else (if b then first else old)) ≡ (if b then second else old)
    pointwise true old = refl
    pointwise false old = refl

module _ (c : Crates) (L : CratesLaws c) (s : SolanaProgram) (S : SolanaProgramLaws s)
    (client : PythClient) (program_id key1 key2 : s.Pubkey) (payer acct : s.AccountInfo)
    (rest : List s.AccountInfo) where
  abbrev after : Store → Price → Publication → Store
  after store p x = store_after c L s S client program_id key1 key2 payer acct rest store p x

  published_twice :
      (first second : Price) (buffer : List ℕ)
      → PriceFits first
      → published second (published first buffer) ≡ published second buffer
  published_twice first second buffer f =
      ap (λ l. layout second ++ l)
        (drop-append (layout first) (drop 240 buffer) 240
          ((price-PackLaws c L).length-layout first f))

  after_twice :
      (store : Store) (p : Price) (y x : Publication)
      → PriceFits (publish_one p y)
      → after (after store p y) (publish_one p y) x ≡ after store p x
  after_twice store p y x f =
      let first = published (publish_one p y) (store (s.cell acct)) in
      ap
        (λ b.
          update (after store p y) (s.cell acct) (published (publish_one (publish_one p y) x) b))
        (update_self store (s.cell acct) first)
      ∙ (ap (update (after store p y) (s.cell acct))
            (published_twice (publish_one p y) (publish_one p x) (store (s.cell acct)) f)
          ∙ update_twice store (s.cell acct) first
              (published (publish_one p x) (store (s.cell acct))))

  publish_last :
      (x : Publication) (store : Store) (p : Price)
      → PublicationFits x
      → All IsByte (store (s.cell acct))
      → unpack_from_slice c (store (s.cell acct)) ≡ ok p
      → publish_all c s client program_id key1 key2 (payer ∷ acct ∷ rest) (x ∷ []) store
        ≡ ok (after store p x)
  unfolding publish_all
  publish_last x store p f b e =
      one_more c L s S client program_id key1 key2 payer acct rest x store p f b e [] _ refl

  -- On an account of bytes that reads as a price, publications whose values fit their fields end in
  -- the very store to which the last of them alone leads: nothing of the others is left in any
  -- account.
  pub publish_all-append :
      (xs : List Publication) (x : Publication) (store : Store) (p : Price)
      → All PublicationFits xs
      → PublicationFits x
      → All IsByte (store (s.cell acct))
      → unpack_from_slice c (store (s.cell acct)) ≡ ok p
      → publish_all c s client program_id key1 key2 (payer ∷ acct ∷ rest) (xs ++ (x ∷ [])) store
        ≡ publish_all c s client program_id key1 key2 (payer ∷ acct ∷ rest) (x ∷ []) store
  publish_all-append [] x store p fs f b e = refl
  publish_all-append (y ∷ xs) x store p fs f b e =
      let b' = one-IsByte c L s S client program_id key1 key2 payer acct rest y store p fs.0 b e in
      let e' = one_reads c L s S client program_id key1 key2 payer acct rest y store p fs.0 b e in
      one_more c L s S client program_id key1 key2 payer acct rest y store p fs.0 b e
        (xs ++ (x ∷ [])) _
        (publish_all-append xs x (after store p y) (publish_one p y) fs.1 f b' e'
          ∙ publish_last x (after store p y) (publish_one p y) f b' e')
      ∙ (ap ok (
            after_twice store p y x (
              one-PriceFits c L s S client program_id key1 key2 payer acct rest y store p fs.0 b e))
          ∙ sym (publish_last x store p f b e))
