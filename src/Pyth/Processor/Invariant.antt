-- ===== src/Pyth/Processor/Invariant.antt =====
-- Any number of runs of `process`, by anybody, on any accounts and payloads.
use solarium.Base.{
  ℕ, ◌≡◌, refl, sym, ap, ◌∙◌, subst, List, ◌++◌, length, length-append, All, All-append, Option, ok,
  Bool-cases, inl, inr, ◌==◌, ==-refl, true, false, arith,
}
use solarium.Pyth.Bytes.{IsByte}
use solarium.Pyth.Types.{Price, PriceFits}
use solarium.Pyth.Crates.{Crates, CratesLaws}
use solarium.Pyth.Pack.Laws.{PackLaws}
use solarium.Pyth.State.Price.{unpack_from_slice, layout, price}
use solarium.Pyth.State.Price.Laws.{price-PackLaws}
use solarium.Pyth.Processor.{process}
use solarium.Pyth.Processor.CreatePriceAccount.{PythClient}
use solarium.Pyth.Processor.CreatePriceAccount.Initial.{PythClientLaws}
use solarium.Pyth.Processor.Written.{
  ClockFits, Replaced, Written, unchanged, replaced, process-Written,
}
use solarium.Solana.{SolanaProgram, SolanaProgramLaws, Store}

-- The price program over its life: what the runtime makes of it. A run that fails or panics leaves
-- the accounts as they were.
module _ (c : Crates) (s : SolanaProgram) (client : PythClient) where
  pub data Step (before after : Store) : Type 0 where
    run :
        (clock : Option ℕ) (program_id : s.Pubkey) (accounts : List s.AccountInfo)
        (payload : List ℕ)
        → ClockFits clock
        → All IsByte payload
        → process c s client clock program_id accounts payload before ≡ ok after
        → Step before after

  pub data Reaches (start : Store) : Store → Type 0 where
    here : Reaches start start
    later :
        {between after : Store} → Reaches start between → Step between after → Reaches start after

-- The accounts hold bytes.
abbrev pub HoldsBytes : Store → Type 0
HoldsBytes store = (cell : ℕ) → All IsByte (store cell)

module _ (c : Crates) where
  -- An account that reads as a price.
  abbrev pub HoldsPrice : Store → ℕ → Type 0
  HoldsPrice store cell = (p : Price) × (unpack_from_slice c (store cell) ≡ ok p)

  -- What no run destroys.
  pub record Kept (before after : Store) : Type 0 where
    pub bytes : HoldsBytes after
    pub lengths : (cell : ℕ) → length (after cell) ≡ length (before cell)
    pub prices : (cell : ℕ) → HoldsPrice before cell → HoldsPrice after cell

module _ (c : Crates) (L : CratesLaws c) (s : SolanaProgram) (S : SolanaProgramLaws s)
    (client : PythClient) (K : PythClientLaws client) where
  module _ (store after : Store) (cell : ℕ) (r : Replaced store after cell) where
    buffer : List ℕ
    buffer = layout r.price ++ r.behind

    here_lem : after cell ≡ layout r.price ++ r.behind
    here_lem = ap (λ (f : Store). f cell) r.after_lem ∙ (rw (==-refl cell))

    there_lem : (other : ℕ) → (cell == other) ≡ false → after other ≡ store other
    there_lem other differ = ap (λ (f : Store). f other) r.after_lem ∙ rw differ

    same_cell : (other : ℕ) → (cell == other) ≡ true → cell ≡ other
    same_cell other e = ground arith

    laws : PackLaws (price c) PriceFits layout
    laws = price-PackLaws c L

    by_cell :
        (P : List ℕ → Type 0) (other : ℕ)
        → P (layout r.price ++ r.behind)
        → P (store other)
        → P (after other)
    by_cell P other new old = elim (Bool-cases (cell == other)) [
      | inl same ↦ subst (λ n. P (after n)) (same_cell other same) (subst P (sym here_lem) new)
      | inr differ ↦ subst P (sym (there_lem other differ)) old
    ]

    length_kept : (other : ℕ) → length (after other) ≡ length (store other)
    length_kept other = elim (Bool-cases (cell == other)) [
      | inl same ↦
          subst (λ n. length (after n) ≡ length (store n)) (same_cell other same)
            (ap length here_lem
              ∙ omega (
                arith,
                length-append (layout r.price) r.behind,
                laws.length-layout r.price r.fits,
                r.length_lem,
              ))
      | inr differ ↦ ap length (there_lem other differ)
    ]

    replaced-Kept : HoldsBytes store → Kept c store after
    replaced-Kept bytes = record {
      bytes = λ other.
          by_cell (All IsByte) other
            (All-append IsByte (layout r.price) r.behind (laws.layout-IsByte r.price r.fits)
              r.behind_lem)
            (bytes other);
      lengths = length_kept;
      prices = λ other held.
          by_cell (λ b. (p : Price) × (unpack_from_slice c b ≡ ok p)) other
            (r.price, laws.unpack-layout r.price r.behind r.fits) held;
    }

  Written-Kept : (store after : Store) → HoldsBytes store → Written store after → Kept c store after
  Written-Kept store after bytes (unchanged e) =
      subst (Kept c store) e
        (record { bytes = bytes; lengths = λ cell. refl; prices = λ cell held. held })
  Written-Kept store after bytes (replaced cell r) = replaced-Kept store after cell r bytes

  Step-Kept :
      (store after : Store) → HoldsBytes store → Step c s client store after → Kept c store after
  Step-Kept store after bytes (run clock program_id accounts payload fits b e) =
      Written-Kept store after bytes (
        process-Written c L s S client K clock fits program_id store after bytes accounts payload b
          e)

  -- Whatever runs of the price program lead from a store of bytes to another store, with any program
  -- ids, accounts, clocks whose slot is a u64, and payloads of bytes: every account keeps its length
  -- and holds bytes, and an account that read as a price before still reads as a price.
  pub Reaches-Kept :
      (start after : Store) → HoldsBytes start → Reaches c s client start after → Kept c start after
  Reaches-Kept start _ bytes here = record {
    bytes = bytes;
    lengths = λ cell. refl;
    prices = λ cell held. held;
  }
  Reaches-Kept start _ bytes (later {between} {after} reached step) =
      let before = Reaches-Kept start between bytes reached in
      let last = Step-Kept between after before.bytes step in
      record {
        bytes = last.bytes;
        lengths = λ cell. last.lengths cell ∙ before.lengths cell;
        prices = λ cell held. last.prices cell (before.prices cell held);
      }
