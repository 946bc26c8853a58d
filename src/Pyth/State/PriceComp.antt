-- ===== src/Pyth/State/PriceComp.antt =====
-- pyth/src/state.rs: `impl PythPack for PriceComp`. Its two `PriceInfo`s are packed in place, each
-- into its own piece of the buffer.
use mathlib.Core.Path.{subst}
use solarium.Base.{ℕ, ◌≡◌, List, [], ◌∷◌, All, ok, panic, ok-injective, ◌>>=◌, >>=-eq-ok, arith}
use solarium.Pyth.Bytes.{IsByte}
use solarium.Pyth.Bytes.Pieces.{join, HasWidths}
use solarium.Pyth.Types.{Result, PriceComp, PriceCompFits, PriceInfoFits}
use solarium.Pyth.Crates.{Crates, CratesLaws}
use solarium.Pyth.Pack.{PythPack}
use solarium.Pyth.Pack.Fields.{read_fields, write_fields}
use solarium.Pyth.Pack.Laws.{PackLaws, unpack-layout_whole, layout-unpack_whole, pack_whole}
use solarium.Pyth.Pack.Structs.{StructLaws, struct-PackLaws}
use solarium.Pyth.State.PriceInfo

abbrev pub len : ℕ
len = 96

abbrev field_widths : List ℕ
field_widths = 32 ∷ PriceInfo.len ∷ PriceInfo.len ∷ []

module _ (c : Crates) where
  read : List (List ℕ) → Result PriceComp
  read (publisher ∷ agg ∷ latest ∷ []) = do
    agg ← PriceInfo.unpack_from_slice c agg
    latest ← PriceInfo.unpack_from_slice c latest
    ok (record { publisher = record { val = publisher }; agg = agg; latest = latest })
  read _ = panic

  unfoldable pub unpack_from_slice : List ℕ → Result PriceComp
  unfolding read read_fields PriceInfo.unpack_from_slice
  unpack_from_slice src = read_fields c len field_widths read src

  write : PriceComp → List (List ℕ) → Result (List (List ℕ))
  write self (pub_dst ∷ agg_dst ∷ latest_dst ∷ []) = do
    let pub_dst = self.publisher.val
    agg_dst ← PriceInfo.pack_into_slice c self.agg agg_dst
    latest_dst ← PriceInfo.pack_into_slice c self.latest latest_dst
    ok (pub_dst ∷ agg_dst ∷ latest_dst ∷ [])
  write self _ = panic

  unfoldable pub pack_into_slice : PriceComp → List ℕ → Result (List ℕ)
  unfolding write write_fields PriceInfo.pack_into_slice
  pack_into_slice self dst = write_fields c len field_widths (write self) dst

  abbrev pub price_comp : PythPack PriceComp
  price_comp = record {
    len = len;
    unpack_from_slice = unpack_from_slice;
    pack_into_slice = pack_into_slice;
  }

-- The layout of the 96 bytes.
abbrev pub pieces : PriceComp → List (List ℕ)
pieces p = p.publisher.val ∷ PriceInfo.layout p.agg ∷ PriceInfo.layout p.latest ∷ []

abbrev pub layout : PriceComp → List ℕ
layout p = join (pieces p)

module _ (c : Crates) (L : CratesLaws c) where
  info : PackLaws (PriceInfo.price_info c) PriceInfoFits PriceInfo.layout
  info = PriceInfo.price_info-PackLaws c L

  read-pieces : (p : PriceComp) → PriceCompFits p → read c (pieces p) ≡ ok p
  unfolding read
  read-pieces p f =
      rw (unpack-layout_whole info p.agg f.agg, unpack-layout_whole info p.latest f.latest)

  pieces-read :
      (ps : List (List ℕ)) (p : PriceComp)
      → HasWidths field_widths ps
      → All (All IsByte) ps
      → read c ps ≡ ok p
      → (pieces p ≡ ps) × PriceCompFits p
  unfolding read
  pieces-read (publisher ∷ agg ∷ latest ∷ []) p w b e =
      let (a, r, e) = >>=-eq-ok (PriceInfo.unpack_from_slice c agg) _ e in
      let (l, s, e) = >>=-eq-ok (PriceInfo.unpack_from_slice c latest) _ e in
      let ps : List (List ℕ) = publisher ∷ agg ∷ latest ∷ [] in
      let (la, fa) = layout-unpack_whole info a agg b.1.0 w.1.0 r in
      let (ll, fl) = layout-unpack_whole info l latest b.1.1.0 w.1.1.0 s in
      subst (λ (p : PriceComp). (pieces p ≡ ps) × PriceCompFits p) (ok-injective _ p e)
        (
          rw (la, ll),
          record { publisher = record { bytes = b.0; size = w.0 }; agg = fa; latest = fl },
        )
  pieces-read _ p w b e = cc

  write-pieces :
      (p : PriceComp) (ps : List (List ℕ))
      → PriceCompFits p
      → HasWidths field_widths ps
      → write c p ps ≡ ok (pieces p)
  unfolding write
  write-pieces p (publisher ∷ agg ∷ latest ∷ []) f w =
      rw (pack_whole info p.agg agg f.agg w.1.0, pack_whole info p.latest latest f.latest w.1.1.0)
  write-pieces p _ f w = ground arith

  struct_laws : StructLaws field_widths (read c) (write c) PriceCompFits pieces
  struct_laws = record {
    pieces-HasWidths = λ p f. (
      f.publisher.size,
      (info.length-layout p.agg f.agg, (info.length-layout p.latest f.latest, tt)),
    );
    pieces-AllBytes = λ p f. (
      f.publisher.bytes,
      (info.layout-IsByte p.agg f.agg, (info.layout-IsByte p.latest f.latest, tt)),
    );
    read-pieces = read-pieces;
    pieces-read = pieces-read;
    write-pieces = write-pieces;
  }

  -- `PriceComp` meets the laws of `PythPack` with the layout above.
  pub price_comp-PackLaws : PackLaws (price_comp c) PriceCompFits layout
  unfolding unpack_from_slice pack_into_slice
  price_comp-PackLaws = struct-PackLaws c L struct_laws
