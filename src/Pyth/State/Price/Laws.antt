-- ===== src/Pyth/State/Price/Laws.antt =====
-- `Price` is read and written as its layout says.
use mathlib.Core.Path.{subst}
use solarium.Base.{
  ℕ, ◌≡◌, List, [], ◌∷◌, All, ok, unwrap, unwrap-eq-ok, ok-injective, >>=-eq-ok, arith,
}
use solarium.Pyth.Bytes.{IsByte, from_le_bytes}
use solarium.Pyth.Bytes.RoundTrip
use solarium.Pyth.Bytes.Pieces.{HasWidths, bytes_at, width_at}
use solarium.Pyth.Types.{Price, PriceFits}
use solarium.Pyth.Crates.{Crates, CratesLaws}
use solarium.Pyth.Crates.Enums.{from_bytes-to_bytes, to_bytes-from_bytes, ptype_fits}
use solarium.Pyth.Pack.Laws.{PackLaws, unpack-layout_whole, layout-unpack_whole, pack_whole}
use solarium.Pyth.Pack.Structs.{StructLaws, struct-PackLaws}
use solarium.Pyth.State.PriceInfo
use solarium.Pyth.State.Ema
use solarium.Pyth.State.Price.{
  field_widths, read, write, unpack_from_slice, pack_into_slice, price, pieces, layout,
}
use solarium.Pyth.State.Price.Widths.{info, average, pieces-HasWidths, pieces-AllBytes}

module _ (c : Crates) (L : CratesLaws c) where
  read-pieces : (p : Price) → PriceFits p → read c (pieces p) ≡ ok p
  unfolding read
  read-pieces p f = rw (
    RoundTrip.from_le_bytes-to_le_bytes 4 p.magic f.magic,
    RoundTrip.from_le_bytes-to_le_bytes 4 p.ver f.ver,
    RoundTrip.from_le_bytes-to_le_bytes 4 p.atype f.atype,
    RoundTrip.from_le_bytes-to_le_bytes 4 p.size f.size,
    from_bytes-to_bytes L.ptype 4 p.ptype (ptype_fits p.ptype),
    RoundTrip.signed_from_le_bytes-signed_to_le_bytes 4 p.expo f.expo,
    RoundTrip.from_le_bytes-to_le_bytes 4 p.num f.num,
    RoundTrip.from_le_bytes-to_le_bytes 4 p.num_qt f.num_qt,
    RoundTrip.from_le_bytes-to_le_bytes 8 p.last_slot f.last_slot,
    RoundTrip.from_le_bytes-to_le_bytes 8 p.valid_slot f.valid_slot,
    unpack-layout_whole (average c L) p.twap f.twap,
    unpack-layout_whole (average c L) p.twac f.twac,
    RoundTrip.signed_from_le_bytes-signed_to_le_bytes 8 p.drv1 f.drv1,
    RoundTrip.signed_from_le_bytes-signed_to_le_bytes 8 p.drv2 f.drv2,
    RoundTrip.from_le_bytes-to_le_bytes 8 p.prev_slot f.prev_slot,
    RoundTrip.signed_from_le_bytes-signed_to_le_bytes 8 p.prev_price f.prev_price,
    RoundTrip.from_le_bytes-to_le_bytes 8 p.prev_conf f.prev_conf,
    RoundTrip.signed_from_le_bytes-signed_to_le_bytes 8 p.drv3 f.drv3,
    unpack-layout_whole (info c L) p.agg f.agg,
  )

  pieces-read :
      (ps : List (List ℕ)) (p : Price)
      → HasWidths field_widths ps
      → All (All IsByte) ps
      → read c ps ≡ ok p
      → (pieces p ≡ ps) × PriceFits p
  unfolding read
  pieces-read
        (magic ∷ ver ∷ atype ∷ size ∷ ptype ∷ expo ∷ num ∷ num_qt ∷ last_slot ∷ valid_slot ∷ twap
          ∷ twac ∷ drv1 ∷ drv2 ∷ prod ∷ next ∷ prev_slot ∷ prev_price ∷ prev_conf ∷ drv3 ∷ agg ∷ [])
        p w b e =
      let ps : List (List ℕ) =
        magic ∷ ver ∷ atype ∷ size ∷ ptype ∷ expo ∷ num ∷ num_qt ∷ last_slot ∷ valid_slot ∷ twap
        ∷ twac ∷ drv1 ∷ drv2 ∷ prod ∷ next ∷ prev_slot ∷ prev_price ∷ prev_conf ∷ drv3 ∷ agg ∷ [] in
      let b = bytes_at ps b in
      let w = width_at field_widths ps w in
      let (vptype, rptype, e) =
        >>=-eq-ok (unwrap (c.ptype.try_from_primitive (from_le_bytes ptype))) _ e in
      let (vtwap, rtwap, e) = >>=-eq-ok (Ema.unpack_from_slice c twap) _ e in
      let (ltwap, ftwap) = layout-unpack_whole (average c L) vtwap twap (b 10) (w 10) rtwap in
      let (vtwac, rtwac, e) = >>=-eq-ok (Ema.unpack_from_slice c twac) _ e in
      let (ltwac, ftwac) = layout-unpack_whole (average c L) vtwac twac (b 11) (w 11) rtwac in
      let (vagg, ragg, e) = >>=-eq-ok (PriceInfo.unpack_from_slice c agg) _ e in
      let (lagg, fagg) = layout-unpack_whole (info c L) vagg agg (b 20) (w 20) ragg in
      subst (λ (p : Price). (pieces p ≡ ps) × PriceFits p) (ok-injective _ p e)
        (
          rw (
            RoundTrip.to_le_bytes-from_le_bytes 4 magic (b 0) (w 0),
            RoundTrip.to_le_bytes-from_le_bytes 4 ver (b 1) (w 1),
            RoundTrip.to_le_bytes-from_le_bytes 4 atype (b 2) (w 2),
            RoundTrip.to_le_bytes-from_le_bytes 4 size (b 3) (w 3),
            to_bytes-from_bytes L.ptype 4 ptype vptype (b 4) (w 4) (unwrap-eq-ok _ vptype rptype),
            RoundTrip.signed_to_le_bytes-signed_from_le_bytes 4 expo (b 5) (w 5),
            RoundTrip.to_le_bytes-from_le_bytes 4 num (b 6) (w 6),
            RoundTrip.to_le_bytes-from_le_bytes 4 num_qt (b 7) (w 7),
            RoundTrip.to_le_bytes-from_le_bytes 8 last_slot (b 8) (w 8),
            RoundTrip.to_le_bytes-from_le_bytes 8 valid_slot (b 9) (w 9),
            ltwap,
            ltwac,
            RoundTrip.signed_to_le_bytes-signed_from_le_bytes 8 drv1 (b 12) (w 12),
            RoundTrip.signed_to_le_bytes-signed_from_le_bytes 8 drv2 (b 13) (w 13),
            RoundTrip.to_le_bytes-from_le_bytes 8 prev_slot (b 16) (w 16),
            RoundTrip.signed_to_le_bytes-signed_from_le_bytes 8 prev_price (b 17) (w 17),
            RoundTrip.to_le_bytes-from_le_bytes 8 prev_conf (b 18) (w 18),
            RoundTrip.signed_to_le_bytes-signed_from_le_bytes 8 drv3 (b 19) (w 19),
            lagg,
          ),
          record {
            magic = RoundTrip.from_le_bytes-IsUnsigned 4 magic (b 0) (w 0);
            ver = RoundTrip.from_le_bytes-IsUnsigned 4 ver (b 1) (w 1);
            atype = RoundTrip.from_le_bytes-IsUnsigned 4 atype (b 2) (w 2);
            size = RoundTrip.from_le_bytes-IsUnsigned 4 size (b 3) (w 3);
            expo = RoundTrip.signed_from_le_bytes-IsSigned 4 expo (b 5) (w 5);
            num = RoundTrip.from_le_bytes-IsUnsigned 4 num (b 6) (w 6);
            num_qt = RoundTrip.from_le_bytes-IsUnsigned 4 num_qt (b 7) (w 7);
            last_slot = RoundTrip.from_le_bytes-IsUnsigned 8 last_slot (b 8) (w 8);
            valid_slot = RoundTrip.from_le_bytes-IsUnsigned 8 valid_slot (b 9) (w 9);
            twap = ftwap;
            twac = ftwac;
            drv1 = RoundTrip.signed_from_le_bytes-IsSigned 8 drv1 (b 12) (w 12);
            drv2 = RoundTrip.signed_from_le_bytes-IsSigned 8 drv2 (b 13) (w 13);
            prod = record { bytes = b 14; size = w 14 };
            next = record { bytes = b 15; size = w 15 };
            prev_slot = RoundTrip.from_le_bytes-IsUnsigned 8 prev_slot (b 16) (w 16);
            prev_price = RoundTrip.signed_from_le_bytes-IsSigned 8 prev_price (b 17) (w 17);
            prev_conf = RoundTrip.from_le_bytes-IsUnsigned 8 prev_conf (b 18) (w 18);
            drv3 = RoundTrip.signed_from_le_bytes-IsSigned 8 drv3 (b 19) (w 19);
            agg = fagg;
          },
        )
  pieces-read _ p w b e = cc

  write-pieces :
      (p : Price) (ps : List (List ℕ))
      → PriceFits p
      → HasWidths field_widths ps
      → write c p ps ≡ ok (pieces p)
  unfolding write
  write-pieces p
        (magic ∷ ver ∷ atype ∷ size ∷ ptype ∷ expo ∷ num ∷ num_qt ∷ last_slot ∷ valid_slot ∷ twap
          ∷ twac ∷ drv1 ∷ drv2 ∷ prod ∷ next ∷ prev_slot ∷ prev_price ∷ prev_conf ∷ drv3 ∷ agg ∷ [])
        f w =
      let w =
        width_at field_widths
          (magic ∷ ver ∷ atype ∷ size ∷ ptype ∷ expo ∷ num ∷ num_qt ∷ last_slot ∷ valid_slot ∷ twap
            ∷ twac ∷ drv1 ∷ drv2 ∷ prod ∷ next ∷ prev_slot ∷ prev_price ∷ prev_conf ∷ drv3 ∷ agg
            ∷ [])
          w in
      rw (
        L.ptype.into_lem p.ptype,
        pack_whole (average c L) p.twap twap f.twap (w 10),
        pack_whole (average c L) p.twac twac f.twac (w 11),
        pack_whole (info c L) p.agg agg f.agg (w 20),
      )
  write-pieces p _ f w = ground arith

  struct_laws : StructLaws field_widths (read c) (write c) PriceFits pieces
  struct_laws = record {
    pieces-HasWidths = pieces-HasWidths c L;
    pieces-AllBytes = pieces-AllBytes c L;
    read-pieces = read-pieces;
    pieces-read = pieces-read;
    write-pieces = write-pieces;
  }

  -- `Price` meets the laws of `PythPack` with the layout of its parent.
  pub price-PackLaws : PackLaws (price c) PriceFits layout
  unfolding unpack_from_slice pack_into_slice
  price-PackLaws = struct-PackLaws c L struct_laws
