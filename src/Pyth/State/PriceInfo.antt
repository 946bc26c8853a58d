-- ===== src/Pyth/State/PriceInfo.antt =====
-- pyth/src/state.rs: `impl PythPack for PriceInfo`.
use solarium.Base.{
  ℕ, ◌≡◌, List, [], ◌∷◌, All, ok, panic, unwrap, unwrap-eq-ok, ok-injective, ◌>>=◌, >>=-eq-ok,
  arith,
}
use solarium.Pyth.Bytes.{
  IsByte, to_le_bytes, from_le_bytes, signed_to_le_bytes, signed_from_le_bytes,
}
use mathlib.Core.Path.{subst}
use solarium.Pyth.Bytes.RoundTrip
use solarium.Pyth.Bytes.Pieces.{join, HasWidths}
use solarium.Pyth.Types.{
  Result, PriceInfo, PriceInfoFits, status_discriminant, corp_act_discriminant,
}
use solarium.Pyth.Crates.{Crates, CratesLaws}
use solarium.Pyth.Crates.Enums.{
  from_bytes-to_bytes, to_bytes-from_bytes, status_fits, corp_act_fits,
}
use solarium.Pyth.Pack.{PythPack}
use solarium.Pyth.Pack.Fields.{read_fields, write_fields}
use solarium.Pyth.Pack.Laws.{PackLaws}
use solarium.Pyth.Pack.Structs.{StructLaws, struct-PackLaws}

abbrev pub len : ℕ
len = 32

abbrev field_widths : List ℕ
field_widths = 8 ∷ 8 ∷ 4 ∷ 4 ∷ 8 ∷ []

module _ (c : Crates) where
  unfoldable pub read : List (List ℕ) → Result PriceInfo
  read (price ∷ conf ∷ status ∷ corp_act ∷ pub_slot ∷ []) = do
    let price = signed_from_le_bytes 8 price
    let conf = from_le_bytes conf
    status ← unwrap (c.status.try_from_primitive (from_le_bytes status))
    corp_act ← unwrap (c.corp_act.try_from_primitive (from_le_bytes corp_act))
    let pub_slot = from_le_bytes pub_slot
    ok (record {
      price = price;
      conf = conf;
      status = status;
      corp_act = corp_act;
      pub_slot = pub_slot;
    })
  read _ = panic

  unfoldable pub unpack_from_slice : List ℕ → Result PriceInfo
  unfolding read read_fields from_le_bytes signed_from_le_bytes
  unpack_from_slice src = read_fields c len field_widths read src

  unfoldable pub write : PriceInfo → List (List ℕ) → Result (List (List ℕ))
  write self (price_dst ∷ conf_dst ∷ status_dst ∷ corp_act_dst ∷ pub_slot_dst ∷ []) = do
    let price_dst = signed_to_le_bytes 8 self.price
    let conf_dst = to_le_bytes 8 self.conf
    let status_prim = c.status.into_primitive self.status
    let status_dst = to_le_bytes 4 status_prim
    let ca_prim = c.corp_act.into_primitive self.corp_act
    let corp_act_dst = to_le_bytes 4 ca_prim
    let pub_slot_dst = to_le_bytes 8 self.pub_slot
    ok (price_dst ∷ conf_dst ∷ status_dst ∷ corp_act_dst ∷ pub_slot_dst ∷ [])
  write self _ = panic

  unfoldable pub pack_into_slice : PriceInfo → List ℕ → Result (List ℕ)
  unfolding write write_fields to_le_bytes signed_to_le_bytes
  pack_into_slice self dst = write_fields c len field_widths (write self) dst

  abbrev pub price_info : PythPack PriceInfo
  price_info = record {
    len = len;
    unpack_from_slice = unpack_from_slice;
    pack_into_slice = pack_into_slice;
  }

-- The layout of the 32 bytes.
abbrev pub pieces : PriceInfo → List (List ℕ)
pieces i =
    signed_to_le_bytes 8 i.price
    ∷ to_le_bytes 8 i.conf
    ∷ to_le_bytes 4 (status_discriminant i.status)
    ∷ to_le_bytes 4 (corp_act_discriminant i.corp_act)
    ∷ to_le_bytes 8 i.pub_slot
    ∷ []

abbrev pub layout : PriceInfo → List ℕ
layout i = join (pieces i)

module _ (c : Crates) (L : CratesLaws c) where
  read-pieces : (i : PriceInfo) → PriceInfoFits i → read c (pieces i) ≡ ok i
  unfolding read
  read-pieces i f =
      rw
        (
          RoundTrip.signed_from_le_bytes-signed_to_le_bytes 8 i.price f.price,
          RoundTrip.from_le_bytes-to_le_bytes 8 i.conf f.conf,
          RoundTrip.from_le_bytes-to_le_bytes 8 i.pub_slot f.pub_slot,
          from_bytes-to_bytes L.status 4 i.status (status_fits i.status),
        )
        (rw (from_bytes-to_bytes L.corp_act 4 i.corp_act (corp_act_fits i.corp_act)))

  pieces-read :
      (ps : List (List ℕ)) (i : PriceInfo)
      → HasWidths field_widths ps
      → All (All IsByte) ps
      → read c ps ≡ ok i
      → (pieces i ≡ ps) × PriceInfoFits i
  unfolding read
  pieces-read (price ∷ conf ∷ status ∷ corp_act ∷ pub_slot ∷ []) i w b e =
      let (s, p, e) = >>=-eq-ok (unwrap (c.status.try_from_primitive (from_le_bytes status))) _ e in
      let (a, q, e) =
        >>=-eq-ok (unwrap (c.corp_act.try_from_primitive (from_le_bytes corp_act))) _ e in
      let ps : List (List ℕ) = price ∷ conf ∷ status ∷ corp_act ∷ pub_slot ∷ [] in
      subst (λ (i : PriceInfo). (pieces i ≡ ps) × PriceInfoFits i) (ok-injective _ i e)
        (
          rw (
            RoundTrip.signed_to_le_bytes-signed_from_le_bytes 8 price b.0 w.0,
            RoundTrip.to_le_bytes-from_le_bytes 8 conf b.1.0 w.1.0,
            to_bytes-from_bytes L.status 4 status s b.1.1.0 w.1.1.0 (unwrap-eq-ok _ s p),
            to_bytes-from_bytes L.corp_act 4 corp_act a b.1.1.1.0 w.1.1.1.0 (unwrap-eq-ok _ a q),
            RoundTrip.to_le_bytes-from_le_bytes 8 pub_slot b.1.1.1.1.0 w.1.1.1.1.0,
          ),
          record {
            price = RoundTrip.signed_from_le_bytes-IsSigned 8 price b.0 w.0;
            conf = RoundTrip.from_le_bytes-IsUnsigned 8 conf b.1.0 w.1.0;
            pub_slot = RoundTrip.from_le_bytes-IsUnsigned 8 pub_slot b.1.1.1.1.0 w.1.1.1.1.0;
          },
        )
  pieces-read _ i w b e = cc

  write-pieces :
      (i : PriceInfo) (ps : List (List ℕ))
      → PriceInfoFits i
      → HasWidths field_widths ps
      → write c i ps ≡ ok (pieces i)
  unfolding write
  write-pieces i (price ∷ conf ∷ status ∷ corp_act ∷ pub_slot ∷ []) f w =
      rw (L.status.into_lem i.status, L.corp_act.into_lem i.corp_act)
  write-pieces i _ f w = ground arith

  struct_laws : StructLaws field_widths (read c) (write c) PriceInfoFits pieces
  unfolding write
  struct_laws = record {
    pieces-HasWidths =
        λ i f. omega (arith, RoundTrip.length-to_le_bytes, RoundTrip.length-signed_to_le_bytes);
    pieces-AllBytes = λ i f. (
      RoundTrip.signed_to_le_bytes-IsByte 8 i.price,
      (
        RoundTrip.to_le_bytes-IsByte 8 i.conf,
        (
          RoundTrip.to_le_bytes-IsByte 4 (status_discriminant i.status),
          (
            RoundTrip.to_le_bytes-IsByte 4 (corp_act_discriminant i.corp_act),
            (RoundTrip.to_le_bytes-IsByte 8 i.pub_slot, tt),
          ),
        ),
      ),
    );
    read-pieces = read-pieces;
    pieces-read = pieces-read;
    write-pieces = write-pieces;
  }

  -- `PriceInfo` meets the laws of `PythPack` with the layout above.
  pub price_info-PackLaws : PackLaws (price_info c) PriceInfoFits layout
  unfolding unpack_from_slice pack_into_slice
  price_info-PackLaws = struct-PackLaws c L struct_laws
