-- ===== src/Pyth/State/Price.antt =====
-- pyth/src/state.rs: `impl PythPack for Price`.
pub mod Widths
pub mod Laws
use solarium.Base.{ℕ, List, [], ◌∷◌, ok, panic, unwrap, ◌>>=◌}
use solarium.Pyth.Bytes.{to_le_bytes, from_le_bytes, signed_to_le_bytes, signed_from_le_bytes}
use solarium.Pyth.Bytes.Pieces.{join}
use solarium.Pyth.Types.{Result, Price, ptype_discriminant}
use solarium.Pyth.Crates.{Crates}
use solarium.Pyth.Pack.{PythPack}
use solarium.Pyth.Pack.Fields.{read_fields, write_fields}
use solarium.Pyth.State.PriceInfo
use solarium.Pyth.State.Ema

abbrev pub len : ℕ
len = 240

abbrev pub field_widths : List ℕ
field_widths =
    4 ∷ 4 ∷ 4 ∷ 4 ∷ 4 ∷ 4 ∷ 4 ∷ 4 ∷ 8 ∷ 8 ∷ Ema.len ∷ Ema.len ∷ 8 ∷ 8 ∷ 32 ∷ 32 ∷ 8 ∷ 8 ∷ 8 ∷ 8
    ∷ PriceInfo.len ∷ []

module _ (c : Crates) where
  unfoldable pub read : List (List ℕ) → Result Price
  read
        (magic ∷ ver ∷ atype ∷ size ∷ ptype ∷ expo ∷ num ∷ num_qt ∷ last_slot ∷ valid_slot ∷ twap
          ∷ twac ∷ drv1 ∷ drv2 ∷ prod ∷ next ∷ prev_slot ∷ prev_price ∷ prev_conf ∷ drv3 ∷ agg
          ∷ []) =
      do
        let magic = from_le_bytes magic
        let ver = from_le_bytes ver
        let atype = from_le_bytes atype
        let size = from_le_bytes size
        ptype ← unwrap (c.ptype.try_from_primitive (from_le_bytes ptype))
        let expo = signed_from_le_bytes 4 expo
        let num = from_le_bytes num
        let num_qt = from_le_bytes num_qt
        let last_slot = from_le_bytes last_slot
        let valid_slot = from_le_bytes valid_slot
        twap ← Ema.unpack_from_slice c twap
        twac ← Ema.unpack_from_slice c twac
        let drv1 = signed_from_le_bytes 8 drv1
        let drv2 = signed_from_le_bytes 8 drv2
        let prev_slot = from_le_bytes prev_slot
        let prev_price = signed_from_le_bytes 8 prev_price
        let prev_conf = from_le_bytes prev_conf
        let drv3 = signed_from_le_bytes 8 drv3
        agg ← PriceInfo.unpack_from_slice c agg
        ok (record {
          magic = magic;
          ver = ver;
          atype = atype;
          size = size;
          ptype = ptype;
          expo = expo;
          num = num;
          num_qt = num_qt;
          last_slot = last_slot;
          valid_slot = valid_slot;
          twap = twap;
          twac = twac;
          drv1 = drv1;
          drv2 = drv2;
          prod = record { val = prod };
          next = record { val = next };
          prev_slot = prev_slot;
          prev_price = prev_price;
          prev_conf = prev_conf;
          drv3 = drv3;
          agg = agg;
        })
  read _ = panic

  unfoldable pub unpack_from_slice : List ℕ → Result Price
  unfolding read read_fields from_le_bytes signed_from_le_bytes Ema.unpack_from_slice
      PriceInfo.unpack_from_slice
  unpack_from_slice src = read_fields c len field_widths read src

  unfoldable pub write : Price → List (List ℕ) → Result (List (List ℕ))
  write self
        (magic_dst ∷ ver_dst ∷ atype_dst ∷ size_dst ∷ ptype_dst ∷ expo_dst ∷ num_dst ∷ num_qt_dst
          ∷ last_slot_dst ∷ valid_slot_dst ∷ twap_dst ∷ twac_dst ∷ drv1_dst ∷ drv2_dst ∷ prod_dst
          ∷ next_dst ∷ prev_slot_dst ∷ prev_price_dst ∷ prev_conf_dst ∷ drv3_dst ∷ agg_dst ∷ []) =
      do
        let magic_dst = to_le_bytes 4 self.magic
        let ver_dst = to_le_bytes 4 self.ver
        let atype_dst = to_le_bytes 4 self.atype
        let size_dst = to_le_bytes 4 self.size
        let ptype_it = c.ptype.into_primitive self.ptype
        let ptype_dst = to_le_bytes 4 ptype_it
        let expo_dst = signed_to_le_bytes 4 self.expo
        let num_dst = to_le_bytes 4 self.num
        let num_qt_dst = to_le_bytes 4 self.num_qt
        let last_slot_dst = to_le_bytes 8 self.last_slot
        let valid_slot_dst = to_le_bytes 8 self.valid_slot
        twap_dst ← Ema.pack_into_slice c self.twap twap_dst
        twac_dst ← Ema.pack_into_slice c self.twac twac_dst
        let drv1_dst = signed_to_le_bytes 8 self.drv1
        let drv2_dst = signed_to_le_bytes 8 self.drv2
        let prod_dst = self.prod.val
        let next_dst = self.next.val
        let prev_slot_dst = to_le_bytes 8 self.prev_slot
        let prev_price_dst = signed_to_le_bytes 8 self.prev_price
        let prev_conf_dst = to_le_bytes 8 self.prev_conf
        let drv3_dst = signed_to_le_bytes 8 self.drv3
        agg_dst ← PriceInfo.pack_into_slice c self.agg agg_dst
        ok (
            magic_dst ∷ ver_dst ∷ atype_dst ∷ size_dst ∷ ptype_dst ∷ expo_dst ∷ num_dst ∷ num_qt_dst
            ∷ last_slot_dst ∷ valid_slot_dst ∷ twap_dst ∷ twac_dst ∷ drv1_dst ∷ drv2_dst ∷ prod_dst
            ∷ next_dst ∷ prev_slot_dst ∷ prev_price_dst ∷ prev_conf_dst ∷ drv3_dst ∷ agg_dst ∷ [])
  write self _ = panic

  unfoldable pub pack_into_slice : Price → List ℕ → Result (List ℕ)
  unfolding write write_fields to_le_bytes signed_to_le_bytes Ema.pack_into_slice
      PriceInfo.pack_into_slice
  pack_into_slice self dst = write_fields c len field_widths (write self) dst

  abbrev pub price : PythPack Price
  price = record {
    len = len;
    unpack_from_slice = unpack_from_slice;
    pack_into_slice = pack_into_slice;
  }

-- The layout of the 240 bytes.
abbrev pub pieces : Price → List (List ℕ)
pieces p =
    to_le_bytes 4 p.magic
    ∷ to_le_bytes 4 p.ver
    ∷ to_le_bytes 4 p.atype
    ∷ to_le_bytes 4 p.size
    ∷ to_le_bytes 4 (ptype_discriminant p.ptype)
    ∷ signed_to_le_bytes 4 p.expo
    ∷ to_le_bytes 4 p.num
    ∷ to_le_bytes 4 p.num_qt
    ∷ to_le_bytes 8 p.last_slot
    ∷ to_le_bytes 8 p.valid_slot
    ∷ Ema.layout p.twap
    ∷ Ema.layout p.twac
    ∷ signed_to_le_bytes 8 p.drv1
    ∷ signed_to_le_bytes 8 p.drv2
    ∷ p.prod.val
    ∷ p.next.val
    ∷ to_le_bytes 8 p.prev_slot
    ∷ signed_to_le_bytes 8 p.prev_price
    ∷ to_le_bytes 8 p.prev_conf
    ∷ signed_to_le_bytes 8 p.drv3
    ∷ PriceInfo.layout p.agg
    ∷ []

abbrev pub layout : Price → List ℕ
layout p = join (pieces p)
