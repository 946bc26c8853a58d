-- ===== src/Pyth/Crates/Enums.antt =====
-- An enum that num_enum derives, written as a `u32` and read again.
use solarium.Base.{ℕ, ◌≡◌, ◌∙◌, ap, some, List, length, All, arith}
use solarium.Pyth.Bytes.{IsByte, IsUnsigned, to_le_bytes, from_le_bytes}
use solarium.Pyth.Bytes.RoundTrip.{from_le_bytes-to_le_bytes, to_le_bytes-from_le_bytes}
use solarium.Pyth.Types.{
  PriceStatus, CorpAction, PriceType, status_discriminant, corp_act_discriminant,
  ptype_discriminant,
}
use solarium.Pyth.Crates.{NumEnum, NumEnumLaws}

module _ {T : Type 0} {discriminant : T → ℕ} {e : NumEnum T} (L : NumEnumLaws discriminant e)
    (w : ℕ) where
  pub from_bytes-to_bytes :
      (v : T)
      → IsUnsigned w (discriminant v)
      → e.try_from_primitive (from_le_bytes (to_le_bytes w (discriminant v))) ≡ some v
  from_bytes-to_bytes v h =
      rw (from_le_bytes-to_le_bytes w (discriminant v) h) (L.from_discriminant v)

  pub to_bytes-from_bytes :
      (bs : List ℕ) (v : T)
      → All IsByte bs
      → length bs ≡ w
      → e.try_from_primitive (from_le_bytes bs) ≡ some v
      → to_le_bytes w (discriminant v) ≡ bs
  to_bytes-from_bytes bs v b h p =
      ap (to_le_bytes w) (L.from_some (from_le_bytes bs) v p) ∙ to_le_bytes-from_le_bytes w bs b h

pub status_fits : (s : PriceStatus) → IsUnsigned 4 (status_discriminant s)
status_fits PriceStatus.unknown = omega arith
status_fits PriceStatus.trading = omega arith
status_fits PriceStatus.halted = omega arith
status_fits PriceStatus.auction = omega arith

pub corp_act_fits : (a : CorpAction) → IsUnsigned 4 (corp_act_discriminant a)
corp_act_fits CorpAction.no_corp_act = omega arith

pub ptype_fits : (t : PriceType) → IsUnsigned 4 (ptype_discriminant t)
ptype_fits PriceType.unknown = omega arith
ptype_fits PriceType.price = omega arith
