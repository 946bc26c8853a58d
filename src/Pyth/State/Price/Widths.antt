-- ===== src/Pyth/State/Price/Widths.antt =====
-- The widths of the fields in the layout of `Price`, and that they hold bytes.
use solarium.Base.{All}
use solarium.Pyth.Bytes.{IsByte}
use solarium.Pyth.Bytes.RoundTrip
use solarium.Pyth.Bytes.Pieces.{HasWidths, ◌&◌}
use solarium.Pyth.Types.{Price, PriceFits, PriceInfoFits, EmaFits, ptype_discriminant}
use solarium.Pyth.Crates.{Crates, CratesLaws}
use solarium.Pyth.Pack.Laws.{PackLaws}
use solarium.Pyth.State.PriceInfo
use solarium.Pyth.State.Ema
use solarium.Pyth.State.Price.{field_widths, pieces}

module _ (c : Crates) (L : CratesLaws c) where
  pub info : PackLaws (PriceInfo.price_info c) PriceInfoFits PriceInfo.layout
  info = PriceInfo.price_info-PackLaws c L

  pub average : PackLaws (Ema.ema c) EmaFits Ema.layout
  average = Ema.ema-PackLaws c L

  pub pieces-HasWidths : (p : Price) → PriceFits p → HasWidths field_widths (pieces p)
  pieces-HasWidths p f =
      RoundTrip.length-to_le_bytes 4 p.magic
      & RoundTrip.length-to_le_bytes 4 p.ver
      & RoundTrip.length-to_le_bytes 4 p.atype
      & RoundTrip.length-to_le_bytes 4 p.size
      & RoundTrip.length-to_le_bytes 4 (ptype_discriminant p.ptype)
      & RoundTrip.length-signed_to_le_bytes 4 p.expo
      & RoundTrip.length-to_le_bytes 4 p.num
      & RoundTrip.length-to_le_bytes 4 p.num_qt
      & RoundTrip.length-to_le_bytes 8 p.last_slot
      & RoundTrip.length-to_le_bytes 8 p.valid_slot
      & average.length-layout p.twap f.twap
      & average.length-layout p.twac f.twac
      & RoundTrip.length-signed_to_le_bytes 8 p.drv1
      & RoundTrip.length-signed_to_le_bytes 8 p.drv2
      & f.prod.size
      & f.next.size
      & RoundTrip.length-to_le_bytes 8 p.prev_slot
      & RoundTrip.length-signed_to_le_bytes 8 p.prev_price
      & RoundTrip.length-to_le_bytes 8 p.prev_conf
      & RoundTrip.length-signed_to_le_bytes 8 p.drv3
      & info.length-layout p.agg f.agg
      & tt

  pub pieces-AllBytes : (p : Price) → PriceFits p → All (All IsByte) (pieces p)
  pieces-AllBytes p f =
      RoundTrip.to_le_bytes-IsByte 4 p.magic
      & RoundTrip.to_le_bytes-IsByte 4 p.ver
      & RoundTrip.to_le_bytes-IsByte 4 p.atype
      & RoundTrip.to_le_bytes-IsByte 4 p.size
      & RoundTrip.to_le_bytes-IsByte 4 (ptype_discriminant p.ptype)
      & RoundTrip.signed_to_le_bytes-IsByte 4 p.expo
      & RoundTrip.to_le_bytes-IsByte 4 p.num
      & RoundTrip.to_le_bytes-IsByte 4 p.num_qt
      & RoundTrip.to_le_bytes-IsByte 8 p.last_slot
      & RoundTrip.to_le_bytes-IsByte 8 p.valid_slot
      & average.layout-IsByte p.twap f.twap
      & average.layout-IsByte p.twac f.twac
      & RoundTrip.signed_to_le_bytes-IsByte 8 p.drv1
      & RoundTrip.signed_to_le_bytes-IsByte 8 p.drv2
      & f.prod.bytes
      & f.next.bytes
      & RoundTrip.to_le_bytes-IsByte 8 p.prev_slot
      & RoundTrip.signed_to_le_bytes-IsByte 8 p.prev_price
      & RoundTrip.to_le_bytes-IsByte 8 p.prev_conf
      & RoundTrip.signed_to_le_bytes-IsByte 8 p.drv3
      & info.layout-IsByte p.agg f.agg
      & tt
