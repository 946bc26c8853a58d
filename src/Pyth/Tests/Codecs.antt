-- ===== src/Pyth/Tests/Codecs.antt =====
-- The theorems on codecs at concrete inputs.
use solarium.Base.{◌≡◌, refl, [], ◌∷◌, ◌++◌, drop, true, false, ok, panic, arith}
use solarium.Base.Int.{pos, negsuc}
use solarium.Pyth.Bytes.{signed_to_le_bytes, signed_from_le_bytes, zeros}
use solarium.Pyth.Bytes.Slices.{length-zeros}
use solarium.Pyth.Bytes.RoundTrip.{signed_from_le_bytes-signed_to_le_bytes}
use solarium.Pyth.Types.{
  PriceInfo, PriceInfoFits, PriceCompFits, EmaFits, PriceFits, PriceStatus, CorpAction,
  PublishPriceInstruction,
}
use solarium.Pyth.Crates.Documented.{documented, documented-CratesLaws}
use solarium.Pyth.Pack.{
  pack_items_into_slice, unpack_items_from_slice, unpack_instruction, pack_instruction,
}
use solarium.Pyth.Pack.Laws.{PackLaws}
use solarium.Pyth.Pack.Items
use solarium.Pyth.Pack.Messages
use solarium.Pyth.State.PriceInfo
use solarium.Pyth.State.Ema
use solarium.Pyth.State.PriceComp
use solarium.Pyth.State.Price
use solarium.Pyth.State.Price.Laws.{price-PackLaws}
use solarium.Pyth.Instruction.{publish_price, publish_price_instruction, publish_layout}
use solarium.Pyth.Instruction.Laws.{publish_price_lem, publish_price-PackLaws}
use solarium.Pyth.Tests.{solana}

abbrev info : PriceInfo
info = record {
  price = negsuc 4;
  conf = 300;
  status = PriceStatus.halted;
  corp_act = CorpAction.no_corp_act;
  pub_slot = 7;
}

info-fits : PriceInfoFits info
info-fits = omega arith

-- -5, 300, halted, no action, slot 7.
info_bytes :
    PriceInfo.pack_into_slice documented info (zeros 33)
    ≡ ok (
        0xfb ∷ 0xff ∷ 0xff ∷ 0xff ∷ 0xff ∷ 0xff ∷ 0xff ∷ 0xff ∷ 0x2c ∷ 1 ∷ 0 ∷ 0 ∷ 0 ∷ 0 ∷ 0 ∷ 0 ∷ 2
        ∷ 0 ∷ 0 ∷ 0 ∷ 0 ∷ 0 ∷ 0 ∷ 0 ∷ 7 ∷ 0 ∷ 0 ∷ 0 ∷ 0 ∷ 0 ∷ 0 ∷ 0 ∷ 0 ∷ [])
unfolding PriceInfo.pack_into_slice zeros
info_bytes = refl

-- A status that is no `PriceStatus` is a panic.
unknown_status : PriceInfo.unpack_from_slice documented (zeros 16 ++ (4 ∷ zeros 15)) ≡ panic
unfolding PriceInfo.unpack_from_slice zeros
unknown_status = refl

price-PackLaws_example : PackLaws (Price.price documented) PriceFits Price.layout
price-PackLaws_example = price-PackLaws documented documented-CratesLaws

price_comp-PackLaws_example :
    PackLaws (PriceComp.price_comp documented) PriceCompFits PriceComp.layout
price_comp-PackLaws_example = PriceComp.price_comp-PackLaws documented documented-CratesLaws

price_info-PackLaws_example :
    PackLaws (PriceInfo.price_info documented) PriceInfoFits PriceInfo.layout
price_info-PackLaws_example = PriceInfo.price_info-PackLaws documented documented-CratesLaws

ema-PackLaws_example : PackLaws (Ema.ema documented) EmaFits Ema.layout
ema-PackLaws_example = Ema.ema-PackLaws documented documented-CratesLaws

pack_items_into_slice_lem_example :
    pack_items_into_slice (PriceInfo.price_info documented) (info ∷ info ∷ []) (zeros 70)
    ≡ ok ((PriceInfo.layout info ++ (PriceInfo.layout info ++ [])) ++ drop 64 (zeros 70))
pack_items_into_slice_lem_example =
    Items.pack_items_into_slice_lem (PriceInfo.price_info-PackLaws documented documented-CratesLaws)
      (info ∷ info ∷ []) (zeros 70) (omega arith) (omega (arith, length-zeros 70))

unpack_items_from_slice-layouts_example :
    unpack_items_from_slice
      (PriceInfo.price_info documented)
      2
      ((PriceInfo.layout info ++ (PriceInfo.layout info ++ [])) ++ (9 ∷ []))
    ≡ ok (info ∷ info ∷ [])
unpack_items_from_slice-layouts_example =
    Items.unpack_items_from_slice-layouts
      (PriceInfo.price_info-PackLaws documented documented-CratesLaws) (info ∷ info ∷ []) (9 ∷ [])
      (omega arith)

abbrev fifteen : PublishPriceInstruction
fifteen = record { price = pos 15; decimal = pos 2 }

unpack_instruction-message_example :
    unpack_instruction documented
      (publish_price_instruction documented)
      (3 ∷ (publish_layout fifteen ++ (8 ∷ [])))
    ≡ ok fifteen
unpack_instruction-message_example =
    Messages.unpack_instruction-message documented documented-CratesLaws
      (publish_price_instruction documented)
      (publish_price-PackLaws documented documented-CratesLaws) fifteen (8 ∷ []) (omega arith)

pack_instruction_lem_example :
    pack_instruction documented (publish_price_instruction documented) fifteen (0 ∷ zeros 14)
    ≡ ok ((3 ∷ publish_layout fifteen) ++ drop 12 (zeros 14))
pack_instruction_lem_example =
    Messages.pack_instruction_lem documented documented-CratesLaws
      (publish_price_instruction documented)
      (publish_price-PackLaws documented documented-CratesLaws) fifteen 0 (zeros 14) (omega arith)
      (omega (arith, length-zeros 14))

publish_price_lem_example :
    publish_price documented solana 9 1 2 (pos 15) (pos 2)
    ≡ ok (record {
      program_id = 9;
      accounts = (1, true, false) ∷ (2, false, true) ∷ [];
      payload = 3 ∷ publish_layout fifteen;
    })
publish_price_lem_example =
    publish_price_lem documented documented-CratesLaws solana 9 1 2 (pos 15) (pos 2) (omega arith)
      (omega arith)

signed_from_le_bytes-signed_to_le_bytes_example :
    signed_from_le_bytes 8 (signed_to_le_bytes 8 (negsuc 4)) ≡ negsuc 4
signed_from_le_bytes-signed_to_le_bytes_example =
    signed_from_le_bytes-signed_to_le_bytes 8 (negsuc 4) (omega arith)
