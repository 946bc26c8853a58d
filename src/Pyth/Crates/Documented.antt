-- ===== src/Pyth/Crates/Documented.antt =====
-- Functions that meet what is assumed of arrayref and num_enum.
use solarium.Base.{
  ℕ, zero, suc, ◌+◌, refl, ◌++◌, length, take, drop, Option, none, some, leb, if◌then◌else◌, arith,
}
use solarium.Pyth.Bytes.Pieces.{cut, join}
use solarium.Pyth.Types.{
  PriceStatus, CorpAction, PriceType, PythInstructionId, status_discriminant, corp_act_discriminant,
  ptype_discriminant, id_discriminant,
}
use solarium.Pyth.Crates.{NumEnumLaws, Crates, CratesLaws}

abbrev status_from : ℕ → Option PriceStatus
status_from zero = some PriceStatus.unknown
status_from (suc zero) = some PriceStatus.trading
status_from (suc (suc zero)) = some PriceStatus.halted
status_from (suc (suc (suc zero))) = some PriceStatus.auction
status_from _ = none

abbrev corp_act_from : ℕ → Option CorpAction
corp_act_from zero = some CorpAction.no_corp_act
corp_act_from _ = none

abbrev ptype_from : ℕ → Option PriceType
ptype_from zero = some PriceType.unknown
ptype_from (suc zero) = some PriceType.price
ptype_from _ = none

abbrev id_from : ℕ → Option PythInstructionId
id_from zero = some PythInstructionId.create_price_account
id_from (suc zero) = some PythInstructionId.create_product_account
id_from (suc (suc zero)) = some PythInstructionId.create_mapping_account
id_from (suc (suc (suc zero))) = some PythInstructionId.publish_price
id_from _ = none

abbrev pub documented : Crates
documented = record {
  array_ref =
      λ src off len. if leb (off + len) (length src) then some (take len (drop off src)) else none;
  array_mut_ref = λ dst off len.
      if leb (off + len) (length dst)
      then some (take len (drop off dst), λ new. take off dst ++ (new ++ drop (off + len) dst))
      else none;
  array_refs = λ src ws. cut ws src;
  mut_array_refs = λ dst ws. (cut ws dst, join);
  status = record { try_from_primitive = status_from; into_primitive = status_discriminant };
  corp_act = record { try_from_primitive = corp_act_from; into_primitive = corp_act_discriminant };
  ptype = record { try_from_primitive = ptype_from; into_primitive = ptype_discriminant };
  id = record { try_from_primitive = id_from; into_primitive = id_discriminant };
}

status_laws : NumEnumLaws status_discriminant documented.status
status_laws = record {
  into_lem = λ v. refl;
  from_some = λ n v e. ground arith;
  from_discriminant = λ v. ground arith;
}

corp_act_laws : NumEnumLaws corp_act_discriminant documented.corp_act
corp_act_laws = record {
  into_lem = λ v. refl;
  from_some = λ n v e. ground arith;
  from_discriminant = λ v. ground arith;
}

ptype_laws : NumEnumLaws ptype_discriminant documented.ptype
ptype_laws = record {
  into_lem = λ v. refl;
  from_some = λ n v e. ground arith;
  from_discriminant = λ v. ground arith;
}

id_laws : NumEnumLaws id_discriminant documented.id
id_laws = record {
  into_lem = λ v. refl;
  from_some = λ n v e. ground arith;
  from_discriminant = λ v. ground arith;
}

pub documented-CratesLaws : CratesLaws documented
documented-CratesLaws = record {
  array_ref_some = λ src off len h. ground arith;
  array_ref_none = λ src off len h. ground arith;
  array_mut_ref_some = λ dst off len h. ground arith;
  array_mut_ref_none = λ dst off len h. ground arith;
  array_refs_lem = λ src ws h. refl;
  mut_array_refs_lem = λ dst ws h. refl;
  status = status_laws;
  corp_act = corp_act_laws;
  ptype = ptype_laws;
  id = id_laws;
}
