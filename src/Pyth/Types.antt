-- ===== src/Pyth/Types.antt =====
-- The types of pyth/src/state.rs, pyth/src/instruction.rs and pyth/src/error.rs, with the range of
-- each field, and the discriminants of the enums (`#[repr(u32)]`, `#[repr(u8)]` or none).
use solarium.Base.{ℕ, ◌≡◌, List, length, All, Outcome}
use solarium.Base.Int.{ℤ}
use solarium.Pyth.Bytes.{IsByte, IsUnsigned, IsSigned}

pub data AccountType : Type 0 where
  unknown mapping product price : AccountType

pub data PriceStatus : Type 0 where
  unknown trading halted auction : PriceStatus

pub data CorpAction : Type 0 where
  no_corp_act : CorpAction

pub data PriceType : Type 0 where
  unknown price : PriceType

pub data PythInstructionId : Type 0 where
  create_price_account create_product_account create_mapping_account publish_price :
      PythInstructionId

pub data PythError : Type 0 where
  not_implemented could_not_decode_instruction invalid_instruction_id : PythError
  invalid_account invalid_request_status invalid_seeds : PythError

abbrev pub Result {ℓ} : Type ℓ → Type ℓ
Result A = Outcome PythError A

-- `v as u32` and `v as u8`
abbrev pub account_type_discriminant : AccountType → ℕ
account_type_discriminant AccountType.unknown = 0
account_type_discriminant AccountType.mapping = 1
account_type_discriminant AccountType.product = 2
account_type_discriminant AccountType.price = 3

abbrev pub status_discriminant : PriceStatus → ℕ
status_discriminant PriceStatus.unknown = 0
status_discriminant PriceStatus.trading = 1
status_discriminant PriceStatus.halted = 2
status_discriminant PriceStatus.auction = 3

abbrev pub corp_act_discriminant : CorpAction → ℕ
corp_act_discriminant CorpAction.no_corp_act = 0

abbrev pub ptype_discriminant : PriceType → ℕ
ptype_discriminant PriceType.unknown = 0
ptype_discriminant PriceType.price = 1

abbrev pub id_discriminant : PythInstructionId → ℕ
id_discriminant PythInstructionId.create_price_account = 0
id_discriminant PythInstructionId.create_product_account = 1
id_discriminant PythInstructionId.create_mapping_account = 2
id_discriminant PythInstructionId.publish_price = 3

abbrev pub error_discriminant : PythError → ℕ
error_discriminant PythError.not_implemented = 0
error_discriminant PythError.could_not_decode_instruction = 1
error_discriminant PythError.invalid_instruction_id = 2
error_discriminant PythError.invalid_account = 3
error_discriminant PythError.invalid_request_status = 4
error_discriminant PythError.invalid_seeds = 5

-- `[u8; 32]`
pub record AccKey : Type 0 where
  pub val : List ℕ

pub record PriceInfo : Type 0 where
  pub price : ℤ
  pub conf : ℕ
  pub status : PriceStatus
  pub corp_act : CorpAction
  pub pub_slot : ℕ

pub record PriceComp : Type 0 where
  pub publisher : AccKey
  pub agg : PriceInfo
  pub latest : PriceInfo

pub record Ema : Type 0 where
  pub val : ℤ
  pub numer : ℤ
  pub denom : ℤ

pub record Price : Type 0 where
  pub magic : ℕ
  pub ver : ℕ
  pub atype : ℕ
  pub size : ℕ
  pub ptype : PriceType
  pub expo : ℤ
  pub num : ℕ
  pub num_qt : ℕ
  pub last_slot : ℕ
  pub valid_slot : ℕ
  pub twap : Ema
  pub twac : Ema
  pub drv1 : ℤ
  pub drv2 : ℤ
  pub prod : AccKey
  pub next : AccKey
  pub prev_slot : ℕ
  pub prev_price : ℤ
  pub prev_conf : ℕ
  pub drv3 : ℤ
  pub agg : PriceInfo

pub record CreatePriceAccountInstruction : Type 0 where

pub record CreateProductAccountInstruction : Type 0 where

pub record CreateMappingAccountInstruction : Type 0 where

pub record PublishPriceInstruction : Type 0 where
  pub price : ℤ
  pub decimal : ℤ

-- Each field holds a value of its Rust type.
pub record AccKeyFits (k : AccKey) : Type 0 where
  pub bytes : All IsByte k.val
  pub size : length k.val ≡ 32

pub record PriceInfoFits (i : PriceInfo) : Type 0 where
  pub price : IsSigned 8 i.price
  pub conf : IsUnsigned 8 i.conf
  pub pub_slot : IsUnsigned 8 i.pub_slot

pub record PriceCompFits (c : PriceComp) : Type 0 where
  pub publisher : AccKeyFits c.publisher
  pub agg : PriceInfoFits c.agg
  pub latest : PriceInfoFits c.latest

pub record EmaFits (e : Ema) : Type 0 where
  pub val : IsSigned 8 e.val
  pub numer : IsSigned 8 e.numer
  pub denom : IsSigned 8 e.denom

pub record PriceFits (p : Price) : Type 0 where
  pub magic : IsUnsigned 4 p.magic
  pub ver : IsUnsigned 4 p.ver
  pub atype : IsUnsigned 4 p.atype
  pub size : IsUnsigned 4 p.size
  pub expo : IsSigned 4 p.expo
  pub num : IsUnsigned 4 p.num
  pub num_qt : IsUnsigned 4 p.num_qt
  pub last_slot : IsUnsigned 8 p.last_slot
  pub valid_slot : IsUnsigned 8 p.valid_slot
  pub twap : EmaFits p.twap
  pub twac : EmaFits p.twac
  pub drv1 : IsSigned 8 p.drv1
  pub drv2 : IsSigned 8 p.drv2
  pub prod : AccKeyFits p.prod
  pub next : AccKeyFits p.next
  pub prev_slot : IsUnsigned 8 p.prev_slot
  pub prev_price : IsSigned 8 p.prev_price
  pub prev_conf : IsUnsigned 8 p.prev_conf
  pub drv3 : IsSigned 8 p.drv3
  pub agg : PriceInfoFits p.agg

pub record PublishPriceFits (i : PublishPriceInstruction) : Type 0 where
  pub price : IsSigned 8 i.price
  pub decimal : IsSigned 4 i.decimal
