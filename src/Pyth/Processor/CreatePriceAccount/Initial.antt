-- ===== src/Pyth/Processor/CreatePriceAccount/Initial.antt =====
-- The price that pyth/src/processor/create_price_account.rs writes.
use solarium.Base.{◌≡◌, arith}
use solarium.Base.Int.{pos}
use solarium.Pyth.Bytes.{IsUnsigned, zeros}
use solarium.Pyth.Bytes.Slices.{length-zeros, zeros-IsByte}
use solarium.Pyth.Types.{
  AccKey, Price, PriceFits, PriceStatus, PriceType, CorpAction, AccountType, status_discriminant,
  corp_act_discriminant, account_type_discriminant,
}
use solarium.Pyth.Processor.CreatePriceAccount.{PythClient}

-- The crate pyth_client numbers the enums as pyth/src/state.rs does, and its constants are `u32`s.
pub record PythClientLaws (client : PythClient) : Type 0 where
  pub magic : IsUnsigned 4 client.magic
  pub version_2 : IsUnsigned 4 client.version_2
  pub account_type_price : client.account_type_price ≡ account_type_discriminant AccountType.price
  pub status_trading : client.status_trading ≡ status_discriminant PriceStatus.trading
  pub no_corp_act : client.no_corp_act ≡ corp_act_discriminant CorpAction.no_corp_act

abbrev no_key : AccKey
no_key = record { val = zeros 32 }

-- The price of a new account: 0, with confidence 100, trading.
abbrev pub initial : PythClient → Price
initial client = record {
  magic = client.magic;
  ver = client.version_2;
  atype = client.account_type_price;
  size = 0;
  ptype = PriceType.unknown;
  expo = pos 0;
  num = 0;
  num_qt = 0;
  last_slot = 0;
  valid_slot = 0;
  twap = record { val = pos 0; numer = pos 0; denom = pos 0 };
  twac = record { val = pos 0; numer = pos 0; denom = pos 0 };
  drv1 = pos 0;
  drv2 = pos 0;
  prod = no_key;
  next = no_key;
  prev_slot = 0;
  prev_price = pos 0;
  prev_conf = 0;
  drv3 = pos 0;
  agg = record {
    price = pos 0;
    conf = 100;
    status = PriceStatus.trading;
    corp_act = CorpAction.no_corp_act;
    pub_slot = 0;
  };
}

pub initial-PriceFits : (client : PythClient) → PythClientLaws client → PriceFits (initial client)
initial-PriceFits client L = record {
  magic = L.magic;
  ver = L.version_2;
  atype = omega arith;
  size = omega arith;
  expo = omega arith;
  num = omega arith;
  num_qt = omega arith;
  last_slot = omega arith;
  valid_slot = omega arith;
  drv1 = omega arith;
  drv2 = omega arith;
  prev_slot = omega arith;
  prev_price = omega arith;
  prev_conf = omega arith;
  drv3 = omega arith;
  twap = record { val = omega arith; numer = omega arith; denom = omega arith };
  twac = record { val = omega arith; numer = omega arith; denom = omega arith };
  prod = record { bytes = zeros-IsByte 32; size = length-zeros 32 };
  next = record { bytes = zeros-IsByte 32; size = length-zeros 32 };
  agg = record { price = omega arith; conf = omega arith; pub_slot = omega arith };
}
