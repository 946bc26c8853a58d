-- ===== src/Pyth/Tests.antt =====
-- The small environment of the price program, and the theorems on its instructions, at concrete inputs.
mod Runs
mod Codecs
use solarium.Base.{
  ℕ, ◌≤◌, ◌≡◌, refl, List, [], ◌∷◌, ◌++◌, length, drop, true, false, Bool, none, some, Outcome, ok,
  err, panic, arith,
}
use solarium.Base.Int.{pos, negsuc}
use solarium.Pyth.Bytes.{zeros}
use solarium.Pyth.Bytes.Slices.{length-zeros, zeros-IsByte}
use solarium.Pyth.Types.{PriceFits}
use solarium.Pyth.Crates.Documented.{documented, documented-CratesLaws}
use solarium.Pyth.Pack.Laws.{PackLaws, unpack-layout_whole}
use solarium.Pyth.State.Price
use solarium.Pyth.State.Price.Laws.{price-PackLaws}
use solarium.Pyth.Instruction.{publish_layout}
use solarium.Pyth.Instruction.Laws.{create_price_acc_lem, publish_price_lem}
use solarium.Pyth.Processor.{process}
use solarium.Pyth.Processor.CreatePriceAccount.{PythClient}
use solarium.Pyth.Processor.CreatePriceAccount.Initial.{PythClientLaws, initial, initial-PriceFits}
use solarium.Pyth.Processor.PublishPrice.{publish}
use solarium.Pyth.Processor.PublishPrice.Laws.{published}
use solarium.Pyth.Processor.Dispatch.{
  process-create_price_acc, process-create_price_acc_short, process-publish_price,
}
use solarium.Pyth.Processor.History.{
  publish_each, create_and_publish, Reads, create_and_publish_lem,
}
use solarium.Solana.{SolanaProgram, SolanaProgramLaws, Store, update}

abbrev next : List ℕ → Outcome ℕ (ℕ × List ℕ)
next [] = err 1000
next (a ∷ rest) = ok (a, rest)

abbrev pub solana : SolanaProgram
solana = record {
  Pubkey = ℕ;
  AccountMeta = ℕ × Bool × Bool;
  ProgramError = ℕ;
  AccountInfo = ℕ;
  new_readonly = λ key signs. (key, signs, false);
  new_writable = λ key signs. (key, signs, true);
  custom = λ n. n;
  not_enough_account_keys = 1000;
  next_account_info = next;
  cell = λ a. a;
}

pub solana-laws : SolanaProgramLaws solana
solana-laws = record { next_cons = λ a rest. refl; next_nil = refl }

abbrev pub client : PythClient
client = record {
  magic = 0xa1b2c3d4;
  version_2 = 2;
  account_type_price = 3;
  status_trading = 1;
  no_corp_act = 0;
}

pub client-laws : PythClientLaws client
client-laws = record {
  magic = omega arith;
  version_2 = omega arith;
  account_type_price = refl;
  status_trading = refl;
  no_corp_act = refl;
}

abbrev pub fresh : Store
fresh cell = zeros 3312

pub fresh-room : 3312 ≤ length (zeros 3312)
fresh-room = omega (arith, length-zeros 3312)

create_and_publish_example :
    Reads documented documented-CratesLaws solana solana-laws client 9 1 2 0 5 [] fresh
      (publish_each (initial client) (record { value = pos 15; decimal = pos 2; slot = 40 } ∷ []))
      (create_and_publish documented solana client 9 1 2
        (0 ∷ 5 ∷ [])
        (record { value = pos 15; decimal = pos 2; slot = 40 } ∷ [])
        fresh)
create_and_publish_example =
    create_and_publish_lem documented documented-CratesLaws solana solana-laws client 9 1 2 0 5 []
      (record { value = pos 15; decimal = pos 2; slot = 40 } ∷ []) fresh client-laws (omega arith)
      (zeros-IsByte 3312) fresh-room

abbrev pub price_laws : PackLaws (Price.price documented) PriceFits Price.layout
price_laws = price-PackLaws documented documented-CratesLaws

pub initial-fits : PriceFits (initial client)
initial-fits = initial-PriceFits client client-laws

-- A store in which every account holds the initial price and nothing behind it.
abbrev pub priced : Store
priced cell = Price.layout (initial client)

process-create_price_acc_example :
    process documented solana client none 9 (0 ∷ 5 ∷ []) (0 ∷ []) fresh
    ≡ ok (update fresh 5 (Price.layout (initial client) ++ (zeros 3072 ++ drop 3312 (zeros 3312))))
process-create_price_acc_example =
    process-create_price_acc documented documented-CratesLaws solana solana-laws client none 9 0 5
      [] fresh 1 2 _ client-laws fresh-room
      (create_price_acc_lem documented documented-CratesLaws solana 9 1 2)

process-create_price_acc_short_example :
    process documented solana client none 9 (0 ∷ 5 ∷ []) (0 ∷ []) (λ cell. zeros 3311) ≡ panic
process-create_price_acc_short_example =
    process-create_price_acc_short documented documented-CratesLaws solana solana-laws client none 9
      0 5 [] (λ cell. zeros 3311) 1 2 _ (omega (arith, length-zeros 3311))
      (create_price_acc_lem documented documented-CratesLaws solana 9 1 2)

process-publish_price_example :
    process documented solana client
      (some 40)
      9
      (0 ∷ 5 ∷ [])
      (3 ∷ publish_layout (record { price = pos 15; decimal = negsuc 1 }))
      priced
    ≡ ok (update priced 5 (published (publish (initial client) (pos 15) (negsuc 1) 40) (priced 5)))
process-publish_price_example =
    process-publish_price documented documented-CratesLaws solana solana-laws client 9 0 5 [] priced
      1 2 (pos 15) (negsuc 1) 40 _ (initial client) (omega arith) (omega arith) (omega arith)
      (price_laws.layout-IsByte (initial client) initial-fits)
      (unpack-layout_whole price_laws (initial client) initial-fits)
      (publish_price_lem documented documented-CratesLaws solana 9 1 2 (pos 15) (negsuc 1)
        (omega arith) (omega arith))
