-- ===== src/Pyth/Tests/Runs.antt =====
-- The theorems on runs of `process` at concrete inputs.
use solarium.Base.{◌≡◌, refl, [], ◌∷◌, ◌++◌, drop, none, ok, err, arith}
use solarium.Base.Int.{pos, negsuc}
use solarium.Pyth.Bytes.{zeros}
use solarium.Pyth.Bytes.Slices.{zeros-IsByte}
use solarium.Pyth.Crates.Documented.{documented, documented-CratesLaws}
use solarium.Pyth.Pack.Laws.{unpack-layout_whole}
use solarium.Pyth.State.Price
use solarium.Pyth.Instruction.Laws.{create_price_acc_lem}
use solarium.Pyth.Processor.{process}
use solarium.Pyth.Processor.CreatePriceAccount
use solarium.Pyth.Processor.CreatePriceAccount.Initial.{initial}
use solarium.Pyth.Processor.Dispatch.{process-create_price_acc}
use solarium.Pyth.Processor.Effects.{OnlySecond, process-OnlySecond}
use solarium.Pyth.Processor.Errors.{Reports, process-Reports}
use solarium.Pyth.Processor.History.{Publication, publish_all}
use solarium.Pyth.Processor.Invariant.{run, here, later, Kept, Reaches-Kept}
use solarium.Pyth.Processor.LastPrice.{publish_all-append}
use solarium.Pyth.Processor.Written.{Written, process-Written}
use solarium.Pyth.Tests.{
  solana, solana-laws, client, client-laws, fresh, fresh-room, priced, price_laws, initial-fits,
}
use solarium.Solana.{Store, update}

-- `fresh` after the creation of a price in account 5
abbrev created : Store
created = update fresh 5 (Price.layout (initial client) ++ (zeros 3072 ++ drop 3312 (zeros 3312)))

creation : process documented solana client none 9 (0 ∷ 5 ∷ []) (0 ∷ []) fresh ≡ ok created
creation =
    process-create_price_acc documented documented-CratesLaws solana solana-laws client none 9 0 5
      [] fresh 1 2 _ client-laws fresh-room
      (create_price_acc_lem documented documented-CratesLaws solana 9 1 2)

process-Written_example : Written fresh created
process-Written_example =
    process-Written documented documented-CratesLaws solana solana-laws client client-laws none tt 9
      fresh created (λ cell. zeros-IsByte 3312) (0 ∷ 5 ∷ []) (0 ∷ []) (omega arith) creation

Reaches-Kept_example : Kept documented fresh created
Reaches-Kept_example =
    Reaches-Kept documented documented-CratesLaws solana solana-laws client client-laws fresh
      created (λ cell. zeros-IsByte 3312)
      (later here (run none 9 (0 ∷ 5 ∷ []) (0 ∷ []) tt (omega arith) creation))

process-Reports_example : Reports solana (4 ∷ []) (0 ∷ []) 1000
unfolding process CreatePriceAccount.handle
process-Reports_example =
    process-Reports documented solana solana-laws client client-laws none 9 fresh (4 ∷ []) (0 ∷ [])
      1000 failure
  where
    failure : process documented solana client none 9 (4 ∷ []) (0 ∷ []) fresh ≡ err 1000
    failure = refl

abbrev first_price : Publication
first_price = record { value = pos 15; decimal = pos 2; slot = 40 }

abbrev second_price : Publication
second_price = record { value = negsuc 3; decimal = pos 1; slot = 41 }

publish_all-append_example :
    publish_all documented solana client 9 1 2 (0 ∷ 5 ∷ []) (first_price ∷ second_price ∷ []) priced
    ≡ publish_all documented solana client 9 1 2 (0 ∷ 5 ∷ []) (second_price ∷ []) priced
publish_all-append_example =
    publish_all-append documented documented-CratesLaws solana solana-laws client 9 1 2 0 5 []
      (first_price ∷ []) second_price priced (initial client) (omega arith) (omega arith)
      (price_laws.layout-IsByte (initial client) initial-fits)
      (unpack-layout_whole price_laws (initial client) initial-fits)

process-OnlySecond_example : OnlySecond solana fresh created (0 ∷ 5 ∷ [])
process-OnlySecond_example =
    process-OnlySecond documented solana solana-laws client none 9 fresh created (0 ∷ 5 ∷ [])
      (0 ∷ []) creation
