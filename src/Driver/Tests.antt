-- ===== src/Driver/Tests.antt =====
-- The theorems on the driver at concrete inputs.
mod Small
mod Commands
mod Whole
mod Ends
use solarium.Base.{
  ℕ, zero, suc, ◌^◌, ◌<◌, ◌≤◌, length, ◌≡◌, refl, [], ◌∷◌, true, false, some, none, ok, err, panic,
  arith,
}
use solarium.Base.Int.{pos, negsuc}
use solarium.Pyth.Bytes.{to_le_bytes}
use solarium.Pyth.Crates.Documented.{documented, documented-CratesLaws}
use solarium.Pyth.Pack.Laws.{unpack-layout_whole}
use solarium.Pyth.Processor.CreatePriceAccount.Initial.{initial}
use solarium.Driver.Host.{solana_program_error, serum_dex_error}
use solarium.Driver.Delivery.Operates.{Operates}
use solarium.Driver.Sends.{Sends}
use solarium.Driver.Actor.{airdrop}
use solarium.Driver.Actor.Airdrop.{confirmed, denied, airdrop_lem}
use solarium.Driver.Token.{new_mint, mint_to, new_token_account}
use solarium.Driver.Token.Laws.{
  MintCreation, new_mint-Sends, TokenAccountCreation, new_token_account-Sends, Minting,
  mint_to-Operates,
}
use solarium.Driver.PriceAccount
use solarium.Driver.PriceAccount.Laws.{Publishing, publish_price-Sends}
use solarium.Driver.Serum.Vault.{address, create_vault_address, create_vault_address_lem}
use solarium.Driver.Serum.Market
use solarium.Driver.Serum.Market.Creation.{Accepted, new-Submits}
use solarium.Driver.Submits.{Submits}
use solarium.Driver.Serum.Vault.Total.{Searched, create_vault_address-Searched}
use solarium.Driver.Serum.Orders.{settle_funds, consume_events, cancel_order, new_order}
use solarium.Driver.Serum.Orders.Laws.{
  settle_funds-Operates, cancel_order-Operates, consume_events-Operates, new_order-Operates,
}
use solarium.Driver.Serum.Guards.{few_events, new-Refused}
use solarium.Pyth.Instruction as PythInstruction
use solarium.Pyth.Tests.{solana, solana-laws, client, priced, price_laws, initial-fits}
use Small.{plain, host, world, alice, bob, gold, purse, dex, fair, trader}

airdrop_lem_example : airdrop host 3 alice 5 world ≡ (ok tt, record world { state = (3, 0) })
airdrop_lem_example =
    airdrop_lem host 7 alice 5 2 3 (ok tt) world (3, 2) (3, 0) (omega arith) refl
      (denied (3, 2) (3, 1) (3, 0) refl
        (denied (3, 1) (3, 0) (3, 0) refl (confirmed (3, 0) (3, 0) refl)))

new_mint-Sends_example :
    Sends host (MintCreation host alice 6 none (some bob)) (new_mint host alice 6 none (some bob))
new_mint-Sends_example = new_mint-Sends host alice 6 none (some bob)

new_token_account-Sends_example :
    Sends host (TokenAccountCreation host alice gold none) (new_token_account host alice gold none)
new_token_account-Sends_example = new_token_account-Sends host alice gold none

mint_to-Operates_example :
    Operates host {E = ℕ}
      (ok (plain (102 ∷ 102 ∷ 101 ∷ []) (30 ∷ [])))
      102
      (2 ∷ 1 ∷ [])
      (λ e. err (solana_program_error e))
      (mint_to host gold bob purse 30)
mint_to-Operates_example = mint_to-Operates host bob gold purse 30

publish_price-Sends_example :
    Sends host
      (Publishing documented documented-CratesLaws host solana-laws client 9 alice 0 5 [] priced
        (record { account = bob })
        (pos 15)
        (negsuc 1)
        40
        (initial client))
      (PriceAccount.publish_price documented host
        (record { account = bob })
        9
        alice
        (pos 15)
        (negsuc 1))
    × Operates host
        (PythInstruction.publish_price documented solana 9 101 102 (pos 15) (negsuc 1))
        101
        (1 ∷ [])
        (λ e. panic)
        (PriceAccount.publish_price documented host
          (record { account = bob })
          9
          alice
          (pos 15)
          (negsuc 1))
publish_price-Sends_example =
    publish_price-Sends documented documented-CratesLaws host solana-laws client 9 alice 0 5 []
      priced (record { account = bob }) (pos 15) (negsuc 1) 40 (initial client) (omega arith)
      (omega arith) (omega arith) (price_laws.layout-IsByte (initial client) initial-fits)
      (unpack-layout_whole price_laws (initial client) initial-fits)

create_vault_address_lem_example : create_vault_address {E = ℕ} host dex 20 30 4 ≡ ok (203, 3)
unfolding to_le_bytes
create_vault_address_lem_example =
    create_vault_address_lem host dex 20 30 3 4 203 (omega arith) (omega arith) refl below
  where
    below : (i : ℕ) → i < 3 → address host dex 20 30 i ≡ none
    below zero h = refl
    below (suc zero) h = refl
    below (suc (suc zero)) h = refl
    below (suc (suc (suc i))) h = absurd (omega arith)

create_vault_address-Searched_example :
    Searched {E = ℕ} host dex 20 30 (create_vault_address host dex 20 30 (2 ^ 64))
create_vault_address-Searched_example =
    create_vault_address-Searched host dex 20 30 (2 ^ 64) (omega arith)

new-Submits_example :
    Submits host
      (Accepted host dex 4 alice 20 gold gold none 1 1 1 10 128 201)
      (λ ts. length ts ≤ 3)
      (Market.new host dex 4 alice 20 gold gold none 1 1 1 10 128 201)
new-Submits_example = new-Submits host dex 4 alice 20 gold gold none 1 1 1 10 128 201

new-Refused_example :
    Market.new host dex 4 alice 20 gold gold none 1 1 1 10 127 201 world
    ≡ (err (serum_dex_error 12), world)
new-Refused_example =
    new-Refused host dex 4 alice 20 gold gold none 1 1 1 10 127 201 12 world
      (few_events 10 127 201 (omega arith) (omega arith))

settle_funds-Operates_example :
    Operates host {E = ℕ}
      (ok (plain (102 ∷ 102 ∷ 101 ∷ 102 ∷ 102 ∷ 203 ∷ []) []))
      102
      (2 ∷ 1 ∷ [])
      (λ e. panic)
      (settle_funds host dex fair bob trader)
settle_funds-Operates_example = settle_funds-Operates host dex fair bob trader

consume_events-Operates_example :
    Operates host {E = ℕ}
      (ok (plain (102 ∷ 102 ∷ 8 ∷ 9 ∷ []) (3 ∷ [])))
      102
      (2 ∷ [])
      (λ e. panic)
      (consume_events host dex fair bob (8 ∷ 9 ∷ []) 3)
consume_events-Operates_example = consume_events-Operates host dex fair bob (8 ∷ 9 ∷ []) 3

cancel_order-Operates_example :
    Operates host {E = ℕ}
      (ok (plain (102 ∷ 102 ∷ 101 ∷ []) (77 ∷ [])))
      102
      (2 ∷ 1 ∷ [])
      (λ e. panic)
      (cancel_order host dex fair bob trader true 77)
cancel_order-Operates_example = cancel_order-Operates host dex fair bob trader true 77

new_order-Operates_example :
    Operates host {E = ℕ}
      (ok (plain (102 ∷ 102 ∷ 102 ∷ 101 ∷ []) (5 ∷ 6 ∷ 77 ∷ [])))
      101
      (1 ∷ [])
      (λ e. err (serum_dex_error e))
      (new_order host dex fair bob trader true 5 false 6 77 true 10 1000 none)
new_order-Operates_example =
    new_order-Operates host dex fair bob trader true 5 false 6 77 true 10 1000 none
