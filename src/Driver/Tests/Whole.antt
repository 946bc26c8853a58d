-- ===== src/Driver/Tests/Whole.antt =====
-- Whole runs of src/bin/create_serum_market.rs on the small host: no call fails there, so they show how
-- far the command gets.
use solarium.Base.{ℕ, ◌≡◌, refl, length, Outcome, ok, err, panic, spin, [], ◌∷◌, some}
use solarium.Pyth.Bytes.{to_le_bytes}
use solarium.Driver.Text.{to_string}
use solarium.Driver.Monad.{
  ◌>>=◌, ◌>>◌, continue, pure, raise, convert, expect, expect_call, ask, ask_result,
}
use solarium.Driver.Sandbox.{note, send_signed_transaction_with_payers}
use solarium.Driver.Sandbox.Start
use solarium.Driver.Sandbox.Start.{url, local_url}
use solarium.Driver.Actor
use solarium.Driver.Actor.{airdrop, create_account}
use solarium.Driver.Actor.Deploy.{run, deployed, deploy_remote}
use solarium.Driver.Token.{new_mint, new_token_account, mint_to}
use solarium.Driver.Serum.Sizes.{
  fit, market_size, side_size, request_queue_size, event_queue_size, open_orders_size,
}
use solarium.Driver.Serum.Vault.{create_vault_address}
use solarium.Driver.Serum.Market
use solarium.Driver.Serum.Market.{create_accounts}
use solarium.Driver.Serum.Participant
use solarium.Driver.Serum.Participant.{mint_some, new_open_orders}
use solarium.Driver.CreateSerumMarket.{
  Rounds, default_args, create_participants, set_up, save, main,
}
use solarium.Driver.Sends.{submission, unconfirmed}
use solarium.Driver.Host.{Host, solana_client_error}
use solarium.Driver.Tests.Small.{plain, host, world, dex, machine, broken, files}

abbrev rounds : Rounds
rounds = record { online = 1; airdrop = 3; vault = 4 }

abbrev code : {E : Type 0} {A : Type 0} → Outcome E A → ℕ
code (ok a) = 0
code (err e) = 1
code panic = 2
code spin = 3

-- The set-up returns, with all its transactions.
set_up_runs :
    (code (set_up host machine dex files rounds default_args world).0 ≡ 0)
    × (length (set_up host machine dex files rounds default_args world).1.sent ≡ 25)
unfolding set_up create_participants Participant.new mint_some new_open_orders Market.new
    create_vault_address fit market_size side_size request_queue_size event_queue_size
    open_orders_size new_mint new_token_account mint_to run deployed deploy_remote airdrop
    create_account Actor.new Start.new url local_url send_signed_transaction_with_payers ◌>>=◌ ◌>>◌
    continue pure raise convert expect expect_call ask ask_result to_string to_le_bytes
    create_accounts
set_up_runs = (refl, refl)

-- The command ends in its last loop, and has not panicked before.
main_runs : code (main host machine dex files rounds default_args world).0 ≡ 3
unfolding set_up create_participants Participant.new mint_some new_open_orders Market.new
    create_vault_address fit market_size side_size request_queue_size event_queue_size
    open_orders_size new_mint new_token_account mint_to run deployed deploy_remote airdrop
    create_account Actor.new Start.new url local_url send_signed_transaction_with_payers ◌>>=◌ ◌>>◌
    continue pure raise convert expect expect_call ask ask_result to_string to_le_bytes
    create_accounts main save
main_runs = refl

-- Without ports the start fails, and the command panics.
broken_panics : code (main host broken dex files rounds default_args world).0 ≡ 2
unfolding main set_up Start.new ◌>>=◌ continue pure raise convert expect_call ask ask_result
broken_panics = refl

-- A client that sends a transaction and then fails to confirm it.
abbrev doubtful : Host
doubtful = record host { send_and_confirm_transaction = λ t s. (err 5, s) }

abbrev carol : Actor.Actor doubtful
carol = record { keypair = 1; keyfile = 0; pubkey = 101 }

-- The call fails, and its transaction was handed over all the same.
minted_in_doubt :
    mint_to doubtful
      (record { mint = carol; authority = carol; freeze_authority = carol })
      carol
      (record { account = carol })
      30
      (record { state = (3, 2); sent = [] })
    ≡ (
      err (solana_client_error 5),
      record {
        state = (3, 2);
        sent =
            unconfirmed (
              submission doubtful
                (plain (101 ∷ 101 ∷ 101 ∷ []) (30 ∷ []) ∷ [])
                (some 101)
                (1 ∷ 1 ∷ []))
            ∷ [];
      },
    )
unfolding mint_to send_signed_transaction_with_payers note ◌>>=◌ continue pure convert expect ask
    ask_result
minted_in_doubt = refl
