-- ===== src/Driver/Serum/Participant.antt =====
-- src/serum.rs: the participants of a market. The loop of the airdrop has `rounds` rounds.
pub mod Laws
use solarium.Base.{ℕ, ltb, if◌then◌else◌, [], ◌∷◌, some, none}
use solarium.Driver.Host.{Host, solana_client_error, serum_dex_error}
use solarium.Driver.Monad.{M, ◌>>=◌, ◌>>◌, pure, convert, ask_result}
use solarium.Driver.Sandbox.{send_signed_transaction_with_payers}
use solarium.Driver.Actor.{Actor, airdrop}
use solarium.Driver.Actor
use solarium.Driver.Token.{Mint, TokenAccount, mint_to, new_token_account}
use solarium.Driver.Serum.{SerumDex}
use solarium.Driver.Serum.Sizes.{open_orders_size}
use solarium.Driver.Serum.Market.{Market}

pub record Participant (h : Host) : Type 0 where
  pub market : Market h
  pub base : TokenAccount h
  pub quote : TokenAccount h
  pub open_orders : Actor h
  pub account : Actor h

module _ (h : Host) where
  -- `if amount > 0 { mint.mint_to(payer, &account, amount)?; }`
  unfoldable pub mint_some : Mint h → Actor h → TokenAccount h → ℕ → M h (Unit {0})
  mint_some mint payer account amount =
      if ltb 0 amount then mint_to h mint payer account amount else pure tt

  -- The account of the open orders: its creation by the payer and its initialization.
  unfoldable pub new_open_orders : SerumDex h → Actor h → Market h → Actor h → M h (Actor h)
  new_open_orders d payer market participant_actor = do
    participant_open_orders ← Actor.new h
    open_orders_bytes ← convert (λ e. e) (open_orders_size h d)
    rent ←
        ask_result solana_client_error (h.get_minimum_balance_for_rent_exemption open_orders_bytes)
    let create_open_orders =
        h.system_create_account payer.pubkey participant_open_orders.pubkey rent open_orders_bytes
          market.serum
    init_open_orders ← convert serum_dex_error (
        d.init_open_orders market.serum participant_open_orders.pubkey participant_actor.pubkey
          market.market.pubkey none)
    send_signed_transaction_with_payers h (create_open_orders ∷ init_open_orders ∷ [])
          (some payer.pubkey)
          (payer.keypair ∷ participant_open_orders.keypair ∷ participant_actor.keypair ∷ [])
        >> pure participant_open_orders

  unfoldable pub new : SerumDex h → ℕ → Actor h → Market h → ℕ → ℕ → ℕ → M h (Participant h)
  new d rounds payer market starting_lamports starting_base starting_quote = do
    participant_actor ← Actor.new h
    funded ← airdrop h rounds participant_actor starting_lamports
    participant_base ← new_token_account h payer market.base_mint (some participant_actor.pubkey)
    participant_quote ← new_token_account h payer market.quote_mint (some participant_actor.pubkey)
    minted ← mint_some market.base_mint payer participant_base starting_base
    minted ← mint_some market.quote_mint payer participant_quote starting_quote
    participant_open_orders ← new_open_orders d payer market participant_actor
    pure (record {
      market = market;
      base = participant_base;
      quote = participant_quote;
      open_orders = participant_open_orders;
      account = participant_actor;
    })
