-- ===== src/Driver/Serum/Orders.antt =====
-- src/serum.rs: what is done on a market that exists.
pub mod Laws
use solarium.Base.{ℕ, List, [], ◌∷◌, Option, some, none}
use solarium.Driver.Host.{Host, serum_dex_error}
use solarium.Driver.Monad.{M, ◌>>=◌, convert, expect_ok}
use solarium.Driver.Sandbox.{send_signed_transaction_with_payers}
use solarium.Driver.Actor.{Actor}
use solarium.Driver.Serum.{SerumDex}
use solarium.Driver.Serum.Market.{Market}
use solarium.Driver.Serum.Participant.{Participant}

module _ (h : Host) (d : SerumDex h) (self : Market h) (payer : Actor h) where
  unfoldable pub new_order :
      Participant h
      → d.Side
      → ℕ
      → d.OrderType
      → ℕ
      → ℕ
      → d.SelfTradeBehavior
      → ℕ
      → ℕ
      → Option h.Pubkey
      → M h (Unit {0})
  new_order participant side limit_price order_type max_base_qty client_order_id self_trade_behavior
        limit max_native_quote_including_fees srm_account_referral =
      do
        new_order_instruction ← convert serum_dex_error (
            d.new_order self.market.pubkey participant.open_orders.pubkey self.request_queue.pubkey
              self.event_queue.pubkey self.bids.pubkey self.asks.pubkey payer.pubkey
              participant.account.pubkey self.base_vault.account.pubkey
              self.quote_vault.account.pubkey h.token_id d.rent_id srm_account_referral self.serum
              side limit_price max_base_qty order_type client_order_id self_trade_behavior limit
              max_native_quote_including_fees)
        send_signed_transaction_with_payers h (new_order_instruction ∷ [])
            (some participant.account.pubkey) (participant.account.keypair ∷ [])

  unfoldable pub consume_events : List h.Pubkey → ℕ → M h (Unit {0})
  consume_events open_orders num_events = do
    consume_events ← expect_ok (
        d.consume_events self.serum open_orders self.market.pubkey self.event_queue.pubkey
          self.base_vault.account.pubkey self.quote_vault.account.pubkey num_events)
    send_signed_transaction_with_payers h (consume_events ∷ []) (some payer.pubkey)
        (payer.keypair ∷ [])

  unfoldable pub settle_funds : Participant h → M h (Unit {0})
  settle_funds participant = do
    settle_funds ← expect_ok (
        d.settle_funds self.serum self.market.pubkey h.token_id participant.open_orders.pubkey
          participant.account.pubkey self.base_vault.account.pubkey participant.base.account.pubkey
          self.quote_vault.account.pubkey participant.quote.account.pubkey none
          self.vault_signer_key)
    send_signed_transaction_with_payers h (settle_funds ∷ []) (some payer.pubkey)
        (payer.keypair ∷ participant.account.keypair ∷ [])

  unfoldable pub cancel_order : Participant h → d.Side → ℕ → M h (Unit {0})
  cancel_order participant side order_id = do
    cancel_order ← expect_ok (
        d.cancel_order self.serum self.market.pubkey self.bids.pubkey self.asks.pubkey
          participant.open_orders.pubkey participant.account.pubkey self.event_queue.pubkey side
          order_id)
    send_signed_transaction_with_payers h (cancel_order ∷ []) (some payer.pubkey)
        (payer.keypair ∷ participant.account.keypair ∷ [])
