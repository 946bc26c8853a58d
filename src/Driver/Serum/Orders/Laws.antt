-- ===== src/Driver/Serum/Orders/Laws.antt =====
-- The transactions of the operations on a market.
use solarium.Base.{ℕ, List, [], ◌∷◌, Option, none, err, panic}
use solarium.Driver.Host.{Host, serum_dex_error}
use solarium.Driver.Delivery.Operates.{Operates, unwrapped-Operates, returned-Operates}
use solarium.Driver.Actor.{Actor}
use solarium.Driver.Serum.{SerumDex}
use solarium.Driver.Serum.Market.{Market}
use solarium.Driver.Serum.Participant.{Participant}
use solarium.Driver.Serum.Orders.{new_order, consume_events, settle_funds, cancel_order}

module _ (h : Host) (d : SerumDex h) (self : Market h) (payer : Actor h)
    (participant : Participant h) where
  -- Where serum_dex does not build the instruction, `Market::settle_funds` panics and has done
  -- nothing. Where it does, the call ends as the client's answers say: the client's error where
  -- there is no block hash, a panic where the transaction cannot be signed, and else one
  -- transaction with this only instruction is handed over, and the call succeeds where the client
  -- confirms it and ends with the client's error where not. Whatever happens, no other transaction
  -- is handed over, and a call that succeeds has handed over this one. The instruction settles
  -- from the market's vaults to the participant's accounts, without a referrer; the payer pays,
  -- and the payer and the participant sign.
  pub settle_funds-Operates :
      Operates h
        (d.settle_funds self.serum self.market.pubkey h.token_id participant.open_orders.pubkey
          participant.account.pubkey self.base_vault.account.pubkey participant.base.account.pubkey
          self.quote_vault.account.pubkey participant.quote.account.pubkey none
          self.vault_signer_key)
        payer.pubkey
        (payer.keypair ∷ participant.account.keypair ∷ [])
        (λ e. panic)
        (settle_funds h d self payer participant)
  unfolding settle_funds
  settle_funds-Operates = unwrapped-Operates h _ _ _

  -- Where serum_dex does not build the instruction, `Market::cancel_order` panics and has done
  -- nothing. Where it does, the call ends as the client's answers say: the client's error where
  -- there is no block hash, a panic where the transaction cannot be signed, and else one
  -- transaction with this only instruction is handed over, and the call succeeds where the client
  -- confirms it and ends with the client's error where not. Whatever happens, no other transaction
  -- is handed over, and a call that succeeds has handed over this one. The instruction cancels the
  -- order of that side and id in the participant's open orders; the payer pays, and the payer and
  -- the participant sign.
  pub cancel_order-Operates :
      (side : d.Side) (order_id : ℕ)
      → Operates h
          (d.cancel_order self.serum self.market.pubkey self.bids.pubkey self.asks.pubkey
            participant.open_orders.pubkey participant.account.pubkey self.event_queue.pubkey side
            order_id)
          payer.pubkey
          (payer.keypair ∷ participant.account.keypair ∷ [])
          (λ e. panic)
          (cancel_order h d self payer participant side order_id)
  unfolding cancel_order
  cancel_order-Operates side order_id = unwrapped-Operates h _ _ _

  -- Where serum_dex does not build the instruction, `Market::new_order` returns its error and has
  -- done nothing. Where it does, the call ends as the client's answers say: the client's error
  -- where there is no block hash, a panic where the transaction cannot be signed, and else one
  -- transaction with this only instruction is handed over, and the call succeeds where the client
  -- confirms it and ends with the client's error where not. Whatever happens, no other transaction
  -- is handed over, and a call that succeeds has handed over this one. The instruction takes the
  -- tokens from the account that is called the payer; it is the participant who pays for the
  -- transaction and who signs it, alone.
  pub new_order-Operates :
      (side : d.Side) (limit_price : ℕ) (order_type : d.OrderType)
      (max_base_qty client_order_id : ℕ) (self_trade_behavior : d.SelfTradeBehavior)
      (limit max_native_quote_including_fees : ℕ) (srm_account_referral : Option h.Pubkey)
      → Operates h
          (d.new_order self.market.pubkey participant.open_orders.pubkey self.request_queue.pubkey
            self.event_queue.pubkey self.bids.pubkey self.asks.pubkey payer.pubkey
            participant.account.pubkey self.base_vault.account.pubkey
            self.quote_vault.account.pubkey h.token_id d.rent_id srm_account_referral self.serum
            side limit_price max_base_qty order_type client_order_id self_trade_behavior limit
            max_native_quote_including_fees)
          participant.account.pubkey
          (participant.account.keypair ∷ [])
          (λ e. err (serum_dex_error e))
          (new_order h d self payer participant side limit_price order_type max_base_qty
            client_order_id self_trade_behavior limit max_native_quote_including_fees
            srm_account_referral)
  unfolding new_order
  new_order-Operates side limit_price order_type max_base_qty client_order_id self_trade_behavior
        limit max_native srm_account_referral =
      returned-Operates h _ _ _ serum_dex_error

module _ (h : Host) (d : SerumDex h) (self : Market h) (payer : Actor h) where
  -- Where serum_dex does not build the instruction, `Market::consume_events` panics and has done
  -- nothing. Where it does, the call ends as the client's answers say: the client's error where
  -- there is no block hash, a panic where the transaction cannot be signed, and else one
  -- transaction with this only instruction is handed over, and the call succeeds where the client
  -- confirms it and ends with the client's error where not. Whatever happens, no other transaction
  -- is handed over, and a call that succeeds has handed over this one. The instruction consumes so
  -- many events for the given open orders; the payer pays and signs, alone.
  pub consume_events-Operates :
      (open_orders : List h.Pubkey) (num_events : ℕ)
      → Operates h
          (d.consume_events self.serum open_orders self.market.pubkey self.event_queue.pubkey
            self.base_vault.account.pubkey self.quote_vault.account.pubkey num_events)
          payer.pubkey
          (payer.keypair ∷ [])
          (λ e. panic)
          (consume_events h d self payer open_orders num_events)
  unfolding consume_events
  consume_events-Operates open_orders num_events = unwrapped-Operates h _ _ _
