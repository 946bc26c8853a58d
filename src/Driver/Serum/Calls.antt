-- ===== src/Driver/Serum/Calls.antt =====
-- The searches and the sizes of src/serum.rs return, and so do the participants, where the calls
-- outside do.
use solarium.Base.{
  ℕ, ◌≤◌, ◌^◌, Bool, true, false, ltb, if◌then◌else◌, Option, some, Outcome, ok, panic,
}
use solarium.Driver.Host.{Host, Error, solana_client_error, serum_dex_error}
use solarium.Driver.Monad.{pure}
use solarium.Driver.Returns.{
  Returned, Returns, Returns-bind, Returns-then, Returns-pure, Returns-convert, Returns-ask_result,
}
use solarium.Driver.Actor.{Actor}
use solarium.Driver.Actor.Laws.{new-Returns}
use solarium.Driver.Actor.Airdrop.{Confirmed, airdrop-Returns}
use solarium.Driver.Calls.{HostReturns, send-Returns, mint_to-Returns, new_token_account-Returns}
use solarium.Driver.Token.{Mint, TokenAccount, mint_to}
use solarium.Driver.Serum.{SerumDex}
use solarium.Driver.Serum.Sizes.{
  fit, request_queue_size, event_queue_size, side_size, market_size, open_orders_size,
}
use solarium.Driver.Serum.Sizes.Bounds.{sizes_lem}
use solarium.Driver.Serum.Vault.{create_vault_address}
use solarium.Driver.Serum.Vault.Total.{Searched, least, exhausted, create_vault_address-Searched}
use solarium.Driver.Serum.Market.{Market}
use solarium.Driver.Serum.Participant.{mint_some, new_open_orders, new}

pub record DexReturns (h : Host) (d : SerumDex h) : Type 0 where
  pub initialize_market :
      (market serum base quote base_vault quote_vault : h.Pubkey) (a b c : Option h.Pubkey)
      (bids asks requests events : h.Pubkey) (base_lot quote_lot nonce dust : ℕ)
      → Returned (
          d.initialize_market market serum base quote base_vault quote_vault a b c bids asks
            requests events base_lot quote_lot nonce dust)
  pub gen_vault_signer_key :
      (nonce : ℕ) (market serum : h.Pubkey) → Returned (d.gen_vault_signer_key nonce market serum)
  pub init_open_orders :
      (serum orders owner market : h.Pubkey) (authority : Option h.Pubkey)
      → Returned (d.init_open_orders serum orders owner market authority)

module _ (h : Host) where
  fit-Returned : (n : ℕ) → Returned (fit {E = Error h} n)
  unfolding fit
  fit-Returned n = by_test (ltb n (2 ^ 64))
    where
      by_test : (b : Bool) → Returned {E = Error h} (if b then ok n else panic)
      by_test true = tt
      by_test false = tt

  module _ (d : SerumDex h) where
    pub request_queue_size-Returned : (n : ℕ) → Returned (request_queue_size {E = Error h} h d n)
    request_queue_size-Returned n = rw ((sizes_lem {E = Error h} h d).0 n) (fit-Returned _)

    pub event_queue_size-Returned : (n : ℕ) → Returned (event_queue_size {E = Error h} h d n)
    event_queue_size-Returned n = rw ((sizes_lem {E = Error h} h d).1 n) (fit-Returned _)

    pub side_size-Returned : (n : ℕ) → Returned (side_size {E = Error h} h d n)
    side_size-Returned n = rw ((sizes_lem {E = Error h} h d).2 n) (fit-Returned _)

    pub market_size-Returned :
        (authority : Bool) → Returned (market_size {E = Error h} h d authority)
    market_size-Returned true = rw ((sizes_lem {E = Error h} h d).3) (fit-Returned _)
    market_size-Returned false = rw ((sizes_lem {E = Error h} h d).4) (fit-Returned _)

    pub open_orders_size-Returned : Returned (open_orders_size {E = Error h} h d)
    open_orders_size-Returned = rw ((sizes_lem {E = Error h} h d).5) (fit-Returned _)

    Searched-Returned :
        (serum market : h.Pubkey) (o : Outcome (Error h) (h.Pubkey × ℕ))
        → Searched h d serum market o
        → Returned o
    Searched-Returned serum market _ (least key nonce small hit below) = tt
    Searched-Returned serum market _ (exhausted below) = tt

    pub create_vault_address-Returned :
        (serum market : h.Pubkey) (rounds : ℕ)
        → 2 ^ 64 ≤ rounds
        → Returned (create_vault_address {E = Error h} h d serum market rounds)
    create_vault_address-Returned serum market rounds enough =
        Searched-Returned serum market _
          (create_vault_address-Searched h d serum market rounds enough)

module _ (h : Host) (R : HostReturns h) (d : SerumDex h) (D : DexReturns h d) where
  mint_some-Returns :
      (mint : Mint h) (payer : Actor h) (account : TokenAccount h) (amount : ℕ)
      → Returns h (mint_some h mint payer account amount)
  unfolding mint_some
  mint_some-Returns mint payer account amount = by_test (ltb 0 amount)
    where
      by_test :
          (b : Bool)
          → Returns h (if b then mint_to h mint payer account amount else pure {h = h} tt)
      by_test true = mint_to-Returns h R mint payer account amount
      by_test false = Returns-pure h tt

  new_open_orders-Returns :
      (payer : Actor h) (market : Market h) (participant : Actor h)
      → Returns h (new_open_orders h d payer market participant)
  unfolding new_open_orders
  new_open_orders-Returns payer market participant = Returns-bind h _ _ (new-Returns h) λ orders.
      Returns-bind h _ _ (Returns-convert h (λ e. e) _ (open_orders_size-Returned h d)) λ bytes.
        Returns-bind h _ _
          (Returns-ask_result h solana_client_error (h.get_minimum_balance_for_rent_exemption bytes)
            (R.get_minimum_balance_for_rent_exemption bytes))
          λ rent.
            Returns-bind h _ _ (Returns-convert h serum_dex_error _ (D.init_open_orders _ _ _ _ _))
              λ initialize. Returns-then _ _ (send-Returns h R _ _ _) (Returns-pure h _)

  pub participant-Returns :
      (rounds : ℕ)
      → ((signature : h.Signature) (state : h.State) → Confirmed h rounds signature state)
      → (payer : Actor h) (market : Market h) (lamports base quote : ℕ)
      → Returns h (new h d rounds payer market lamports base quote)
  unfolding new
  participant-Returns rounds confirmations payer market lamports base quote =
      Returns-bind h _ _ (new-Returns h) λ actor.
        Returns-bind h _ _
          (airdrop-Returns h rounds actor lamports (R.request_airdrop actor.pubkey lamports)
            confirmations)
          λ funded.
            Returns-bind h _ _
              (new_token_account-Returns h R payer market.base_mint (some actor.pubkey))
              λ base_account.
                Returns-bind h _ _
                  (new_token_account-Returns h R payer market.quote_mint (some actor.pubkey))
                  λ quote_account.
                    Returns-bind h _ _ (mint_some-Returns market.base_mint payer base_account base)
                      λ minted.
                        Returns-bind h _ _
                          (mint_some-Returns market.quote_mint payer quote_account quote)
                          λ minted.
                            Returns-bind h _ _ (new_open_orders-Returns payer market actor)
                              λ orders. Returns-pure h _
