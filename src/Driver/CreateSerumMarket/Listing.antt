-- ===== src/Driver/CreateSerumMarket/Listing.antt =====
-- What the file that src/bin/create_serum_market.rs writes says.
use solarium.Base.{ℕ, ◌≡◌, refl, List}
use solarium.Driver.Host.{Host}
use solarium.Driver.Machine.{Machine}
use solarium.Driver.Sandbox.Start.{Sandbox, url, local_url}
use solarium.Driver.Actor.{Actor}
use solarium.Driver.Serum.Market.{Market}
use solarium.Driver.Serum.Participant.{Participant}
use solarium.Driver.CreateSerumMarket.{
  TestMarketParticipant, TestMarket, Files, describe, test_market,
}

module _ (h : Host) (f : Files h) where
  -- The entry of a participant: the private key, and the keys of the accounts.
  pub record Entry (p : Participant h) (entry : TestMarketParticipant) : Type 0 where
    pub keypair_lem : entry.keypair ≡ f.to_base58_string p.account.keypair
    pub base_lem : entry.base ≡ f.key_text p.base.account.pubkey
    pub quote_lem : entry.quote ≡ f.key_text p.quote.account.pubkey
    pub orders_lem : entry.orders ≡ f.key_text p.open_orders.pubkey

  pub describe-Entry : (p : Participant h) → Entry p (describe h f p)
  describe-Entry p = record {
    keypair_lem = refl;
    base_lem = refl;
    quote_lem = refl;
    orders_lem = refl;
  }

  -- The entry of a market but for its participants.
  pub record Listing (port : ℕ) (serum_program : Actor h) (market : Market h) (listing : TestMarket)
      : Type 0 where
    pub url_lem : listing.url ≡ local_url port
    pub program_id_lem : listing.program_id ≡ f.key_text serum_program.pubkey
    pub market_lem : listing.market ≡ f.key_text market.market.pubkey
    pub bids_lem : listing.bids ≡ f.key_text market.bids.pubkey
    pub asks_lem : listing.asks ≡ f.key_text market.asks.pubkey
    pub request_queue_lem : listing.request_queue ≡ f.key_text market.request_queue.pubkey
    pub event_queue_lem : listing.event_queue ≡ f.key_text market.event_queue.pubkey
    pub base_vault_lem : listing.base_vault ≡ f.key_text market.base_vault.account.pubkey
    pub quote_vault_lem : listing.quote_vault ≡ f.key_text market.quote_vault.account.pubkey
    pub base_mint_lem : listing.base_mint ≡ f.key_text market.base_mint.mint.pubkey
    pub quote_mint_lem : listing.quote_mint ≡ f.key_text market.quote_mint.mint.pubkey

  pub test_market-Listing :
      (m : Machine h) (sandbox : Sandbox h m) (serum_program : Actor h) (market : Market h)
      (participants : List TestMarketParticipant)
      → Listing sandbox.port serum_program market
          (test_market h f (url h m sandbox) serum_program market participants)
  unfolding url
  test_market-Listing m sandbox serum_program market participants = record {
    url_lem = refl;
    program_id_lem = refl;
    market_lem = refl;
    bids_lem = refl;
    asks_lem = refl;
    request_queue_lem = refl;
    event_queue_lem = refl;
    base_vault_lem = refl;
    quote_vault_lem = refl;
    base_mint_lem = refl;
    quote_mint_lem = refl;
  }
