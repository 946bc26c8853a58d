-- ===== src/Driver/Serum/Market.antt =====
-- src/serum.rs: the creation of a market. `vault_rounds` bounds the search for the vaults' address; 2 ^ 64
-- rounds are always enough.
pub mod Laws
pub mod Creation
pub mod Returns
use solarium.Base.{
  ℕ, ltb, leb, ◌==◌, if◌then◌else◌, Bool, true, false, List, [], ◌∷◌, ◌++◌, Option, some, none,
}
use solarium.Solana.{Instruction}
use solarium.Driver.Host.{Host, solana_program_error, serum_dex_error}
use solarium.Driver.Monad.{M, ◌>>=◌, pure, raise, convert}
use solarium.Driver.Sandbox.{send_signed_transaction_with_payers}
use solarium.Driver.Actor.{Actor, create_account}
use solarium.Driver.Actor
use solarium.Driver.Token.{Mint, TokenAccount, new_token_account}
use solarium.Driver.Serum.{SerumDex}
use solarium.Driver.Serum.Sizes.{request_queue_size, event_queue_size, side_size, market_size}
use solarium.Driver.Serum.Vault.{create_vault_address}

pub record Market (h : Host) : Type 0 where
  pub serum : h.Pubkey
  pub market : Actor h
  pub authority : Option h.Pubkey
  pub request_queue : Actor h
  pub event_queue : Actor h
  pub bids : Actor h
  pub asks : Actor h
  pub base_vault : TokenAccount h
  pub quote_vault : TokenAccount h
  pub vault_signer_key : h.Pubkey
  pub base_mint : Mint h
  pub quote_mint : Mint h
  pub open_orders_accounts : List h.Pubkey

abbrev is_some : {A : Type 0} → Option A → Bool
is_some (some a) = true
is_some none = false

module _ (h : Host) where
  -- `for (pubkey, len) in sized_accounts.iter() { instructions.push(create_account(…)?) }`
  unfoldable pub create_accounts :
      Actor h → List (h.Pubkey × ℕ) → h.Pubkey → M h (List (Instruction h.solana))
  create_accounts actor [] serum = pure []
  create_accounts actor ((pubkey, len) ∷ sized_accounts) serum = do
    instruction ← create_account h actor pubkey len serum
    instructions ← create_accounts actor sized_accounts serum
    pure (instruction ∷ instructions)

module _ (h : Host) (d : SerumDex h) (vault_rounds : ℕ) where
  -- `Market::new` behind its checks.
  pub allocate :
      Actor h
      → h.Pubkey
      → Mint h
      → Mint h
      → Option h.Pubkey
      → ℕ
      → ℕ
      → ℕ
      → ℕ
      → ℕ
      → ℕ
      → M h (Market h)
  allocate actor serum base_mint quote_mint authority base_lot_size quote_lot_size dust_threshold
        request_queue_len event_queue_len book_len =
      do
        market ← Actor.new h
        request_queue ← Actor.new h
        event_queue ← Actor.new h
        bids ← Actor.new h
        asks ← Actor.new h
        (vault_address, vault_nonce) ←
            convert (λ e. e) (create_vault_address h d serum market.pubkey vault_rounds)
        base_vault ← new_token_account h actor base_mint (some vault_address)
        quote_vault ← new_token_account h actor quote_mint (some vault_address)
        let has_authority = is_some authority
        book_size ← convert (λ e. e) (side_size h d book_len)
        market_bytes ← convert (λ e. e) (market_size h d has_authority)
        request_queue_bytes ← convert (λ e. e) (request_queue_size h d request_queue_len)
        event_queue_bytes ← convert (λ e. e) (event_queue_size h d event_queue_len)
        let sized_accounts =
            (market.pubkey, market_bytes)
            ∷ (request_queue.pubkey, request_queue_bytes)
            ∷ (event_queue.pubkey, event_queue_bytes)
            ∷ (bids.pubkey, book_size)
            ∷ (asks.pubkey, book_size)
            ∷ []
        instructions ← create_accounts h actor sized_accounts serum
        initialize_market ← convert serum_dex_error (
            d.initialize_market market.pubkey serum base_mint.mint.pubkey quote_mint.mint.pubkey
              base_vault.account.pubkey quote_vault.account.pubkey authority authority authority
              bids.pubkey asks.pubkey request_queue.pubkey event_queue.pubkey base_lot_size
              quote_lot_size vault_nonce dust_threshold)
        let signers =
            actor.keypair ∷ market.keypair ∷ request_queue.keypair ∷ event_queue.keypair
            ∷ bids.keypair ∷ asks.keypair ∷ []
        sent ←
            send_signed_transaction_with_payers h (instructions ++ (initialize_market ∷ []))
              (some actor.pubkey) signers
        vault_signer_key ←
            convert solana_program_error (d.gen_vault_signer_key vault_nonce market.pubkey serum)
        pure (record {
          serum = serum;
          market = market;
          authority = authority;
          request_queue = request_queue;
          event_queue = event_queue;
          bids = bids;
          asks = asks;
          base_vault = base_vault;
          quote_vault = quote_vault;
          vault_signer_key = vault_signer_key;
          base_mint = base_mint;
          quote_mint = quote_mint;
          open_orders_accounts = [];
        })

  unfoldable pub new :
      Actor h
      → h.Pubkey
      → Mint h
      → Mint h
      → Option h.Pubkey
      → ℕ
      → ℕ
      → ℕ
      → ℕ
      → ℕ
      → ℕ
      → M h (Market h)
  unfolding allocate
  new actor serum base_mint quote_mint authority base_lot_size quote_lot_size dust_threshold
        request_queue_len event_queue_len book_len =
      let rest =
        allocate actor serum base_mint quote_mint authority base_lot_size quote_lot_size
          dust_threshold request_queue_len event_queue_len book_len in
      if request_queue_len == 0
      then raise (serum_dex_error d.request_queue_empty)
      else (if ltb event_queue_len 128
          then raise (serum_dex_error d.event_queue_too_small)
          else (if leb book_len 200 then raise (serum_dex_error d.slab_too_small) else rest))
