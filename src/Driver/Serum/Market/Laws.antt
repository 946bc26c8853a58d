-- ===== src/Driver/Serum/Market/Laws.antt =====
-- The transactions of `Market::new` in src/serum.rs.
use solarium.Base.{
  ℕ, ◌≤◌, ◌≡◌, refl, List, [], ◌∷◌, ◌++◌, length, Option, some, Outcome, ok, err, panic, spin,
  subst, sym, ap, arith,
}
use solarium.Solana.{Instruction}
use solarium.Driver.Host.{Host, Error, solana_client_error, Submission, World}
use solarium.Driver.Monad.{◌>>=◌, continue, pure, convert, ask_result}
use solarium.Driver.Sends.{submission, send_signed-Sends}
use solarium.Driver.Submits.{
  Given, Gives, Gives-bind, Gives-pure, Submits, Submits-keep, Submits-convert, Submits-give,
  Submits-send, Submits-pure,
}
use solarium.Driver.Actor.{Actor, create_account}
use solarium.Driver.Actor.Laws.{new-Keeps}
use solarium.Driver.Token.{Mint}
use solarium.Driver.Token.Laws.{TokenAccountCreation, new_token_account-Sends}
use solarium.Driver.Serum.{SerumDex}
use solarium.Driver.Serum.Sizes.{request_queue_size, event_queue_size, side_size, market_size}
use solarium.Driver.Serum.Vault.{create_vault_address}
use solarium.Driver.Serum.Market.{Market, is_some, create_accounts, allocate}

module _ (h : Host) (actor : Actor h) (serum : h.Pubkey) where
  -- Instructions that create these accounts, in this order.
  pub data Created : List (h.Pubkey × ℕ) → List (Instruction h.solana) → Type 0 where
    no_more : Created [] []
    one_more :
        {accounts : List (h.Pubkey × ℕ)} {instructions : List (Instruction h.solana)}
        (key : h.Pubkey) (bytes rent : ℕ)
        → Created accounts instructions
        → Created
            ((key, bytes) ∷ accounts)
            (h.system_create_account actor.pubkey key rent bytes serum ∷ instructions)

  create_account-Given :
      (o : Outcome h.ClientError ℕ) (key : h.Pubkey) (bytes : ℕ) (w : World h)
      → Given h
          (λ i. (rent : ℕ) × i ≡ h.system_create_account actor.pubkey key rent bytes serum)
          w.sent
          (continue
            (convert {h = h} solana_client_error o w).0
            (λ rent. pure (h.system_create_account actor.pubkey key rent bytes serum))
            (convert {h = h} solana_client_error o w).1).0
          (continue
            (convert {h = h} solana_client_error o w).0
            (λ rent. pure (h.system_create_account actor.pubkey key rent bytes serum))
            (convert {h = h} solana_client_error o w).1).1
  unfolding continue convert pure
  create_account-Given (ok rent) key bytes w = (refl, (rent, refl))
  create_account-Given (err e) key bytes w = refl
  create_account-Given panic key bytes w = refl
  create_account-Given spin key bytes w = refl

  create_account-Gives :
      (key : h.Pubkey) (bytes : ℕ)
      → Gives h
          (λ i. (rent : ℕ) × i ≡ h.system_create_account actor.pubkey key rent bytes serum)
          (create_account h actor key bytes serum)
  unfolding create_account ◌>>=◌ ask_result
  create_account-Gives key bytes = record {
    given = λ w.
        create_account-Given (h.get_minimum_balance_for_rent_exemption bytes w.state).0 key bytes
          (record w { state = (h.get_minimum_balance_for_rent_exemption bytes w.state).1 });
  }

  create_accounts-Gives :
      (accounts : List (h.Pubkey × ℕ))
      → Gives h (Created accounts) (create_accounts h actor accounts serum)
  unfolding create_accounts
  create_accounts-Gives [] = Gives-pure h (Created []) [] no_more
  create_accounts-Gives ((key, bytes) ∷ accounts) =
      Gives-bind h _ (Created ((key, bytes) ∷ accounts)) _ _ (create_account-Gives key bytes)
        λ i made.
          Gives-bind h (Created accounts) (Created ((key, bytes) ∷ accounts)) _ _
            (create_accounts-Gives accounts)
            λ is created. Gives-pure h (Created ((key, bytes) ∷ accounts)) (i ∷ is) (
              subst (λ j. Created ((key, bytes) ∷ accounts) (j ∷ is)) (sym made.1)
                (one_more key bytes made.0 created))

module _ (h : Host) (d : SerumDex h) (vault_rounds : ℕ) (actor : Actor h) (serum : h.Pubkey)
    (base_mint quote_mint : Mint h) (authority : Option h.Pubkey)
    (base_lot_size quote_lot_size dust_threshold requests events nodes : ℕ) where
  -- The three transactions that create a market, last one first.
  pub record MarketCreation (m : Market h) (ts : List (Submission h)) : Type 0 where
    pub vault_address : h.Pubkey
    pub vault_nonce : ℕ
    pub vault_lem :
        create_vault_address {E = Error h} h d serum m.market.pubkey vault_rounds
        ≡ ok (vault_address, vault_nonce)
    pub base : Submission h
    pub base_lem : TokenAccountCreation h actor base_mint (some vault_address) m.base_vault base
    pub quote : Submission h
    pub quote_lem : TokenAccountCreation h actor quote_mint (some vault_address) m.quote_vault quote
    pub book_bytes : ℕ
    pub book_lem : side_size {E = Error h} h d nodes ≡ ok book_bytes
    pub market_bytes : ℕ
    pub market_lem : market_size {E = Error h} h d (is_some authority) ≡ ok market_bytes
    pub request_bytes : ℕ
    pub request_lem : request_queue_size {E = Error h} h d requests ≡ ok request_bytes
    pub event_bytes : ℕ
    pub event_lem : event_queue_size {E = Error h} h d events ≡ ok event_bytes
    pub instructions : List (Instruction h.solana)
    pub created :
        Created h actor serum
          ((m.market.pubkey, market_bytes)
            ∷ (m.request_queue.pubkey, request_bytes)
            ∷ (m.event_queue.pubkey, event_bytes)
            ∷ (m.bids.pubkey, book_bytes)
            ∷ (m.asks.pubkey, book_bytes)
            ∷ [])
          instructions
    pub initialize : Instruction h.solana
    pub initialize_lem :
        d.initialize_market m.market.pubkey serum base_mint.mint.pubkey quote_mint.mint.pubkey
          m.base_vault.account.pubkey m.quote_vault.account.pubkey authority authority authority
          m.bids.pubkey m.asks.pubkey m.request_queue.pubkey m.event_queue.pubkey base_lot_size
          quote_lot_size vault_nonce dust_threshold
        ≡ ok initialize
    pub signer_lem :
        d.gen_vault_signer_key vault_nonce m.market.pubkey serum ≡ ok m.vault_signer_key
    pub transactions_lem :
        ts
        ≡ submission h (instructions ++ (initialize ∷ [])) (some actor.pubkey) (
            actor.keypair ∷ m.market.keypair ∷ m.request_queue.keypair ∷ m.event_queue.keypair
            ∷ m.bids.keypair ∷ m.asks.keypair ∷ [])
          ∷ quote
          ∷ base
          ∷ []

  abbrev pub AtMostThree : List (Submission h) → Type 0
  AtMostThree ts = length ts ≤ 3

  pub allocate-Submits : Submits h MarketCreation AtMostThree (
      allocate h d vault_rounds actor serum base_mint quote_mint authority base_lot_size
        quote_lot_size dust_threshold requests events nodes)
  unfolding allocate
  allocate-Submits = Submits-keep h _ _ _ _ (new-Keeps h) (omega arith) λ market.
      Submits-keep h _ _ _ _ (new-Keeps h) (omega arith) λ request_queue.
        Submits-keep h _ _ _ _ (new-Keeps h) (omega arith) λ event_queue.
          Submits-keep h _ _ _ _ (new-Keeps h) (omega arith) λ bids.
            Submits-keep h _ _ _ _ (new-Keeps h) (omega arith) λ asks.
              Submits-convert h _ _ _ _ _ (omega arith) λ vault vault_lem.
                Submits-send h _ _ _ _ _ (new_token_account-Sends h actor base_mint (some vault.0))
                  (omega arith) (λ t. omega arith)
                  λ base_vault base base_lem.
                    Submits-send h _ _ _ _ _
                      (new_token_account-Sends h actor quote_mint (some vault.0)) (omega arith)
                      (λ t. omega arith)
                      λ quote_vault quote quote_lem.
                        Submits-convert h _ _ _ _ _ (omega arith) λ book_bytes book_lem.
                          Submits-convert h _ _ _ _ _ (omega arith) λ market_bytes market_lem.
                            Submits-convert h _ _ _ _ _ (omega arith) λ request_bytes request_lem.
                              Submits-convert h _ _ _ _ _ (omega arith) λ event_bytes event_lem.
                                Submits-give h _ _ _ _ _ (create_accounts-Gives h actor serum _)
                                  (omega arith)
                                  λ instructions created.
                                    Submits-convert h _ _ _ _ _ (omega arith)
                                      λ initialize initialize_lem.
                                        Submits-send h _ _ _ _ _ (send_signed-Sends h _ _ _)
                                          (omega arith) (λ t. omega arith)
                                          λ sent t t_lem.
                                            Submits-convert h _ _ _ _ _ (omega arith)
                                              λ vault_signer_key signer_lem.
                                                Submits-pure h _ _ _ (record {
                                                  vault_address = vault.0;
                                                  vault_nonce = vault.1;
                                                  vault_lem = vault_lem;
                                                  base = base;
                                                  base_lem = base_lem;
                                                  quote = quote;
                                                  quote_lem = quote_lem;
                                                  book_bytes = book_bytes;
                                                  book_lem = book_lem;
                                                  market_bytes = market_bytes;
                                                  market_lem = market_lem;
                                                  request_bytes = request_bytes;
                                                  request_lem = request_lem;
                                                  event_bytes = event_bytes;
                                                  event_lem = event_lem;
                                                  instructions = instructions;
                                                  created = created;
                                                  initialize = initialize;
                                                  initialize_lem = initialize_lem;
                                                  signer_lem = signer_lem;
                                                  transactions_lem =
                                                      ap (λ u. u ∷ quote ∷ base ∷ []) t_lem;
                                                })
