-- ===== src/Driver/Serum/Market/Returns.antt =====
-- `Market::new` of src/serum.rs returns, where the calls outside do.
use solarium.Base.{
  ℕ, ◌≤◌, ◌^◌, ltb, leb, ◌==◌, if◌then◌else◌, Bool, true, false, List, [], ◌∷◌, Option, some,
}
use solarium.Driver.Host.{Host, Error, solana_program_error, serum_dex_error}
use solarium.Driver.Monad.{M, raise}
use solarium.Driver.Returns.{Returns, Returns-bind, Returns-pure, Returns-raise, Returns-convert}
use solarium.Driver.Actor.{Actor}
use solarium.Driver.Actor.Laws.{new-Returns}
use solarium.Driver.Calls.{
  HostReturns, send-Returns, create_account-Returns, new_token_account-Returns,
}
use solarium.Driver.Token.{Mint}
use solarium.Driver.Serum.{SerumDex}
use solarium.Driver.Serum.Calls.{
  DexReturns, create_vault_address-Returned, request_queue_size-Returned, event_queue_size-Returned,
  side_size-Returned, market_size-Returned,
}
use solarium.Driver.Serum.Market.{is_some, create_accounts, allocate, new}

module _ (h : Host) (R : HostReturns h) where
  create_accounts-Returns :
      (actor : Actor h) (accounts : List (h.Pubkey × ℕ)) (serum : h.Pubkey)
      → Returns h (create_accounts h actor accounts serum)
  unfolding create_accounts
  create_accounts-Returns actor [] serum = Returns-pure h []
  create_accounts-Returns actor ((key, bytes) ∷ accounts) serum =
      Returns-bind h _ _ (create_account-Returns h R actor key bytes serum) λ instruction.
        Returns-bind h _ _ (create_accounts-Returns actor accounts serum)
          λ instructions. Returns-pure h (instruction ∷ instructions)

  guarded :
      {A : Type 0} (test : Bool) (e : Error h) (rest : M h A)
      → Returns h rest
      → Returns h (if test then raise {h = h} e else rest)
  guarded true e rest r = Returns-raise h e
  guarded false e rest r = r

module _ (h : Host) (R : HostReturns h) (d : SerumDex h) (D : DexReturns h d) (rounds : ℕ)
    (enough : 2 ^ 64 ≤ rounds) (actor : Actor h) (serum : h.Pubkey) (base_mint quote_mint : Mint h)
    (authority : Option h.Pubkey) (base_lot quote_lot dust requests events nodes : ℕ) where
  allocate-Returns : Returns h (
      allocate h d rounds actor serum base_mint quote_mint authority base_lot quote_lot dust
        requests events nodes)
  unfolding allocate
  allocate-Returns = Returns-bind h _ _ (new-Returns h) λ market.
      Returns-bind h _ _ (new-Returns h) λ request_queue.
        Returns-bind h _ _ (new-Returns h) λ event_queue. Returns-bind h _ _ (new-Returns h) λ bids.
          Returns-bind h _ _ (new-Returns h) λ asks.
            Returns-bind h _ _
              (Returns-convert h (λ e. e) _
                (create_vault_address-Returned h d serum market.pubkey rounds enough))
              λ (vault, nonce).
                Returns-bind h _ _ (new_token_account-Returns h R actor base_mint (some vault))
                  λ base_vault.
                    Returns-bind h _ _ (new_token_account-Returns h R actor quote_mint (some vault))
                      λ quote_vault.
                        Returns-bind h _ _
                          (Returns-convert h (λ e. e) _ (side_size-Returned h d nodes))
                          λ book.
                            Returns-bind h _ _
                              (Returns-convert h (λ e. e) _
                                (market_size-Returned h d (is_some authority)))
                              λ bytes.
                                Returns-bind h _ _
                                  (Returns-convert h (λ e. e) _
                                    (request_queue_size-Returned h d requests))
                                  λ request_bytes.
                                    Returns-bind h _ _
                                      (Returns-convert h (λ e. e) _
                                        (event_queue_size-Returned h d events))
                                      λ event_bytes.
                                        Returns-bind h _ _
                                          (create_accounts-Returns h R actor _ serum)
                                          λ instructions.
                                            Returns-bind h _ _
                                              (Returns-convert h serum_dex_error _ (
                                                D.initialize_market _ _ _ _ _ _ _ _ _ _ _ _ _ _ _ _
                                                  _))
                                              λ initialize.
                                                Returns-bind h _ _ (send-Returns h R _ _ _) λ sent.
                                                  Returns-bind h _ _
                                                    (Returns-convert h solana_program_error _
                                                      (D.gen_vault_signer_key _ _ _))
                                                    λ signer. Returns-pure h _

  pub market-Returns : Returns h (
      new h d rounds actor serum base_mint quote_mint authority base_lot quote_lot dust requests
        events nodes)
  unfolding new
  market-Returns = guarded h R (requests == 0) (serum_dex_error d.request_queue_empty) _ (
      guarded h R (ltb events 128) (serum_dex_error d.event_queue_too_small) _
        (guarded h R (leb nodes 200) (serum_dex_error d.slab_too_small) _ allocate-Returns))
