-- ===== src/Driver/Serum/Guards.antt =====
-- src/serum.rs: the checks at the head of `Market::new`.
use solarium.Base.{ℕ, ◌≤◌, ◌<◌, ◌≡◌, refl, Option, err, lt→ltb, le→leb, le→ltb_false, positive→==}
use solarium.Driver.Host.{Host, serum_dex_error, World}
use solarium.Driver.Monad.{raise}
use solarium.Driver.Actor.{Actor}
use solarium.Driver.Token.{Mint}
use solarium.Driver.Serum.{SerumDex}
use solarium.Driver.Serum.Market.{new}

module _ (h : Host) (d : SerumDex h) where
  -- The lengths of the request queue, the event queue and the book that are refused, each with the
  -- error of the first check that fails.
  pub data Refused : ℕ → ℕ → ℕ → h.DexError → Type 0 where
    no_request : (events nodes : ℕ) → Refused 0 events nodes d.request_queue_empty
    few_events :
        (requests events nodes : ℕ)
        → 0 < requests
        → events < 128
        → Refused requests events nodes d.event_queue_too_small
    few_nodes :
        (requests events nodes : ℕ)
        → 0 < requests
        → 128 ≤ events
        → nodes ≤ 200
        → Refused requests events nodes d.slab_too_small

  module _ (vault_rounds : ℕ) (actor : Actor h) (serum : h.Pubkey) (base_mint quote_mint : Mint h)
      (authority : Option h.Pubkey) (base_lot_size quote_lot_size dust_threshold : ℕ) where
    -- Where a length is refused, `Market::new` returns the error of the first check that fails and
    -- has called nothing: the world outside is as it was, and nothing was submitted.
    pub new-Refused :
        (requests events nodes : ℕ) (e : h.DexError) (w : World h)
        → Refused requests events nodes e
        → new h d vault_rounds actor serum base_mint quote_mint authority base_lot_size
            quote_lot_size dust_threshold requests events nodes w
          ≡ (err (serum_dex_error e), w)
    unfolding new raise
    new-Refused _ _ _ _ w (no_request events nodes) = refl
    new-Refused _ _ _ _ w (few_events requests events nodes some few) =
        rw (positive→== requests some, lt→ltb events 128 few)
    new-Refused _ _ _ _ w (few_nodes requests events nodes some enough few) =
        rw (positive→== requests some, le→ltb_false events 128 enough, le→leb nodes 200 few)
