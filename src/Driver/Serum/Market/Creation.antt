-- ===== src/Driver/Serum/Market/Creation.antt =====
-- `Market::new` in src/serum.rs as a whole.
use solarium.Base.{
  ℕ, ◌≤◌, ◌<◌, ◌≡◌, refl, sym, subst, List, [], inl, inr, Option, length, Outcome, ok, err, panic,
  spin, positive→==, le→ltb_false, lt→leb_false, le-cases, arith,
}
use solarium.Driver.Host.{Host, Error, Submission, World}
use solarium.Driver.Monad.{M}
use solarium.Driver.Submits.{Submits, Added}
use solarium.Driver.Actor.{Actor}
use solarium.Driver.Token.{Mint}
use solarium.Driver.Serum.{SerumDex}
use solarium.Driver.Serum.Guards.{Refused, no_request, few_events, few_nodes, new-Refused}
use solarium.Driver.Serum.Market.{Market, new, allocate}
use solarium.Driver.Serum.Market.Laws.{MarketCreation, allocate-Submits}

module _ (h : Host) (d : SerumDex h) (vault_rounds : ℕ) (actor : Actor h) (serum : h.Pubkey)
    (base_mint quote_mint : Mint h) (authority : Option h.Pubkey)
    (base_lot_size quote_lot_size dust_threshold requests events nodes : ℕ) where
  -- A market that was created, with its transactions, last one first.
  pub record Accepted (m : Market h) (ts : List (Submission h)) : Type 0 where
    pub requests_lem : 0 < requests
    pub events_lem : 128 ≤ events
    pub nodes_lem : 200 < nodes
    pub creation :
        MarketCreation h d vault_rounds actor serum base_mint quote_mint authority base_lot_size
          quote_lot_size dust_threshold requests events nodes m ts

  abbrev create : M h (Market h)
  create =
      new h d vault_rounds actor serum base_mint quote_mint authority base_lot_size quote_lot_size
        dust_threshold requests events nodes

  abbrev Few : List (Submission h) → Type 0
  Few ts = length ts ≤ 3

  create-Submits-Refused :
      (e : h.DexError) → Refused h d requests events nodes e → Submits h Accepted Few create
  create-Submits-Refused e r = record {
    added = λ w.
        subst (λ x. Added h Accepted Few w.sent x.0 x.1)
          (sym (
            new-Refused h d vault_rounds actor serum base_mint quote_mint authority base_lot_size
              quote_lot_size dust_threshold requests events nodes e w r))
          ([], refl, omega arith);
  }

  module _ (some_requests : 0 < requests) (some_events : 128 ≤ events)
      (some_nodes : 200 < nodes) where
    new-allocate :
        create
        ≡ allocate h d vault_rounds actor serum base_mint quote_mint authority base_lot_size
            quote_lot_size dust_threshold requests events nodes
    unfolding new
    new-allocate = rw (
      positive→== requests some_requests,
      le→ltb_false events 128 some_events,
      lt→leb_false nodes 200 some_nodes,
    )

    accept :
        (w : World h) (x : Outcome (Error h) (Market h) × World h)
        → Added h
            (MarketCreation h d vault_rounds actor serum base_mint quote_mint authority
              base_lot_size quote_lot_size dust_threshold requests events nodes)
            Few
            w.sent
            x.0
            x.1
        → Added h Accepted Few w.sent x.0 x.1
    accept w (ok m, after) a = (
      a.0,
      a.1,
      record {
        requests_lem = some_requests;
        events_lem = some_events;
        nodes_lem = some_nodes;
        creation = a.2;
      },
    )
    accept w (err e, after) a = a
    accept w (panic, after) a = a
    accept w (spin, after) a = a

    create-Submits-Accepted : Submits h Accepted Few create
    create-Submits-Accepted = record {
      added = λ w.
          subst (λ (call : M h (Market h)). Added h Accepted Few w.sent (call w).0 (call w).1)
            (sym new-allocate)
            (accept w _ (
              (allocate-Submits h d vault_rounds actor serum base_mint quote_mint authority
                  base_lot_size quote_lot_size dust_threshold requests events nodes).added
                w));
    }

  -- Where `Market::new` succeeds, the request queue is not empty, the event queue has 128 events or
  -- more and the book more than 200 nodes, and it has handed exactly three transactions to the
  -- client, all of them confirmed. The first two create the vaults, as token accounts of the base
  -- and of the quote mint that belong to the address that `create_vault_address` finds for the
  -- market. The third, which the actor pays and which the actor and the five new accounts sign,
  -- creates the market, its two queues and its two books, in the sizes that are computed for them
  -- and owned by serum, and then initializes the market with the nonce of that address. The
  -- returned signer key is the one that serum_dex derives from the nonce. Where it does not
  -- succeed, it has handed over three transactions at most.
  pub new-Submits :
      Submits h Accepted
        (λ ts. length ts ≤ 3)
        (new h d vault_rounds actor serum base_mint quote_mint authority base_lot_size
          quote_lot_size dust_threshold requests events nodes)
  new-Submits = elim (le-cases requests 0) [
    | inl none_left ↦ create-Submits-Refused d.request_queue_empty (
        subst (λ n. Refused h d n events nodes d.request_queue_empty) (zero_is none_left)
          (no_request events nodes))
    | inr some_requests ↦ elim (le-cases 128 events) [
      | inr few ↦
          create-Submits-Refused d.event_queue_too_small
            (few_events requests events nodes some_requests few)
      | inl some_events ↦ elim (le-cases nodes 200) [
        | inl few ↦
            create-Submits-Refused d.slab_too_small
              (few_nodes requests events nodes some_requests some_events few)
        | inr some_nodes ↦ create-Submits-Accepted some_requests some_events some_nodes
      ]
    ]
  ]
    where
      zero_is : requests ≤ 0 → 0 ≡ requests
      zero_is none_left = omega arith
