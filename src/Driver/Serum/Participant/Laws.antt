-- ===== src/Driver/Serum/Participant/Laws.antt =====
-- The transactions of `Participant::new` in src/serum.rs.
use solarium.Base.{
  ℕ, suc, ◌≤◌, ◌<◌, ◌≡◌, refl, ap, List, [], ◌∷◌, ◌++◌, append_assoc, length, length-append, some,
  none, Outcome, ok, err, panic, spin, lt→ltb, le→ltb_false, le-cases, inl, inr, arith,
}
use solarium.Solana.{Instruction}
use solarium.Driver.Host.{Host, Error, solana_client_error, serum_dex_error, Submission, World}
use solarium.Driver.Monad.{pure}
use solarium.Driver.Sends.{
  Sends, Sends-bind, Sends-convert, Keeps-ask_result, submission, send_signed_then-Sends, SentOne,
  Failed, handed, unconfirmed,
}
use solarium.Driver.Sends.{nothing as nothing_handed}
use solarium.Driver.Submits.{Added, Submits, Submits-keep, Submits-send, Submits-bind, Submits-pure}
use solarium.Driver.Actor.{Actor}
use solarium.Driver.Actor.Laws.{new-Keeps}
use solarium.Driver.Actor.Airdrop.{airdrop-Keeps}
use solarium.Driver.Token.{Mint, TokenAccount, mint_to}
use solarium.Driver.Token.Laws.{
  TokenAccountCreation, new_token_account-Sends, Minting, mint_to-Sends,
}
use solarium.Driver.Serum.{SerumDex}
use solarium.Driver.Serum.Sizes.{open_orders_size}
use solarium.Driver.Serum.Market.{Market}
use solarium.Driver.Serum.Participant.{Participant, mint_some, new_open_orders, new}

module _ (h : Host) where
  -- Nothing is minted for an amount of zero, and one transaction mints another amount.
  pub data MintsSome (mint : Mint h) (payer : Actor h) (account : TokenAccount h) (amount : ℕ)
      (ts : List (Submission h)) : Type 0 where
    nothing : amount ≡ 0 → ts ≡ [] → MintsSome mint payer account amount ts
    something :
        (t : Submission h)
        → 0 < amount
        → Minting h payer mint account amount tt t
        → ts ≡ t ∷ []
        → MintsSome mint payer account amount ts

  MintsSome-length :
      (mint : Mint h) (payer : Actor h) (account : TokenAccount h) (amount : ℕ)
      (ts : List (Submission h))
      → MintsSome mint payer account amount ts
      → length ts ≤ 1
  MintsSome-length mint payer account amount ts (nothing zero_amount e) = rw e (omega arith)
  MintsSome-length mint payer account amount ts (something t positive m e) = rw e (omega arith)

  mint_some-Submits :
      (mint : Mint h) (payer : Actor h) (account : TokenAccount h) (amount : ℕ)
      → Submits h
          (λ (done : Unit {0}) ts. MintsSome mint payer account amount ts)
          (λ ts. length ts ≤ 1)
          (mint_some h mint payer account amount)
  unfolding mint_some pure
  mint_some-Submits mint payer account amount = elim (le-cases amount 0) [
    | inl none_left ↦
        rw (le→ltb_false 0 amount none_left)
          (record { added = λ w. ([], refl, nothing (omega arith) refl) })
    | inr positive ↦ rw (lt→ltb 0 amount positive) (record {
      added = λ w.
          one_added w (mint_to h mint payer account amount w).0
            (mint_to h mint payer account amount w).1 positive
            ((mint_to-Sends h payer mint account amount).sent_lem w);
    })
  ]
    where
      at_most_one :
          (w after : World h)
          → Failed h (Minting h payer mint account amount) w.sent after
          → (ts : List (Submission h)) × after.sent ≡ ts ++ w.sent × length ts ≤ 1
      at_most_one w after (nothing_handed e) = ([], e, omega arith)
      at_most_one w after (handed done t e m) = (unconfirmed t ∷ [], e, omega arith)

      one_added :
          (w : World h) (o : Outcome (Error h) (Unit {0})) (after : World h)
          → 0 < amount
          → SentOne h (Minting h payer mint account amount) w.sent o after
          → Added h
              (λ (done : Unit {0}) ts. MintsSome mint payer account amount ts)
              (λ ts. length ts ≤ 1)
              w.sent
              o
              after
      one_added w (ok _) after positive s = (s.0 ∷ [], s.1, something s.0 positive s.2 refl)
      one_added w (err e) after positive s = at_most_one w after s
      one_added w panic after positive s = at_most_one w after s
      one_added w spin after positive s = at_most_one w after s

module _ (h : Host) (d : SerumDex h) (payer : Actor h) (market : Market h) where
  -- The transaction that creates the account of a participant's open orders.
  pub record OpenOrdersCreation (participant open_orders : Actor h) (t : Submission h)
      : Type 0 where
    pub bytes : ℕ
    pub bytes_lem : open_orders_size {E = Error h} h d ≡ ok bytes
    pub rent : ℕ
    pub initialize : Instruction h.solana
    pub initialize_lem :
        d.init_open_orders market.serum open_orders.pubkey participant.pubkey market.market.pubkey
          none
        ≡ ok initialize
    pub submission_lem :
        t
        ≡ submission h
            (h.system_create_account payer.pubkey open_orders.pubkey rent bytes market.serum
              ∷ initialize
              ∷ [])
            (some payer.pubkey)
            (payer.keypair ∷ open_orders.keypair ∷ participant.keypair ∷ [])

  new_open_orders-Sends :
      (participant : Actor h)
      → Sends h (OpenOrdersCreation participant) (new_open_orders h d payer market participant)
  unfolding new_open_orders
  new_open_orders-Sends participant =
      Sends-bind h (OpenOrdersCreation participant) _ _ (new-Keeps h) λ open_orders.
        Sends-convert h (OpenOrdersCreation participant) (λ e. e) _ _
          λ bytes bytes_lem.
            Sends-bind h (OpenOrdersCreation participant) _ _
              (Keeps-ask_result h solana_client_error
                (h.get_minimum_balance_for_rent_exemption bytes))
              λ rent.
                Sends-convert h (OpenOrdersCreation participant) serum_dex_error _ _
                  λ initialize initialize_lem.
                    send_signed_then-Sends h _ _ _ (OpenOrdersCreation participant) _ (record {
                      bytes = bytes;
                      bytes_lem = bytes_lem;
                      rent = rent;
                      initialize = initialize;
                      initialize_lem = initialize_lem;
                      submission_lem = refl;
                    })

  module _ (rounds starting_lamports starting_base starting_quote : ℕ) where
    -- The transactions that create a participant, last one first.
    pub record ParticipantCreation (p : Participant h) (ts : List (Submission h)) : Type 0 where
      pub market_lem : p.market ≡ market
      pub base : Submission h
      pub base_lem :
          TokenAccountCreation h payer market.base_mint (some p.account.pubkey) p.base base
      pub quote : Submission h
      pub quote_lem :
          TokenAccountCreation h payer market.quote_mint (some p.account.pubkey) p.quote quote
      pub base_minting : List (Submission h)
      pub base_minting_lem : MintsSome h market.base_mint payer p.base starting_base base_minting
      pub quote_minting : List (Submission h)
      pub quote_minting_lem :
          MintsSome h market.quote_mint payer p.quote starting_quote quote_minting
      pub orders : Submission h
      pub orders_lem : OpenOrdersCreation p.account p.open_orders orders
      pub transactions_lem : ts ≡ orders ∷ (quote_minting ++ (base_minting ++ (quote ∷ base ∷ [])))

    few :
        (us vs : List (Submission h)) (q b : Submission h)
        → length us ≤ 1
        → length vs ≤ 1
        → length ((((us ++ vs) ++ (q ∷ [])) ++ (b ∷ []))) ≤ 4
    few us vs q b hu hv = omega (
      arith,
      length-append ((us ++ vs) ++ (q ∷ [])) (b ∷ []),
      length-append (us ++ vs) (q ∷ []),
      length-append us vs,
    )

    one_less : {n : ℕ} → n ≤ 4 → n ≤ 5
    one_less at_most = omega arith

    one_more : {n : ℕ} → n ≤ 4 → suc n ≤ 5
    one_more at_most = omega arith

    fewer :
        (us : List (Submission h)) (q b : Submission h)
        → length us ≤ 1
        → length ((us ++ (q ∷ [])) ++ (b ∷ [])) ≤ 5
    fewer us q b hu =
        omega (arith, length-append (us ++ (q ∷ [])) (b ∷ []), length-append us (q ∷ []))

    regroup :
        (us vs : List (Submission h)) (q b : Submission h)
        → ((us ++ vs) ++ (q ∷ [])) ++ (b ∷ []) ≡ us ++ (vs ++ (q ∷ b ∷ []))
    regroup us vs q b = simp append_assoc

    -- Where `Participant::new` succeeds, it has handed these transactions to the client in this
    -- order and no others, all of them confirmed: two that create the token accounts of the base
    -- and of the quote mint, which the participant owns; one that mints the starting amount of base
    -- tokens into the first, if that is not 0, and one for the quote tokens into the second, if
    -- that is not 0; and one that creates and initializes the account of the open orders for the
    -- participant in the market, signed by the payer, that account and the participant. Where it
    -- does not succeed, it has handed over five transactions at most.
    pub new-ParticipantCreation :
        Submits h ParticipantCreation
          (λ ts. length ts ≤ 5)
          (new h d rounds payer market starting_lamports starting_base starting_quote)
    unfolding new
    new-ParticipantCreation = Submits-keep h _ _ _ _ (new-Keeps h) (omega arith) λ participant.
        Submits-keep h _ _ _ _ (airdrop-Keeps h rounds participant starting_lamports) (omega arith)
          λ funded.
            Submits-send h _ _ _ _ _
              (new_token_account-Sends h payer market.base_mint (some participant.pubkey))
              (omega arith) (λ t. omega arith)
              λ base_account base base_lem.
                Submits-send h _ _ _ _ _
                  (new_token_account-Sends h payer market.quote_mint (some participant.pubkey))
                  (omega arith) (λ t. omega arith)
                  λ quote_account quote quote_lem.
                    Submits-bind h _ _ _ _ _ _
                      (mint_some-Submits h market.base_mint payer base_account starting_base)
                      (λ ts at_most. fewer ts quote base at_most)
                      λ minted us us_lem.
                        Submits-bind h _ _ _ _ _ _
                          (mint_some-Submits h market.quote_mint payer quote_account starting_quote)
                          (λ ts at_most.
                            one_less
                              (few ts us quote base at_most (MintsSome-length h _ _ _ _ us us_lem)))
                          λ minted vs vs_lem.
                            Submits-send h _ _ _ _ _ (new_open_orders-Sends participant)
                              (one_less (
                                few vs us quote base (MintsSome-length h _ _ _ _ vs vs_lem)
                                  (MintsSome-length h _ _ _ _ us us_lem)))
                              (λ t. one_more (
                                few vs us quote base (MintsSome-length h _ _ _ _ vs vs_lem)
                                  (MintsSome-length h _ _ _ _ us us_lem)))
                              λ open_orders orders orders_lem. Submits-pure h _ _ _ (record {
                                market_lem = refl;
                                base = base;
                                base_lem = base_lem;
                                quote = quote;
                                quote_lem = quote_lem;
                                base_minting = us;
                                base_minting_lem = us_lem;
                                quote_minting = vs;
                                quote_minting_lem = vs_lem;
                                orders = orders;
                                orders_lem = orders_lem;
                                transactions_lem = ap (λ l. orders ∷ l) (regroup vs us quote base);
                              })
