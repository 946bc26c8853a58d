-- ===== src/Driver/CreateSerumMarket/Laws.antt =====
-- What src/bin/create_serum_market.rs submits before it writes its file.
use solarium.Base.{
  ◌*◌, ◌≡◌, ap, ◌∙◌, subst, List, [], ◌∷◌, ◌++◌, append_assoc, length, length-append, none, ok,
  arith,
}
use solarium.Driver.Text.{Text, text}
use solarium.Driver.Host.{Host, Submission, World}
use solarium.Driver.Monad.{M, ◌>>=◌, pure, expect, expect_call}
use solarium.Driver.Machine.{Machine}
use solarium.Driver.Sandbox.Start.{Sandbox, url}
use solarium.Driver.Sandbox.Start
use solarium.Driver.Sandbox.Start.Laws as StartLaws
use solarium.Driver.Sends.{expect_call-Keeps, expect_call-Sends}
use solarium.Driver.Submits.{
  Added, Submits, Submits-bind, Submits-pure, Submits-expect, expect_call-Submits,
}
use solarium.Driver.Submits.Worlds.{keep_then, send_then, expect_call-eq-ok}
use solarium.Driver.Actor.{Actor, airdrop}
use solarium.Driver.Actor
use solarium.Driver.Actor.Deploy.{deploy_remote}
use solarium.Driver.Actor.Laws as ActorLaws
use solarium.Driver.Actor.Airdrop.{airdrop-Keeps}
use solarium.Driver.Actor.Deploy.Laws.{deploy_remote-Keeps}
use solarium.Driver.Token.{Mint, new_mint}
use solarium.Driver.Token.Laws.{MintCreation, new_mint-Sends}
use solarium.Driver.Serum.{SerumDex}
use solarium.Driver.Serum.Market.{Market}
use solarium.Driver.Serum.Market
use solarium.Driver.Serum.Market.Creation.{Accepted, new-Submits}
use solarium.Driver.CreateSerumMarket.{
  TestMarketParticipant, TestMarket, CliArgs, Files, Rounds, create_participants, to_array, set_up,
  num_participants, test_market,
}
use solarium.Driver.CreateSerumMarket.Crowd.{
  Crowd, Crowd-length, create_participants-Crowd, to_array_lem,
}
use solarium.Driver.CreateSerumMarket.Listing.{Listing, test_market-Listing}

module _ (h : Host) (m : Machine h) (d : SerumDex h) (f : Files h) (rounds : Rounds)
    (args : CliArgs) where
  -- The steps of the command up to the deployment of serum, from the world `start` on, with the worlds
  -- between them.
  pub record Deployed (start : World h) : Type 0 where
    pub sandbox : Sandbox h m
    pub started : World h
    pub sandbox_lem : Start.new h m rounds.online start ≡ (ok sandbox, started)
    pub creator : Actor h
    pub created : World h
    pub creator_lem : Actor.new h started ≡ (ok creator, created)
    pub funded : World h
    pub funded_lem :
        airdrop h rounds.airdrop creator (10000 * f.lamports_per_sol) created ≡ (ok tt, funded)
    pub base_mint : Mint h
    pub base : Submission h
    pub base_lem : MintCreation h creator args.base_decimal none none base_mint base
    pub half_minted : World h
    pub base_mint_lem :
        new_mint h creator args.base_decimal none none funded ≡ (ok base_mint, half_minted)
    pub quote_mint : Mint h
    pub quote : Submission h
    pub quote_lem : MintCreation h creator args.quote_decimal none none quote_mint quote
    pub minted : World h
    pub quote_mint_lem :
        new_mint h creator args.quote_decimal none none half_minted ≡ (ok quote_mint, minted)
    pub serum_program : Actor h
    pub deployed : World h
    pub serum_program_lem :
        deploy_remote h m sandbox creator args.dex_url (text "serum_dex.so") minted
        ≡ (ok serum_program, deployed)

  -- What the command sets up, with the transactions, last one first.
  pub record SetUp (start : World h) (result : TestMarket) (ts : List (Submission h)) : Type 0 where
    pub steps : Deployed start
    pub open steps use *
    pub market : Market h
    pub market_ts : List (Submission h)
    pub market_lem :
        Accepted h d rounds.vault creator serum_program.pubkey base_mint quote_mint none
          args.base_lot_size args.quote_lot_size 100 128 128 256 market market_ts
    pub participants_ts : List (Submission h)
    pub participants_lem : Crowd h d f rounds creator market 4 result.participants participants_ts
    pub result_lem : Listing h f sandbox.port serum_program market result
    pub transactions_lem : ts ≡ participants_ts ++ (market_ts ++ (quote ∷ base ∷ []))
    pub count_lem : length ts ≡ 25

  counted :
      (creator : Actor h) (market : Market h) (entries : List TestMarketParticipant)
      (us vs ts : List (Submission h)) (q b : Submission h)
      → Crowd h d f rounds creator market 4 entries us
      → length vs ≡ 3
      → ts ≡ us ++ (vs ++ (q ∷ b ∷ []))
      → length ts ≡ 25
  counted creator market entries us vs ts q b crowd three e =
      ap length e
      ∙ omega (
        arith,
        length-append us (vs ++ (q ∷ b ∷ [])),
        length-append vs (q ∷ b ∷ []),
        three,
        (Crowd-length h d f rounds creator market entries us crowd).1,
      )

  regroup :
      (us vs : List (Submission h)) (q b : Submission h)
      → ((us ++ vs) ++ (q ∷ [])) ++ (b ∷ []) ≡ us ++ (vs ++ (q ∷ b ∷ []))
  regroup us vs q b = simp append_assoc

  -- The rest of the command's set-up behind the deployment.
  abbrev list_market : Text → Actor h → Mint h → Mint h → Actor h → M h TestMarket
  list_market url creator base_mint quote_mint serum_program = do
    market ← expect_call (
        Market.new h d rounds.vault creator serum_program.pubkey base_mint quote_mint none
          args.base_lot_size args.quote_lot_size 100 128 128 256)
    participants ← create_participants h f d rounds creator market num_participants
    participants ← expect (to_array h f participants)
    pure (test_market h f url serum_program market participants)

  -- The market and its participants, behind those steps.
  listed :
      (start : World h) (p : Deployed start)
      → Submits h
          (λ result ts. SetUp start result ((ts ++ (p.quote ∷ [])) ++ (p.base ∷ [])))
          (λ ts. Unit {0})
          (list_market (url h m p.sandbox) p.creator p.base_mint p.quote_mint p.serum_program)
  listed start p =
      Submits-bind h _ _ _ _ _ _
        (expect_call-Submits h _ _ _ (
          new-Submits h d rounds.vault p.creator p.serum_program.pubkey p.base_mint p.quote_mint
            none args.base_lot_size args.quote_lot_size 100 128 128 256))
        (λ ts few. tt)
        λ market vs market_lem.
          Submits-bind h _ _ _ _ _ _ (create_participants-Crowd h d f rounds p.creator market 4)
            (λ ts few. tt)
            λ entries us crowd. Submits-expect h _ _ _ _ tt λ kept kept_lem. Submits-pure h _ _ _ (
              let here = to_array_lem h d f rounds p.creator market entries kept kept_lem in
              let kept_crowd =
                subst (λ es. Crowd h d f rounds p.creator market 4 es us) here crowd in
              record {
                steps = p;
                market = market;
                market_ts = vs;
                market_lem = market_lem;
                participants_ts = us;
                participants_lem = kept_crowd;
                result_lem = test_market-Listing h f m p.sandbox p.serum_program market kept;
                transactions_lem = regroup us vs p.quote p.base;
                count_lem =
                    counted p.creator market kept us vs _ p.quote p.base kept_crowd
                      (ap length market_lem.creation.transactions_lem)
                      (regroup us vs p.quote p.base);
              })

  -- Where the command gets as far as its file, it has done these steps, each in the world that the
  -- one before has left: it has started the sandbox, made the creator and waited for its airdrop of
  -- 10000 SOL, created the two mints, and deployed the file at the given url through that sandbox.
  -- It has handed exactly 25 transactions to the client, all of them confirmed: one for each of the
  -- two mints, the three of the market, which belongs to the deployed program, with queues of 128 and
  -- books of 256 entries, and five for each of the four participants, who start with 100000 of both
  -- tokens. The file's content is the url of that sandbox, the key of that program and the keys of
  -- that market, its queues, books, vaults and mints, and the entries of those participants in the
  -- order of their creation.
  pub set_up-SetUp :
      (start : World h)
      → Added h
          (SetUp start)
          (λ ts. Unit {0})
          start.sent
          (set_up h m d f rounds args start).0
          (set_up h m d f rounds args start).1
  unfolding set_up
  set_up-SetUp start =
      keep_then h (SetUp start) (λ ts. Unit {0}) start _ _ tt
        (expect_call-Keeps h _ (StartLaws.new-Keeps h m rounds.online))
        λ sandbox started sandbox_lem.
          keep_then h _ _ started _ _ tt (expect_call-Keeps h _ (ActorLaws.new-Keeps h))
            λ creator created creator_lem.
              keep_then h _ _ created _ _ tt
                (expect_call-Keeps h _
                  (airdrop-Keeps h rounds.airdrop creator (10000 * f.lamports_per_sol)))
                λ done funded funded_lem.
                  send_then h _ _ funded _ _ tt _
                    (expect_call-Sends h _ _ (new_mint-Sends h creator args.base_decimal none none))
                    (λ t. tt)
                    λ base_mint base half_minted base_mint_lem base_lem.
                      send_then h _ _ half_minted _ _ tt _
                        (expect_call-Sends h _ _
                          (new_mint-Sends h creator args.quote_decimal none none))
                        (λ t. tt)
                        λ quote_mint quote minted quote_mint_lem quote_lem.
                          keep_then h _ _ minted _ _ tt
                            (expect_call-Keeps h _ (
                              deploy_remote-Keeps h m sandbox creator args.dex_url
                                (text "serum_dex.so")))
                            λ serum_program deployed serum_program_lem.
                              (listed start (record {
                                sandbox = sandbox;
                                started = started;
                                sandbox_lem = expect_call-eq-ok h _ start _ _ sandbox_lem;
                                creator = creator;
                                created = created;
                                creator_lem = expect_call-eq-ok h _ started _ _ creator_lem;
                                funded = funded;
                                funded_lem = expect_call-eq-ok h _ created _ _ funded_lem;
                                base_mint = base_mint;
                                base = base;
                                base_lem = base_lem;
                                half_minted = half_minted;
                                base_mint_lem = expect_call-eq-ok h _ funded _ _ base_mint_lem;
                                quote_mint = quote_mint;
                                quote = quote;
                                quote_lem = quote_lem;
                                minted = minted;
                                quote_mint_lem =
                                    expect_call-eq-ok h _ half_minted _ _ quote_mint_lem;
                                serum_program = serum_program;
                                deployed = deployed;
                                serum_program_lem =
                                    expect_call-eq-ok h _ minted _ _ serum_program_lem;
                              })).added
                                deployed
