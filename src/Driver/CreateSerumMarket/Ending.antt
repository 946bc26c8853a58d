-- ===== src/Driver/CreateSerumMarket/Ending.antt =====
-- How src/bin/create_serum_market.rs ends.
use solarium.Base.{
  ℕ, zero, suc, ◌*◌, ◌≤◌, ◌^◌, ◌≡◌, ◌∙◌, List, ◌++◌, none, Outcome, ok, err, panic, spin,
}
use solarium.Driver.Text.{text}
use solarium.Driver.Host.{Host, Error, Submission, World}
use solarium.Driver.Monad.{M, ◌>>=◌, continue}
use solarium.Driver.Machine.{Machine}
use solarium.Driver.Submits.{Added}
use solarium.Driver.Returns.{
  Unwrapped, Unwraps, Unwraps-bind, Unwraps-expect_call, Unwraps-expect, Unwraps-pure,
}
use solarium.Driver.Calls.{HostReturns, MachineReturns, new_mint-Returns, deploy_remote-Returns}
use solarium.Driver.Sandbox.Start.Laws as StartLaws
use solarium.Driver.Actor.{Actor}
use solarium.Driver.Actor.Laws as ActorLaws
use solarium.Driver.Actor.Airdrop.{Confirmed, airdrop-Returns}
use solarium.Driver.Serum.{SerumDex}
use solarium.Driver.Serum.Calls.{DexReturns, participant-Returns}
use solarium.Driver.Serum.Market.{Market}
use solarium.Driver.Serum.Market.Returns.{market-Returns}
use solarium.Driver.CreateSerumMarket.{
  TestMarket, CliArgs, Files, Rounds, create_participants, set_up, save, main,
}
use solarium.Driver.CreateSerumMarket.Laws.{SetUp, set_up-SetUp}
use solarium.Driver.CreateSerumMarket.Save.{
  Saves, not_created, not_written, not_marked, saved, save-Saves,
}

-- The rounds are enough: the client answers before those of the waiting loops are used up, and the
-- search for the vaults' address has 2 ^ 64.
pub record Enough (h : Host) (m : Machine h) (rounds : Rounds) : Type 0 where
  pub online : (state : h.State) → StartLaws.Online h m rounds.online state
  pub confirmations :
      (signature : h.Signature) (state : h.State) → Confirmed h rounds.airdrop signature state
  pub vault : 2 ^ 64 ≤ rounds.vault

module _ (h : Host) (m : Machine h) (d : SerumDex h) (f : Files h) (rounds : Rounds)
    (args : CliArgs) where
  -- How the command can end in the world `after`: it has panicked, or it is in its last loop, with the
  -- market set up, its transactions confirmed, and its two files written.
  pub data Ended (w after : World h) : Outcome (Error h) (Unit {0}) → Type 0 where
    panicked : Ended w after panic
    running :
        (listing : TestMarket) (ts : List (Submission h)) (between : h.State)
        → SetUp h m d f rounds args w listing ts
        → Saves h f args listing between after.state (ok tt)
        → after.sent ≡ ts ++ w.sent
        → Ended w after spin

  finish :
      (w v after : World h) (listing : TestMarket) (ts : List (Submission h))
      → SetUp h m d f rounds args w listing ts
      → v.sent ≡ ts ++ w.sent
      → (o : Outcome (Error h) (Unit {0})) → Saves h f args listing v.state after.state o
      → after.sent ≡ v.sent
      → Ended w
          (continue {h = h} {B = Unit {0}} o (λ done u. (spin, u)) after).1
          (continue {h = h} {B = Unit {0}} o (λ done u. (spin, u)) after).0
  unfolding continue
  finish w v after listing ts s e _ (not_created c) same = panicked
  finish w v after listing ts s e _ (not_written file s1 c t) same = panicked
  finish w v after listing ts s e _ (not_marked file s1 s2 c t o) same = panicked
  finish w v after listing ts s e _ (saved file mark s1 s2 c t o) same =
      running listing ts v.state s (saved file mark s1 s2 c t o) (same ∙ e)

  abbrev rest : TestMarket → M h (Unit {0})
  rest listing = save h f args listing >>= λ done u. (spin, u)

  begin :
      (w v : World h) (o : Outcome (Error h) TestMarket)
      → Added h (SetUp h m d f rounds args w) (λ ts. Unit {0}) w.sent o v
      → Unwrapped o
      → Ended w (continue {h = h} o rest v).1 (continue {h = h} o rest v).0
  unfolding continue ◌>>=◌
  begin w v (ok listing) (ts, e, s) u =
      finish w v (save h f args listing v).1 listing ts s e (save h f args listing v).0
        (save-Saves h f args listing v).0 (save-Saves h f args listing v).1
  begin w v (err x) a u = absurd u
  begin w v panic a u = panicked
  begin w v spin a u = absurd u

  module _ (R : HostReturns h) (Q : MachineReturns h m) (D : DexReturns h d)
      (enough : Enough h m rounds) where
    create_participants-Unwraps :
        (creator : Actor h) (market : Market h) (n : ℕ)
        → Unwraps h (create_participants h f d rounds creator market n)
    unfolding create_participants
    create_participants-Unwraps creator market zero = Unwraps-pure h _
    create_participants-Unwraps creator market (suc n) =
        Unwraps-bind h _ _
          (Unwraps-expect_call h _ (
            participant-Returns h R d D rounds.airdrop enough.confirmations creator market
              (10000 * f.lamports_per_sol) 100000 100000))
          λ p.
            Unwraps-bind h _ _ (create_participants-Unwraps creator market n)
              λ participants. Unwraps-pure h _

    set_up-Unwraps : Unwraps h (set_up h m d f rounds args)
    unfolding set_up
    set_up-Unwraps =
        Unwraps-bind h _ _
          (Unwraps-expect_call h _
            (StartLaws.new-Returns h m rounds.online Q.tempdir Q.spawn enough.online))
          λ sandbox.
            Unwraps-bind h _ _ (Unwraps-expect_call h _ (ActorLaws.new-Returns h)) λ creator.
              Unwraps-bind h _ _
                (Unwraps-expect_call h _ (
                  airdrop-Returns h rounds.airdrop creator (10000 * f.lamports_per_sol)
                    (R.request_airdrop creator.pubkey (10000 * f.lamports_per_sol))
                    enough.confirmations))
                λ funded.
                  Unwraps-bind h _ _
                    (Unwraps-expect_call h _
                      (new_mint-Returns h R creator args.base_decimal none none))
                    λ base_mint.
                      Unwraps-bind h _ _
                        (Unwraps-expect_call h _
                          (new_mint-Returns h R creator args.quote_decimal none none))
                        λ quote_mint.
                          Unwraps-bind h _ _
                            (Unwraps-expect_call h _ (
                              deploy_remote-Returns h m Q sandbox creator args.dex_url
                                (text "serum_dex.so")))
                            λ serum_program.
                              Unwraps-bind h _ _
                                (Unwraps-expect_call h _ (
                                  market-Returns h R d D rounds.vault enough.vault creator
                                    serum_program.pubkey base_mint quote_mint none
                                    args.base_lot_size args.quote_lot_size 100 128 128 256))
                                λ market.
                                  Unwraps-bind h _ _ (create_participants-Unwraps creator market 4)
                                    λ participants.
                                      Unwraps-bind h _ _ (Unwraps-expect h _)
                                        λ kept. Unwraps-pure h _

    -- Where the calls outside return, the client answers before the rounds of the waiting loops are
    -- used up, and the search for the vaults' address has 2 ^ 64 rounds, the command ends in one of
    -- two ways: it panics, or it reaches its last loop. In that loop it has set up the market, has
    -- handed its transactions and no others to the client, and has written both files without a failure. No loop
    -- before the last one keeps it.
    pub main-Ended :
        (w : World h) → Ended w (main h m d f rounds args w).1 (main h m d f rounds args w).0
    unfolding main ◌>>=◌
    main-Ended w =
        begin w (set_up h m d f rounds args w).1 (set_up h m d f rounds args w).0
          (set_up-SetUp h m d f rounds args w) (set_up-Unwraps.unwrapped w)
