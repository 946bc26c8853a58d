-- ===== src/Driver/CreateSerumMarket/Crowd.antt =====
-- The participants that src/bin/create_serum_market.rs creates, and their transactions.
use solarium.Base.{
  ℕ, zero, suc, ◌*◌, ◌≡◌, refl, ap, ◌∙◌, List, [], ◌∷◌, ◌++◌, length, length-append, some, arith,
}
use solarium.Driver.Host.{Host, Submission}
use solarium.Driver.Submits.{Submits, Submits-bind, Submits-pure, expect_call-Submits}
use solarium.Driver.Actor.{Actor}
use solarium.Driver.Token.{Mint, TokenAccount}
use solarium.Driver.Serum.{SerumDex}
use solarium.Driver.Serum.Market.{Market}
use solarium.Driver.Serum.Participant.{Participant}
use solarium.Driver.Serum.Participant.Laws.{
  MintsSome, nothing, something, ParticipantCreation, new-ParticipantCreation,
}
use solarium.Driver.CreateSerumMarket.{
  TestMarketParticipant, Files, Rounds, describe, create_participants, to_array,
}
use solarium.Driver.CreateSerumMarket.Listing.{Entry, describe-Entry}

module _ (h : Host) (d : SerumDex h) (f : Files h) (rounds : Rounds) (creator : Actor h)
    (market : Market h) where
  -- So many participants, each with its entry and its transactions, those of the last one first.
  pub data Crowd : ℕ → List TestMarketParticipant → List (Submission h) → Type 0 where
    nobody : Crowd 0 [] []
    one_more :
        {n : ℕ} {entries : List TestMarketParticipant} {ts : List (Submission h)}
        (p : Participant h) (entry : TestMarketParticipant) (us : List (Submission h))
        → Entry h f p entry
        → ParticipantCreation h d creator market rounds.airdrop
            (10000 * f.lamports_per_sol)
            100000
            100000
            p
            us
        → Crowd n entries ts
        → Crowd (suc n) (entry ∷ entries) (ts ++ us)

  -- An amount that is not 0 is minted by one transaction.
  one_minting :
      (mint : Mint h) (account : TokenAccount h) (ts : List (Submission h))
      → MintsSome h mint creator account 100000 ts
      → length ts ≡ 1
  one_minting mint account ts (nothing e _) = absurd (omega (arith, e))
  one_minting mint account ts (something t _ _ e) = ap length e

  five :
      (p : Participant h) (us : List (Submission h))
      → ParticipantCreation h d creator market rounds.airdrop
          (10000 * f.lamports_per_sol)
          100000
          100000
          p
          us
      → length us ≡ 5
  five p us c =
      ap length c.transactions_lem
      ∙ omega (
        arith,
        length-append c.quote_minting (c.base_minting ++ (c.quote ∷ c.base ∷ [])),
        length-append c.base_minting (c.quote ∷ c.base ∷ []),
        one_minting market.base_mint p.base c.base_minting c.base_minting_lem,
        one_minting market.quote_mint p.quote c.quote_minting c.quote_minting_lem,
      )

  pub Crowd-length :
      {n : ℕ} (entries : List TestMarketParticipant) (ts : List (Submission h))
      → Crowd n entries ts
      → (length entries ≡ n) × (length ts ≡ n * 5)
  Crowd-length _ _ nobody = (refl, refl)
  Crowd-length _ _ (one_more {entries} {ts} p entry us e c crowd) =
      let (entries_lem, ts_lem) = Crowd-length entries ts crowd in
      (ap suc entries_lem, omega (arith, length-append ts us, five p us c, ts_lem))

  pub create_participants-Crowd :
      (n : ℕ)
      → Submits h (Crowd n) (λ ts. Unit {0}) (create_participants h f d rounds creator market n)
  unfolding create_participants
  create_participants-Crowd zero = Submits-pure h (Crowd 0) (λ ts. Unit {0}) [] nobody
  create_participants-Crowd (suc n) =
      Submits-bind h (Crowd (suc n)) (λ ts. Unit {0}) _ _ _ _
        (expect_call-Submits h _ _ _ (
          new-ParticipantCreation h d creator market rounds.airdrop (10000 * f.lamports_per_sol)
            100000 100000))
        (λ ts few. tt)
        λ p us c.
          Submits-bind h (λ entries ts. Crowd (suc n) entries (ts ++ us)) (λ ts. Unit {0}) _ _ _ _
            (create_participants-Crowd n) (λ ts few. tt)
            λ entries ts crowd.
              Submits-pure h (λ entries vs. Crowd (suc n) entries ((vs ++ ts) ++ us))
                (λ ts. Unit {0}) (describe h f p ∷ entries)
                (one_more p (describe h f p) us (describe-Entry h f p) c crowd)

  pub to_array_lem :
      (entries kept : List TestMarketParticipant)
      → to_array h f entries ≡ some kept
      → entries ≡ kept
  to_array_lem entries kept e = ground arith
