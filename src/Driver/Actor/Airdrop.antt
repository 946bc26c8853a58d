-- ===== src/Driver/Actor/Airdrop.antt =====
-- The loop of `Actor::airdrop` in src/actor.rs.
use solarium.Base.{
  ℕ, zero, suc, ◌<◌, ◌≡◌, refl, Bool, true, false, Outcome, ok, err, panic, spin, arith,
}
use solarium.Driver.Host.{Host, Error, solana_client_error, World}
use solarium.Driver.Monad.{◌>>=◌, ◌>>◌, continue, pure, convert, ask, ask_result}
use solarium.Driver.Sends.{Keeps, Keeps-bind, Keeps-ask_result}
use solarium.Driver.Returns.{Returned, Returns, Returns-bind, Returns-ask_result}
use solarium.Driver.Actor.{Actor, await_confirmation, airdrop}

module _ (h : Host) (signature : h.Signature) where
  -- `Confirms n state o after`: from `state` on, the client denies the confirmation `n` times, and at
  -- the next question confirms it (`o` is then `ok tt`) or fails (`o` is then its error).
  pub data Confirms : ℕ → h.State → Outcome (Error h) (Unit {0}) → h.State → Type 0 where
    confirmed :
        (state after : h.State)
        → h.confirm_transaction signature state ≡ (ok true, after)
        → Confirms 0 state (ok tt) after
    failed :
        (e : h.ClientError) (state after : h.State)
        → h.confirm_transaction signature state ≡ (err e, after)
        → Confirms 0 state (err (solana_client_error e)) after
    denied :
        {n : ℕ} {o : Outcome (Error h) (Unit {0})} (state between after : h.State)
        → h.confirm_transaction signature state ≡ (ok false, between)
        → Confirms n (h.sleep between) o after
        → Confirms (suc n) state o after

  await_confirmation_lem :
      (n rounds : ℕ) (o : Outcome (Error h) (Unit {0})) (w : World h) (after : h.State)
      → n < rounds
      → Confirms n w.state o after
      → await_confirmation h rounds signature w ≡ (o, record w { state = after })
  unfolding await_confirmation ◌>>=◌ ◌>>◌ continue pure convert ask ask_result
  await_confirmation_lem n zero o w after less c = absurd (omega arith)
  await_confirmation_lem _ (suc rounds) _ w _ less (confirmed state after e) = rw e
  await_confirmation_lem _ (suc rounds) _ w _ less (failed x state after e) = rw e
  await_confirmation_lem (suc n) (suc rounds) o w _ less (denied state between after e c) = rw e (
      await_confirmation_lem n rounds o (record w { state = h.sleep between }) after (omega arith)
        c)

  module _ (self : Actor h) (lamports : ℕ) where
    -- `airdrop` ends as soon as the client has an answer: where the client takes the request and
    -- denies its confirmation `n` times, every number of rounds above `n` gives what the client then
    -- says, and the waiting submits nothing.
    pub airdrop_lem :
        (n rounds : ℕ) (o : Outcome (Error h) (Unit {0})) (w : World h) (requested after : h.State)
        → n < rounds
        → h.request_airdrop self.pubkey lamports w.state ≡ (ok signature, requested)
        → Confirms n requested o after
        → airdrop h rounds self lamports w ≡ (o, record w { state = after })
    unfolding airdrop ◌>>=◌ continue convert ask_result
    airdrop_lem n rounds o w requested after less e c =
        rw e (await_confirmation_lem n rounds o (record w { state = requested }) after less c)

-- The waiting submits nothing, however it ends.
module _ (h : Host) where
  await_confirmation_sent :
      (rounds : ℕ) (signature : h.Signature) (w : World h)
      (answer : Outcome h.ClientError Bool × h.State)
      → h.confirm_transaction signature w.state ≡ answer
      → ((v : World h) → (await_confirmation h rounds signature v).1.sent ≡ v.sent)
      → (await_confirmation h (suc rounds) signature w).1.sent ≡ w.sent
  unfolding await_confirmation ◌>>=◌ ◌>>◌ continue pure convert ask ask_result
  await_confirmation_sent rounds signature w (ok true, after) e ih = rw e
  await_confirmation_sent rounds signature w (ok false, after) e ih =
      rw e (ih (record w { state = h.sleep after }))
  await_confirmation_sent rounds signature w (err x, after) e ih = rw e
  await_confirmation_sent rounds signature w (panic, after) e ih = rw e
  await_confirmation_sent rounds signature w (spin, after) e ih = rw e

  await_confirmation-Keeps :
      (rounds : ℕ) (signature : h.Signature) → Keeps h (await_confirmation h rounds signature)
  unfolding await_confirmation
  await_confirmation-Keeps zero signature = record { sent_lem = λ w. refl }
  await_confirmation-Keeps (suc rounds) signature = record {
    sent_lem = λ w.
        await_confirmation_sent rounds signature w (h.confirm_transaction signature w.state) refl
          (await_confirmation-Keeps rounds signature).sent_lem;
  }

  pub airdrop-Keeps :
      (rounds : ℕ) (self : Actor h) (lamports : ℕ) → Keeps h (airdrop h rounds self lamports)
  unfolding airdrop
  airdrop-Keeps rounds self lamports =
      Keeps-bind h _ _
        (Keeps-ask_result h solana_client_error (h.request_airdrop self.pubkey lamports))
        λ signature. await_confirmation-Keeps rounds signature

-- The waiting returns, where the client has an answer before the rounds are used up.
module _ (h : Host) (rounds : ℕ) where
  pub record Confirmed (signature : h.Signature) (state : h.State) : Type 0 where
    pub denials : ℕ
    pub less : denials < rounds
    pub answer : Outcome (Error h) (Unit {0})
    pub after : h.State
    pub confirms : Confirms h signature denials state answer after

  Confirms-Returned :
      {signature : h.Signature} {n : ℕ} {state after : h.State} {o : Outcome (Error h) (Unit {0})}
      → Confirms h signature n state o after
      → Returned o
  Confirms-Returned (confirmed state after e) = tt
  Confirms-Returned (failed x state after e) = tt
  Confirms-Returned (denied state between after e c) = Confirms-Returned c

  pub airdrop-Returns :
      (self : Actor h) (lamports : ℕ)
      → ((s : h.State) → Returned (h.request_airdrop self.pubkey lamports s).0)
      → ((signature : h.Signature) (state : h.State) → Confirmed signature state)
      → Returns h (airdrop h rounds self lamports)
  unfolding airdrop
  airdrop-Returns self lamports requests confirmations =
      Returns-bind h _ _
        (Returns-ask_result h solana_client_error (h.request_airdrop self.pubkey lamports) requests)
        λ signature. record {
          returned = λ w.
              let c = confirmations signature w.state in
              rw
                (await_confirmation_lem h signature c.denials rounds c.answer w c.after c.less
                  c.confirms)
                (Confirms-Returned c.confirms);
        }
