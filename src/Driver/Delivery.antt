-- ===== src/Driver/Delivery.antt =====
-- How `Sandbox::send_signed_transaction_with_payers` of src/sandbox.rs ends, by the answers of the
-- client.
pub mod Operates
use solarium.Base.{◌≡◌, List, ◌∷◌, Option, none, some, Outcome, ok, err, panic}
use solarium.Solana.{Instruction}
use solarium.Driver.Host.{Host, Error, solana_client_error, World}
use solarium.Driver.Monad.{◌>>=◌, continue, pure, convert, expect, ask, ask_result}
use solarium.Driver.Sandbox.{note, send_signed_transaction_with_payers}
use solarium.Driver.Sends.{submission, unconfirmed}

module _ (h : Host) (instructions : List (Instruction h.solana)) (payer : Option h.Pubkey)
    (signers : List h.Keypair) where
  -- `Delivers w o after`: what the client answers from the world `w` on, how the call ends and the
  -- world that it leaves.
  pub data Delivers (w : World h) : Outcome (Error h) (Unit {0}) → World h → Type 0 where
    no_hash :
        (e : h.ClientError) (state : h.State)
        → h.get_latest_blockhash w.state ≡ (err e, state)
        → Delivers w (err (solana_client_error e)) (record w { state = state })
    unsigned :
        (hash : h.Hash) (state : h.State)
        → h.get_latest_blockhash w.state ≡ (ok hash, state)
        → h.new_signed_with_payer instructions payer signers hash ≡ none
        → Delivers w panic (record w { state = state })
    failed :
        (hash : h.Hash) (t : h.Transaction) (e : h.ClientError) (between state : h.State)
        → h.get_latest_blockhash w.state ≡ (ok hash, between)
        → h.new_signed_with_payer instructions payer signers hash ≡ some t
        → h.send_and_confirm_transaction t between ≡ (err e, state)
        → Delivers w (err (solana_client_error e)) (record {
          state = state;
          sent = unconfirmed (submission h instructions payer signers) ∷ w.sent;
        })
    delivered :
        (hash : h.Hash) (t : h.Transaction) (signature : h.Signature) (between state : h.State)
        → h.get_latest_blockhash w.state ≡ (ok hash, between)
        → h.new_signed_with_payer instructions payer signers hash ≡ some t
        → h.send_and_confirm_transaction t between ≡ (ok signature, state)
        → Delivers w
            (ok tt)
            (record { state = state; sent = submission h instructions payer signers ∷ w.sent })

  pub send_lem :
      (w after : World h) (o : Outcome (Error h) (Unit {0}))
      → Delivers w o after
      → send_signed_transaction_with_payers h instructions payer signers w ≡ (o, after)
  unfolding send_signed_transaction_with_payers note ◌>>=◌ continue pure convert expect ask
      ask_result
  send_lem w _ _ (no_hash e state a) = rw a
  send_lem w _ _ (unsigned hash state a b) = rw (a, b)
  send_lem w _ _ (failed hash t e between state a b c) = rw (a, b, c)
  send_lem w _ _ (delivered hash t signature between state a b c) = rw (a, b, c)
