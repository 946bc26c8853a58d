-- ===== src/Driver/Sandbox.antt =====
-- src/sandbox.rs: sending transactions. The start and the end of the validator are in Start.
pub mod Start
use solarium.Base.{List, Option, ◌∷◌, Bool, true, false, Outcome, ok}
use solarium.Solana.{Instruction}
use solarium.Driver.Host.{Host, solana_client_error, Submission}
use solarium.Driver.Monad.{M, ◌>>=◌, pure, convert, expect, ask, ask_result}

abbrev pub is_ok {ℓ} : {E : Type ℓ} {A : Type 0} → Outcome E A → Bool
is_ok (ok a) = true
is_ok _ = false

module _ (h : Host) where
  -- Notes a transaction that was handed to the client.
  unfoldable pub note : Submission h → M h (Unit {0})
  note s w = pure tt (record w { sent = s ∷ w.sent })

  unfoldable pub send_signed_transaction_with_payers :
      List (Instruction h.solana) → Option h.Pubkey → List h.Keypair → M h (Unit {0})
  unfolding note
  send_signed_transaction_with_payers instructions payer signers = do
    recent_hash ← ask_result solana_client_error h.get_latest_blockhash
    transaction ← expect (h.new_signed_with_payer instructions payer signers recent_hash)
    answer ← ask (h.send_and_confirm_transaction transaction)
    noted ← note (record {
      instructions = instructions;
      payer = payer;
      signers = signers;
      confirmed = is_ok answer;
    })
    signature ← convert solana_client_error answer
    pure tt

  unfoldable pub send_transaction_with_payer :
      List (Instruction h.solana) → Option h.Pubkey → M h (Unit {0})
  send_transaction_with_payer instructions payer = do
    let transaction = h.new_with_payer instructions payer
    signature ← ask_result solana_client_error (h.send_and_confirm_transaction transaction)
    pure tt
