-- ===== src/Driver/Delivery/Operates.antt =====
-- Calls that hand over one transaction with one instruction, which may fail to be built.
use solarium.Base.{◌≡◌, refl, List, [], ◌∷◌, some, Outcome, ok, err, panic}
use solarium.Solana.{Instruction}
use solarium.Driver.Host.{Host, Error, Submission, World}
use solarium.Driver.Monad.{M, ◌>>=◌, continue, convert, expect_ok}
use solarium.Driver.Sandbox.{send_signed_transaction_with_payers}
use solarium.Driver.Delivery.{Delivers, send_lem}
use solarium.Driver.Sends.{
  Sends, Sends-convert, Sends-expect_ok, submission, send_signed_last-Sends,
}

module _ (h : Host) {E : Type 0} where
  -- A transaction whose only instruction is the one that was built.
  pub record Carries (built : Outcome E (Instruction h.solana)) (payer : h.Pubkey)
      (signers : List h.Keypair) (done : Unit {0}) (t : Submission h) : Type 0 where
    pub instruction : Instruction h.solana
    pub built_lem : built ≡ ok instruction
    pub submission_lem : t ≡ submission h (instruction ∷ []) (some payer) signers

  -- A call that hands such a transaction to the client, that ends with `refusal` and nothing done where
  -- the instruction is not built, and else as the client's answers say.
  pub record Operates (built : Outcome E (Instruction h.solana)) (payer : h.Pubkey)
      (signers : List h.Keypair) (refusal : E → Outcome (Error h) (Unit {0}))
      (call : M h (Unit {0})) : Type 0 where
    pub sends_lem : Sends h (Carries built payer signers) call
    pub refused_lem : (e : E) (w : World h) → built ≡ err e → call w ≡ (refusal e, w)
    pub delivers_lem :
        (instruction : Instruction h.solana) (w after : World h) (o : Outcome (Error h) (Unit {0}))
        → built ≡ ok instruction
        → Delivers h (instruction ∷ []) (some payer) signers w o after
        → call w ≡ (o, after)

module _ (h : Host) {E : Type 0} (built : Outcome E (Instruction h.solana)) (payer : h.Pubkey)
    (signers : List h.Keypair) where
  Carries-Sends :
      (instruction : Instruction h.solana)
      → built ≡ ok instruction
      → Sends h
          (Carries h built payer signers)
          (send_signed_transaction_with_payers h (instruction ∷ []) (some payer) signers)
  Carries-Sends instruction e =
      send_signed_last-Sends h _ _ _ (Carries h built payer signers)
        (record { instruction = instruction; built_lem = e; submission_lem = refl })

  unwrapped_refused :
      (e : E) (w : World h)
      → built ≡ err e
      → (expect_ok built >>= λ instruction.
            send_signed_transaction_with_payers h (instruction ∷ []) (some payer) signers)
          w
        ≡ (panic, w)
  unfolding expect_ok ◌>>=◌ continue
  unwrapped_refused e w b = rw b

  unwrapped-Delivers :
      (instruction : Instruction h.solana) (w after : World h) (o : Outcome (Error h) (Unit {0}))
      → built ≡ ok instruction
      → Delivers h (instruction ∷ []) (some payer) signers w o after
      → (expect_ok built >>= λ instruction.
            send_signed_transaction_with_payers h (instruction ∷ []) (some payer) signers)
          w
        ≡ (o, after)
  unfolding expect_ok ◌>>=◌ continue
  unwrapped-Delivers instruction w after o b d =
      rw b (send_lem h (instruction ∷ []) (some payer) signers w after o d)

  -- An instruction that is unwrapped.
  pub unwrapped-Operates :
      Operates h built payer signers
        (λ e. panic)
        (expect_ok built >>= λ instruction.
          send_signed_transaction_with_payers h (instruction ∷ []) (some payer) signers)
  unwrapped-Operates = record {
    sends_lem = Sends-expect_ok h (Carries h built payer signers) built _ Carries-Sends;
    refused_lem = unwrapped_refused;
    delivers_lem = unwrapped-Delivers;
  }

  module _ (into : E → Error h) where
    returned_refused :
        (e : E) (w : World h)
        → built ≡ err e
        → (convert into built >>= λ instruction.
              send_signed_transaction_with_payers h (instruction ∷ []) (some payer) signers)
            w
          ≡ (err (into e), w)
    unfolding convert ◌>>=◌ continue
    returned_refused e w b = rw b

    returned-Delivers :
        (instruction : Instruction h.solana) (w after : World h) (o : Outcome (Error h) (Unit {0}))
        → built ≡ ok instruction
        → Delivers h (instruction ∷ []) (some payer) signers w o after
        → (convert into built >>= λ instruction.
              send_signed_transaction_with_payers h (instruction ∷ []) (some payer) signers)
            w
          ≡ (o, after)
    unfolding convert ◌>>=◌ continue
    returned-Delivers instruction w after o b d =
        rw b (send_lem h (instruction ∷ []) (some payer) signers w after o d)

    -- An instruction whose error is returned, by `?`.
    pub returned-Operates :
        Operates h built payer signers
          (λ e. err (into e))
          (convert into built >>= λ instruction.
            send_signed_transaction_with_payers h (instruction ∷ []) (some payer) signers)
    returned-Operates = record {
      sends_lem = Sends-convert h (Carries h built payer signers) into built _ Carries-Sends;
      refused_lem = returned_refused;
      delivers_lem = returned-Delivers;
    }
