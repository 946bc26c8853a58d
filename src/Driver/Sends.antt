-- ===== src/Driver/Sends.antt =====
-- Rules for what a call of the driver hands to the client, by the shape of the call.
use solarium.Base.{◌≡◌, refl, sym, subst, ◌∙◌, List, ◌∷◌, Option, some, none, true, false}
use solarium.Base.{Outcome, ok, err, panic, spin}
use solarium.Solana.{Instruction}
use solarium.Driver.Host.{Host, Error, solana_client_error, Submission, World}
use solarium.Driver.Monad.{
  M, ◌>>=◌, ◌>>◌, continue, pure, convert, expect, expect_ok, expect_call, ask, ask_result,
}
use solarium.Driver.Sandbox.{is_ok, note, send_signed_transaction_with_payers}

-- A call that submits nothing.
pub record Keeps (h : Host) {A : Type 0} (call : M h A) : Type 0 where
  pub sent_lem : (w : World h) → (call w).1.sent ≡ w.sent

abbrev pub unconfirmed : {h : Host} → Submission h → Submission h
unconfirmed t = record t { confirmed = false }

module _ (h : Host) {A : Type 0} (P : A → Submission h → Type 0) where
  -- Where a call does not succeed, it has handed nothing to the client, or the one transaction that
  -- `P` tells, and the client did not say that this one is confirmed.
  pub data Failed (before : List (Submission h)) (w : World h) : Type 0 where
    nothing : w.sent ≡ before → Failed before w
    handed : (a : A) (t : Submission h) → w.sent ≡ unconfirmed t ∷ before → P a t → Failed before w

  -- Where a call succeeds, it has handed exactly one transaction to the client, as `P` tells.
  abbrev pub SentOne : List (Submission h) → Outcome (Error h) A → World h → Type 0
  SentOne before (ok a) w = (t : Submission h) × w.sent ≡ t ∷ before × P a t
  SentOne before _ w = Failed before w

  pub record Sends (call : M h A) : Type 0 where
    pub sent_lem : (w : World h) → SentOne w.sent (call w).0 (call w).1

module _ (h : Host) {A B : Type 0} where
  Keeps-continue :
      (o : Outcome (Error h) A) (f : A → M h B) (w : World h)
      → ((a : A) → Keeps h (f a))
      → (continue o f w).1.sent ≡ w.sent
  unfolding continue
  Keeps-continue (ok a) f w rest = (rest a).sent_lem w
  Keeps-continue (err e) f w rest = refl
  Keeps-continue panic f w rest = refl
  Keeps-continue spin f w rest = refl

  pub Keeps-bind :
      (m : M h A) (f : A → M h B) → Keeps h m → ((a : A) → Keeps h (f a)) → Keeps h (m >>= f)
  unfolding ◌>>=◌
  Keeps-bind m f first rest = record {
    sent_lem = λ w. Keeps-continue (m w).0 f (m w).1 rest ∙ first.sent_lem w;
  }

  module _ (P : B → Submission h → Type 0) where
    Sends-continue :
        (o : Outcome (Error h) A) (f : A → M h B) (w : World h) (before : List (Submission h))
        → w.sent ≡ before
        → ((a : A) → Sends h P (f a))
        → SentOne h P before (continue o f w).0 (continue o f w).1
    unfolding continue
    Sends-continue (ok a) f w before e rest =
        subst (λ b. SentOne h P b (f a w).0 (f a w).1) e ((rest a).sent_lem w)
    Sends-continue (err x) f w before e rest = nothing e
    Sends-continue panic f w before e rest = nothing e
    Sends-continue spin f w before e rest = nothing e

    pub Sends-bind :
        (m : M h A) (f : A → M h B) → Keeps h m → ((a : A) → Sends h P (f a)) → Sends h P (m >>= f)
    unfolding ◌>>=◌
    Sends-bind m f first rest = record {
      sent_lem = λ w. Sends-continue (m w).0 f (m w).1 w.sent (first.sent_lem w) rest;
    }

    -- A result at hand, whose value the rest may use.
    pub Sends-convert {ℓ} :
        {E : Type ℓ} (into : E → Error h) (r : Outcome E A) (f : A → M h B)
        → ((a : A) → r ≡ ok a → Sends h P (f a))
        → Sends h P (convert into r >>= f)
    unfolding ◌>>=◌ convert continue
    Sends-convert into (ok a) f rest = record { sent_lem = λ w. (rest a refl).sent_lem w }
    Sends-convert into (err e) f rest = record { sent_lem = λ w. nothing refl }
    Sends-convert into panic f rest = record { sent_lem = λ w. nothing refl }
    Sends-convert into spin f rest = record { sent_lem = λ w. nothing refl }

    pub Sends-expect_ok {ℓ} :
        {E : Type ℓ} (r : Outcome E A) (f : A → M h B)
        → ((a : A) → r ≡ ok a → Sends h P (f a))
        → Sends h P (expect_ok r >>= f)
    unfolding ◌>>=◌ expect_ok continue
    Sends-expect_ok (ok a) f rest = record { sent_lem = λ w. (rest a refl).sent_lem w }
    Sends-expect_ok (err e) f rest = record { sent_lem = λ w. nothing refl }
    Sends-expect_ok panic f rest = record { sent_lem = λ w. nothing refl }
    Sends-expect_ok spin f rest = record { sent_lem = λ w. nothing refl }

module _ (h : Host) {A : Type 0} where
  pub Keeps-pure : (a : A) → Keeps h (pure a)
  unfolding pure
  Keeps-pure a = record { sent_lem = λ w. refl }

  pub Keeps-ask : (f : h.State → A × h.State) → Keeps h (ask f)
  unfolding ask
  Keeps-ask f = record { sent_lem = λ w. refl }

  pub Keeps-convert {ℓ} :
      {E : Type ℓ} (into : E → Error h) (r : Outcome E A) → Keeps h (convert into r)
  unfolding convert
  Keeps-convert into (ok a) = record { sent_lem = λ w. refl }
  Keeps-convert into (err e) = record { sent_lem = λ w. refl }
  Keeps-convert into panic = record { sent_lem = λ w. refl }
  Keeps-convert into spin = record { sent_lem = λ w. refl }

  pub Keeps-ask_result {ℓ} :
      {E : Type ℓ} (into : E → Error h) (f : h.State → Outcome E A × h.State)
      → Keeps h (ask_result into f)
  unfolding ask_result
  Keeps-ask_result into f = record {
    sent_lem =
        λ w. (Keeps-convert into (f w.state).0).sent_lem (record w { state = (f w.state).1 });
  }

  pub Keeps-expect : (o : Option A) → Keeps h (expect o)
  unfolding expect
  Keeps-expect (some a) = record { sent_lem = λ w. refl }
  Keeps-expect none = record { sent_lem = λ w. refl }

-- `.unwrap()` of a call changes nothing in what it submits.
module _ (h : Host) {A : Type 0} where
  expect_ok_sent :
      (o : Outcome (Error h) A) (w : World h) (before : List (Submission h))
      → w.sent ≡ before
      → (expect_ok {h = h} o w).1.sent ≡ before
  unfolding expect_ok
  expect_ok_sent (ok a) w before e = e
  expect_ok_sent (err x) w before e = e
  expect_ok_sent panic w before e = e
  expect_ok_sent spin w before e = e

  pub expect_call-Keeps : (call : M h A) → Keeps h call → Keeps h (expect_call call)
  unfolding expect_call
  expect_call-Keeps call k = record {
    sent_lem = λ w. expect_ok_sent (call w).0 (call w).1 w.sent (k.sent_lem w);
  }

  module _ (P : A → Submission h → Type 0) where
    expect_ok-SentOne :
        (o : Outcome (Error h) A) (w : World h) (before : List (Submission h))
        → SentOne h P before o w
        → SentOne h P before (expect_ok {h = h} o w).0 (expect_ok {h = h} o w).1
    unfolding expect_ok
    expect_ok-SentOne (ok a) w before s = s
    expect_ok-SentOne (err x) w before s = s
    expect_ok-SentOne panic w before s = s
    expect_ok-SentOne spin w before s = s

    pub expect_call-Sends : (call : M h A) → Sends h P call → Sends h P (expect_call call)
    unfolding expect_call
    expect_call-Sends call k = record {
      sent_lem = λ w. expect_ok-SentOne (call w).0 (call w).1 w.sent (k.sent_lem w);
    }

-- The transactions themselves.
module _ (h : Host) (instructions : List (Instruction h.solana)) (payer : Option h.Pubkey)
    (signers : List h.Keypair) where
  abbrev pub submission : Submission h
  submission = record {
    instructions = instructions;
    payer = payer;
    signers = signers;
    confirmed = true;
  }

  -- The end of the call: the transaction is noted with the client's answer, which is returned.
  abbrev pub answered : Outcome h.ClientError h.Signature → M h (Unit {0})
  answered answer = do
    noted ← note h (record submission { confirmed = is_ok answer })
    signature ← convert solana_client_error answer
    pure tt

  answered-Sends :
      (answer : Outcome h.ClientError h.Signature)
      → Sends h (λ _ t. t ≡ submission) (answered answer)
  unfolding note pure convert continue ◌>>=◌
  answered-Sends (ok signature) = record { sent_lem = λ w. (submission, refl, refl) }
  answered-Sends (err e) = record { sent_lem = λ w. handed tt submission refl refl }
  answered-Sends panic = record { sent_lem = λ w. handed tt submission refl refl }
  answered-Sends spin = record { sent_lem = λ w. handed tt submission refl refl }

  pub send_signed-Sends :
      Sends h
        (λ _ t. t ≡ submission)
        (send_signed_transaction_with_payers h instructions payer signers)
  unfolding send_signed_transaction_with_payers
  send_signed-Sends =
      Sends-bind h (λ _ t. t ≡ submission) _ _ (Keeps-ask_result h solana_client_error _)
        λ hash.
          Sends-bind h (λ _ t. t ≡ submission) _ _
            (Keeps-expect h (h.new_signed_with_payer instructions payer signers hash))
            λ transaction.
              Sends-bind h (λ _ t. t ≡ submission) _ _
                (Keeps-ask h (h.send_and_confirm_transaction transaction))
                λ answer. answered-Sends answer

  module _ {A : Type 0} (P : A → Submission h → Type 0) (x : A) (holds : P x submission)
      (before : List (Submission h)) where
    -- What is known of the transaction, by what is returned after it.
    relabel :
        (w : World h) → Failed h (λ (u : Unit {0}) t. t ≡ submission) before w → Failed h P before w
    relabel w (nothing e) = nothing e
    relabel w (handed u t e same) = handed x t e (subst (P x) (sym same) holds)

    send_signed-SentOne :
        (o : Outcome (Error h) (Unit {0})) (w : World h)
        → SentOne h (λ _ t. t ≡ submission) before o w
        → SentOne h P before
            (continue o (λ _. pure {h = h} x) w).0
            (continue o (λ _. pure {h = h} x) w).1
    unfolding continue pure
    send_signed-SentOne (ok u) w s = (s.0, s.1, subst (P x) (sym s.2) holds)
    send_signed-SentOne (err e) w s = relabel w s
    send_signed-SentOne panic w s = relabel w s
    send_signed-SentOne spin w s = relabel w s

  -- What is returned after a transaction.
  pub send_signed_then-Sends :
      {A : Type 0} (P : A → Submission h → Type 0) (x : A)
      → P x submission
      → Sends h P
          (send_signed_transaction_with_payers h instructions payer signers >> pure {h = h} x)
  unfolding ◌>>=◌ ◌>>◌
  send_signed_then-Sends P x holds = record {
    sent_lem = λ w.
        send_signed-SentOne P x holds w.sent
          (send_signed_transaction_with_payers h instructions payer signers w).0
          (send_signed_transaction_with_payers h instructions payer signers w).1
          (send_signed-Sends.sent_lem w);
  }

  pub send_signed_last-Sends :
      (P : Unit {0} → Submission h → Type 0)
      → P tt submission
      → Sends h P (send_signed_transaction_with_payers h instructions payer signers)
  send_signed_last-Sends P holds = record {
    sent_lem = λ w.
        weaken w.sent (send_signed_transaction_with_payers h instructions payer signers w).0
          (send_signed_transaction_with_payers h instructions payer signers w).1
          (send_signed-Sends.sent_lem w);
  }
    where
      weaken :
          (before : List (Submission h)) (o : Outcome (Error h) (Unit {0})) (after : World h)
          → SentOne h (λ _ t. t ≡ submission) before o after
          → SentOne h P before o after
      weaken before (ok _) after s = (s.0, s.1, subst (P tt) (sym s.2) holds)
      weaken before (err e) after s = relabel P tt holds before after s
      weaken before panic after s = relabel P tt holds before after s
      weaken before spin after s = relabel P tt holds before after s
