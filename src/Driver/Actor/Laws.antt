-- ===== src/Driver/Actor/Laws.antt =====
-- What the calls of src/actor.rs submit, and that the making of a keypair returns.
use solarium.Base.{ℕ, refl, Bool, true, false}
use solarium.Base.{Outcome, ok, err, panic, spin}
use solarium.Solana.{Instruction}
use solarium.Driver.Host.{Host, solana_client_error, input_output_error, Submission, World}
use solarium.Driver.Monad.{M, ◌>>=◌, ◌>>◌, continue, pure, raise, convert, ask_result}
use solarium.Driver.Sends.{
  Keeps, Keeps-bind, Keeps-pure, Keeps-ask, Keeps-expect, Sends, SentOne, nothing,
}
use solarium.Driver.Returns.{
  Returns, Returns-bind, Returns-pure, Returns-raise, Returns-ask, Returns-expect,
}
use solarium.Driver.Actor.{Actor, written, flushed, new, create_account}

module _ (h : Host) where
  written-Keeps : (success : Bool) → Keeps h (written h success)
  unfolding written raise pure
  written-Keeps true = record { sent_lem = λ w. refl }
  written-Keeps false = record { sent_lem = λ w. refl }

  flushed-Keeps : (success : Bool) → Keeps h (flushed h success)
  unfolding flushed
  flushed-Keeps true = record { sent_lem = λ w. refl }
  flushed-Keeps false = record { sent_lem = λ w. refl }

  pub new-Keeps : Keeps h (new h)
  unfolding new ◌>>◌
  new-Keeps = Keeps-bind h _ _ (Keeps-ask h h.keypair_new) λ keypair.
      Keeps-bind h _ _ (Keeps-ask h h.tempfile) λ file.
        Keeps-bind h _ _ (Keeps-expect h file) λ keyfile.
          Keeps-bind h _ _ (Keeps-ask h (h.write_keypair_file keypair keyfile)) λ success.
            Keeps-bind h _ _ (written-Keeps success) λ _.
              Keeps-bind h _ _ (Keeps-ask h (h.flush keyfile))
                λ success. Keeps-bind h _ _ (flushed-Keeps success) λ _. Keeps-pure h _

  module _ {A : Type 0} (P : A → Submission h → Type 0) (self : Actor h) (target : h.Pubkey)
      (bytes : ℕ) (owner : h.Pubkey) (rest : Instruction h.solana → M h A) where
    create_account-continue :
        (o : Outcome h.ClientError ℕ) (w : World h)
        → ((rent : ℕ)
            → Sends h P (rest (h.system_create_account self.pubkey target rent bytes owner)))
        → SentOne h P w.sent
            (((convert solana_client_error o >>= λ rent.
                  pure (h.system_create_account self.pubkey target rent bytes owner))
                >>= rest)
              w).0
            (((convert solana_client_error o >>= λ rent.
                  pure (h.system_create_account self.pubkey target rent bytes owner))
                >>= rest)
              w).1
    unfolding ◌>>=◌ convert continue pure
    create_account-continue (ok rent) w holds = (holds rent).sent_lem w
    create_account-continue (err e) w holds = nothing refl
    create_account-continue panic w holds = nothing refl
    create_account-continue spin w holds = nothing refl

    -- The created account's rent is whatever the validator asks for.
    pub create_account_then-Sends :
        ((rent : ℕ)
          → Sends h P (rest (h.system_create_account self.pubkey target rent bytes owner)))
        → Sends h P (create_account h self target bytes owner >>= rest)
    unfolding create_account ◌>>=◌ ask_result
    create_account_then-Sends holds = record {
      sent_lem = λ w.
          create_account-continue (h.get_minimum_balance_for_rent_exemption bytes w.state).0
            (record w { state = (h.get_minimum_balance_for_rent_exemption bytes w.state).1 }) holds;
    }

module _ (h : Host) where
  written-Returns : (success : Bool) → Returns h (written h success)
  unfolding written
  written-Returns true = Returns-pure h tt
  written-Returns false = Returns-raise h (input_output_error h.not_found)

  flushed-Returns : (success : Bool) → Returns h (flushed h success)
  unfolding flushed
  flushed-Returns true = record { returned = λ w. tt }
  flushed-Returns false = record { returned = λ w. tt }

  pub new-Returns : Returns h (new h)
  unfolding new ◌>>◌
  new-Returns = Returns-bind h _ _ (Returns-ask h h.keypair_new) λ keypair.
      Returns-bind h _ _ (Returns-ask h h.tempfile) λ file.
        Returns-bind h _ _ (Returns-expect h file) λ keyfile.
          Returns-bind h _ _ (Returns-ask h (h.write_keypair_file keypair keyfile)) λ success.
            Returns-bind h _ _ (written-Returns success) λ done.
              Returns-bind h _ _ (Returns-ask h (h.flush keyfile))
                λ success. Returns-bind h _ _ (flushed-Returns success) λ done. Returns-pure h _
