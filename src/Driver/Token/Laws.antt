-- ===== src/Driver/Token/Laws.antt =====
-- The transactions of src/token.rs.
use solarium.Base.{ℕ, ◌≡◌, refl, [], ◌∷◌, Option, some, ok, err}
use solarium.Solana.{Instruction}
use solarium.Driver.Host.{Host, solana_program_error, Submission}
use solarium.Driver.Sends.{
  Sends, Sends-bind, Sends-convert, submission, send_signed_then-Sends, send_signed_last-Sends,
}
use solarium.Driver.Delivery.Operates.{Operates, returned-Operates}
use solarium.Driver.Actor.{Actor}
use solarium.Driver.Actor.Laws.{new-Keeps, create_account_then-Sends}
use solarium.Driver.Token.{Mint, TokenAccount, or_default, new_mint, mint_to, new_token_account}

module _ (h : Host) (actor : Actor h) where
  -- The transaction that creates a mint, and the mint that is returned.
  pub record MintCreation (decimals : ℕ) (authority freeze_authority : Option (Actor h))
      (m : Mint h) (t : Submission h) : Type 0 where
    pub authority_lem : m.authority ≡ or_default authority actor
    pub freeze_authority_lem : m.freeze_authority ≡ or_default freeze_authority m.authority
    pub rent : ℕ
    pub initialize : Instruction h.solana
    pub initialize_lem :
        h.initialize_mint h.token_id m.mint.pubkey m.authority.pubkey
          (some m.freeze_authority.pubkey)
          decimals
        ≡ ok initialize
    pub submission_lem :
        t
        ≡ submission h
            (h.system_create_account actor.pubkey m.mint.pubkey rent h.mint_len h.token_id
              ∷ initialize
              ∷ [])
            (some actor.pubkey)
            (actor.keypair ∷ m.mint.keypair ∷ [])

  -- Where `Mint::new` succeeds, it has handed exactly one transaction to the client, which has
  -- confirmed it. Where it does not, it has handed over nothing, or one such transaction, which
  -- the client did not say is confirmed. The transaction creates the account of the returned mint
  -- with the length and the owner of a mint and then initializes it; the actor pays, and the actor
  -- and the mint sign. The authority is the given one or the actor, and the freeze authority the
  -- given one or that authority, also where it is not the actor (the source's comment names the actor
  -- as the default).
  pub new_mint-Sends :
      (decimals : ℕ) (authority freeze_authority : Option (Actor h))
      → Sends h
          (MintCreation decimals authority freeze_authority)
          (new_mint h actor decimals authority freeze_authority)
  unfolding new_mint
  new_mint-Sends decimals authority freeze_authority =
      Sends-bind h (MintCreation decimals authority freeze_authority) _ _ (new-Keeps h) λ mint.
        create_account_then-Sends h (MintCreation decimals authority freeze_authority) actor
          mint.pubkey h.mint_len h.token_id _
          λ rent.
            Sends-convert h (MintCreation decimals authority freeze_authority) solana_program_error
              _ _
              λ initialize e.
                send_signed_then-Sends h _ _ _ (MintCreation decimals authority freeze_authority) _
                  (record {
                    authority_lem = refl;
                    freeze_authority_lem = refl;
                    rent = rent;
                    initialize = initialize;
                    initialize_lem = e;
                    submission_lem = refl;
                  })

  -- The transaction that creates a token account, and the account that is returned.
  pub record TokenAccountCreation (mint : Mint h) (owner : Option h.Pubkey) (a : TokenAccount h)
      (t : Submission h) : Type 0 where
    pub rent : ℕ
    pub initialize : Instruction h.solana
    pub initialize_lem :
        h.initialize_account h.token_id a.account.pubkey mint.mint.pubkey
          (or_default owner actor.pubkey)
        ≡ ok initialize
    pub submission_lem :
        t
        ≡ submission h
            (h.system_create_account actor.pubkey a.account.pubkey rent h.account_len h.token_id
              ∷ initialize
              ∷ [])
            (some actor.pubkey)
            (actor.keypair ∷ a.account.keypair ∷ [])

  -- Where `TokenAccount::new` succeeds, it has handed exactly one transaction to the client, which
  -- has confirmed it. Where it does not, it has handed over nothing, or this one transaction,
  -- which the client did not say is confirmed. The transaction creates the returned account with
  -- the length and the owner of a token account and then initializes it for the mint, on behalf of
  -- the given owner or else of the actor; the actor pays, and the actor and the account sign.
  pub new_token_account-Sends :
      (mint : Mint h) (owner : Option h.Pubkey)
      → Sends h (TokenAccountCreation mint owner) (new_token_account h actor mint owner)
  unfolding new_token_account
  new_token_account-Sends mint owner =
      Sends-bind h (TokenAccountCreation mint owner) _ _ (new-Keeps h) λ account.
        create_account_then-Sends h (TokenAccountCreation mint owner) actor account.pubkey
          h.account_len h.token_id _
          λ rent.
            Sends-convert h (TokenAccountCreation mint owner) solana_program_error _ _
              λ initialize e.
                send_signed_then-Sends h _ _ _ (TokenAccountCreation mint owner) _ (record {
                  rent = rent;
                  initialize = initialize;
                  initialize_lem = e;
                  submission_lem = refl;
                })

  -- The transaction that mints.
  pub record Minting (self : Mint h) (destination : TokenAccount h) (amount : ℕ) (done : Unit {0})
      (t : Submission h) : Type 0 where
    pub instruction : Instruction h.solana
    pub instruction_lem :
        h.mint_to h.token_id self.mint.pubkey destination.account.pubkey self.authority.pubkey []
          amount
        ≡ ok instruction
    pub submission_lem :
        t
        ≡ submission h
            (instruction ∷ [])
            (some actor.pubkey)
            (actor.keypair ∷ self.authority.keypair ∷ [])

  pub mint_to-Sends :
      (self : Mint h) (destination : TokenAccount h) (amount : ℕ)
      → Sends h (Minting self destination amount) (mint_to h self actor destination amount)
  unfolding mint_to
  mint_to-Sends self destination amount =
      Sends-convert h (Minting self destination amount) solana_program_error _ _ λ instruction e.
        send_signed_last-Sends h _ _ _ (Minting self destination amount)
          (record { instruction = instruction; instruction_lem = e; submission_lem = refl })

  -- Where spl_token does not build the instruction, `Mint::mint_to` returns its error and has done
  -- nothing. Where it does, the call ends as the client's answers say: the client's error where
  -- there is no block hash, a panic where the transaction cannot be signed, and else one
  -- transaction with this only instruction is handed over, and the call succeeds where the client
  -- confirms it and ends with the client's error where not. Whatever happens, no other transaction
  -- is handed over, and a call that succeeds has handed over this one. The instruction mints the
  -- amount into the destination's account; whoever the actor is, it pays and signs, and the mint's
  -- authority signs too.
  pub mint_to-Operates :
      (self : Mint h) (destination : TokenAccount h) (amount : ℕ)
      → Operates h
          (h.mint_to h.token_id self.mint.pubkey destination.account.pubkey self.authority.pubkey []
            amount)
          actor.pubkey
          (actor.keypair ∷ self.authority.keypair ∷ [])
          (λ e. err (solana_program_error e))
          (mint_to h self actor destination amount)
  unfolding mint_to
  mint_to-Operates self destination amount = returned-Operates h _ _ _ solana_program_error
