-- ===== src/Driver/Calls.antt =====
-- The calls of src/actor.rs, src/sandbox.rs and src/token.rs return, where the calls outside do.
use solarium.Base.{ℕ, Bool, true, false, List, Option, Outcome, ok, err, panic, spin}
use solarium.Solana.{Instruction}
use solarium.Driver.Text.{Text}
use solarium.Driver.Host.{
  Host, solana_client_error, solana_program_error, input_output_error, World,
}
use solarium.Driver.Monad.{◌>>=◌, continue, pure, convert, ask}
use solarium.Driver.Sends.{answered}
use solarium.Driver.Machine.{Command, Machine}
use solarium.Driver.Returns.{
  Returned, Returns, Returns-bind, Returns-then, Returns-pure, Returns-raise, Returns-convert,
  Returns-ask_result, Returns-expect,
}
use solarium.Driver.Sandbox.{note, send_signed_transaction_with_payers}
use solarium.Driver.Sandbox.Start.{Sandbox}
use solarium.Driver.Actor.{Actor, create_account}
use solarium.Driver.Actor.Laws.{new-Returns}
use solarium.Driver.Actor.Deploy.{run, deployed, deploy_remote, wget_command}
use solarium.Driver.Token.{Mint, TokenAccount, new_mint, mint_to, new_token_account}

-- The calls outside return: with a value, an error or a panic.
pub record HostReturns (h : Host) : Type 0 where
  pub get_latest_blockhash : (s : h.State) → Returned (h.get_latest_blockhash s).0
  pub send_and_confirm_transaction :
      (t : h.Transaction) (s : h.State) → Returned (h.send_and_confirm_transaction t s).0
  pub request_airdrop :
      (key : h.Pubkey) (lamports : ℕ) (s : h.State) → Returned (h.request_airdrop key lamports s).0
  pub get_minimum_balance_for_rent_exemption :
      (bytes : ℕ) (s : h.State) → Returned (h.get_minimum_balance_for_rent_exemption bytes s).0
  pub initialize_mint :
      (id mint authority : h.Pubkey) (freeze : Option h.Pubkey) (decimals : ℕ)
      → Returned (h.initialize_mint id mint authority freeze decimals)
  pub initialize_account :
      (id account mint owner : h.Pubkey) → Returned (h.initialize_account id account mint owner)
  pub mint_to :
      (id mint account owner : h.Pubkey) (signers : List h.Pubkey) (amount : ℕ)
      → Returned (h.mint_to id mint account owner signers amount)

pub record MachineReturns (h : Host) (m : Machine h) : Type 0 where
  pub tempdir : (prefix : Text) (s : h.State) → Returned (m.tempdir prefix s).0
  pub spawn : (command : Command) (s : h.State) → Returned (m.spawn command s).0
  pub wait : (child : m.Child) (s : h.State) → Returned (m.wait child s).0

module _ (h : Host) (R : HostReturns h) where
  module _ (instructions : List (Instruction h.solana)) (payer : Option h.Pubkey)
      (signers : List h.Keypair) where
    answered-Returned :
        (answer : Outcome h.ClientError h.Signature) (w : World h)
        → Returned answer
        → Returned (answered h instructions payer signers answer w).0
    unfolding note pure convert continue ◌>>=◌
    answered-Returned (ok signature) w r = tt
    answered-Returned (err e) w r = tt
    answered-Returned panic w r = tt
    answered-Returned spin w r = r

    hand_over-Returns :
        (t : h.Transaction)
        → Returns h
            (ask (h.send_and_confirm_transaction t) >>= answered h instructions payer signers)
    unfolding ask continue ◌>>=◌
    hand_over-Returns t = record {
      returned = λ w.
          answered-Returned (h.send_and_confirm_transaction t w.state).0
            (record w { state = (h.send_and_confirm_transaction t w.state).1 })
            (R.send_and_confirm_transaction t w.state);
    }

    pub send-Returns : Returns h (send_signed_transaction_with_payers h instructions payer signers)
    unfolding send_signed_transaction_with_payers
    send-Returns =
        Returns-bind h _ _
          (Returns-ask_result h solana_client_error h.get_latest_blockhash R.get_latest_blockhash)
          λ recent_hash.
            Returns-bind h _ _
              (Returns-expect h (h.new_signed_with_payer instructions payer signers recent_hash))
              λ transaction. hand_over-Returns transaction

  pub create_account-Returns :
      (self : Actor h) (target : h.Pubkey) (bytes : ℕ) (owner : h.Pubkey)
      → Returns h (create_account h self target bytes owner)
  unfolding create_account
  create_account-Returns self target bytes owner =
      Returns-bind h _ _
        (Returns-ask_result h solana_client_error (h.get_minimum_balance_for_rent_exemption bytes)
          (R.get_minimum_balance_for_rent_exemption bytes))
        λ rent. Returns-pure h _

  pub new_mint-Returns :
      (actor : Actor h) (decimals : ℕ) (authority freeze_authority : Option (Actor h))
      → Returns h (new_mint h actor decimals authority freeze_authority)
  unfolding new_mint
  new_mint-Returns actor decimals authority freeze_authority =
      Returns-bind h _ _ (new-Returns h) λ mint.
        Returns-bind h _ _ (create_account-Returns actor mint.pubkey h.mint_len h.token_id)
          λ create.
            Returns-bind h _ _
              (Returns-convert h solana_program_error _ (R.initialize_mint _ _ _ _ _))
              λ initialize. Returns-then _ _ (send-Returns _ _ _) (Returns-pure h _)

  pub mint_to-Returns :
      (mint : Mint h) (actor : Actor h) (destination : TokenAccount h) (amount : ℕ)
      → Returns h (mint_to h mint actor destination amount)
  unfolding mint_to
  mint_to-Returns mint actor destination amount =
      Returns-bind h _ _ (Returns-convert h solana_program_error _ (R.mint_to _ _ _ _ _ _))
        λ instruction. send-Returns _ _ _

  pub new_token_account-Returns :
      (actor : Actor h) (mint : Mint h) (owner : Option h.Pubkey)
      → Returns h (new_token_account h actor mint owner)
  unfolding new_token_account
  new_token_account-Returns actor mint owner = Returns-bind h _ _ (new-Returns h) λ account.
      Returns-bind h _ _ (create_account-Returns actor account.pubkey h.account_len h.token_id)
        λ create.
          Returns-bind h _ _
            (Returns-convert h solana_program_error _ (R.initialize_account _ _ _ _))
            λ initialize. Returns-then _ _ (send-Returns _ _ _) (Returns-pure h _)

module _ (h : Host) (m : Machine h) (R : MachineReturns h m) where
  run-Returns : (command : Command) → Returns h (run h m command)
  unfolding run
  run-Returns command =
      Returns-bind h _ _
        (Returns-ask_result h input_output_error (m.spawn command) (R.spawn command))
        λ child. Returns-ask_result h input_output_error (m.wait child) (R.wait child)

  deployed-Returns : (success : Bool) (actor : Actor h) → Returns h (deployed h m success actor)
  unfolding deployed
  deployed-Returns true actor = Returns-pure h actor
  deployed-Returns false actor = Returns-raise h (input_output_error m.invalid_input)

  pub deploy_remote-Returns :
      (sandbox : Sandbox h m) (self : Actor h) (remote_location file_name : Text)
      → Returns h (deploy_remote h m sandbox self remote_location file_name)
  unfolding deploy_remote
  deploy_remote-Returns sandbox self remote_location file_name =
      Returns-bind h _ _ (new-Returns h) λ actor.
        Returns-bind h _ _ (run-Returns (wget_command file_name remote_location)) λ ignored.
          Returns-bind h _ _ (Returns-expect h (m.to_str (m.keyfile_path self.keyfile))) λ keyfile.
            Returns-bind h _ _ (Returns-expect h (m.to_str (m.keyfile_path actor.keyfile)))
              λ program_id.
                Returns-bind h _ _ (run-Returns _) λ success. deployed-Returns success actor
