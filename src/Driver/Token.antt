-- ===== src/Driver/Token.antt =====
-- src/token.rs: mints and token accounts of spl_token.
pub mod Laws
use solarium.Base.{ℕ, List, [], ◌∷◌, Option, some, none}
use solarium.Driver.Host.{Host, solana_client_error, solana_program_error}
use solarium.Driver.Monad.{M, ◌>>=◌, ◌>>◌, pure, convert, ask_result}
use solarium.Driver.Sandbox.{send_signed_transaction_with_payers}
use solarium.Driver.Actor.{Actor, create_account}
use solarium.Driver.Actor

pub record Mint (h : Host) : Type 0 where
  pub mint : Actor h
  pub authority : Actor h
  pub freeze_authority : Actor h

pub record TokenAccount (h : Host) : Type 0 where
  pub account : Actor h

-- `match given { Some(x) => x, None => default }`
abbrev pub or_default : {A : Type 0} → Option A → A → A
or_default (some a) default = a
or_default none default = default

module _ (h : Host) where
  unfoldable pub new_mint : Actor h → ℕ → Option (Actor h) → Option (Actor h) → M h (Mint h)
  new_mint actor decimals authority freeze_authority = do
    mint ← Actor.new h
    let authority = or_default authority actor
    let freeze_authority = or_default freeze_authority authority
    create_account ← create_account h actor mint.pubkey h.mint_len h.token_id
    initialize_mint ← convert solana_program_error (
        h.initialize_mint h.token_id mint.pubkey authority.pubkey (some freeze_authority.pubkey)
          decimals)
    send_signed_transaction_with_payers h (create_account ∷ initialize_mint ∷ [])
          (some actor.pubkey) (actor.keypair ∷ mint.keypair ∷ [])
        >> pure (record { mint = mint; authority = authority; freeze_authority = freeze_authority })

  unfoldable pub mint_to : Mint h → Actor h → TokenAccount h → ℕ → M h (Unit {0})
  mint_to self actor destination amount = do
    instruction ← convert solana_program_error (
        h.mint_to h.token_id self.mint.pubkey destination.account.pubkey self.authority.pubkey []
          amount)
    send_signed_transaction_with_payers h (instruction ∷ []) (some actor.pubkey)
        (actor.keypair ∷ self.authority.keypair ∷ [])

  unfoldable pub new_token_account : Actor h → Mint h → Option h.Pubkey → M h (TokenAccount h)
  new_token_account actor mint owner = do
    account ← Actor.new h
    let owner = or_default owner actor.pubkey
    create_account ← create_account h actor account.pubkey h.account_len h.token_id
    initialize_account ←
        convert solana_program_error
          (h.initialize_account h.token_id account.pubkey mint.mint.pubkey owner)
    send_signed_transaction_with_payers h (create_account ∷ initialize_account ∷ [])
          (some actor.pubkey) (actor.keypair ∷ account.keypair ∷ [])
        >> pure (record { account = account })

  unfoldable pub get_account_info : TokenAccount h → M h h.TokenState
  get_account_info self = do
    bytes ← ask_result solana_client_error (h.get_account_data self.account.pubkey)
    convert solana_program_error (h.unpack_token_state bytes)
