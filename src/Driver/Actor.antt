-- ===== src/Driver/Actor.antt =====
-- src/actor.rs: keypairs with a key file. The deployments are in Deploy.
pub mod Laws
pub mod Deploy
pub mod Airdrop
use solarium.Base.{ℕ, zero, suc, Bool, true, false, ok, panic, spin}
use solarium.Solana.{Instruction}
use solarium.Driver.Host.{Host, Error, solana_client_error, input_output_error, World}
use solarium.Driver.Monad.{M, ◌>>=◌, ◌>>◌, pure, raise, expect, ask, ask_result}

pub record Actor (h : Host) : Type 0 where
  pub keypair : h.Keypair
  pub keyfile : h.Keyfile
  pub pubkey : h.Pubkey

module _ (h : Host) where
  -- `write_keypair_file(…).is_err()`
  written : Bool → M h (Unit {0})
  written true = pure tt
  written false = raise (input_output_error h.not_found)

  flushed : Bool → M h (Unit {0})
  flushed true w = (ok tt, w)
  flushed false w = (panic, w)

  unfoldable pub new : M h (Actor h)
  unfolding written flushed
  new = do
    keypair ← ask h.keypair_new
    let pubkey = h.pubkey_of keypair
    file ← ask h.tempfile
    keyfile ← expect file
    success ← ask (h.write_keypair_file keypair keyfile)
    written success
    success ← ask (h.flush keyfile)
    flushed success
    pure (record { keypair = keypair; keyfile = keyfile; pubkey = pubkey })

  -- `while !confirm_transaction(&signature)? { sleep }`, with the rounds left.
  await_confirmation : ℕ → h.Signature → M h (Unit {0})
  await_confirmation zero signature w = (spin, w)
  await_confirmation (suc rounds) signature w =
      let again = await_confirmation rounds signature in
      (ask_result solana_client_error (h.confirm_transaction signature) >>= λ confirmed.
      next confirmed again)
        w
    where
      next : Bool → M h (Unit {0}) → M h (Unit {0})
      next true again = pure tt
      next false again = ask (λ s. (tt, h.sleep s)) >> again

  unfoldable pub airdrop : ℕ → Actor h → ℕ → M h (Unit {0})
  unfolding await_confirmation
  airdrop rounds self lamports = do
    signature ← ask_result solana_client_error (h.request_airdrop self.pubkey lamports)
    await_confirmation rounds signature

  unfoldable pub create_account : Actor h → h.Pubkey → ℕ → h.Pubkey → M h (Instruction h.solana)
  create_account self target target_bytes target_owner = do
    rent ← ask_result solana_client_error (h.get_minimum_balance_for_rent_exemption target_bytes)
    pure (h.system_create_account self.pubkey target rent target_bytes target_owner)

  unfoldable pub get_account_info : Actor h → M h h.Account
  get_account_info self = ask_result solana_client_error (h.get_account self.pubkey)
