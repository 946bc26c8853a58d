-- ===== src/Driver/Sandbox/Start.antt =====
-- src/sandbox.rs: the start and the end of the validator process. The client of a sandbox is not a
-- field here: the calls of the `Host` are its calls.
pub mod Laws
use solarium.Base.{ℕ, zero, suc, Bool, true, false, List, [], ◌∷◌, ◌++◌, Option, some, none}
use solarium.Base.{Outcome, ok, err, panic, spin}
use solarium.Driver.Text.{Text, text, to_string}
use solarium.Driver.Host.{Host, input_output_error}
use solarium.Driver.Monad.{M, ◌>>=◌, ◌>>◌, pure, raise, convert, expect, ask, ask_result}
use solarium.Driver.Machine.{Command, Machine}

pub record Sandbox (h : Host) (m : Machine h) : Type 0 where
  pub tmp : m.TempDir
  pub validator : m.Child
  pub port : ℕ

-- `String::from("http://127.0.0.1:") + &port.to_string()`
unfoldable pub local_url : ℕ → Text
local_url port = text "http://127.0.0.1:" ++ to_string port

abbrev pub validator_command : Text → ℕ → ℕ → Command
validator_command ledger port faucet = record {
  program = text "solana-test-validator";
  args =
      text "--ledger"
      ∷ ledger
      ∷ text "--rpc-port"
      ∷ to_string port
      ∷ text "--faucet-port"
      ∷ to_string faucet
      ∷ [];
  quiet = true;
}

abbrev pub is_err {ℓ κ} : {E : Type ℓ} {F : Type κ} {A : Type 0} → Outcome E A → Outcome F Bool
is_err (ok a) = ok false
is_err (err e) = ok true
is_err panic = panic
is_err spin = spin

module _ (h : Host) (m : Machine h) where
  -- `if port.is_none() { return Err(…) }`, and the port
  abbrev pub available : Option ℕ → M h ℕ
  available (some port) = pure port
  available none = raise (input_output_error m.addr_not_available)

  -- `while client.get_latest_blockhash().is_err() { sleep }`, with the rounds left.
  pub await_online : ℕ → M h (Unit {0})
  await_online zero w = (spin, w)
  await_online (suc rounds) w =
      let again = await_online rounds in
      (do
        answer ← ask h.get_latest_blockhash
        offline ← convert (λ e. e) (is_err answer)
        next offline again)
        w
    where
      next : Bool → M h (Unit {0}) → M h (Unit {0})
      next false again = pure tt
      next true again = ask (λ s. (tt, h.sleep s)) >> again

  unfoldable pub new : ℕ → M h (Sandbox h m)
  unfolding await_online
  new rounds = do
    tmp ← ask_result input_output_error (m.tempdir (text "solarium"))
    port ← ask m.pick_unused_port
    faucet ← ask m.pick_unused_port
    port ← available port
    faucet ← available faucet
    ledger ← expect (m.join tmp (text "solana-test-validator-ledger"))
    validator ← ask_result input_output_error (m.spawn (validator_command ledger port faucet))
    online ← await_online rounds
    pure (record { tmp = tmp; validator = validator; port = port })

  unfoldable pub url : Sandbox h m → Text
  url self = local_url self.port

  -- `Drop::drop`; that the validator may not be there to kill is ignored.
  unfoldable pub drop : Sandbox h m → M h (Unit {0})
  drop self = do killed ← ask (m.kill self.validator); pure tt
