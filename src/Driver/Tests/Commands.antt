-- ===== src/Driver/Tests/Commands.antt =====
-- The theorems on processes, sizes, participants and the command, at concrete inputs.
use solarium.Base.{ℕ, ◌+◌, ◌*◌, ◌≤◌, ◌≡◌, refl, [], length, true, false, some, ok, arith}
use solarium.Driver.Text.{text, to_string}
use solarium.Driver.Host.{World}
use solarium.Driver.Monad.{◌>>=◌, ◌>>◌, ask, expect, pure}
use solarium.Driver.Submits.{Added, Submits}
use solarium.Driver.Sandbox.Start.{Sandbox, url, validator_command}
use solarium.Driver.Sandbox.Start
use solarium.Driver.Sandbox.Start.Laws.{Prepared, answered, new_lem}
use solarium.Driver.Actor.{Actor}
use solarium.Driver.Actor
use solarium.Driver.Actor.Deploy.{deploy_local, deploy_remote, deploy_command, wget_command}
use solarium.Driver.Actor.Deploy.Laws.{exited, deploy_local_lem, deploy_remote_lem}
use solarium.Driver.Serum.Sizes.{
  fit, request_queue_size, event_queue_size, side_size, market_size, open_orders_size,
}
use solarium.Driver.Serum.Sizes.Bounds.{sizes_lem}
use solarium.Driver.Serum.Participant
use solarium.Driver.Serum.Participant.Laws.{ParticipantCreation, new-ParticipantCreation}
use solarium.Driver.CreateSerumMarket.{TestMarket, Rounds, default_args, set_up, test_market, save}
use solarium.Driver.CreateSerumMarket.Laws.{SetUp, set_up-SetUp}
use solarium.Driver.CreateSerumMarket.Save.{save-Saves, Saves}
use solarium.Driver.Tests.Small.{host, world, alice, dex, fair, machine, broken, files}

abbrev sandbox : Sandbox host machine
sandbox = record {
  tmp = text "/tmp/";
  validator = validator_command (text "/tmp/solana-test-validator-ledger") 9003 9004;
  port = 9003;
}

new_lem_example : Start.new host machine 1 world ≡ (ok sandbox, record world { state = (5, 2) })
new_lem_example =
    new_lem host machine 0 1 world 9003 9004 prepared (text "/tmp/solana-test-validator-ledger")
      sandbox.validator (5, 2) (5, 2) refl refl (omega arith) (answered 0 (5, 2) (5, 2) refl)
  where
    prepared : Prepared host machine world (some 9003) (some 9004)
    prepared = record {
      tmp = text "/tmp/";
      state1 = (3, 2);
      state2 = (4, 2);
      after = (5, 2);
      tmp_lem = refl;
      port_lem = refl;
      faucet_lem = refl;
    }

abbrev program : Actor host
program = record { keypair = 3; keyfile = 0; pubkey = 103 }

abbrev made : World host
made = record world { state = (4, 2) }

new_program : Actor.new host world ≡ (ok program, made)
unfolding Actor.new ◌>>=◌ ◌>>◌ ask expect pure
new_program = refl

deploy_local_lem_example :
    deploy_local host machine sandbox alice (text "program.so") world ≡ (ok program, made)
unfolding to_string
deploy_local_lem_example =
    deploy_local_lem host machine sandbox alice program world made (text "0") (text "0") new_program
      refl refl (text "program.so") (text "program.so") (ok true) (4, 2) refl
      (exited true
        (deploy_command (text "0") (text "0") (url host machine sandbox) (text "program.so")) (4, 2)
        refl refl)

abbrev broken_sandbox : Sandbox host broken
broken_sandbox = record { tmp = sandbox.tmp; validator = sandbox.validator; port = 9003 }

-- The download fails, and the deployment succeeds.
deploy_remote_lem_example :
    deploy_remote host broken broken_sandbox alice (text "https://x/y.so") (text "y.so") world
    ≡ (ok program, made)
unfolding to_string
deploy_remote_lem_example =
    deploy_remote_lem host broken broken_sandbox alice program world made (text "0") (text "0")
      new_program refl refl (text "https://x/y.so") (text "y.so") false (ok true) (4, 2) (4, 2)
      (exited false (wget_command (text "y.so") (text "https://x/y.so")) (4, 2) refl refl)
      (exited true
        (deploy_command (text "0") (text "0") (url host broken broken_sandbox) (text "./y.so"))
        (4, 2) refl refl)

new-ParticipantCreation_example :
    Submits host
      (ParticipantCreation host dex alice fair 3 5 0 70)
      (λ ts. length ts ≤ 5)
      (Participant.new host dex 3 alice fair 5 0 70)
new-ParticipantCreation_example = new-ParticipantCreation host dex alice fair 3 5 0 70

sizes_lem_example :
    ((n : ℕ) → request_queue_size {E = ℕ} host dex n ≡ fit (12 + 32 + n * 80))
    × ((n : ℕ) → event_queue_size {E = ℕ} host dex n ≡ fit (12 + 32 + n * 88))
    × ((n : ℕ) → side_size {E = ℕ} host dex n ≡ fit (12 + 40 + n * 72))
    × (market_size {E = ℕ} host dex true ≡ fit (12 + 452))
    × (market_size {E = ℕ} host dex false ≡ fit (12 + 376))
    × (open_orders_size {E = ℕ} host dex ≡ fit (12 + 3216))
sizes_lem_example = sizes_lem {E = ℕ} host dex

abbrev rounds : Rounds
rounds = record { online = 1; airdrop = 3; vault = 4 }

set_up-SetUp_example :
    Added host
      (SetUp host machine dex files rounds default_args world)
      (λ ts. Unit {0})
      []
      (set_up host machine dex files rounds default_args world).0
      (set_up host machine dex files rounds default_args world).1
set_up-SetUp_example = set_up-SetUp host machine dex files rounds default_args world

abbrev listing : TestMarket
listing = test_market host files (url host machine sandbox) program fair []

save-Saves_example :
    Saves host files default_args listing
      (3, 2)
      (save host files default_args listing world).1.state
      (save host files default_args listing world).0
    × (save host files default_args listing world).1.sent ≡ []
save-Saves_example = save-Saves host files default_args listing world
