-- ===== src/Driver/Actor/Deploy.antt =====
-- src/actor.rs: the deployments, which run the command line tools `solana` and `wget`. `sandbox` is the
-- sandbox of the actor.
pub mod Laws
use solarium.Base.{Bool, true, false, if◌then◌else◌, List, [], ◌∷◌, ◌++◌, Option, some}
use solarium.Driver.Text.{Text, text}
use solarium.Driver.Host.{Host, input_output_error}
use solarium.Driver.Monad.{M, ◌>>=◌, pure, raise, expect, ask, ask_result}
use solarium.Driver.Machine.{Command, Machine}
use solarium.Driver.Sandbox.Start.{Sandbox, url}
use solarium.Driver.Actor.{Actor, new}

abbrev pub deploy_command : Text → Text → Text → Text → Command
deploy_command keyfile program_id url location = record {
  program = text "solana";
  args =
      text "program"
      ∷ text "deploy"
      ∷ text "--keypair"
      ∷ keyfile
      ∷ text "--program-id"
      ∷ program_id
      ∷ text "--commitment"
      ∷ text "confirmed"
      ∷ text "--url"
      ∷ url
      ∷ location
      ∷ [];
  quiet = false;
}

abbrev pub wget_command : Text → Text → Command
wget_command file_name remote_location = record {
  program = text "wget";
  args = text "-O" ∷ file_name ∷ remote_location ∷ [];
  quiet = false;
}

module _ (h : Host) (m : Machine h) where
  -- `Command::new(…).args(…).spawn()?.wait()?`, as whether the exit status is a success
  unfoldable pub run : Command → M h Bool
  run command = do
    child ← ask_result input_output_error (m.spawn command)
    ask_result input_output_error (m.wait child)

  -- `if code.success() { Ok(actor) } else { Err(…) }`
  unfoldable pub deployed : Bool → Actor h → M h (Actor h)
  deployed success actor =
      if success then pure actor else raise (input_output_error m.invalid_input)

  unfoldable pub deploy_local : Sandbox h m → Actor h → m.FilePath → M h (Actor h)
  deploy_local sandbox self program_location = do
    actor ← new h
    keyfile ← expect (m.to_str (m.keyfile_path self.keyfile))
    program_id ← expect (m.to_str (m.keyfile_path actor.keyfile))
    location ← expect (m.to_str program_location)
    success ← run (deploy_command keyfile program_id (url h m sandbox) location)
    deployed success actor

  unfoldable pub deploy_remote : Sandbox h m → Actor h → Text → Text → M h (Actor h)
  deploy_remote sandbox self remote_location file_name = do
    actor ← new h
    ignored ← run (wget_command file_name remote_location)
    keyfile ← expect (m.to_str (m.keyfile_path self.keyfile))
    program_id ← expect (m.to_str (m.keyfile_path actor.keyfile))
    success ← run (deploy_command keyfile program_id (url h m sandbox) (text "./" ++ file_name))
    deployed success actor

  unfoldable pub try_deploy_local : Sandbox h m → Actor h → m.FilePath → Text → Text → M h (Actor h)
  try_deploy_local sandbox self program_location fallback_remote_location fallback_file_name = do
    exists ← ask (m.exists program_location)
    if exists
        then deploy_local sandbox self program_location
        else deploy_remote sandbox self fallback_remote_location fallback_file_name
