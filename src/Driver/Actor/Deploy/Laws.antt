-- ===== src/Driver/Actor/Deploy/Laws.antt =====
-- How the deployments of src/actor.rs end.
use solarium.Base.{◌≡◌, refl, Bool, true, false, ◌++◌, some, Outcome, ok, err, panic, spin}
use solarium.Driver.Text.{Text, text}
use solarium.Driver.Host.{Host, Error, input_output_error, World}
use solarium.Driver.Monad.{◌>>=◌, continue, pure, raise, convert, expect, ask_result}
use solarium.Driver.Machine.{Command, Machine}
use solarium.Driver.Sandbox.Start.{Sandbox, url}
use solarium.Driver.Sends.{Keeps, Keeps-bind, Keeps-ask_result, Keeps-expect}
use solarium.Driver.Actor.{Actor, new}
use solarium.Driver.Actor.Laws.{new-Keeps}
use solarium.Driver.Actor.Deploy.{
  deploy_command, wget_command, run, deployed, deploy_local, deploy_remote,
}

module _ (h : Host) (m : Machine h) where
  -- `Runs command state o after`: running the command from `state` on ends with the exit status `o`,
  -- or with the error of a process that does not start or cannot be waited for.
  pub data Runs (command : Command) (state after : h.State) : Outcome (Error h) Bool → Type 0 where
    not_started :
        (e : h.IoError)
        → m.spawn command state ≡ (err e, after)
        → Runs command state after (err (input_output_error e))
    lost :
        (e : h.IoError) (child : m.Child) (between : h.State)
        → m.spawn command state ≡ (ok child, between)
        → m.wait child between ≡ (err e, after)
        → Runs command state after (err (input_output_error e))
    exited :
        (success : Bool) (child : m.Child) (between : h.State)
        → m.spawn command state ≡ (ok child, between)
        → m.wait child between ≡ (ok success, after)
        → Runs command state after (ok success)

  run_lem :
      (command : Command) (o : Outcome (Error h) Bool) (w : World h) (after : h.State)
      → Runs command w.state after o
      → run h m command w ≡ (o, record w { state = after })
  unfolding run ◌>>=◌ continue convert ask_result
  run_lem command _ w after (not_started e s) = rw s
  run_lem command _ w after (lost e child between s t) = rw (s, t)
  run_lem command _ w after (exited success child between s t) = rw (s, t)

  -- What a deployment returns after the command: the program's actor if the command succeeded.
  abbrev pub verdict : Outcome (Error h) Bool → Actor h → Outcome (Error h) (Actor h)
  verdict (ok true) actor = ok actor
  verdict (ok false) actor = err (input_output_error m.invalid_input)
  verdict (err e) actor = err e
  verdict panic actor = panic
  verdict spin actor = spin

  verdict_lem :
      (o : Outcome (Error h) Bool) (actor : Actor h) (w : World h)
      → continue o (λ success. deployed h m success actor) w ≡ (verdict o actor, w)
  unfolding deployed continue pure raise
  verdict_lem (ok true) actor w = refl
  verdict_lem (ok false) actor w = refl
  verdict_lem (err e) actor w = refl
  verdict_lem panic actor w = refl
  verdict_lem spin actor w = refl

  module _ (sandbox : Sandbox h m) (self actor : Actor h) (w made : World h)
      (keyfile program_id : Text) (new_program : new h w ≡ (ok actor, made))
      (keyfile_lem : m.to_str (m.keyfile_path self.keyfile) ≡ some keyfile)
      (program_lem : m.to_str (m.keyfile_path actor.keyfile) ≡ some program_id) where
    -- Where a keypair for the program can be made, and the paths of both key files and of the given
    -- file are texts, `deploy_local` runs `solana program deploy` with the actor's key file, the
    -- program's key file, the url of the sandbox and the given file. It returns the program's actor if
    -- the command succeeds, `InvalidInput` if it fails, and the error of the process if there is no
    -- exit status; it submits nothing after the making of the keypair.
    pub deploy_local_lem :
        (program_location : m.FilePath) (location : Text) (o : Outcome (Error h) Bool)
        (after : h.State)
        → m.to_str program_location ≡ some location
        → Runs (deploy_command keyfile program_id (url h m sandbox) location) made.state after o
        → deploy_local h m sandbox self program_location w
          ≡ (verdict o actor, record made { state = after })
    unfolding deploy_local ◌>>=◌ expect
    deploy_local_lem program_location location o after e r =
        rw
          (
            new_program,
            keyfile_lem,
            program_lem,
            e,
            continue,
            run_lem (deploy_command keyfile program_id (url h m sandbox) location) o made after r,
          )
          (verdict_lem o actor (record made { state = after }))

    -- Where a keypair for the program can be made, the paths of both key files are texts, and `wget`
    -- runs to any exit status, success or not, `deploy_remote` goes on with `solana program deploy` of
    -- the file's name behind `./`. It returns the program's actor if that second command succeeds,
    -- `InvalidInput` if it fails, and the error of the process if there is no exit status. So it can
    -- succeed though the download failed.
    pub deploy_remote_lem :
        (remote_location file_name : Text) (downloaded : Bool) (o : Outcome (Error h) Bool)
        (between after : h.State)
        → Runs (wget_command file_name remote_location) made.state between (ok downloaded)
        → Runs
            (deploy_command keyfile program_id (url h m sandbox) (text "./" ++ file_name))
            between
            after
            o
        → deploy_remote h m sandbox self remote_location file_name w
          ≡ (verdict o actor, record made { state = after })
    unfolding deploy_remote ◌>>=◌ expect
    deploy_remote_lem remote_location file_name downloaded o between after d r =
        rw
          (
            new_program,
            continue,
            run_lem (wget_command file_name remote_location) (ok downloaded) made between d,
            keyfile_lem,
            program_lem,
            run_lem (deploy_command keyfile program_id (url h m sandbox) (text "./" ++ file_name)) o
                (record made { state = between }) after r,
          )
          (verdict_lem o actor (record made { state = after }))

  run-Keeps : (command : Command) → Keeps h (run h m command)
  unfolding run
  run-Keeps command =
      Keeps-bind h _ _ (Keeps-ask_result h input_output_error (m.spawn command))
        λ child. Keeps-ask_result h input_output_error (m.wait child)

  deployed-Keeps : (success : Bool) (actor : Actor h) → Keeps h (deployed h m success actor)
  unfolding deployed pure raise
  deployed-Keeps true actor = record { sent_lem = λ w. refl }
  deployed-Keeps false actor = record { sent_lem = λ w. refl }

  module _ (sandbox : Sandbox h m) (self : Actor h) where
    pub deploy_remote-Keeps :
        (remote_location file_name : Text)
        → Keeps h (deploy_remote h m sandbox self remote_location file_name)
    unfolding deploy_remote
    deploy_remote-Keeps remote_location file_name = Keeps-bind h _ _ (new-Keeps h) λ actor.
        Keeps-bind h _ _ (run-Keeps (wget_command file_name remote_location)) λ ignored.
          Keeps-bind h _ _ (Keeps-expect h (m.to_str (m.keyfile_path self.keyfile))) λ keyfile.
            Keeps-bind h _ _ (Keeps-expect h (m.to_str (m.keyfile_path actor.keyfile)))
              λ program_id. Keeps-bind h _ _ (run-Keeps _) λ success. deployed-Keeps success actor
