-- ===== src/Driver/CreateSerumMarket/Save.antt =====
-- The order in which src/bin/create_serum_market.rs writes its two files.
use solarium.Base.{◌≡◌, refl, Bool, true, false, ◌++◌, Option, some, none, Outcome, ok, panic}
use solarium.Driver.Text.{text}
use solarium.Driver.Host.{Host, Error, World}
use solarium.Driver.Monad.{◌>>=◌, continue, pure, expect, ask}
use solarium.Driver.CreateSerumMarket.{TestMarket, CliArgs, Files, save}

module _ (h : Host) (f : Files h) (args : CliArgs) (market : TestMarket) where
  -- `Saves state after o`: what was done with the files from `state` to `after`, and how it ended.
  pub data Saves (state after : h.State) : Outcome (Error h) (Unit {0}) → Type 0 where
    not_created : f.create args.output_file_name state ≡ (none, after) → Saves state after panic
    not_written :
        (file : f.File) (state1 : h.State)
        → f.create args.output_file_name state ≡ (some file, state1)
        → f.to_writer file market state1 ≡ (false, after)
        → Saves state after panic
    not_marked :
        (file : f.File) (state1 state2 : h.State)
        → f.create args.output_file_name state ≡ (some file, state1)
        → f.to_writer file market state1 ≡ (true, state2)
        → f.open_new (args.output_file_name ++ text ".done") state2 ≡ (none, after)
        → Saves state after panic
    saved :
        (file mark : f.File) (state1 state2 : h.State)
        → f.create args.output_file_name state ≡ (some file, state1)
        → f.to_writer file market state1 ≡ (true, state2)
        → f.open_new (args.output_file_name ++ text ".done") state2 ≡ (some mark, after)
        → Saves state after (ok tt)

  abbrev Ends : World h → Outcome (Error h) (Unit {0}) × World h → Type 0
  Ends w (o, after) = Saves w.state after.state o × after.sent ≡ w.sent

  mark_it :
      (w : World h) (file : f.File) (state1 state2 : h.State)
      → f.create args.output_file_name w.state ≡ (some file, state1)
      → f.to_writer file market state1 ≡ (true, state2)
      → (x : Option f.File × h.State)
      → f.open_new (args.output_file_name ++ text ".done") state2 ≡ x
      → Ends w (save h f args market w)
  unfolding save ◌>>=◌ continue pure expect ask
  mark_it w file state1 state2 c t (none, after) e =
      rw (c, t, e) (not_marked file state1 state2 c t e, refl)
  mark_it w file state1 state2 c t (some mark, after) e =
      rw (c, t, e) (saved file mark state1 state2 c t e, refl)

  write_it :
      (w : World h) (file : f.File) (state1 : h.State)
      → f.create args.output_file_name w.state ≡ (some file, state1)
      → (x : Bool × h.State) → f.to_writer file market state1 ≡ x
      → Ends w (save h f args market w)
  unfolding save ◌>>=◌ continue pure expect ask
  write_it w file state1 c (false, after) t = rw (c, t) (not_written file state1 c t, refl)
  write_it w file state1 c (true, state2) t =
      mark_it w file state1 state2 c t (f.open_new (args.output_file_name ++ text ".done") state2)
        refl

  create_it :
      (w : World h) (x : Option f.File × h.State)
      → f.create args.output_file_name w.state ≡ x
      → Ends w (save h f args market w)
  unfolding save ◌>>=◌ continue pure expect ask
  create_it w (none, after) c = rw c (not_created c, refl)
  create_it w (some file, state1) c = write_it w file state1 c (f.to_writer file market state1) refl

  -- The file that marks the market's file as complete is opened only after that one was created and
  -- written without a failure; the three steps are done in this order, a step that fails is the last
  -- and is a panic, and no transaction is submitted.
  pub save-Saves : (w : World h) → Ends w (save h f args market w)
  save-Saves w = create_it w (f.create args.output_file_name w.state) refl
