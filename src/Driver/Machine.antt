-- ===== src/Driver/Machine.antt =====
-- What the driver takes from the machine that it runs on: paths, temporary directories, ports and
-- processes.
use solarium.Base.{ℕ, Bool, List, Option, Outcome}
use solarium.Driver.Text.{Text}
use solarium.Driver.Host.{Host}

-- `process::Command`: the program and its arguments, and whether its output is discarded.
pub record Command : Type 0 where
  pub program : Text
  pub args : List Text
  pub quiet : Bool

pub record Machine (h : Host) : Type 1 where
  pub FilePath : Type 0
  pub TempDir : Type 0
  pub Child : Type 0
  -- `std::io::ErrorKind::AddrNotAvailable` and `std::io::ErrorKind::InvalidInput`
  pub addr_not_available : h.IoError
  pub invalid_input : h.IoError
  -- `NamedTempFile::path`, `Path::to_str` (`none` where the path is no text), `Path::exists`
  pub keyfile_path : h.Keyfile → FilePath
  pub to_str : FilePath → Option Text
  pub exists : FilePath → h.State → Bool × h.State
  -- `Builder::tempdir` with this prefix, and the text of `tmp.path().join(…)`
  pub tempdir : Text → h.State → Outcome h.IoError TempDir × h.State
  pub join : TempDir → Text → Option Text
  -- `portpicker::pick_unused_port`
  pub pick_unused_port : h.State → Option ℕ × h.State
  -- `Command::spawn`, `Child::wait` (whether the exit status is a success), and `Child::kill` (whether
  -- it could)
  pub spawn : Command → h.State → Outcome h.IoError Child × h.State
  pub wait : Child → h.State → Outcome h.IoError Bool × h.State
  pub kill : Child → h.State → Bool × h.State
