-- ===== src/Process.antt =====
-- The machine that api/mysql_ops.py and api/ssh_tunnel.py act on: `shutil.which`, the environment,
-- `subprocess.run` and `subprocess.Popen`, the files and the clock. What the processes do is theirs;
-- each call may raise. A process is named by a number, a time-out is in seconds.
use sansbox_sql.Base.{String, Bool, ◌<>◌, ℕ, Option, List, [], ◌∷◌}
use sansbox_sql.Errors.{Result}
use sansbox_sql.Exec.{Exec}
use sansbox_sql.Docker.Compose.{ReturnCode}

abbrev pub Environ : Type 0
Environ = List (String × String)

-- The arguments of `subprocess.run` with `capture_output`
pub record Command : Type 0 where
  pub argv : List String
  pub environ : Option Environ
  pub input : Option (List ℕ)
  pub timeout : ℕ

pub record Output : Type 0 where
  pub returncode : ReturnCode
  pub stdout : List ℕ
  pub stderr : List ℕ

pub data Stream : Type 0 where
  devnull pipe : Stream
  stdout_of : ℕ → Stream
  file : String → Stream

-- The arguments of `subprocess.Popen`
pub record Popen : Type 0 where
  pub argv : List String
  pub environ : Option Environ
  pub stdin : Stream
  pub stdout : Stream
  pub stderr : Stream
  pub start_new_session : Bool

-- `communicate` and `wait` give none where they raise `TimeoutExpired`; `communicate` gives the
-- status and what was read from the error pipe. `decode` is `bytes.decode` with `errors="replace"`.
pub record Machine (W : Type 0) : Type 0 where
  pub which : String → Exec W (Option String)
  pub getenv : String → W → Option String
  pub run : Command → Exec W Output
  pub popen : Popen → Exec W ℕ
  pub communicate : ℕ → ℕ → Exec W (Option (ReturnCode × List ℕ))
  pub wait : ℕ → Option ℕ → Exec W (Option ReturnCode)
  pub kill : ℕ → W → W
  pub close_stdout : ℕ → W → W
  pub read_stderr : ℕ → Exec W (List ℕ)
  pub decode : List ℕ → String
  pub encode : String → Result (List ℕ)
  pub monotonic : W → ℕ
  pub sleep : ℕ → W → W

-- `separator.join(parts)`
unfoldable pub join : String → List String → String
join separator [] = ""
join separator (s ∷ []) = s
join separator (s ∷ t ∷ parts) = s <> (separator <> join separator (t ∷ parts))
