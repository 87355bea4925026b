-- ===== src/Docker/Compose.antt =====
-- api/docker_ops.py: the commands that the module runs, and their failures. What a command does, and
-- the text that it prints, come from docker: `run` stands for `subprocess.run` with
-- `capture_output`, and may raise. The outputs are texts here, decoded.
use Prim.Native.String.{String}
use sansbox_sql.Base.{
  ◌<>◌, ℕ, ◌-◌, ◌/◌, ◌%◌, zero, suc, Bool, false, not, List, [], ◌∷◌, ◌==◌, nat_eq, ltb,
  if◌then◌else◌,
}
use sansbox_sql.Errors.{docker_ops_error}
use sansbox_sql.Exec.{Exec, pure, raise, ◌>>=◌}

-- `returncode`: the exit status, or minus the number of the signal that ended the process.
pub data ReturnCode : Type 0 where
  exited killed : ℕ → ReturnCode

pub record Completed : Type 0 where
  pub returncode : ReturnCode
  pub stdout : String
  pub stderr : String

unfoldable pub succeeded : ReturnCode → Bool
succeeded (exited n) = n == 0
succeeded (killed n) = false

-- The processes, the sockets and the clock; `monotonic` counts nanoseconds. `connects` tells
-- whether `socket.create_connection` succeeds; it catches the `OSError` itself.
pub record Host (W : Type 0) : Type 0 where
  pub run : List String → ℕ → Exec W Completed
  pub connects : String → ℕ → ℕ → W → Bool × W
  pub monotonic : W → ℕ
  pub sleep : ℕ → W → W

digit : ℕ → String
digit n =
    if n == 0
    then "0"
    else if n == 1
    then "1"
    else if n == 2
    then "2"
    else if n == 3
    then "3"
    else if n == 4
    then "4"
    else if n == 5
    then "5"
    else if n == 6
    then "6"
    else if n == 7
    then "7"
    else if n == 8
    then "8"
    else "9"

decimal_digits : ℕ → ℕ → String
unfolding digit
decimal_digits zero n = ""
decimal_digits (suc fuel) n =
    let rest = decimal_digits fuel (n / 10) in if ltb n 10 then digit n else rest <> digit (n % 10)

-- `str(n)`; a number has at most as many digits as one more than itself.
unfoldable pub decimal : ℕ → String
unfolding decimal_digits
decimal n = decimal_digits (suc n) n

unfoldable pub rc_text : ReturnCode → String
unfolding decimal
rc_text (exited n) = decimal n
rc_text (killed n) = "-" <> decimal n

-- `text[:n]`
unfoldable pub clip : ℕ → String → String
clip n String.[] = ""
clip n (String.◌∷◌ c s) = let rest = clip (n - 1) s in if n == 0 then "" else String.◌∷◌ c rest

module _ {W : Type 0} (d : Host W) where
  unfoldable pub compose : String → List String → ℕ → Exec W Completed
  compose compose_path args timeout =
      d.run ("docker" ∷ "compose" ∷ "-f" ∷ compose_path ∷ args) timeout

  -- `if proc.returncode != 0: raise DockerOpsError(…)`
  require_success : String → Completed → Exec W (Unit {0})
  unfolding succeeded rc_text clip
  require_success what proc =
      if not (succeeded proc.returncode)
      then raise (
          docker_ops_error (
            "docker compose "
            <> (what
                <> (" failed (rc="
                    <> (rc_text proc.returncode <> ("): " <> clip 2000 proc.stderr))))))
      else pure tt

  unfoldable pub up_session : String → ℕ → Exec W (Unit {0})
  unfolding compose require_success
  up_session compose_path timeout = do
    proc ← compose compose_path ("up" ∷ "-d" ∷ []) timeout
    require_success "up" proc

  unfoldable pub down_session : String → Bool → ℕ → Exec W (Unit {0})
  unfolding compose require_success
  down_session compose_path remove_volumes timeout = do
    proc ← compose compose_path (if remove_volumes then "down" ∷ "-v" ∷ [] else "down" ∷ []) timeout
    require_success "down" proc
