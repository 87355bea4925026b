-- ===== src/Docker/Health.antt =====
-- api/docker_ops.py: `wait_healthy` and the probes that it makes. `parse` stands for `json.loads`,
-- with none where it raises.
pub mod Turns
pub mod Ready
pub mod Enough
pub mod Probes
use Prim.Native.Char.{code}
use Prim.Native.String.{String}
use sansbox_sql.Base.{
  ◌<>◌, ℕ, ◌+◌, ◌-◌, ◌*◌, zero, suc, Bool, true, false, not, ◌&&◌, ◌||◌, Option, none, some, List,
  [], ◌∷◌, ◌==◌, nat_eq, string_eq, ltb, leb, if◌then◌else◌,
}
use sansbox_sql.Errors.{Result, ok, err, docker_ops_error, other_error}
use sansbox_sql.Exec.{Exec, pure, raise, ◌>>=◌, ◌>>◌}
use sansbox_sql.Docker.Compose.{Host, Completed, succeeded, decimal}
use sansbox_sql.Docker.Inspect.{Json, published}

is_space : ℕ → Bool
is_space c = c == 32 || (leb 9 c && leb c 13)

strip_end : String → String
unfolding is_space
strip_end String.[] = ""
strip_end (String.◌∷◌ c s) =
    let rest = strip_end s in if is_space (code c) && rest == "" then "" else String.◌∷◌ c rest

strip_start : String → String
unfolding is_space
strip_start String.[] = ""
strip_start (String.◌∷◌ c s) =
    let rest = strip_start s in if is_space (code c) then rest else String.◌∷◌ c s

-- `text.strip()`, for ASCII white space
unfoldable pub strip : String → String
unfolding strip_end strip_start
strip s = strip_end (strip_start s)

-- The text of `port={port}`
unfoldable pub port_text : Option ℕ → String
unfolding decimal
port_text none = "port=None"
port_text (some p) = "port=" <> decimal p

-- A number of seconds, in nanoseconds
abbrev pub seconds : ℕ → ℕ
seconds n = n * 1000000000

-- The two texts that the loop keeps for its message.
pub record Seen : Type 0 where
  pub last_status : String
  pub last_tcp : String

-- What the polling has come to: the container is ready, the deadline has passed, or the fuel is
-- used up.
pub data Polled : Type 0 where
  up : Polled
  timed_out : Seen → Polled
  out_of_fuel : Polled

module _ {W : Type 0} (d : Host W) (parse : String → Option Json) where
  parsed : Option Json → Option ℕ
  unfolding published
  parsed none = none
  parsed (some data') = published data'

  -- `_read_published_port`
  unfoldable pub read_published_port : String → Exec W (Option ℕ)
  unfolding parsed succeeded
  read_published_port container_name = do
    proc ← d.run ("docker" ∷ "inspect" ∷ container_name ∷ []) 5
    pure (if not (succeeded proc.returncode) then none else parsed (parse proc.stdout))

  -- `port and _tcp_open("127.0.0.1", port, timeout=2)`
  unfoldable pub probe : Option ℕ → Exec W Bool
  probe none w = (ok false, w)
  probe (some p) w =
      if p == 0
      then (ok false, w)
      else let (open_now, w') = d.connects "127.0.0.1" p 2 w in (ok open_now, w')

  probe_port : String → Exec W Bool
  unfolding read_published_port probe
  probe_port container_name = do port ← read_published_port container_name; probe port

  -- `if proc.returncode == 0: …`; whether the container is ready, and the last status.
  docker_says : String → String → Completed → Exec W (Bool × String)
  unfolding strip succeeded probe_port
  docker_says container_name last_status proc =
      if not (succeeded proc.returncode)
      then pure (false, last_status)
      else if not (strip proc.stdout == "healthy")
      then pure (false, strip proc.stdout)
      else do open_now ← probe_port container_name; pure (open_now, "healthy")

  -- `return` if the probe succeeded, or else the wait before the next turn
  sleep_unless : Bool → Option ℕ → String → Exec W (Option Seen)
  unfolding port_text
  sleep_unless true port status w = (ok none, w)
  sleep_unless false port status w =
      (ok (some (record { last_status = status; last_tcp = port_text port })), d.sleep 2 w)

  -- The second probe of a turn
  fallback : String → String → Exec W (Option Seen)
  unfolding sleep_unless read_published_port probe
  fallback container_name status = do
    port ← read_published_port container_name
    open_now ← probe port
    sleep_unless open_now port status

  fallback_unless : String → Bool × String → Exec W (Option Seen)
  unfolding fallback
  fallback_unless container_name (true, status) = pure none
  fallback_unless container_name (false, status) = fallback container_name status

  -- One turn of the loop: none if the container is ready.
  unfoldable pub turn : String → Seen → Exec W (Option Seen)
  unfolding docker_says fallback_unless
  turn container_name seen = do
    proc ←
        d.run ("docker" ∷ "inspect" ∷ "--format" ∷ "{{.State.Health.Status}}" ∷ container_name ∷ [])
          5
    said ← docker_says container_name seen.last_status proc
    fallback_unless container_name said

  -- What follows a turn.
  unfoldable pub continue_unless : Option Seen → (Seen → Exec W Polled) → Exec W Polled
  continue_unless none again = pure up
  continue_unless (some seen) again = again seen

  -- `while time.monotonic() < deadline: …`
  unfoldable pub poll : ℕ → String → ℕ → Seen → Exec W Polled
  unfolding turn continue_unless
  poll zero container_name deadline seen w = (ok out_of_fuel, w)
  poll (suc fuel) container_name deadline seen w =
      let next = poll fuel container_name deadline in
      let again = (turn container_name seen >>= λ after. continue_unless after next) in
      if ltb (d.monotonic w) deadline then again w else (ok (timed_out seen), w)

  -- The message of the `DockerOpsError`
  unfoldable pub not_ready : String → ℕ → Seen → String
  unfolding decimal
  not_ready container_name timeout_seconds seen =
      "container "
      <> (container_name
          <> (" did not become ready in "
              <> (decimal timeout_seconds
                  <> ("s; last docker status: "
                      <> (seen.last_status <> ("; tcp probe: " <> seen.last_tcp))))))

  conclude : String → ℕ → Polled → Exec W (Unit {0})
  unfolding not_ready
  conclude container_name timeout_seconds up = pure tt
  conclude container_name timeout_seconds (timed_out seen) =
      raise (docker_ops_error (not_ready container_name timeout_seconds seen))
  conclude container_name timeout_seconds out_of_fuel = raise (other_error "out of fuel")

  -- `wait_healthy`; each turn sleeps for two seconds, so a turn for each second is enough.
  unfoldable pub wait_healthy : String → ℕ → Exec W (Unit {0})
  unfolding poll conclude
  wait_healthy container_name timeout_seconds w =
      (poll (suc timeout_seconds) container_name (d.monotonic w + seconds timeout_seconds)
            (record { last_status = "unknown"; last_tcp = "unknown" })
          >>= conclude container_name timeout_seconds)
        w
