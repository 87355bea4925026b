-- ===== src/Mysql/Wait.antt =====
-- api/mysql_ops.py: `wait_ready`. A ping that raises, such as one that hangs for its five seconds,
-- ends the wait with its exception.
pub mod Enough
pub mod Ready
use sansbox_sql.Base.{
  String, ◌<>◌, ℕ, ◌+◌, zero, suc, not, Option, none, some, List, [], ◌∷◌, ◌++◌, ltb, if◌then◌else◌,
}
use sansbox_sql.Errors.{ok, mysql_ops_error, other_error}
use sansbox_sql.Exec.{Exec, pure, raise, act, ◌>>=◌, ◌>>◌}
use sansbox_sql.Docker.Compose.{succeeded, decimal}
use sansbox_sql.Docker.Health.{strip, seconds}
use sansbox_sql.Process.{Output, Machine}
use sansbox_sql.Mysql.{Target, resolve_binary, server_args, ssl_args, run_with}

-- What the polling has come to: the server answers, the deadline has passed, or the fuel is used up.
pub data Pinged : Type 0 where
  answers : Pinged
  too_late : String → Pinged
  no_fuel : Pinged

module _ {W : Type 0} (m : Machine W) where
  -- `return` if the ping succeeded, or else the wait before the next one
  judge : Output → Exec W (Option String)
  unfolding succeeded strip
  judge proc =
      if succeeded proc.returncode
      then pure none
      else (act (m.sleep 1) >> pure (some (strip (m.decode proc.stderr))))

  -- One turn of the loop: none if the server answers.
  unfoldable pub ping_once : List String → String → Exec W (Option String)
  unfolding run_with judge
  ping_once cmd password = do proc ← run_with m cmd password none 5; judge proc

  unfoldable pub ping_again : Option String → (String → Exec W Pinged) → Exec W Pinged
  ping_again none again = pure answers
  ping_again (some last_err) again = again last_err

  -- `while time.monotonic() < deadline: …`
  unfoldable pub ping : ℕ → List String → String → ℕ → String → Exec W Pinged
  unfolding ping_once ping_again
  ping zero cmd password deadline last_err w = (ok no_fuel, w)
  ping (suc fuel) cmd password deadline last_err w =
      let next = ping fuel cmd password deadline in
      let again = (ping_once cmd password >>= λ after. ping_again after next) in
      if ltb (m.monotonic w) deadline then again w else (ok (too_late last_err), w)

  unfoldable pub conclude_ping : Target → ℕ → Pinged → Exec W (Unit {0})
  unfolding decimal
  conclude_ping t timeout_seconds answers = pure tt
  conclude_ping t timeout_seconds (too_late last_err) = raise (
      mysql_ops_error (
        "mysql at "
        <> (t.host
            <> (":"
                <> (decimal t.port
                    <> (" did not become ready in "
                        <> (decimal timeout_seconds <> ("s; last error: " <> last_err))))))))
  conclude_ping t timeout_seconds no_fuel = raise (other_error "out of fuel")

  -- The polling and its end, from the reading of the clock on
  unfoldable pub ping_until : Target → ℕ → List String → Exec W (Unit {0})
  unfolding ping conclude_ping
  ping_until t timeout_seconds cmd w =
      (ping (suc timeout_seconds) cmd t.password (m.monotonic w + seconds timeout_seconds)
            "no attempt yet"
          >>= conclude_ping t timeout_seconds)
        w

  -- Each turn sleeps for a second, so a turn for each second, and one more, is enough.
  unfoldable pub wait_ready : Target → ℕ → Exec W (Unit {0})
  unfolding resolve_binary server_args ssl_args ping_until
  wait_ready t timeout_seconds = do
    mysqladmin ← resolve_binary m "mysqladmin"
    ping_until t timeout_seconds (mysqladmin ∷ "ping" ∷ server_args t ++ ssl_args t.ssl_ca)
