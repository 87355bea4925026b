-- ===== src/Tests/Tunnels.antt =====
-- The theorems on the tunnel at a concrete host.
use sansbox_sql.Base.{
  ℕ, ◌+◌, ◌*◌, Bool, true, false, none, some, [], ◌∷◌, nat_eq, contains, ◌||◌, ◌≡◌, refl, arith,
}
use sansbox_sql.Errors.{ok}
use sansbox_sql.Exec.{Exec}
use sansbox_sql.Docker.Compose.{exited}
use sansbox_sql.Service.Calls.{Tunnel, TunnelArgs}
use sansbox_sql.Tunnel.{SshHost, wait_listening, serve}
use sansbox_sql.Tunnel.Listening.{Ticks, wait_listening-returns}
use sansbox_sql.Tunnel.Stopped.{Obeys, serve-Stopped}
use sansbox_sql.Tests.Commands.{Bench, at_start, machine}

-- The host where the forward listens, or not
abbrev ssh_host : Bool → SshHost Bench
ssh_host listens = record {
  machine = machine listens;
  exists = λ path w. (ok true, w);
  free_port = λ w. (ok 40001, w);
  connects = λ host port w. (ok listens, w);
  pause = λ n w. record w { now = w.now + n * 1000000 };
  poll = λ p w. (ok none, w);
  terminate = λ p w. (ok tt, w);
  open_log = λ path w. (ok tt, w);
  close_log = λ w. w;
}

abbrev args : TunnelArgs
args = record {
  ssh_host = "bastion";
  ssh_port = 22;
  ssh_user = "tunnel";
  ssh_key = "/key";
  remote_host = "prod";
  remote_port = 3306;
  bind_host = "127.0.0.1";
}

-- The body's value is the port.
abbrev body : Tunnel → Exec Bench ℕ
body t w = (ok t.local_port, w)

deaf-Ticks : Ticks (ssh_host false)
deaf-Ticks = record {
  connect_returns = λ host port w. (false, refl);
  connect_lasts = λ host port w. omega arith;
  pause_lasts = λ n w. omega arith;
}

wait_listening-returns_example :
    (b : Bool) × ((wait_listening (ssh_host false) "127.0.0.1" 40001 10 at_start).0 ≡ ok b)
wait_listening-returns_example =
    wait_listening-returns (ssh_host false) "127.0.0.1" 40001 deaf-Ticks 10 at_start

abbrev Stopped : ℕ → Bench → Type 0
Stopped p w = (contains p w.gone || contains p w.killed) ≡ true

deaf-Obeys : Obeys (ssh_host false) Stopped
unfolding contains
deaf-Obeys = record {
  poll_returns = λ p w. (none, refl);
  terminate_returns = λ p w. refl;
  wait_returns = λ p t w. (some (exited 1), refl);
  poll_ends = λ p w rc e. absurd cc;
  wait_ends = λ p t w rc e. ground arith;
  kill_stops = λ p w. ground arith;
  wait_keeps = λ p t w s. ground arith;
  log_keeps = λ p w s. s;
}

serve-Stopped_example : Stopped 7 (serve (ssh_host false) args body 7 40001 at_start).1
serve-Stopped_example =
    serve-Stopped (ssh_host false) Stopped deaf-Obeys args body deaf-Ticks 7 40001 at_start

abbrev closed : Bench
closed = record { now = 5; next = 8; killed = []; gone = 7 ∷ [] }
