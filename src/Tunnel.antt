-- ===== src/Tunnel.antt =====
-- api/ssh_tunnel.py: the forward that an `ssh` process keeps up while the body of a `with` runs.
pub mod Listening
pub mod Stopped
pub mod Heard
use sansbox_sql.Base.{
  String, ◌<>◌, ℕ, ◌+◌, ◌*◌, zero, suc, Bool, true, false, not, Option, none, some, List, [], ◌∷◌,
  ltb, if◌then◌else◌, ◌==◌, string_eq,
}
use sansbox_sql.Errors.{Exc, Result, ok, err, tunnel_error, other_error}
use sansbox_sql.Exec.{Exec, pure, raise, act, best_effort, except_exception, ◌>>=◌, ◌>>◌}
use sansbox_sql.Docker.{◌/◌}
use sansbox_sql.Docker.Compose.{ReturnCode, decimal, rc_text}
use sansbox_sql.Service.Calls.{Tunnel, TunnelArgs}
use sansbox_sql.Process.{Machine, devnull, file}

-- What the module uses beside `subprocess`: files, sockets, `Popen.poll` and `Popen.terminate`.
-- `free_port` binds port 0 of 127.0.0.1, reads the number and closes the socket; `connects` is one
-- try with 0.3 seconds, which an `OSError` of `connect` makes false, and which raises where no socket
-- can be made; `pause` counts milliseconds; `open_log`
-- makes the directory and opens the file.
pub record SshHost (W : Type 0) : Type 0 where
  pub machine : Machine W
  pub open machine use *
  pub exists : String → Exec W Bool
  pub free_port : Exec W ℕ
  pub connects : String → ℕ → Exec W Bool
  pub pause : ℕ → W → W
  pub poll : ℕ → Exec W (Option ReturnCode)
  pub terminate : ℕ → Exec W (Unit {0})
  pub open_log : String → Exec W (Unit {0})
  pub close_log : W → W

abbrev stderr_log : String
stderr_log = "/var/log/sandboxes/ssh-tunnel.err.log"

-- `a or b`, for texts that may be missing
abbrev or_else : Option String → String → String
or_else none other = other
or_else (some s) other = if s == "" then other else s

-- The text of `{bind_host}:{local_port}` and what it is forwarded to
forward_text : TunnelArgs → ℕ → String → String
unfolding decimal
forward_text a local_port arrow =
    a.bind_host
    <> (":" <> (decimal local_port <> (arrow <> (a.remote_host <> (":" <> decimal a.remote_port)))))

unfoldable pub ssh_cmd : TunnelArgs → ℕ → String → List String
unfolding decimal forward_text
ssh_cmd a local_port known_hosts =
    "ssh"
    ∷ "-N"
    ∷ "-T"
    ∷ "-x"
    ∷ "-a"
    ∷ "-o"
    ∷ "BatchMode=yes"
    ∷ "-o"
    ∷ "StrictHostKeyChecking=yes"
    ∷ "-o"
    ∷ ("UserKnownHostsFile=" <> known_hosts)
    ∷ "-o"
    ∷ "ExitOnForwardFailure=yes"
    ∷ "-o"
    ∷ "ServerAliveInterval=15"
    ∷ "-o"
    ∷ "ServerAliveCountMax=3"
    ∷ "-o"
    ∷ "TCPKeepAlive=yes"
    ∷ "-i"
    ∷ a.ssh_key
    ∷ "-p"
    ∷ decimal a.ssh_port
    ∷ "-L"
    ∷ forward_text a local_port ":"
    ∷ (a.ssh_user <> ("@" <> a.ssh_host))
    ∷ []

-- The text of the error where the forward did not become ready
unfoldable pub not_listening : TunnelArgs → ℕ → String
unfolding decimal forward_text
not_listening a local_port =
    "ssh -L forward did not become ready within 10s (host="
    <> (a.ssh_host
        <> (":"
            <> (decimal a.ssh_port
                <> (" user="
                    <> (a.ssh_user
                        <> (" forward="
                            <> (forward_text a local_port "->" <> ("); see " <> stderr_log))))))))

module _ {W : Type 0} (h : SshHost W) where
  -- `proc.wait(timeout=2)`, whose `TimeoutExpired` is not caught there
  last_wait : Option ReturnCode → Exec W (Unit {0})
  last_wait none = raise (other_error "TimeoutExpired")
  last_wait (some rc) = pure tt

  kill_unless : ℕ → Option ReturnCode → Exec W (Unit {0})
  unfolding last_wait
  kill_unless proc none = do act (h.kill proc); o ← h.wait proc (some 2); last_wait o
  kill_unless proc (some rc) = pure tt

  -- The body of the `try`
  unfoldable pub stop : ℕ → Exec W (Unit {0})
  unfolding kill_unless
  stop proc = do h.terminate proc; o ← h.wait proc (some 3); kill_unless proc o

  stop_running : ℕ → Option ReturnCode → Exec W (Unit {0})
  unfolding stop
  stop_running proc none = best_effort (stop proc)
  stop_running proc (some rc) = pure tt

  -- `Tunnel.close`
  unfoldable pub close : ℕ → Exec W (Unit {0})
  unfolding stop_running
  close proc = do o ← h.poll proc; stop_running proc o

  -- A try that fails is followed by a pause.
  after_connect : Result Bool → Exec W Bool → Exec W Bool
  after_connect (err e) next v = (err e, v)
  after_connect (ok true) next v = (ok true, v)
  after_connect (ok false) next v = next (h.pause 100 v)

  -- `while time.monotonic() < deadline: …`
  unfoldable pub listen : ℕ → String → ℕ → ℕ → Exec W Bool
  unfolding after_connect
  listen zero host port deadline w = (err (other_error "out of fuel"), w)
  listen (suc fuel) host port deadline w =
      let next = listen fuel host port deadline in
      let (r, v) = h.connects host port w in
      if ltb (h.monotonic w) deadline then after_connect r next v else (ok false, w)

  -- `_wait_listening`; a turn that does not end the loop pauses for a tenth of a second.
  unfoldable pub wait_listening : String → ℕ → ℕ → Exec W Bool
  unfolding listen
  wait_listening host port timeout w =
      listen (suc (timeout * 10)) host port (h.monotonic w + timeout * 1000000000) w

  fallback_hosts : Bool → Exec W String
  fallback_hosts true = pure "/home/lytadmin/.ssh/known_hosts"
  fallback_hosts false = pure "/dev/null"

  known_hosts_at : String → Bool → Exec W String
  unfolding fallback_hosts
  known_hosts_at candidate true = pure candidate
  known_hosts_at candidate false = do
    there ← h.exists "/home/lytadmin/.ssh/known_hosts"
    fallback_hosts there

  -- `_known_hosts_file`
  unfoldable pub known_hosts_file : String → Exec W String
  unfolding known_hosts_at
  known_hosts_file ssh_user w =
      let sudo_user = or_else (h.getenv "SUDO_USER" w) (or_else (h.getenv "USER" w) ssh_user) in
      let candidate = ((("/home" / sudo_user) / ".ssh") / "known_hosts") in
      (do there ← h.exists candidate; known_hosts_at candidate there) w

  module _ {A : Type 0} (a : TunnelArgs) (body : Tunnel → Exec W A) where
    kill_after : ℕ → Option ReturnCode → Exec W (Unit {0})
    kill_after proc none = act (h.kill proc)
    kill_after proc (some rc) = pure tt

    -- The forward did not become ready.
    unfoldable pub give_up : ℕ → ℕ → Exec W A
    unfolding kill_after not_listening
    give_up proc local_port = do
      h.terminate proc
      o ← h.wait proc (some 3)
      kill_after proc o
      raise (tunnel_error (not_listening a local_port))

    -- `try: yield tunnel finally: …`
    unfoldable pub lend : ℕ → ℕ → Exec W A
    unfolding close
    lend proc local_port w =
        let (r, v) = body (record { local_port = local_port; local_host = a.bind_host }) w in
        (do close proc; act h.close_log; (λ u. (r, u))) v

    unfoldable pub lend_unless_dead : ℕ → ℕ → Option ReturnCode → Exec W A
    unfolding lend rc_text
    lend_unless_dead proc local_port none = lend proc local_port
    lend_unless_dead proc local_port (some rc) = raise (
        tunnel_error
          ("ssh -L exited prematurely (rc=" <> (rc_text rc <> ("); see " <> stderr_log))))

    unfoldable pub lend_if : ℕ → ℕ → Bool → Exec W A
    unfolding lend_unless_dead give_up
    lend_if proc local_port false = give_up proc local_port
    lend_if proc local_port true = do o ← h.poll proc; lend_unless_dead proc local_port o

    -- The outer `try`, where the process is running
    unfoldable pub serve : ℕ → ℕ → Exec W A
    unfolding lend_if wait_listening
    serve proc local_port =
        except_exception
          (do heard ← wait_listening a.bind_host local_port 10; lend_if proc local_port heard)
          (λ e. do best_effort (act h.close_log); raise e)

    start_ssh : Bool → Exec W A
    unfolding known_hosts_file ssh_cmd serve
    start_ssh false = raise (tunnel_error ("ssh key not found: " <> a.ssh_key))
    start_ssh true = do
      local_port ← h.free_port
      known_hosts ← known_hosts_file a.ssh_user
      h.open_log stderr_log
      proc ← h.popen (record {
        argv = ssh_cmd a local_port known_hosts;
        environ = none;
        stdin = devnull;
        stdout = devnull;
        stderr = file stderr_log;
        start_new_session = true;
      })
      serve proc local_port

    -- `with open_tunnel(…) as tunnel: body`
    unfoldable pub open_tunnel : Exec W A
    unfolding start_ssh
    open_tunnel = do there ← h.exists a.ssh_key; start_ssh there
