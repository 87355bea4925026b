-- ===== src/Tests/Calls.antt =====
-- Concrete callables of the service.
use sansbox_sql.Base.{
  String, ℕ, true, none, [], ◌∷◌, ◌==◌, string_eq, nat_eq, ◌≡◌, if◌then◌else◌, arith,
}
use sansbox_sql.Errors.{Exc, docker_ops_error, ok, err, is_exception}
use sansbox_sql.Exec.{Exec, pure}
use sansbox_sql.Docker.{session_paths}
use sansbox_sql.Service.{World, Callables}
use sansbox_sql.Service.Calls.{CreateCallables}
use sansbox_sql.Tests.Data.{settings, table}

-- The environment is the time.
abbrev pub Act : Type 0 → Type 0
Act A = Exec (World ℕ) A

abbrev pub start : World ℕ
start = record { table = table; env = 1050 }

-- A teardown fails for the session "open" alone.
abbrev pub down : String → Act (Unit {0})
down path w = (if path == "open" then err (docker_ops_error "compose down failed") else ok tt, w)

abbrev pub callables : Callables ℕ
callables = record {
  settings = settings;
  time = λ w. (ok w.env, w);
  down_session = λ path volumes. down path;
  decrypt = λ blob. ok (record { dbs = []; root_password = "pw" });
  read_file = λ path. pure none;
}

abbrev pub create_callables : CreateCallables ℕ
create_callables = record {
  base = callables;
  uuid4 = pure "new";
  today = pure "2024-01-02";
  token_hex = pure "abcd";
  gen_password = pure "secret";
  gen_root_password = pure "root-secret";
  make_session_paths = λ sid ticket date. pure (session_paths sid ticket date settings);
  rmtree = λ path. pure tt;
  generate_session_tls = λ sid dir name host. pure tt;
  render_compose = λ args. pure tt;
  render_mysqld_cnf = λ paths. pure tt;
  up_session = λ path. pure tt;
  wait_healthy = λ name timeout. pure tt;
  wait_ready = λ endpoint timeout. pure tt;
  set_general_log = λ on endpoint. pure tt;
  open_tunnel = λ args. pure (record { local_port = 40000; local_host = "127.0.0.1" });
  close_tunnel = λ tunnel. pure tt;
  clone_db = λ args. pure tt;
  render_grant_sql = λ grants. pure "GRANT ALL";
  apply_grants = λ endpoint sqls. pure tt;
  encrypt = λ creds. pure (7 ∷ []);
}

pub down_ends :
    (path : String) (w : World ℕ) (e : Exc) → (down path w).0 ≡ err e → is_exception e ≡ true
unfolding is_exception
down_ends path w e h = ground arith
