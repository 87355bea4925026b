-- ===== src/Docker.antt =====
-- api/docker_ops.py: the host ports and the paths of a session.
pub mod Render
pub mod Ports
pub mod Compose
pub mod Inspect
pub mod Health
use sansbox_sql.Base.{String, ◌<>◌, ℕ, List, [], ◌∷◌, contains, nat_eq, if◌then◌else◌}
use sansbox_sql.Errors.{Result, ok, err, docker_ops_error}
use sansbox_sql.Config.{Settings, port_range}

-- The loop over `settings.port_range`.
first_free : List ℕ → List ℕ → Result ℕ
unfolding contains
first_free used [] = err (docker_ops_error "no free ports in configured range")
first_free used (p ∷ ps) = if contains p used then first_free used ps else ok p

unfoldable pub allocate_port : List ℕ → Settings → Result ℕ
unfolding first_free port_range
allocate_port used settings = first_free used (port_range settings)

pub record SessionPaths : Type 0 where
  pub session_dir : String
  pub compose_path : String
  pub cnf_path : String
  pub tls_dir : String
  pub log_dir : String

-- `a / b` for a relative `b`
infixl 65 ◌/◌
abbrev pub ◌/◌ : String → String → String
a / b = a <> ("/" <> b)

-- `make_session_paths`, without the directories that it makes.
unfoldable pub session_paths : String → String → String → Settings → SessionPaths
session_paths sid ticket date_str settings =
    let compose_dir = settings.sandbox_compose_dir / sid in
    record {
      session_dir = compose_dir;
      compose_path = compose_dir / "docker-compose.yml";
      cnf_path = compose_dir / "mysqld.cnf";
      tls_dir = settings.sandbox_tls_dir / sid;
      log_dir = settings.sandbox_log_dir / (ticket <> ("-" <> date_str)) / sid;
    }
