-- ===== src/Service/Calls.antt =====
-- The callables that `SessionService.create` is given, their arguments, and the placeholder row.
use sansbox_sql.Base.{String, ◌<>◌, ℕ, ◌+◌, Bool, some, List, [], ◌∷◌}
use sansbox_sql.Exec.{Exec}
use sansbox_sql.Config.{Settings}
use sansbox_sql.Docker.{SessionPaths}
use sansbox_sql.Models.{DbSpec}
use sansbox_sql.Session.{starting}
use sansbox_sql.Session.Draft.{Draft}
use sansbox_sql.Service.{World, Callables, DatabaseInfo, Creds}
use sansbox_sql.Service.Json.{dump_specs}

-- host, port, user, password and `ssl_ca` of a call into the session's MySQL
pub record Endpoint : Type 0 where
  pub host : String
  pub port : ℕ
  pub user : String
  pub password : String
  pub ssl_ca : String

pub record ComposeArgs : Type 0 where
  pub paths : SessionPaths
  pub sid : String
  pub container_name : String
  pub mysql_image : String
  pub bind_host : String
  pub host_port : ℕ
  pub root_password : String

pub record TunnelArgs : Type 0 where
  pub ssh_host : String
  pub ssh_port : ℕ
  pub ssh_user : String
  pub ssh_key : String
  pub remote_host : String
  pub remote_port : ℕ
  pub bind_host : String

pub record Tunnel : Type 0 where
  pub local_port : ℕ
  pub local_host : String

pub record CloneArgs : Type 0 where
  pub tunnel : Tunnel
  pub source_db : String
  pub source_user : String
  pub source_password : String
  pub target : Endpoint
  pub target_db : String
  pub host : String
  pub tables : List String

pub record Grant : Type 0 where
  pub db : String
  pub user : String
  pub password : String

-- The other callables of the service, the random sources, and `shutil.rmtree` with
-- `ignore_errors`; `encrypt` is `encrypt_creds` with the service's key.
pub record CreateCallables (E : Type 0) : Type 0 where
  pub base : Callables E
  pub open base use *
  pub uuid4 : Exec (World E) String
  pub today : Exec (World E) String
  pub token_hex : Exec (World E) String
  pub gen_password : Exec (World E) String
  pub gen_root_password : Exec (World E) String
  pub make_session_paths : String → String → String → Exec (World E) SessionPaths
  pub rmtree : String → Exec (World E) (Unit {0})
  pub generate_session_tls : String → String → String → String → Exec (World E) (Unit {0})
  pub render_compose : ComposeArgs → Exec (World E) (Unit {0})
  pub render_mysqld_cnf : SessionPaths → Exec (World E) (Unit {0})
  pub up_session : String → Exec (World E) (Unit {0})
  pub wait_healthy : String → ℕ → Exec (World E) (Unit {0})
  pub wait_ready : Endpoint → ℕ → Exec (World E) (Unit {0})
  pub set_general_log : Bool → Endpoint → Exec (World E) (Unit {0})
  pub open_tunnel : TunnelArgs → Exec (World E) Tunnel
  pub close_tunnel : Tunnel → Exec (World E) (Unit {0})
  pub clone_db : CloneArgs → Exec (World E) (Unit {0})
  pub render_grant_sql : List Grant → Exec (World E) String
  pub apply_grants : Endpoint → List String → Exec (World E) (Unit {0})
  pub encrypt : Creds → Exec (World E) (List ℕ)

pub record Created : Type 0 where
  pub session_id : String
  pub api_host : String
  pub mysql_host : String
  pub mysql_port : ℕ
  pub expires_at : ℕ
  pub max_extended_until : ℕ
  pub ca_url : String
  pub databases : List DatabaseInfo

-- `_factory`: the placeholder row. `ttl_extended` is no required column, and the INSERT leaves it to
-- the default, which is the 0 that the dict has too.
unfoldable pub factory :
    Settings → String → String → String → SessionPaths → List DbSpec → ℕ → ℕ → Draft
factory settings sid ticket date_str paths dbs now host_port = record {
  id = some sid;
  ticket = some ticket;
  date = some date_str;
  dbs_json = some (dump_specs dbs);
  creds_enc = some (0 ∷ []);
  host = some settings.sandbox_public_host;
  mysql_host = some settings.sandbox_mysql_host;
  port = some host_port;
  container_name = some ("sandbox-" <> sid);
  compose_path = some paths.compose_path;
  tls_dir = some paths.tls_dir;
  log_dir = some paths.log_dir;
  created_at = some now;
  expires_at = some (now + 3600);
  max_extended_until = some now;
  status = some starting;
}
