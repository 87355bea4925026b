-- ===== src/Service/Create.antt =====
-- `SessionService.create`, `_do_create` and `_cleanup_failed_create`.
pub mod Failed
pub mod Won
use sansbox_sql.Base.{String, ◌<>◌, ℕ, ◌+◌, Bool, true, false, some, List, [], ◌∷◌, if◌then◌else◌}
use sansbox_sql.Errors.{
  port, internal, Exc, docker_ops_error, create_session_error, exc_text, Result, ok, err,
}
use sansbox_sql.Exec.{Exec, pure, raise, lift, best_effort, except_base, ◌>>=◌, ◌>>◌}
use sansbox_sql.Docker.{SessionPaths, allocate_port}
use sansbox_sql.Models.{DbSpec}
use sansbox_sql.Session.{error}
use sansbox_sql.Session.Draft.{Draft, column}
use sansbox_sql.Store
use sansbox_sql.Service.{World, DatabaseInfo, store, stored, ca_url}
use sansbox_sql.Service.Failure.{classify_failure}
use sansbox_sql.Service.Calls.{CreateCallables, Created, factory}
use sansbox_sql.Service.Steps.{Accounts, Run, draw_accounts, start_private, fill, start_public}

module _ {E : Type 0} (c : CreateCallables E) where
  open c use {settings}

  created : Run → ℕ → List DatabaseInfo → Created
  created r created_at db_creds = record {
    session_id = r.sid;
    api_host = settings.sandbox_public_host;
    mysql_host = settings.sandbox_mysql_host;
    mysql_port = r.host_port;
    expires_at = created_at + settings.sandbox_ttl_default_seconds;
    max_extended_until = created_at + settings.sandbox_ttl_max_seconds;
    ca_url = ca_url settings.sandbox_public_host r.sid;
    databases = db_creds;
  }

  -- What follows `update_to_ready`: the response, or the teardown where the row was taken away.
  won_or_torn_down : Run → ℕ → List DatabaseInfo → Bool → Exec (World E) Created
  unfolding created
  won_or_torn_down r created_at db_creds true = pure (created r created_at db_creds)
  won_or_torn_down r created_at db_creds false = do
    best_effort (c.down_session r.paths.compose_path (some true))
    raise (create_session_error internal r.sid "session row vanished during create")

  settle : Run → ℕ → List DatabaseInfo → List ℕ → Exec (World E) Created
  unfolding won_or_torn_down
  settle r created_at db_creds blob = do
    won ← stored (
        Store.update_to_ready r.sid blob (created_at + settings.sandbox_ttl_default_seconds)
          (created_at + settings.sandbox_ttl_max_seconds))
    won_or_torn_down r created_at db_creds won

  publish : Run → ℕ → List DatabaseInfo → Exec (World E) Created
  unfolding settle
  publish r created_at db_creds = do
    blob ← c.encrypt (record { dbs = db_creds; root_password = r.root_password })
    settle r created_at db_creds blob

  -- What `_do_create` does once the accounts are drawn.
  provision : Run → List DbSpec → ℕ → Accounts → Exec (World E) Created
  unfolding publish
  provision r dbs created_at accounts = do
    start_private c r
    fill c r dbs accounts.grants
    start_public c r
    publish r created_at accounts.db_creds

  run_of : String → SessionPaths → ℕ → String → String → Run
  run_of sid paths host_port container_name root_password = record {
    sid = sid;
    paths = paths;
    host_port = host_port;
    container_name = container_name;
    root_password = root_password;
  }

  unfoldable pub do_create :
      String → List DbSpec → SessionPaths → ℕ → String → ℕ → Exec (World E) Created
  unfolding provision run_of
  do_create sid dbs paths host_port container_name created_at = do
    accounts ← draw_accounts c dbs
    root_password ← c.gen_root_password
    provision (run_of sid paths host_port container_name root_password) dbs created_at accounts

  unfoldable pub cleanup_failed_create : SessionPaths → Exec (World E) (Unit {0})
  cleanup_failed_create paths = do
    best_effort (c.down_session paths.compose_path (some true))
    best_effort (c.rmtree paths.session_dir >> c.rmtree paths.tls_dir)

  -- `if isinstance(exc, CreateSessionError): raise`, or the exception that says what failed
  unfoldable pub reported : String → Exc → Exc
  unfolding classify_failure
  reported sid (create_session_error category sid' message) =
      create_session_error category sid' message
  reported sid e =
      let (category, message) = classify_failure e in create_session_error category sid message

  unfoldable pub on_failure : String → SessionPaths → Exc → Exec (World E) Created
  unfolding cleanup_failed_create reported
  on_failure sid paths e = do
    cleanup_failed_create paths
    best_effort (store (Store.set_status sid error))
    raise (reported sid e)

  -- `except DockerOpsError` around the reservation
  on_no_port : String → SessionPaths → Exc → Exec (World E) Draft
  on_no_port sid paths (docker_ops_error m) = do
    c.rmtree paths.session_dir
    c.rmtree paths.tls_dir
    c.rmtree paths.log_dir
    raise (create_session_error port sid m)
  on_no_port sid paths e = raise e

  unfoldable pub create : String → List DbSpec → Exec (World E) Created
  unfolding on_no_port
  create ticket dbs = do
    sid ← c.uuid4
    now ← c.time
    date_str ← c.today
    paths ← c.make_session_paths sid ticket date_str
    placeholder ←
        except_base
          (store (
            Store.reserve_session (factory settings sid ticket date_str paths dbs now)
              (λ used. allocate_port used settings)))
          (on_no_port sid paths)
    host_port ← lift (column placeholder.port "port")
    container_name ← lift (column placeholder.container_name "container_name")
    except_base (do_create sid dbs paths host_port container_name now) (on_failure sid paths)
