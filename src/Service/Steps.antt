-- ===== src/Service/Steps.antt =====
-- The parts of `SessionService._do_create`, in its order.
use sansbox_sql.Base.{String, ◌<>◌, ℕ, true, false, Option, none, some, List, [], ◌∷◌}
use sansbox_sql.Exec.{Exec, pure, best_effort, continue, ◌>>=◌, ◌>>◌}
use sansbox_sql.Docker.{SessionPaths, ◌/◌}
use sansbox_sql.Models.{DbSpec, table_list}
use sansbox_sql.Service.{World, DatabaseInfo}
use sansbox_sql.Service.Calls.{Endpoint, ComposeArgs, TunnelArgs, Tunnel, Grant, CreateCallables}

-- `spec.table_list or ()`
abbrev or_empty : Option (List String) → List String
or_empty none = []
or_empty (some names) = names

-- The user and the password of each database, and the entries of the GRANT template.
pub record Accounts : Type 0 where
  pub db_creds : List DatabaseInfo
  pub grants : List Grant

-- What the steps of one `_do_create` share.
pub record Run : Type 0 where
  pub sid : String
  pub paths : SessionPaths
  pub host_port : ℕ
  pub container_name : String
  pub root_password : String

unfoldable pub endpoint : Run → Endpoint
endpoint r = record {
  host = "127.0.0.1";
  port = r.host_port;
  user = "root";
  password = r.root_password;
  ssl_ca = r.paths.tls_dir / "ca.pem";
}

module _ {E : Type 0} (c : CreateCallables E) where
  open c use {settings}

  -- The loop over `dbs` that draws the accounts.
  unfoldable pub draw_accounts : List DbSpec → Exec (World E) Accounts
  draw_accounts [] = pure (record { db_creds = []; grants = [] })
  draw_accounts (spec ∷ specs) = do
    hex ← c.token_hex
    password ← c.gen_password
    rest ← draw_accounts specs
    let user = "u_" <> (spec.name <> ("_" <> hex))
    pure (record {
      db_creds =
          record {
            name = spec.name;
            user = user;
            password = password;
            tables = table_list spec.tables;
          }
          ∷ rest.db_creds;
      grants = record { db = spec.name; user = user; password = password } ∷ rest.grants;
    })

  compose_file : Run → String → ComposeArgs
  compose_file r bind_host = record {
    paths = r.paths;
    sid = r.sid;
    container_name = r.container_name;
    mysql_image = settings.sandbox_mysql_image;
    bind_host = bind_host;
    host_port = r.host_port;
    root_password = r.root_password;
  }

  tunnel_args : TunnelArgs
  tunnel_args = record {
    ssh_host = settings.prod_ssh_host;
    ssh_port = settings.prod_ssh_port;
    ssh_user = settings.prod_ssh_user;
    ssh_key = settings.prod_ssh_key;
    remote_host = settings.prod_mysql_host;
    remote_port = settings.prod_mysql_port;
    bind_host = settings.sandbox_tunnel_bind_host;
  }

  -- `with self.open_tunnel(…) as tunnel:`; the tunnel is closed however the body ends,
  -- and what its closing raises takes the place of the body's end.
  with_tunnel : (Tunnel → Exec (World E) (Unit {0})) → Exec (World E) (Unit {0})
  with_tunnel body w =
      let (opened, w₁) = c.open_tunnel tunnel_args w in
      continue opened (λ t w₂. let (r, w₃) = body t w₂ in (c.close_tunnel t >>= λ _ w₄. (r, w₄)) w₃)
        w₁

  clone_all : Run → Tunnel → List DbSpec → Exec (World E) (Unit {0})
  clone_all r tunnel [] = pure tt
  clone_all r tunnel (spec ∷ specs) = do
    c.clone_db (record {
      tunnel = tunnel;
      source_db = spec.name;
      source_user = settings.prod_mysql_user;
      source_password = settings.prod_mysql_password;
      target = endpoint r;
      target_db = spec.name;
      host = tunnel.local_host;
      tables = or_empty (table_list spec.tables);
    })
    clone_all r tunnel specs

  -- From the TLS material to the container behind its private port.
  unfoldable pub start_private : Run → Exec (World E) (Unit {0})
  unfolding endpoint compose_file
  start_private r = do
    c.generate_session_tls r.sid r.paths.tls_dir r.container_name settings.sandbox_mysql_host
    c.render_compose (compose_file r "127.0.0.1")
    c.render_mysqld_cnf r.paths
    c.up_session r.paths.compose_path
    c.wait_healthy r.container_name 600
    c.wait_ready (endpoint r) 60

  -- The clones between the two flips of the general log, and the grants.
  unfoldable pub fill : Run → List DbSpec → List Grant → Exec (World E) (Unit {0})
  unfolding with_tunnel tunnel_args clone_all endpoint
  fill r dbs grants = do
    best_effort (c.set_general_log false (endpoint r))
    with_tunnel (λ tunnel. clone_all r tunnel dbs)
    best_effort (c.set_general_log true (endpoint r))
    sql ← c.render_grant_sql grants
    c.apply_grants (endpoint r) (sql ∷ [])

  -- The container behind its public port.
  unfoldable pub start_public : Run → Exec (World E) (Unit {0})
  unfolding compose_file
  start_public r = do
    c.render_compose (compose_file r "0.0.0.0")
    c.down_session r.paths.compose_path (some false)
    c.up_session r.paths.compose_path
    c.wait_healthy r.container_name 300
