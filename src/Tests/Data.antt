-- ===== src/Tests/Data.antt =====
-- The settings, rows and tables of the tests.
use sansbox_sql.Base.{String, ℕ, ◌+◌, none, [], ◌∷◌, true}
use sansbox_sql.Config.{Settings}
use sansbox_sql.Session.{Session, Status, starting, ready, error}
use sansbox_sql.Store.{Table}

abbrev pub settings : Settings
settings = record {
  sandbox_api_key = "key";
  sandbox_webhook_secret = "hook";
  sandbox_cf_access_aud = none;
  sandbox_cf_access_certs_url = none;
  sandbox_fernet_key = "fernet";
  sandbox_state_db = "/state.db";
  sandbox_compose_dir = "/compose";
  sandbox_tls_dir = "/tls";
  sandbox_log_dir = "/log";
  sandbox_public_host = "api.example.com";
  sandbox_mysql_host = "db.example.com";
  sandbox_port_range_start = 20001;
  sandbox_port_range_end = 20003;
  sandbox_tunnel_bind_host = "127.0.0.1";
  sandbox_working_dir = "/work";
  prod_ssh_host = "bastion";
  prod_ssh_user = "tunnel";
  prod_ssh_key = "/key";
  prod_ssh_port = 22;
  prod_mysql_host = "prod";
  prod_mysql_port = 3306;
  prod_mysql_user = "dump";
  prod_mysql_password = "pw";
  sandbox_mysql_image = "mysql:8";
  sandbox_ttl_min_seconds = 60;
  sandbox_ttl_default_seconds = 100;
  sandbox_ttl_max_seconds = 300;
  sandbox_ttl_reset_add_seconds = 150;
  sandbox_reaper_interval_seconds = 60;
  sandbox_test_mode = true;
}

abbrev pub session : String → ℕ → Status → ℕ → Session
session sid port status created_at = record {
  id = sid;
  ticket = "T-1";
  date = "2024-01-01";
  dbs_json = "[]";
  creds_enc = 0 ∷ [];
  host = "api.example.com";
  mysql_host = "db.example.com";
  port = port;
  container_name = "sandbox";
  compose_path = sid;
  tls_dir = "/tls";
  log_dir = "/log";
  created_at = created_at;
  expires_at = created_at + 100;
  max_extended_until = created_at + 300;
  ttl_extended = 0;
  status = status;
}

abbrev pub fresh_row : Session
fresh_row = session "fresh" 20001 ready 1000

abbrev pub old_row : Session
old_row = session "old" 20002 ready 10

abbrev pub open_row : Session
open_row = session "open" 20003 starting 20

abbrev pub broken_row : Session
broken_row = session "broken" 20002 error 30

abbrev pub table : Table
table = fresh_row ∷ old_row ∷ open_row ∷ broken_row ∷ []
