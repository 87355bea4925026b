-- ===== src/Mysql.antt =====
-- api/mysql_ops.py: the MySQL commands that run to their end. `Clone` has the one that streams a dump
-- into the sandbox, `Wait` the one that polls the server.
pub mod Clone
pub mod Wait
pub mod Secrets
use Prim.Native.String.{String}
use Prim.Native.Char.{Char, code}
use sansbox_sql.Base.{
  ◌<>◌, ℕ, Bool, not, Option, none, some, List, [], ◌∷◌, ◌++◌, map, if◌then◌else◌, nat_eq,
  string_eq, ◌==◌,
}
use sansbox_sql.Errors.{Exc, mysql_ops_error}
use sansbox_sql.Exec.{Exec, pure, raise, lift, gets, ◌>>=◌, ◌>>◌}
use sansbox_sql.Docker.Compose.{ReturnCode, succeeded, decimal, rc_text, clip}
use sansbox_sql.Service.Calls.{Tunnel}
use sansbox_sql.Process.{Environ, Output, Machine, join}

-- host, port, user, password and `ssl_ca` of a call into a MySQL server
pub record Target : Type 0 where
  pub host : String
  pub port : ℕ
  pub user : String
  pub password : String
  pub ssl_ca : Option String

-- The arguments of `dump_db`, but for the password the ones of `_mysqldump_cmd`
pub record Dump : Type 0 where
  pub tunnel : Tunnel
  pub db : String
  pub user : String
  pub password : String
  pub host : Option String
  pub tables : List String
  pub extra_args : List String

abbrev or_default : Option String → String → String
or_default none default = default
or_default (some s) default = s

password_entry : Option String → Environ
password_entry none = []
password_entry (some password) = ("MYSQL_PWD", password) ∷ []

-- the options that name the server
unfoldable pub server_args : Target → List String
unfolding decimal
server_args t = ("--host=" <> t.host) ∷ ("--port=" <> decimal t.port) ∷ ("--user=" <> t.user) ∷ []

unfoldable pub ssl_args : Option String → List String
ssl_args none = []
ssl_args (some ca) = "--ssl-mode=REQUIRED" ∷ ("--ssl-ca=" <> ca) ∷ []

repr_char : Char → String
repr_char c = if code c == 10 then "\\n" else if code c == 92 then "\\\\" else String.◌∷◌ c ""

repr_chars : String → String
unfolding repr_char
repr_chars String.[] = ""
repr_chars (String.◌∷◌ c s) = repr_char c <> repr_chars s

-- `repr(name)`, for the names that `DbSpec` admits, which hold no quotes
unfoldable pub repr : String → String
unfolding repr_chars
repr name = "'" <> (repr_chars name <> "'")

-- The text of `f" tables={list(tables)}" if tables else ""`
unfoldable pub tables_text : List String → String
unfolding repr join
tables_text [] = ""
tables_text (t ∷ tables) = " tables=[" <> (join ", " (map repr (t ∷ tables)) <> "]")

module _ {W : Type 0} (m : Machine W) where
  found : String → Option String → Exec W String
  found name none = raise (mysql_ops_error ("required binary not found on PATH: " <> name))
  found name (some path) =
      if path == ""
      then raise (mysql_ops_error ("required binary not found on PATH: " <> name))
      else pure path

  unfoldable pub resolve_binary : String → Exec W String
  unfolding found
  resolve_binary name = do path ← m.which name; found name path

  unfoldable pub mysql_env : Option String → Exec W Environ
  unfolding password_entry
  mysql_env password = gets λ w.
      (
        "PATH",
        or_default (m.getenv "PATH" w)
            "/usr/local/sbin:/usr/local/bin:/usr/sbin:/usr/bin:/sbin:/bin",
      )
      ∷ ("LANG", "C.UTF-8")
      ∷ ("LC_ALL", "C.UTF-8")
      ∷ ("HOME", or_default (m.getenv "HOME" w) "/root")
      ∷ password_entry password

  unfoldable pub mysqldump_cmd : Dump → Exec W (List String)
  unfolding resolve_binary decimal
  mysqldump_cmd d = do
    mysqldump ← resolve_binary "mysqldump"
    pure (
        mysqldump
        ∷ "--single-transaction"
        ∷ "--quick"
        ∷ "--routines"
        ∷ "--triggers"
        ∷ "--events"
        ∷ "--no-tablespaces"
        ∷ "--no-create-db"
        ∷ "--column-statistics=0"
        ∷ "--ssl-mode=DISABLED"
        ∷ ("--host=" <> or_default d.host d.tunnel.local_host)
        ∷ ("--port=" <> decimal d.tunnel.local_port)
        ∷ ("--user=" <> d.user)
        ∷ (d.extra_args ++ (d.db ∷ d.tables)))

  unfoldable pub mysql_restore_cmd : Target → String → Exec W (List String)
  unfolding resolve_binary server_args ssl_args
  mysql_restore_cmd t db = do
    mysql ← resolve_binary "mysql"
    pure (mysql ∷ server_args t ++ (ssl_args t.ssl_ca ++ (db ∷ [])))

  -- The text of `f"{what} failed (rc={rc}): {stderr.decode(errors='replace')[:n]}"`
  unfoldable pub failure_text : String → ReturnCode → ℕ → List ℕ → String
  unfolding rc_text clip
  failure_text what rc n stderr =
      what <> (" failed (rc=" <> (rc_text rc <> ("): " <> clip n (m.decode stderr))))

  -- `if proc.returncode != 0: raise MySQLOpsError(…)`
  unfoldable pub check_returncode : String → ℕ → Output → Exec W (Unit {0})
  unfolding succeeded failure_text
  check_returncode what n proc =
      if not (succeeded proc.returncode)
      then raise (mysql_ops_error (failure_text what proc.returncode n proc.stderr))
      else pure tt

  -- `subprocess.run` with the password in the environment
  unfoldable pub run_with : List String → String → Option (List ℕ) → ℕ → Exec W Output
  unfolding mysql_env
  run_with argv password input timeout = do
    environ ← mysql_env (some password)
    m.run (record { argv = argv; environ = some environ; input = input; timeout = timeout })

  unfoldable pub dump_db : Dump → Exec W (List ℕ)
  unfolding mysqldump_cmd run_with check_returncode tables_text
  dump_db d = do
    cmd ← mysqldump_cmd d
    proc ← run_with cmd d.password none 1800
    check_returncode ("mysqldump " <> (d.db <> tables_text d.tables)) 2000 proc
    pure proc.stdout

  unfoldable pub ensure_database : Target → String → Exec W (Unit {0})
  unfolding resolve_binary server_args ssl_args run_with check_returncode
  ensure_database t db = do
    mysql ← resolve_binary "mysql"
    let stmt =
        "CREATE DATABASE IF NOT EXISTS `"
        <> (db <> "` CHARACTER SET utf8mb4 COLLATE utf8mb4_0900_ai_ci")
    proc ←
        run_with (mysql ∷ server_args t ++ (ssl_args t.ssl_ca ++ ("-e" ∷ stmt ∷ []))) t.password
          none 30
    check_returncode ("CREATE DATABASE " <> db) 500 proc

  unfoldable pub restore_db : Target → String → List ℕ → Exec W (Unit {0})
  unfolding ensure_database mysql_restore_cmd run_with check_returncode
  restore_db t db sql_bytes = do
    ensure_database t db
    cmd ← mysql_restore_cmd t db
    proc ← run_with cmd t.password (some sql_bytes) 1800
    check_returncode ("mysql restore " <> db) 2000 proc

  unfoldable pub apply_grants : Target → List String → Exec W (Unit {0})
  unfolding resolve_binary server_args ssl_args run_with check_returncode join
  apply_grants t sql_statements = do
    mysql ← resolve_binary "mysql"
    sql ← lift (m.encode (join "\n" sql_statements))
    proc ← run_with (mysql ∷ server_args t ++ ssl_args t.ssl_ca) t.password (some sql) 60
    check_returncode "mysql grants" 2000 proc

  unfoldable pub set_general_log : Bool → Target → Exec W (Unit {0})
  unfolding resolve_binary server_args ssl_args run_with check_returncode
  set_general_log enabled t = do
    mysql ← resolve_binary "mysql"
    let val = if enabled then "1" else "0"
    proc ←
        run_with
          (mysql ∷ server_args t
            ++ (ssl_args t.ssl_ca ++ ("-e" ∷ ("SET GLOBAL general_log = " <> val) ∷ [])))
          t.password none 30
    check_returncode ("set general_log=" <> val) 500 proc
