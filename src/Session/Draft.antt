-- ===== src/Session/Draft.antt =====
-- api/state.py: the record that `create` and `reserve_session` are given, a dict in which any of
-- the required columns may be missing, and the checks on it.
pub mod Checks
use sansbox_sql.Base.{String, ◌<>◌, ℕ, Option, none, some, List, [], ◌∷◌, ◌++◌}
use sansbox_sql.Errors.{Result, ok, err, value_error, key_error, guard, ◌>>=◌, ◌>>◌}
use sansbox_sql.Session.{Session, Status, status_text, is_valid}

pub record Draft : Type 0 where
  pub id : Option String
  pub ticket : Option String
  pub date : Option String
  pub dbs_json : Option String
  pub creds_enc : Option (List ℕ)
  pub host : Option String
  pub mysql_host : Option String
  pub port : Option ℕ
  pub container_name : Option String
  pub compose_path : Option String
  pub tls_dir : Option String
  pub log_dir : Option String
  pub created_at : Option ℕ
  pub expires_at : Option ℕ
  pub max_extended_until : Option ℕ
  pub status : Option Status

-- `[name]` if the key is missing.
abbrev lacks {ℓ} : {A : Type ℓ} → Option A → String → List String
lacks none name = name ∷ []
lacks (some a) name = []

-- `sorted(required - record.keys())`
unfoldable pub missing : Draft → List String
missing d =
    lacks d.compose_path "compose_path"
    ++ (lacks d.container_name "container_name"
        ++ (lacks d.created_at "created_at"
            ++ (lacks d.creds_enc "creds_enc"
                ++ (lacks d.date "date"
                    ++ (lacks d.dbs_json "dbs_json"
                        ++ (lacks d.expires_at "expires_at"
                            ++ (lacks d.host "host"
                                ++ (lacks d.id "id"
                                    ++ (lacks d.log_dir "log_dir"
                                        ++ (lacks d.max_extended_until "max_extended_until"
                                            ++ (lacks d.mysql_host "mysql_host"
                                                ++ (lacks d.port "port"
                                                    ++ (lacks d.status "status"
                                                        ++ (lacks d.ticket "ticket"
                                                            ++ lacks d.tls_dir
                                                            "tls_dir"))))))))))))))

join_names : List String → String
join_names [] = ""
join_names (x ∷ []) = "'" <> (x <> "'")
join_names (x ∷ y ∷ ys) = "'" <> (x <> ("', " <> join_names (y ∷ ys)))

-- The text of a list of names: `['a', 'b']`.
unfoldable pub list_repr : List String → String
unfolding join_names
list_repr xs = "[" <> (join_names xs <> "]")

-- `record[k]`
abbrev pub column {ℓ} : {A : Type ℓ} → Option A → String → Result A
column none name = err (key_error name)
column (some a) name = ok a

-- The row that the INSERT writes: the required columns, and the default of `ttl_extended`.
unfoldable pub row : Draft → Result Session
row d = do
  id ← column d.id "id"
  ticket ← column d.ticket "ticket"
  date ← column d.date "date"
  dbs_json ← column d.dbs_json "dbs_json"
  creds_enc ← column d.creds_enc "creds_enc"
  host ← column d.host "host"
  mysql_host ← column d.mysql_host "mysql_host"
  port ← column d.port "port"
  container_name ← column d.container_name "container_name"
  compose_path ← column d.compose_path "compose_path"
  tls_dir ← column d.tls_dir "tls_dir"
  log_dir ← column d.log_dir "log_dir"
  created_at ← column d.created_at "created_at"
  expires_at ← column d.expires_at "expires_at"
  max_extended_until ← column d.max_extended_until "max_extended_until"
  status ← column d.status "status"
  ok (record {
    id = id;
    ticket = ticket;
    date = date;
    dbs_json = dbs_json;
    creds_enc = creds_enc;
    host = host;
    mysql_host = mysql_host;
    port = port;
    container_name = container_name;
    compose_path = compose_path;
    tls_dir = tls_dir;
    log_dir = log_dir;
    created_at = created_at;
    expires_at = expires_at;
    max_extended_until = max_extended_until;
    ttl_extended = 0;
    status = status;
  })

-- `if missing: raise ValueError(...)`
abbrev none_missing : List String → Result (Unit {0})
none_missing [] = ok tt
none_missing (x ∷ xs) = err (value_error ("record missing fields: " <> list_repr (x ∷ xs)))

-- The checks before the INSERT, and the row that it is given.
unfoldable pub check : Draft → Result Session
check d = do
  none_missing (missing d)
  status ← column d.status "status"
  guard (is_valid status) (value_error ("invalid status: " <> status_text status))
  row d

-- For the laws of the checks: the dict with the sixteen columns of a row that a dict may have
abbrev pub draft_of : Session → Draft
draft_of r = record {
  id = some r.id;
  ticket = some r.ticket;
  date = some r.date;
  dbs_json = some r.dbs_json;
  creds_enc = some r.creds_enc;
  host = some r.host;
  mysql_host = some r.mysql_host;
  port = some r.port;
  container_name = some r.container_name;
  compose_path = some r.compose_path;
  tls_dir = some r.tls_dir;
  log_dir = some r.log_dir;
  created_at = some r.created_at;
  expires_at = some r.expires_at;
  max_extended_until = some r.max_extended_until;
  status = some r.status;
}
