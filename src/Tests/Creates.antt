-- ===== src/Tests/Creates.antt =====
-- The theorems on creating a session at concrete callables.
use mathlib.Core.Option
use sansbox_sql.Base.{ℕ, some, List, [], ◌∷◌, string_eq, nat_eq, ◌≡◌, refl, contains, select}
use sansbox_sql.Errors.{Exc, mysql_ops_error, ok, err}
use sansbox_sql.Exec.{◌>>=◌, best_effort, except_exception, except_base}
use sansbox_sql.Docker.{SessionPaths, session_paths, allocate_port}
use sansbox_sql.Models.{DbSpec, table_list, listed}
use sansbox_sql.Session.{Session, ready, error, is_valid, is_starting}
use sansbox_sql.Store
use sansbox_sql.Store.{Table, ids, get, with_status, is_due, is_stuck}
use sansbox_sql.Service.{World}
use sansbox_sql.Service.Steps.{draw_accounts, start_private, fill, start_public}
use sansbox_sql.Session.{is_active}
use sansbox_sql.Session.Draft.{missing, row, check}
use sansbox_sql.Sql.{update, rowcount}
use sansbox_sql.Service.Json.{dump_specs}
use sansbox_sql.Service.Calls.{factory, Created}
use sansbox_sql.Service.{ca_url}
use sansbox_sql.Service.Create.{create, do_create, on_failure}
use sansbox_sql.Service.Create.Won.{Live, create-Live}
use sansbox_sql.Service.Create.Failed
use sansbox_sql.Tests.Data.{table, fresh_row, old_row}
use sansbox_sql.Tests.Calls.{start, create_callables, down_ends}

create_calm : Failed.Calm create_callables
create_calm = record {
  down_ends = λ path w e h. down_ends path w e h;
  down_quiet = λ path w. refl;
  rmtree_ends = λ path w. refl;
  rmtree_quiet = λ path w. refl;
}

abbrev specs : List DbSpec
specs = record { name = "shop"; tables = listed ("users" ∷ []) } ∷ []

abbrev shorter : World ℕ
shorter = record { table = fresh_row ∷ old_row ∷ []; env = 500 }

abbrev made : Created
made = record {
  session_id = "new";
  api_host = "api.example.com";
  mysql_host = "db.example.com";
  mysql_port = 20003;
  expires_at = 600;
  max_extended_until = 800;
  ca_url = "https://api.example.com/session-tls/new/ca.pem";
  databases =
      record {
        name = "shop";
        user = "u_shop_abcd";
        password = "secret";
        tables = some ("users" ∷ []);
      }
      ∷ [];
}

-- The table after this create.
abbrev new_row : Session
new_row = record {
  id = "new";
  ticket = "T-9";
  date = "2024-01-02";
  dbs_json = "[{\"name\": \"shop\", \"tables\": [\"users\"]}]";
  creds_enc = 7 ∷ [];
  host = "api.example.com";
  mysql_host = "db.example.com";
  port = 20003;
  container_name = "sandbox-new";
  compose_path = "/compose/new/docker-compose.yml";
  tls_dir = "/tls/new";
  log_dir = "/log/T-9-2024-01-02/new";
  created_at = 500;
  expires_at = 600;
  max_extended_until = 800;
  ttl_extended = 0;
  status = ready;
}

abbrev after : World ℕ
after = record shorter { table = fresh_row ∷ old_row ∷ new_row ∷ [] }

create_result : create create_callables "T-9" specs shorter ≡ (ok made, after)
unfolding create ◌>>=◌ except_base Store.reserve_session allocate_port missing factory is_valid row
    do_create draw_accounts start_private fill best_effort start_public session_paths
    Store.update_to_ready except_exception ca_url table_list contains dump_specs Store.used_ports
    Store.tx Store.insert_row select is_active check Store.get is_starting rowcount update
create_result = refl

create-Live_example : Live made after.table
unfolding contains
create-Live_example =
    create-Live create_callables "T-9" specs shorter made after create_result
      (refl, (refl, (refl, tt)))

abbrev paths : SessionPaths
paths = record {
  session_dir = "/compose/open";
  compose_path = "open";
  cnf_path = "/compose/open/mysqld.cnf";
  tls_dir = "/tls";
  log_dir = "/log";
}

on_failure_lem_example :
    (said : Exc) × ((on_failure create_callables "open" paths
        (mysql_ops_error "restore failed")
        start).0
      ≡ err said)
    × Failed.Told create_callables "open" (mysql_ops_error "restore failed") said
    × (get "open"
          (on_failure create_callables "open" paths
            (mysql_ops_error "restore failed")
            start).1.table
        ≡ Option.map (with_status error) (get "open" table))
on_failure_lem_example =
    Failed.on_failure_lem create_callables create_calm "open" paths
      (mysql_ops_error "restore failed") start
