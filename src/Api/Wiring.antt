-- ===== src/Api/Wiring.antt =====
-- `_build_service`: the callables of api/mysql_ops.py and api/docker_ops.py, given to the service.
use sansbox_sql.Base.{String, Bool, true, Option, none, some, []}
use sansbox_sql.Docker.Compose.{Host, up_session, down_session}
use sansbox_sql.Docker.Inspect.{Json}
use sansbox_sql.Docker.Health.{wait_healthy}
use sansbox_sql.Process.{Machine}
use sansbox_sql.Mysql.{Target, apply_grants, set_general_log}
use sansbox_sql.Mysql.Clone.{CloneDb, clone_db}
use sansbox_sql.Mysql.Wait.{wait_ready}
use sansbox_sql.Service.{World}
use sansbox_sql.Service.Calls.{Endpoint, CloneArgs, CreateCallables}

-- The keyword arguments of a call, as the callee names them
unfoldable pub target_of : Endpoint → Target
target_of e = record {
  host = e.host;
  port = e.port;
  user = e.user;
  password = e.password;
  ssl_ca = some e.ssl_ca;
}

-- `extra_args` and `timeout_seconds` have their defaults.
unfoldable pub clone_of : CloneArgs → CloneDb
unfolding target_of
clone_of a = record {
  source = record {
    tunnel = a.tunnel;
    db = a.source_db;
    user = a.source_user;
    password = a.source_password;
    host = some a.host;
    tables = a.tables;
    extra_args = [];
  };
  target = target_of a.target;
  target_db = a.target_db;
  timeout_seconds = 7200;
}

or_true : Option Bool → Bool
or_true none = true
or_true (some b) = b

unfoldable pub build_service :
    {E : Type 0}
    → Machine (World E)
    → Host (World E)
    → (String → Option Json)
    → CreateCallables E
    → CreateCallables E
unfolding target_of clone_of or_true
build_service m d parse c = record c {
  base = record c.base { down_session = λ path volumes. down_session d path (or_true volumes) 120 };
  clone_db = λ a. clone_db m (clone_of a);
  apply_grants = λ e statements. apply_grants m (target_of e) statements;
  wait_ready = λ e timeout. wait_ready m (target_of e) timeout;
  set_general_log = λ enabled e. set_general_log m enabled (target_of e);
  up_session = λ path. up_session d path 600;
  wait_healthy = λ name timeout. wait_healthy d parse name timeout;
}
