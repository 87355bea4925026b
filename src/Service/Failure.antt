-- ===== src/Service/Failure.antt =====
-- `_classify_failure`: the category of a low-level exception and the message for the log.
pub mod Mentions
pub mod Unready
use sansbox_sql.Base.{String, ◌<>◌, Bool, map, ◌≢◌, arith, if◌then◌else◌}
use sansbox_sql.Base.Text.{codes, lower, occurs}
use sansbox_sql.Errors.{
  Category, validation, ssh, dump, container, restore, grant, port, internal, Exc, tunnel_error,
  mysql_ops_error, docker_ops_error, exc_text,
}

-- `word in str(exc).lower()`
unfoldable pub mentions : String → String → Bool
unfolding lower occurs
mentions word text = occurs (codes word) (map lower (codes text))

unfoldable pub classify_failure : Exc → Category × String
unfolding mentions exc_text
classify_failure (tunnel_error m) = (ssh, "SSH tunnel failed: " <> m)
classify_failure (mysql_ops_error m) =
    if mentions "mysqldump" m
    then (dump, "prod dump failed: " <> m)
    else if mentions "create database" m
    then (restore, "create database failed: " <> m)
    else (restore, "mysql restore failed: " <> m)
classify_failure (docker_ops_error m) =
    if mentions "port" m
    then (port, "container port error: " <> m)
    else (container, "container error: " <> m)
classify_failure e = (internal, "unexpected error: " <> exc_text e)

-- No exception is classified as `grant` or as `validation`.
pub classify_failure-categories :
    (e : Exc) → ((classify_failure e).0 ≢ grant) × ((classify_failure e).0 ≢ validation)
unfolding classify_failure
classify_failure-categories (tunnel_error m) = (ground arith, ground arith)
classify_failure-categories _ = (ground arith, ground arith)
