-- ===== src/Api/Operations.antt =====
-- api/main.py: `healthz`, `readyz` and `metrics`. `decode_strict` is `bytes.decode` without
-- `errors`, which may raise.
use Prim.Native.String.{String}
use sansbox_sql.Base.{
  ◌<>◌, ℕ, suc, Bool, true, false, not, ◌&&◌, Option, none, some, List, [], ◌∷◌, length,
  if◌then◌else◌, ◌==◌, string_eq,
}
use sansbox_sql.Errors.{Result, ok, err, other_error, exc_text}
use sansbox_sql.Exec.{Exec, pure, lift, except_exception, ◌>>=◌}
use sansbox_sql.Docker.Compose.{succeeded, decimal, clip}
use sansbox_sql.Docker.Health.{strip}
use sansbox_sql.Process.{Output, Machine}
use sansbox_sql.Session.{Session, Status, is_ready, same_status, status_text}
use sansbox_sql.Store.{list_all}
use sansbox_sql.Service.{World}

-- An entry of `checks`: its name, whether it is "ok", and its text
pub record Check : Type 0 where
  pub name : String
  pub passed : Bool
  pub text : String

pub record Readiness : Type 0 where
  pub status_code : ℕ
  pub status : String
  pub checks : List Check

unfoldable pub all_passed : List Check → Bool
all_passed [] = true
all_passed (c ∷ checks) = c.passed && all_passed checks

-- `by_status`: the statuses in the order of their first rows, with their counts
unfoldable pub count_status : Status → List (Status × ℕ) → List (Status × ℕ)
unfolding same_status
count_status s [] = (s, 1) ∷ []
count_status s ((t, n) ∷ counts) =
    let rest = count_status s counts in
    if same_status t s then (t, suc n) ∷ counts else (t, n) ∷ rest

unfoldable pub by_status : List (Status × ℕ) → List Session → List (Status × ℕ)
unfolding count_status
by_status counts [] = counts
by_status counts (r ∷ rows) = by_status (count_status r.status counts) rows

-- The `min` over the ready rows: `now` is bound only after it, so that the first ready row raises.
unfoldable pub oldest_unused : List Session → Result ℕ
unfolding is_ready
oldest_unused [] = ok 0
oldest_unused (r ∷ rows) =
    let rest = oldest_unused rows in
    if is_ready r.status
    then err (
        other_error
          "cannot access free variable 'now' where it is not associated with a value in enclosing scope")
    else rest

status_lines : List (Status × ℕ) → String
unfolding decimal status_text
status_lines [] = ""
status_lines ((s, n) ∷ counts) =
    let rest = status_lines counts in
    "sqldb_sandbox_sessions_by_status{status=\""
    <> (status_text s <> ("\"} " <> (decimal n <> ("\n" <> rest))))

unfoldable pub metrics_text : ℕ → List (Status × ℕ) → ℕ → String
unfolding status_lines decimal
metrics_text total counts oldest =
    "# HELP sqldb_sandbox_sessions_total Total sessions in store\n"
    <> ("# TYPE sqldb_sandbox_sessions_total gauge\n"
        <> ("sqldb_sandbox_sessions_total "
            <> (decimal total
                <> ("\n"
                    <> ("# HELP sqldb_sandbox_sessions_by_status Sessions by status\n"
                        <> ("# TYPE sqldb_sandbox_sessions_by_status gauge\n"
                            <> (status_lines counts
                                <> ("# HELP sqldb_sandbox_oldest_ready_seconds Age of oldest ready session\n"
                                    <> ("# TYPE sqldb_sandbox_oldest_ready_seconds gauge\n"
                                        <> ("sqldb_sandbox_oldest_ready_seconds "
                                            <> (decimal oldest <> "\n")))))))))))

unfoldable pub healthz : String
healthz = "ok"

module _ {E : Type 0} where
  unfoldable pub metrics : Exec (World E) String
  unfolding by_status oldest_unused metrics_text list_all
  metrics w =
      let rows = list_all w.table in
      (do
        oldest ← lift (oldest_unused rows)
        pure (metrics_text (length rows) (by_status [] rows) oldest))
        w

  module _ (m : Machine (World E)) (decode_strict : List ℕ → Result String) where
    docker_version : Result String → Result Check
    unfolding strip
    docker_version (err e) = err e
    docker_version (ok s) = ok (record { name = "docker"; passed = true; text = strip s })

    unfoldable pub docker_result : Output → Result Check
    unfolding docker_version succeeded strip clip
    docker_result p =
        if succeeded p.returncode
        then docker_version (decode_strict p.stdout)
        else ok (record { name = "docker"; passed = false; text = clip 200 (m.decode p.stderr) })

    unfoldable pub binary_there : Option String → Bool
    binary_there none = false
    binary_there (some path) = not (path == "")

    -- The body of the `try`, from `shutil.which` on
    unfoldable pub docker_probe : Option String → Exec (World E) Check
    unfolding docker_result binary_there
    docker_probe path =
        if not (binary_there path)
        then pure
            (record { name = "docker_binary"; passed = false; text = "docker binary not on PATH" })
        else do
          p ← m.run (record {
            argv = "docker" ∷ "info" ∷ "--format" ∷ "{{.ServerVersion}}" ∷ [];
            environ = none;
            input = none;
            timeout = 5;
          })
          lift (docker_result p)

    unfoldable pub check_docker : Exec (World E) Check
    unfolding docker_probe clip exc_text
    check_docker =
        except_exception (do path ← m.which "docker"; docker_probe path)
          (λ e. pure (record { name = "docker"; passed = false; text = clip 200 (exc_text e) }))

    unfoldable pub check_binary : String → Exec (World E) Check
    unfolding binary_there
    check_binary bin = do
      path ← m.which bin
      pure (record {
        name = "bin_" <> bin;
        passed = binary_there path;
        text = if binary_there path then "" else "not on PATH";
      })

    unfoldable pub readiness : List Check → Readiness
    unfolding all_passed
    readiness checks = record {
      status_code = if all_passed checks then 200 else 503;
      status = if all_passed checks then "ok" else "degraded";
      checks = checks;
    }

    -- `store.list_all()` does not raise here: the table is there to be read.
    unfoldable pub readyz : Exec (World E) Readiness
    unfolding check_docker check_binary readiness
    readyz = do
      docker ← check_docker
      mysqldump ← check_binary "mysqldump"
      mysql ← check_binary "mysql"
      mysqladmin ← check_binary "mysqladmin"
      pure (
          readiness (
            record { name = "sqlite"; passed = true; text = "" }
            ∷ docker
            ∷ mysqldump
            ∷ mysql
            ∷ mysqladmin
            ∷ []))
