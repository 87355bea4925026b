-- ===== src/Mysql/Clone.antt =====
-- api/mysql_ops.py: `clone_db`, two processes joined by a pipe.
pub mod Exit
pub mod Reaped
pub mod Kinds
use sansbox_sql.Base.{
  String, ◌<>◌, ℕ, Bool, false, not, ◌||◌, Option, none, some, List, [], ◌∷◌, ◌++◌, if◌then◌else◌,
}
use sansbox_sql.Errors.{mysql_ops_error}
use sansbox_sql.Exec.{Exec, pure, raise, act, ◌>>=◌, ◌>>◌}
use sansbox_sql.Docker.Compose.{ReturnCode, succeeded, decimal}
use sansbox_sql.Process.{Machine, devnull, pipe, stdout_of, join}
use sansbox_sql.Mysql.{
  Target, Dump, mysql_env, mysqldump_cmd, mysql_restore_cmd, ensure_database, failure_text,
  tables_text,
}

-- The arguments: `source` has the tunnel, `source_db`, its user and password, `host`, `tables` and
-- `extra_args`.
pub record CloneDb : Type 0 where
  pub source : Dump
  pub target : Target
  pub target_db : String
  pub timeout_seconds : ℕ

-- What is known once both processes have ended.
pub record Ended : Type 0 where
  pub dump_rc : ReturnCode
  pub restore_rc : ReturnCode
  pub restore_stderr : List ℕ

module _ {W : Type 0} (m : Machine W) (c : CloneDb) where
  -- `except subprocess.TimeoutExpired`
  unfoldable pub expired_clone : ℕ → ℕ → Exec W Ended
  unfolding decimal
  expired_clone dump restore = do
    act (m.kill dump)
    act (m.kill restore)
    m.wait dump none
    m.wait restore none
    raise (
        mysql_ops_error (
          "streaming clone "
          <> (c.source.db
              <> ("->" <> (c.target_db <> (" exceeded " <> (decimal c.timeout_seconds <> "s")))))))

  unfoldable pub after_wait : ℕ → ℕ → ReturnCode → List ℕ → Option ReturnCode → Exec W Ended
  unfolding expired_clone
  after_wait dump restore restore_rc stderr none = expired_clone dump restore
  after_wait dump restore restore_rc stderr (some rc) =
      pure (record { dump_rc = rc; restore_rc = restore_rc; restore_stderr = stderr })

  unfoldable pub after_communicate : ℕ → ℕ → Option (ReturnCode × List ℕ) → Exec W Ended
  unfolding expired_clone after_wait
  after_communicate dump restore none = expired_clone dump restore
  after_communicate dump restore (some (rc, stderr)) = do
    dump_rc ← m.wait dump (some 30)
    after_wait dump restore rc stderr dump_rc

  -- `restore_proc.communicate(…)` and `dump_proc.wait(…)`, in their `try`
  unfoldable pub transfer : ℕ → ℕ → Exec W Ended
  unfolding after_communicate
  transfer dump restore = do
    said ← m.communicate restore c.timeout_seconds
    after_communicate dump restore said

  unfoldable pub restore_part : Ended → List String
  unfolding succeeded failure_text
  restore_part e =
      if not (succeeded e.restore_rc)
      then failure_text m ("mysql restore " <> c.target_db) e.restore_rc 2000 e.restore_stderr ∷ []
      else []

  unfoldable pub dump_part : Ended → List ℕ → List String
  unfolding succeeded failure_text tables_text
  dump_part e dump_stderr =
      if not (succeeded e.dump_rc)
      then failure_text m ("mysqldump " <> (c.source.db <> tables_text c.source.tables)) e.dump_rc
          2000 dump_stderr
        ∷ []
      else []

  -- The text of the error: the failed sides, the restore first
  unfoldable pub clone_text : Ended → List ℕ → String
  unfolding restore_part dump_part join
  clone_text e dump_stderr = join "; " (restore_part e ++ dump_part e dump_stderr)

  unfoldable pub conclude_clone : Ended → List ℕ → Exec W (Unit {0})
  unfolding succeeded clone_text
  conclude_clone e dump_stderr =
      if not (succeeded e.dump_rc) || not (succeeded e.restore_rc)
      then raise (mysql_ops_error (clone_text e dump_stderr))
      else pure tt

  -- From the first `Popen` on
  unfoldable pub stream : List String → List String → Exec W (Unit {0})
  unfolding mysql_env transfer conclude_clone
  stream dump_cmd restore_cmd = do
    dump_env ← mysql_env m (some c.source.password)
    dump ← m.popen (record {
      argv = dump_cmd;
      environ = some dump_env;
      stdin = devnull;
      stdout = pipe;
      stderr = pipe;
      start_new_session = false;
    })
    restore_env ← mysql_env m (some c.target.password)
    restore ← m.popen (record {
      argv = restore_cmd;
      environ = some restore_env;
      stdin = stdout_of dump;
      stdout = devnull;
      stderr = pipe;
      start_new_session = false;
    })
    act (m.close_stdout dump)
    ended ← transfer dump restore
    dump_stderr ← m.read_stderr dump
    conclude_clone ended dump_stderr

  unfoldable pub clone_db : Exec W (Unit {0})
  unfolding ensure_database mysqldump_cmd mysql_restore_cmd stream
  clone_db = do
    ensure_database m c.target c.target_db
    dump_cmd ← mysqldump_cmd m c.source
    restore_cmd ← mysql_restore_cmd m c.target c.target_db
    stream dump_cmd restore_cmd
