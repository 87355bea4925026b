-- ===== src/Mysql/Secrets.antt =====
-- The passwords that commands log in with reach them by their environment alone.
use sansbox_sql.Base.{◌∷◌, ◌++◌, ◌+◌}
use sansbox_sql.Base.{String, ℕ, zero, suc, Bool, none, List, ltb, if◌then◌else◌, ◌≡◌, refl, ap}
use sansbox_sql.Errors.{ok}
use sansbox_sql.Exec.{Exec, ◌>>=◌}
use sansbox_sql.Process.{Machine}
use sansbox_sql.Mysql.{
  Target, Dump, run_with, dump_db, ensure_database, restore_db, apply_grants, set_general_log,
  mysql_env, mysql_restore_cmd, mysqldump_cmd, server_args, ssl_args, resolve_binary,
}
use sansbox_sql.Mysql.Clone.{
  CloneDb, clone_db, stream, transfer, after_communicate, after_wait, expired_clone, conclude_clone,
  clone_text, restore_part, dump_part,
}
use sansbox_sql.Mysql.Wait.{
  wait_ready, Pinged, too_late, ping, ping_once, ping_until, ping_again, conclude_ping,
}
use sansbox_sql.Docker.Health.{seconds}

-- The machine that keeps all but the environment of what it starts: what its processes do, and what
-- any observer of their command lines, inputs and times sees, does not depend on the environment.
unfoldable pub blind : {W : Type 0} → Machine W → Machine W
blind m = record m {
  run = λ c. m.run (record c { environ = none });
  popen = λ p. m.popen (record p { environ = none });
}

abbrev pub with_password : String → Target → Target
with_password password t = record t { password = password }

abbrev pub with_source_password : String → Dump → Dump
with_source_password password d = record d { password = password }

abbrev pub with_passwords : String → String → CloneDb → CloneDb
with_passwords source target c = record c {
  source = with_source_password source c.source;
  target = with_password target c.target;
}

module _ {W : Type 0} (m : Machine W) where
  run_with-blind :
      (argv : List String) (p q : String) → run_with (blind m) argv p ≡ run_with (blind m) argv q
  unfolding run_with blind mysql_env ◌>>=◌
  run_with-blind argv p q = refl

  ping-blind :
      (fuel : ℕ) (cmd : List String) (p q : String) (deadline : ℕ) (last_err : String)
      → ping (blind m) fuel cmd p deadline last_err ≡ ping (blind m) fuel cmd q deadline last_err
  unfolding ping ping_once run_with blind mysql_env ◌>>=◌
  ping-blind zero cmd p q deadline last_err = refl
  ping-blind (suc fuel) cmd p q deadline last_err =
      ap
        (λ (next : String → Exec W Pinged). λ w.
          if ltb (m.monotonic w) deadline
          then (ping_once (blind m) cmd p >>= λ after. ping_again (blind m) after next) w
          else (ok (too_late last_err), w))
        (λ i s. ping-blind fuel cmd p q deadline s i)

  dump_db-blind :
      (p : String) (d : Dump) → dump_db (blind m) (with_source_password p d) ≡ dump_db (blind m) d
  unfolding dump_db run_with blind mysql_env mysqldump_cmd ◌>>=◌
  dump_db-blind p d = refl

  ensure_database-blind :
      (p : String) (t : Target) (db : String)
      → ensure_database (blind m) (with_password p t) db ≡ ensure_database (blind m) t db
  unfolding ensure_database run_with blind mysql_env server_args ◌>>=◌
  ensure_database-blind p t db = refl

  restore_db-blind :
      (p : String) (t : Target) (db : String) (bytes : List ℕ)
      → restore_db (blind m) (with_password p t) db bytes ≡ restore_db (blind m) t db bytes
  unfolding restore_db ensure_database mysql_restore_cmd run_with blind mysql_env server_args ◌>>=◌
  restore_db-blind p t db bytes = refl

  apply_grants-blind :
      (p : String) (t : Target) (statements : List String)
      → apply_grants (blind m) (with_password p t) statements ≡ apply_grants (blind m) t statements
  unfolding apply_grants run_with blind mysql_env server_args ◌>>=◌
  apply_grants-blind p t statements = refl

  set_general_log-blind :
      (enabled : Bool) (p : String) (t : Target)
      → set_general_log (blind m) enabled (with_password p t) ≡ set_general_log (blind m) enabled t
  unfolding set_general_log run_with blind mysql_env server_args ◌>>=◌
  set_general_log-blind enabled p t = refl

  wait_ready-blind :
      (p : String) (t : Target) (timeout : ℕ)
      → wait_ready (blind m) (with_password p t) timeout ≡ wait_ready (blind m) t timeout
  unfolding wait_ready ping_until blind server_args conclude_ping
  wait_ready-blind p t timeout =
      ap
        (λ (poll : List String → ℕ → Exec W Pinged).
          resolve_binary (blind m) "mysqladmin" >>= λ mysqladmin w.
          (poll (mysqladmin ∷ "ping" ∷ server_args t ++ ssl_args t.ssl_ca)
                (m.monotonic w + seconds timeout)
              >>= conclude_ping (blind m) t timeout)
            w)
        (λ i cmd deadline. ping-blind (suc timeout) cmd p t.password deadline "no attempt yet" i)

  clone_db-blind :
      (p q : String) (c : CloneDb)
      → clone_db (blind m) (with_passwords p q c) ≡ clone_db (blind m) c
  unfolding clone_db stream transfer after_communicate after_wait expired_clone conclude_clone
      clone_text restore_part dump_part ensure_database mysql_restore_cmd mysqldump_cmd run_with
      blind mysql_env server_args ◌>>=◌
  clone_db-blind p q c = refl

  -- The password that a command logs in with, and that of the source of a dump or a clone, are in the
  -- environment of the processes alone: on a machine that does not look at the environment, each
  -- operation has the same result and the same effects with any such password, so that no command
  -- line, standard input or time-out depends on it. (The statements of `apply_grants`, which are its
  -- standard input, are an argument of their own here.)
  pub passwords-Hidden :
      (p q : String) (t : Target) (d : Dump) (c : CloneDb) (db : String) (bytes : List ℕ)
      (statements : List String) (enabled : Bool) (timeout : ℕ)
      → (dump_db (blind m) (with_source_password p d) ≡ dump_db (blind m) d)
        × (restore_db (blind m) (with_password p t) db bytes ≡ restore_db (blind m) t db bytes)
        × (apply_grants (blind m) (with_password p t) statements
            ≡ apply_grants (blind m) t statements)
        × (set_general_log (blind m) enabled (with_password p t)
            ≡ set_general_log (blind m) enabled t)
        × (wait_ready (blind m) (with_password p t) timeout ≡ wait_ready (blind m) t timeout)
        × (clone_db (blind m) (with_passwords p q c) ≡ clone_db (blind m) c)
  passwords-Hidden p q t d c db bytes statements enabled timeout = (
    dump_db-blind p d,
    restore_db-blind p t db bytes,
    apply_grants-blind p t statements,
    set_general_log-blind enabled p t,
    wait_ready-blind p t timeout,
    clone_db-blind p q c,
  )
