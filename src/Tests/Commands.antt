-- ===== src/Tests/Commands.antt =====
-- The theorems on the MySQL commands at concrete machines.
use sansbox_sql.Base.{
  String, ◌<>◌, ℕ, suc, ◌+◌, ◌*◌, Bool, true, false, none, some, List, [], ◌∷◌, ◌++◌, nat_eq,
  contains, if◌then◌else◌, ◌≡◌, ◌≢◌, refl, arith,
}
use sansbox_sql.Errors.{ok, err, mysql_ops_error, dump}
use sansbox_sql.Exec.{◌>>=◌}
use sansbox_sql.Docker.Compose.{ReturnCode, exited, succeeded}
use sansbox_sql.Docker.Health.{seconds}
use sansbox_sql.Service.Failure.{classify_failure}
use sansbox_sql.Process.{Machine}
use sansbox_sql.Mysql.{
  Target, Dump, dump_db, restore_db, apply_grants, set_general_log, server_args, ssl_args,
}
use sansbox_sql.Mysql.Secrets.{
  blind, with_password, with_source_password, with_passwords, passwords-Hidden,
}
use sansbox_sql.Mysql.Clone.{CloneDb, Ended, transfer, conclude_clone, clone_text, clone_db}
use sansbox_sql.Mysql.Clone.Exit.{Streamed, clone_db-Streamed}
use sansbox_sql.Mysql.Clone.Reaped.{Promises, transfer-Gone}
use sansbox_sql.Mysql.Clone.Kinds.{conclude_clone-dump}
use sansbox_sql.Mysql.Wait.{no_fuel, ping, wait_ready}
use sansbox_sql.Mysql.Wait.Enough.{Ticking, ping-in_time}
use sansbox_sql.Mysql.Wait.Ready.{Succeeded, wait_ready-Succeeded}

pub record Bench : Type 0 where
  pub now : ℕ
  pub next : ℕ
  pub killed : List ℕ
  pub gone : List ℕ

abbrev pub at_start : Bench
at_start = record { now = 5; next = 7; killed = []; gone = [] }

abbrev leaving : ℕ → Bench → Bench
leaving p w = record w { gone = p ∷ w.gone }

abbrev status : Bool → ReturnCode
status fine = if fine then exited 0 else exited 1

-- Where not all is fine, the commands fail and the pipe stalls.
abbrev pub machine : Bool → Machine Bench
machine fine = record {
  which = λ name w. (ok (some ("/usr/bin/" <> name)), w);
  getenv = λ name w. none;
  run = λ c w. (ok (record { returncode = status fine; stdout = []; stderr = [] }), w);
  popen = λ p w. (ok w.next, record w { next = suc w.next });
  communicate = λ p t w. if fine then (ok (some (exited 0, [])), leaving p w) else (ok none, w);
  wait = λ p t w. (ok (some (status fine)), leaving p w);
  kill = λ p w. record w { killed = p ∷ w.killed };
  close_stdout = λ p w. w;
  read_stderr = λ p w. (ok [], w);
  decode = λ bytes. "";
  encode = λ text. ok [];
  monotonic = λ w. w.now;
  sleep = λ n w. record w { now = w.now + n * 1000000000 };
}

abbrev target : Target
target = record {
  host = "127.0.0.1";
  port = 20001;
  user = "root";
  password = "secret";
  ssl_ca = some "/srv/ca.pem";
}

abbrev source : Dump
source = record {
  tunnel = record { local_port = 40001; local_host = "127.0.0.1" };
  db = "shop";
  user = "reader";
  password = "hidden";
  host = none;
  tables = "orders" ∷ [];
  extra_args = [];
}

abbrev pub clone : CloneDb
clone = record { source = source; target = target; target_db = "shop"; timeout_seconds = 7200 }

passwords-Hidden_example :
    (dump_db (blind (machine true)) (with_source_password "a" source)
      ≡ dump_db (blind (machine true)) source)
    × (restore_db (blind (machine true)) (with_password "a" target) "shop" []
        ≡ restore_db (blind (machine true)) target "shop" [])
    × (apply_grants (blind (machine true)) (with_password "a" target) []
        ≡ apply_grants (blind (machine true)) target [])
    × (set_general_log (blind (machine true)) true (with_password "a" target)
        ≡ set_general_log (blind (machine true)) true target)
    × (wait_ready (blind (machine true)) (with_password "a" target) 60
        ≡ wait_ready (blind (machine true)) target 60)
    × (clone_db (blind (machine true)) (with_passwords "a" "b" clone)
        ≡ clone_db (blind (machine true)) clone)
passwords-Hidden_example =
    passwords-Hidden (machine true) "a" "b" target source clone "shop" [] [] true 60

abbrev after_clone : Bench
after_clone = record { now = 5; next = 9; killed = []; gone = 7 ∷ 8 ∷ [] }

cloned : clone_db (machine true) clone at_start ≡ (ok tt, after_clone)
unfolding clone_db ◌>>=◌
cloned = refl

clone_db-Streamed_example : Streamed (machine true) clone
clone_db-Streamed_example = clone_db-Streamed (machine true) clone at_start after_clone cloned

abbrev Killed : ℕ → Bench → Type 0
Killed p w = contains p w.killed ≡ true

abbrev Gone : ℕ → Bench → Type 0
Gone p w = contains p w.gone ≡ true

stalled-Promises : Promises (machine false) Killed Gone
unfolding contains
stalled-Promises = record {
  communicate_returns = λ p t w. (none, refl);
  wait_returns = λ p t w. (some (exited 1), refl);
  communicate_ends = λ p t w x e. absurd cc;
  wait_ends = λ p t w rc e. ground arith;
  wait_killed = λ p w k. (exited 1, refl);
  kill_kills = λ p w. ground arith;
  kill_keeps = λ p q w k. ground arith;
  wait_keeps = λ p q t w k. k;
  stays_gone = λ p q t w k. ground arith;
}

transfer-Gone_example :
    Gone 7 (transfer (machine false) clone 7 8 at_start).1
    × Gone 8 (transfer (machine false) clone 7 8 at_start).1
transfer-Gone_example =
    transfer-Gone (machine false) clone Killed Gone stalled-Promises 7 8 at_start

abbrev pub broken_pipe : Ended
broken_pipe = record { dump_rc = exited 2; restore_rc = exited 1; restore_stderr = [] }

pub dump_failed : succeeded broken_pipe.dump_rc ≡ false
unfolding succeeded
dump_failed = refl

conclude_clone-dump_example :
    (conclude_clone (machine false) clone broken_pipe [] at_start
      ≡ (err (mysql_ops_error (clone_text (machine false) clone broken_pipe [])), at_start))
    × ((classify_failure (mysql_ops_error (clone_text (machine false) clone broken_pipe []))).0
        ≡ dump)
conclude_clone-dump_example =
    conclude_clone-dump (machine false) clone broken_pipe [] at_start dump_failed

machine-Ticking : Ticking (machine false)
machine-Ticking = record { run_lasts = λ c w. omega arith; sleep_lasts = λ n w. omega arith }

ping-in_time_example :
    (ping (machine false) 61 ("mysqladmin" ∷ []) "secret" (5 + seconds 60) "" at_start).0
    ≢ ok no_fuel
ping-in_time_example =
    ping-in_time (machine false) machine-Ticking 60 ("mysqladmin" ∷ []) "secret" "" at_start

waited : wait_ready (machine true) target 60 at_start ≡ (ok tt, at_start)
unfolding wait_ready ◌>>=◌
waited = refl

wait_ready-Succeeded_example :
    (mysqladmin : String) × Succeeded
      (machine true)
      (mysqladmin ∷ "ping" ∷ (server_args target ++ ssl_args target.ssl_ca))
      at_start
wait_ready-Succeeded_example =
    wait_ready-Succeeded (machine true) target 60 at_start at_start waited
