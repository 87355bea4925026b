-- ===== src/Mysql/Clone/Exit.antt =====
-- `clone_db` returns only when both processes have ended with status 0.
use sansbox_sql.Base.{String, ℕ, Bool, true, false, not, ◌||◌, Option, none, some, List, ◌≡◌, arith}
use sansbox_sql.Errors.{ok}
use sansbox_sql.Exec.{Exec, act, ◌>>=◌}
use sansbox_sql.Exec.Returns.{
  Returns, Returns-bind, Returns-raise, Returns-if, Returns-after, returned,
}
use sansbox_sql.Docker.Compose.{ReturnCode, succeeded}
use sansbox_sql.Process.{Machine, Environ, Popen, devnull, pipe, stdout_of}
use sansbox_sql.Mysql.{mysqldump_cmd, mysql_restore_cmd}
use sansbox_sql.Mysql.Clone.{
  CloneDb, Ended, expired_clone, after_wait, after_communicate, transfer, conclude_clone, stream,
  clone_db,
}

both_true : (a b : Bool) → (not a || not b) ≡ false → (a ≡ true) × (b ≡ true)
both_true true b h = ground arith
both_true false b h = absurd (ground arith)

-- The process that dumps, and the one that restores what the dump writes
abbrev pub dump_process : List String → Environ → Popen
dump_process argv environ = record {
  argv = argv;
  environ = some environ;
  stdin = devnull;
  stdout = pipe;
  stderr = pipe;
  start_new_session = false;
}

abbrev pub restore_process : List String → Environ → ℕ → Popen
restore_process argv environ dump = record {
  argv = argv;
  environ = some environ;
  stdin = stdout_of dump;
  stdout = devnull;
  stderr = pipe;
  start_new_session = false;
}

module _ {W : Type 0} (m : Machine W) (c : CloneDb) where
  -- An action has returned this value.
  pub Gave : {A : Type 0} → Exec W A → A → Type 0
  Gave action a = (u : W) × (u' : W) × (action u ≡ (ok a, u'))

  Gave-Returns : {A : Type 0} (action : Exec W A) → Returns (λ a _. Gave action a) action
  unfolding Gave
  Gave-Returns action = record { gives = λ u a u' h. (u, u', h) }

  -- The restore process was waited for, then the dump process, with these statuses.
  pub Both : ℕ → ℕ → ReturnCode → ReturnCode → Type 0
  Both dump restore restore_rc dump_rc =
      (stderr : List ℕ) × (v : W) × (v' : W) × (v'' : W) × (m.communicate restore c.timeout_seconds
          v
        ≡ (ok (some (restore_rc, stderr)), v'))
      × (m.wait dump (some 30) v' ≡ (ok (some dump_rc), v''))

  EndedBoth : ℕ → ℕ → Ended → W → Type 0
  EndedBoth dump restore e w = Both dump restore e.restore_rc e.dump_rc

  expired-Returns :
      (dump restore : ℕ) → Returns (EndedBoth dump restore) (expired_clone m c dump restore)
  unfolding expired_clone
  expired-Returns dump restore =
      Returns-bind _ _
        (λ _. Returns-bind _ _ (λ _. Returns-bind _ _ (λ _. Returns-bind _ _ (λ _. Returns-raise))))

  after_wait-Returns :
      (dump restore : ℕ) (rc : ReturnCode) (stderr : List ℕ) (v v' : W) (o : Option ReturnCode)
      (v'' : W)
      → m.communicate restore c.timeout_seconds v ≡ (ok (some (rc, stderr)), v')
      → m.wait dump (some 30) v' ≡ (ok o, v'')
      → (e : Ended) (w' : W) → after_wait m c dump restore rc stderr o v'' ≡ (ok e, w')
      → EndedBoth dump restore e w'
  unfolding after_wait EndedBoth Both
  after_wait-Returns dump restore rc stderr v v' none v'' h k e w' r =
      (expired-Returns dump restore).gives v'' e w' r
  after_wait-Returns dump restore rc stderr v v' (some drc) v'' h k e w' r =
      returned (λ e _. Both dump restore e.restore_rc e.dump_rc) r (stderr, v, v', v'', h, k)

  after_communicate-Returns :
      (dump restore : ℕ) (v : W) (o : Option (ReturnCode × List ℕ)) (v' : W)
      → m.communicate restore c.timeout_seconds v ≡ (ok o, v')
      → (e : Ended) (w' : W) → after_communicate m c dump restore o v' ≡ (ok e, w')
      → EndedBoth dump restore e w'
  unfolding after_communicate ◌>>=◌
  after_communicate-Returns dump restore v none v' h e w' r =
      (expired-Returns dump restore).gives v' e w' r
  after_communicate-Returns dump restore v (some (rc, stderr)) v' h e w' r =
      (Returns-after {P = EndedBoth dump restore}
          {Q = λ o v''. m.wait dump (some 30) v' ≡ (ok o, v'')} (λ _. m.wait dump (some 30) v')
          (after_wait m c dump restore rc stderr) (record { gives = λ _ o v'' k. k })
          (λ o v'' e w' k r. after_wait-Returns dump restore rc stderr v v' o v'' h k e w' r)).gives
        v' e w' r

  transfer-Returns :
      (dump restore : ℕ) → Returns (EndedBoth dump restore) (transfer m c dump restore)
  unfolding transfer ◌>>=◌
  transfer-Returns dump restore = record {
    gives = λ v e w' r.
        (Returns-after {P = EndedBoth dump restore}
            {Q = λ o v'. m.communicate restore c.timeout_seconds v ≡ (ok o, v')}
            (λ _. m.communicate restore c.timeout_seconds v) (after_communicate m c dump restore)
            (record { gives = λ _ o v' k. k })
            (λ o v' e w' k r. after_communicate-Returns dump restore v o v' k e w' r)).gives
          v e w' r;
  }

  -- The two statuses are those of the processes with these numbers.
  pub Succeeded : ℕ → ℕ → Type 0
  Succeeded dump restore =
      (restore_rc : ReturnCode) × (dump_rc : ReturnCode) × Both dump restore restore_rc dump_rc
      × (succeeded restore_rc ≡ true)
      × (succeeded dump_rc ≡ true)

  concluded :
      (dump restore : ℕ) (ended : Ended) (stderr : List ℕ) (w : W) (b : Unit {0}) (w' : W)
      → EndedBoth dump restore ended w
      → conclude_clone m c ended stderr w ≡ (ok b, w')
      → Succeeded dump restore
  unfolding conclude_clone EndedBoth Succeeded
  concluded dump restore ended stderr w b w' q h =
      (Returns-if {P = λ _ _. Succeeded dump restore}
          (not (succeeded ended.dump_rc) || not (succeeded ended.restore_rc)) _ _
          (λ _. Returns-raise)
          (λ n. record {
            gives = λ _ _ _ _.
                let (y, z) = both_true (succeeded ended.dump_rc) (succeeded ended.restore_rc) n in
                (ended.restore_rc, ended.dump_rc, q, z, y);
          })).gives
        w b w' h

  -- From the two processes on
  finish : ℕ → ℕ → Exec W (Unit {0})
  finish dump restore = act (m.close_stdout dump) >>= λ _. transfer m c dump restore >>= λ ended.
      m.read_stderr dump >>= λ stderr. conclude_clone m c ended stderr

  finish-Succeeded :
      (dump restore : ℕ) → Returns (λ _ _. Succeeded dump restore) (finish dump restore)
  unfolding finish EndedBoth
  finish-Succeeded dump restore = Returns-bind _ _ λ _.
      Returns-after {P = λ _ _. Succeeded dump restore} {Q = EndedBoth dump restore}
        (transfer m c dump restore) _ (transfer-Returns dump restore)
        λ ended v b w' q h.
          (Returns-bind {P = λ _ _. Succeeded dump restore} (m.read_stderr dump)
              (conclude_clone m c ended)
              λ stderr. record {
                gives = λ w b w' k. concluded dump restore ended stderr w b w' q k;
              }).gives
            v b w' h

  -- The processes of these commands, and what became of them
  pub Ran : List String → List String → Type 0
  Ran dump_cmd restore_cmd =
      (dump_env : Environ) × (restore_env : Environ) × (dump : ℕ) × (restore : ℕ) × Gave
        (m.popen (dump_process dump_cmd dump_env)) dump
      × Gave (m.popen (restore_process restore_cmd restore_env dump)) restore
      × Succeeded dump restore

  restored :
      (dump_cmd restore_cmd : List String) (dump_env restore_env : Environ) (dump : ℕ)
      → Gave (m.popen (dump_process dump_cmd dump_env)) dump
      → Returns
          (λ _ _. Ran dump_cmd restore_cmd)
          (m.popen (restore_process restore_cmd restore_env dump) >>= λ restore.
            finish dump restore)
  unfolding Ran
  restored dump_cmd restore_cmd dump_env restore_env dump g =
      Returns-after {P = λ _ _. Ran dump_cmd restore_cmd} _ _
        (Gave-Returns (m.popen (restore_process restore_cmd restore_env dump)))
        λ restore v b v' g' k. (
          dump_env,
          restore_env,
          dump,
          restore,
          g,
          g',
          (finish-Succeeded dump restore).gives v b v' k,
        )

  stream-Ran :
      (dump_cmd restore_cmd : List String)
      → Returns (λ _ _. Ran dump_cmd restore_cmd) (stream m c dump_cmd restore_cmd)
  unfolding stream finish
  stream-Ran dump_cmd restore_cmd = Returns-bind _ _ λ dump_env.
      Returns-after {P = λ _ _. Ran dump_cmd restore_cmd} _ _
        (Gave-Returns (m.popen (dump_process dump_cmd dump_env)))
        λ dump v b v' g k.
          (Returns-bind {P = λ _ _. Ran dump_cmd restore_cmd} _ _
              λ restore_env. restored dump_cmd restore_cmd dump_env restore_env dump g).gives
            v b v' k

  -- The two commands, and what became of their processes
  pub Streamed : Type 0
  Streamed =
      (dump_cmd : List String) × (restore_cmd : List String) × Gave (mysqldump_cmd m c.source)
        dump_cmd
      × Gave (mysql_restore_cmd m c.target c.target_db) restore_cmd
      × Ran dump_cmd restore_cmd

  commanded : Returns (λ _ _. Streamed) (clone_db m c)
  unfolding clone_db Streamed
  commanded = Returns-bind _ _ λ _.
      Returns-after {P = λ _ _. Streamed} _ _ (Gave-Returns (mysqldump_cmd m c.source))
        λ dump_cmd v b v' g k.
          (Returns-after {P = λ _ _. Streamed} _ _
              (Gave-Returns (mysql_restore_cmd m c.target c.target_db))
              λ restore_cmd u b u' g' k. (
                dump_cmd,
                restore_cmd,
                g,
                g',
                (stream-Ran dump_cmd restore_cmd).gives u b u' k,
              )).gives
            v b v' k

  -- If `clone_db` returns, then it has started a process with the command of `_mysqldump_cmd`, and one
  -- with the command of `_mysql_restore_cmd` that reads what the first writes; it has waited for the
  -- second, which ended with status 0, and right after that for the first, which ended with status 0
  -- too.
  pub clone_db-Streamed : (w w' : W) → clone_db m c w ≡ (ok tt, w') → Streamed
  clone_db-Streamed w w' h = commanded.gives w tt w' h
