-- ===== src/Tests/Sweeps.antt =====
-- The theorem on a sweep at concrete teardowns.
use mathlib.Core.Option
use sansbox_sql.Base.{
  String, ℕ, Bool, true, false, not, List, [], ◌∷◌, some, ◌∙◌, ◌++◌, ◌==◌, string_eq, nat_eq, ◌≡◌,
  refl, arith, contains, Distinct, select,
}
use sansbox_sql.Errors.{ok, err, docker_ops_error, is_exception}
use sansbox_sql.Exec.{pure, ◌>>=◌, except_exception}
use sansbox_sql.Store.{ids, get, is_due, is_stuck, with_status}
use sansbox_sql.Reaper.{Teardown, reap_once, teardown}
use sansbox_sql.Reaper.Sweep.{Settled, torn_down}
use sansbox_sql.Reaper.Reaped.{reaped, get-reap_once}
use sansbox_sql.Reaper.Retried.{Sweep, sweeps, pending, torn_down_once, InOrder, sweeps-Retried}
use sansbox_sql.Session.{nuked, is_ready, is_expired}
use sansbox_sql.Tests.Data.{table, old_row}
use sansbox_sql.Tests.Calls.{start, down}

-- The path of each row is its id; the teardown of "open" fails.
abbrev teardowns : Teardown ℕ
teardowns = record {
  exists = λ path. pure true;
  down = λ path volumes. down path;
  down_legacy = down;
}

abbrev fine : String → Bool
fine path = not (path == "open")

settled : Settled teardowns fine
unfolding teardown except_exception ◌>>=◌ is_exception
settled = record { ends = λ path volumes w. ground arith; quiet = λ path volumes w. ground arith }

table-Distinct : Distinct (ids table)
unfolding contains
table-Distinct = (refl, (refl, (refl, (refl, tt))))

get-reap_once_example :
    ((reap_once teardowns 500 300 false start).0
      ≡ ok (select (torn_down fine) (select (is_due 500) table ++ select (is_stuck 500) table)))
    × ((sid : String)
        → get sid (reap_once teardowns 500 300 false start).1.table
          ≡ Option.map (reaped 500 fine) (get sid table))
get-reap_once_example = get-reap_once teardowns fine settled 500 300 false start table-Distinct

-- The row "old" is due at 500, and is nuked.
swept_old :
    get "old" (reap_once teardowns 500 300 false start).1.table ≡ some (with_status nuked old_row)
unfolding get reaped is_due is_ready is_expired
swept_old = (get-reap_once teardowns fine settled 500 300 false start table-Distinct).1 "old" ∙ refl

-- The first sweep fails to take anything down.
abbrev stubborn : Teardown ℕ
stubborn = record {
  exists = λ path. pure true;
  down = λ path volumes w. (err (docker_ops_error "compose down failed"), w);
  down_legacy = λ path w. (err (docker_ops_error "compose down failed"), w);
}

stubborn-Settled : Settled stubborn (λ path. false)
unfolding teardown except_exception ◌>>=◌ is_exception
stubborn-Settled = record { ends = λ path volumes w. refl; quiet = λ path volumes w. refl }

abbrev twice : List (Sweep ℕ)
twice =
    record {
      calls = stubborn;
      succeeds = λ path. false;
      settled = stubborn-Settled;
      at = 500;
      grace = 300;
      volumes = false;
    }
    ∷ record {
      calls = teardowns;
      succeeds = fine;
      settled = settled;
      at = 530;
      grace = 300;
      volumes = false;
    }
    ∷ []

sweeps-Retried_example : get "old" (sweeps twice start).table ≡ some (with_status nuked old_row)
unfolding get pending is_due is_ready is_expired torn_down_once InOrder
sweeps-Retried_example =
    sweeps-Retried twice 500 start "old" old_row table-Distinct (omega arith, (omega arith, tt))
      refl refl refl
