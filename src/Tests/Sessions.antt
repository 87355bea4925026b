-- ===== src/Tests/Sessions.antt =====
-- The theorems on nuking and on the time of a session at concrete callables.
use sansbox_sql.Base.{String, some, string_eq, nat_eq, ◌≡◌, refl, if◌then◌else◌}
use sansbox_sql.Errors.{permission_error, ok, err}
use sansbox_sql.Exec.{◌>>=◌}
use sansbox_sql.Session.{nuked, is_nuked, is_ready}
use sansbox_sql.Store.{get, with_status}
use sansbox_sql.Service.{now_nuked, already_nuked, nuke_by_ticket, reset_ttl}
use sansbox_sql.Service.Nukes
use sansbox_sql.Service.Resets.{resettable, reset_ttl-once}
use sansbox_sql.Tests.Data.{fresh_row, old_row}
use sansbox_sql.Tests.Calls.{start, callables, down_ends}

pub nuke_calm : Nukes.Calm callables
nuke_calm = record { no_interrupt = λ path w e h. down_ends path w e h; quiet = λ path w. refl }

nuke_by_ticket-twice_example :
    ((nuke_by_ticket callables "T-1" "old" start).0
      ≡ ok (if is_nuked old_row.status then already_nuked else now_nuked))
    × (get "old" (nuke_by_ticket callables "T-1" "old" start).1.table
        ≡ some (with_status nuked old_row))
    × (nuke_by_ticket callables "T-1" "old" (nuke_by_ticket callables "T-1" "old" start).1
        ≡ (ok already_nuked, (nuke_by_ticket callables "T-1" "old" start).1))
unfolding get
nuke_by_ticket-twice_example =
    Nukes.nuke_by_ticket-twice callables nuke_calm "T-1" "old" old_row start refl refl

reset_ttl-once_example :
    (m : String) × (reset_ttl callables "fresh" (reset_ttl callables "fresh" start).1
      ≡ (err (permission_error m), (reset_ttl callables "fresh" start).1))
unfolding get resettable reset_ttl is_ready ◌>>=◌
reset_ttl-once_example =
    reset_ttl-once callables "fresh" start fresh_row 1050 1050 refl refl refl refl
