-- ===== src/Tests/Rows.antt =====
-- The theorems on the store, the ports and the settings at concrete data.
use sansbox_sql.Base.{
  ℕ, ◌≤◌, ◌<◌, true, false, none, List, arith, [], ◌∷◌, string_eq, nat_eq, ◌≡◌, refl, contains,
  Distinct,
}
use sansbox_sql.Errors.{ok}
use sansbox_sql.Docker.{allocate_port}
use sansbox_sql.Docker.Ports.{allocate_port-least, allocate_port-available}
use sansbox_sql.Session.{Session, starting}
use sansbox_sql.Session.Draft.{Draft, draft_of}
use sansbox_sql.Store.{Table, ids, claim_expired}
use sansbox_sql.Store.Refines.{
  Op, reserve, claim, to_nuked, delete_row, rows, perform_all, PromisedAll,
}
use sansbox_sql.Store.Refines.Runs.{perform_all-Refines}
use sansbox_sql.Tests.Data.{settings, session, table, fresh_row, old_row, broken_row}

table-Distinct : Distinct (ids table)
unfolding contains
table-Distinct = (refl, (refl, (refl, (refl, tt))))

-- At 500 the old session is due, and no other.
claimed_at_500 : (claim_expired 500 table).0 ≡ old_row ∷ []
unfolding claim_expired
claimed_at_500 = refl

new_row : Session
new_row = session "new" 20003 starting 500

abbrev make : ℕ → Draft
make port = draft_of (session "new" port starting 500)

abbrev shorter : Table
shorter = fresh_row ∷ old_row ∷ broken_row ∷ []

shorter-Distinct : Distinct (ids shorter)
unfolding contains
shorter-Distinct = (refl, (refl, (refl, tt)))

allocate_port-least_example :
    (contains {A = ℕ} 20003 (20001 ∷ 20002 ∷ []) ≡ false)
    × ((20001 ≤ 20003) × (20003 ≤ 20003))
    × ((q : ℕ) → 20001 ≤ q → q < 20003 → contains {A = ℕ} q (20001 ∷ 20002 ∷ []) ≡ true)
unfolding allocate_port contains
allocate_port-least_example = allocate_port-least (20001 ∷ 20002 ∷ []) settings 20003 refl

abbrev headless : Draft
headless = record (draft_of old_row) { id = none; port = none }

abbrev ops : List Op
ops =
    reserve make (λ used. allocate_port used settings)
    ∷ claim 500
    ∷ to_nuked "old"
    ∷ delete_row "open"
    ∷ []

perform_all-Refines_example :
    PromisedAll ops (rows shorter) (perform_all ops shorter).0 (rows (perform_all ops shorter).1)
perform_all-Refines_example = perform_all-Refines ops shorter shorter-Distinct

allocate_port-available_example :
    (p : ℕ) × (allocate_port (20001 ∷ 7 ∷ []) settings ≡ ok p)
    × (contains {A = ℕ} p (20001 ∷ 7 ∷ []) ≡ false)
    × ((20001 ≤ p) × (p ≤ 20003))
allocate_port-available_example = allocate_port-available (20001 ∷ 7 ∷ []) settings (omega arith)
