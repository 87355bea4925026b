-- ===== src/Store/Refines.antt =====
-- The methods of `SessionStore` that write, against a map from ids to rows.
pub mod Inserts
pub mod Ports
pub mod Steps
pub mod Runs
use mathlib.Core.Option
use sansbox_sql.Base.{
  String, ◌<>◌, ℕ, Bool, true, false, not, ◌&&◌, ◌||◌, Option, none, some, List, [], ◌∷◌, ◌++◌, map,
  ltb, ◌==◌, string_eq, eq_iff, contains, Distinct, select, ◌↔◌, nat_eq, if◌then◌else◌, ◌≡◌, refl,
  sym, subst, ap, ◌∙◌, arith, inl, inr, Bool-cases, Option-cases,
}
use sansbox_sql.Errors.{Exc, Result, ok, err, Result-cases, integrity_error, value_error}
use sansbox_sql.Session.{
  Session, Status, expired, nuked, is_valid, is_active, is_starting, is_expired, is_nuked,
  status_text,
}
use sansbox_sql.Session.Draft.{Draft, check}
use sansbox_sql.Sql.{rowcount, delete_where, update}
use sansbox_sql.Sql.Laws.{map-update}
use sansbox_sql.Store.{
  Table, ids, get, has_id, tx, insert_row, create, set_status, update_to_ready, mark_nuked,
  update_ttl, update_port, delete, claim_expired, reserve_session, with_status, with_ttl,
  made_ready, is_due,
}
use sansbox_sql.Store.Reads.{
  count_if, rowcount_at, get-update, get-update_id, get-set_status, get-update_to_ready,
  get-mark_nuked, get-update_ttl, get-delete,
}
use sansbox_sql.Store.Claims.{absent-select, claim_expired-exact}
use sansbox_sql.Store.PortsInUse.{Distinct-ids-append}
use sansbox_sql.Store.Unique.{contains-selected}

pub data Op : Type 0 where
  create_row : Draft → Op
  reserve : (ℕ → Draft) → (List ℕ → Result ℕ) → Op
  set_row_status : String → Status → Op
  to_ready : String → List ℕ → ℕ → ℕ → Op
  to_nuked : String → Op
  new_ttl : String → ℕ → ℕ → Op
  new_port : String → ℕ → Op
  delete_row : String → Op
  claim : ℕ → Op

-- What an operation returns; of the claimed rows, which ids they have.
pub data Reply : Type 0 where
  done : Reply
  reserved : Draft → Reply
  raised : Exc → Reply
  wrote : Bool → Reply
  claimed : (String → Bool) → Reply

-- The abstract store: at most one row for each id.
abbrev pub Rows : Type 0
Rows = String → Option Session

abbrev pub rows : Table → Rows
rows t sid = get sid t

unfoldable pub reply_of : Result (Unit {0}) → Reply
reply_of (ok tt) = done
reply_of (err e) = raised e

unfoldable pub reply_of_draft : Result Draft → Reply
reply_of_draft (ok d) = reserved d
reply_of_draft (err e) = raised e

-- The methods, on the table
unfoldable pub perform : Op → Table → Reply × Table
unfolding reply_of reply_of_draft
perform (create_row d) t = let (r, t') = create d t in (reply_of r, t')
perform (reserve make allocate) t =
    let (r, t') = reserve_session make allocate t in (reply_of_draft r, t')
perform (set_row_status sid status) t = let (r, t') = set_status sid status t in (reply_of r, t')
perform (to_ready sid creds expires max) t =
    let (won, t') = update_to_ready sid creds expires max t in (wrote won, t')
perform (to_nuked sid) t = (done, mark_nuked sid t)
perform (new_ttl sid expires flag) t =
    let (found, t') = update_ttl sid expires flag t in (wrote found, t')
perform (new_port sid port) t = (done, update_port sid port t)
perform (delete_row sid) t = let (found, t') = delete sid t in (wrote found, t')
perform (claim now) t =
    let (taken, t') = claim_expired now t in (claimed (λ sid. contains sid (ids taken)), t')

unfoldable pub present : Option Session → Bool
present none = false
present (some r) = true

-- Whether there is a row, and it passes a test
unfoldable pub passes : (Session → Bool) → Option Session → Bool
passes p none = false
passes p (some r) = p r

abbrev pub with_port : ℕ → Session → Session
with_port port r = record r { port = port }

unfoldable pub put : String → (Option Session → Option Session) → Rows → Rows
put sid f m j = if sid == j then f (m j) else m j

unfoldable pub insert_at : Reply → Session → Rows → Reply × Rows
unfolding present put
insert_at reply r m =
    if present (m r.id)
    then (raised (integrity_error "UNIQUE constraint failed: sessions.id"), m)
    else (reply, put r.id (λ _. some r) m)

unfoldable pub insert_checked : Reply → Result Session → Rows → Reply × Rows
unfolding insert_at
insert_checked reply (err e) m = (raised e, m)
insert_checked reply (ok r) m = insert_at reply r m

-- What a reservation does with the port that the allocator gives
unfoldable pub insert_reserved : (ℕ → Draft) → Result ℕ → Rows → Reply × Rows
unfolding insert_checked
insert_reserved make (err e) m = (raised e, m)
insert_reserved make (ok port) m = insert_checked (reserved (make port)) (check (make port)) m

-- What each method is for, on the map, where `used` lists the ports in use
unfoldable pub promised : Op → List ℕ → Rows → Reply × Rows
unfolding insert_checked insert_reserved present passes put
promised (create_row d) used m = insert_checked done (check d) m
promised (reserve make allocate) used m = insert_reserved make (allocate used) m
promised (set_row_status sid status) used m =
    if is_valid status
    then (done, put sid (Option.map (with_status status)) m)
    else (raised (value_error ("invalid status: " <> status_text status)), m)
promised (to_ready sid creds expires max) used m = (
  wrote (passes (λ r. is_starting r.status) (m sid)),
  put sid (Option.map (λ r. if is_starting r.status then made_ready creds expires max r else r)) m,
)
promised (to_nuked sid) used m = (
  done,
  put sid
      (Option.map
        (λ r. if not (is_nuked r.status || is_expired r.status) then with_status nuked r else r))
      m,
)
promised (new_ttl sid expires flag) used m =
    (wrote (present (m sid)), put sid (Option.map (with_ttl expires flag)) m)
promised (new_port sid port) used m = (done, put sid (Option.map (with_port port)) m)
promised (delete_row sid) used m = (wrote (present (m sid)), put sid (λ _. none) m)
promised (claim now) used m = (
  claimed (λ sid. passes (is_due now) (m sid)),
  λ sid. Option.map (λ r. if is_due now r then with_status expired r else r) (m sid),
)

-- The operations one after the other, and their replies
unfoldable pub perform_all : List Op → Table → List Reply × Table
unfolding perform
perform_all [] t = ([], t)
perform_all (op ∷ ops) t =
    let (reply, t') = perform op t in
    let (replies, t'') = perform_all ops t' in (reply ∷ replies, t'')

-- The list has the ports of the rows that hold one, and no other.
pub PortsOf : List ℕ → Rows → Type 0
PortsOf used m =
    (port : ℕ)
    → (contains port used ≡ true) ↔ (
        (sid : String) × (r : Session) × (m sid ≡ some r)
        × (is_active r.status ≡ true)
        × (r.port ≡ port))

-- The replies and the rows that the operations promise, one after the other
unfoldable pub PromisedAll : List Op → Rows → List Reply → Rows → Type 0
PromisedAll [] m replies m' = (replies ≡ []) × (m' ≡ m)
PromisedAll (op ∷ ops) m replies m' =
    (used : List ℕ) × PortsOf used m
    × (rest : List Reply) × (replies ≡ (promised op used m).0 ∷ rest)
    × PromisedAll ops (promised op used m).1 rest m'
