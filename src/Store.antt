-- ===== src/Store.antt =====
-- api/state.py: the methods of `SessionStore`. The state is the table `sessions`. Each method that
-- writes runs in one transaction, which SQLite serialises, so a method is one step of the table.
pub mod Claims
pub mod Reads
pub mod PortsInUse
pub mod Unique
pub mod Reserve
pub mod Listing
pub mod Refines
use sansbox_sql.Base.{String, ◌<>◌, ℕ, Bool, not, ◌&&◌, ◌||◌}
use sansbox_sql.Base.{Option, List, [], ◌∷◌, ◌++◌, map, ltb, ◌==◌, string_eq}
use sansbox_sql.Base.{contains, select, if◌then◌else◌}
use sansbox_sql.Errors.{Result, ok, err, value_error, integrity_error, ◌>>=◌}
use sansbox_sql.Session.{
  Session, Status, ready, expired, nuked, is_valid, is_starting, is_ready, is_expired, is_nuked,
  is_error, is_active, same_status, status_text,
}
use sansbox_sql.Session.Draft.{Draft, check}
use sansbox_sql.Sql.{update, rowcount, delete_where, fetchone, order_by_desc}

abbrev pub Table : Type 0
Table = List Session

abbrev pub ids : Table → List String
ids = map (λ r. r.id)

-- `_tx`: COMMIT what the body wrote, or ROLLBACK and raise again.
unfoldable pub tx {ℓ} : {A : Type ℓ} → (Table → Result A × Table) → Table → Result A × Table
tx body t = let (r, t') = body t in elim r [ ok a ↦ (ok a, t') | err e ↦ (err e, t) ]

-- `INSERT INTO sessions`, which keeps the primary key unique.
unfoldable pub insert_row : Session → Table → Result (Unit {0}) × Table
unfolding contains
insert_row r t =
    if contains r.id (ids t)
    then (err (integrity_error "UNIQUE constraint failed: sessions.id"), t)
    else (ok tt, t ++ (r ∷ []))

unfoldable pub create : Draft → Table → Result (Unit {0}) × Table
unfolding tx insert_row check
create d t = elim (check d) [ err e ↦ (err e, t) | ok r ↦ tx (insert_row r) t ]

-- SELECT port … WHERE status IN (starting, ready, expired)
unfoldable pub used_ports : Table → List ℕ
unfolding select is_active
used_ports t = map (λ r. r.port) (select (λ r. is_active r.status) t)

-- The row of `record_factory(port)` is checked and inserted; the factory's dict is returned.
insert_draft : Draft → Table → Result Draft × Table
unfolding insert_row check
insert_draft d t = elim (check d) [
  | err e ↦ (err e, t)
  | ok r ↦ let (done, t') = insert_row r t in ((done >>= λ _. ok d), t')
]

-- The body of the transaction: an exception of `port_allocator` leaves it too.
reserve_body : (ℕ → Draft) → (List ℕ → Result ℕ) → Table → Result Draft × Table
unfolding insert_draft used_ports
reserve_body record_factory port_allocator t = elim (port_allocator (used_ports t)) [
  | err e ↦ (err e, t)
  | ok port ↦ insert_draft (record_factory port) t
]

unfoldable pub reserve_session : (ℕ → Draft) → (List ℕ → Result ℕ) → Table → Result Draft × Table
unfolding tx reserve_body
reserve_session record_factory port_allocator = tx (reserve_body record_factory port_allocator)

-- `WHERE id = ?`
abbrev pub has_id : String → Session → Bool
has_id sid r = r.id == sid

unfoldable pub get : String → Table → Option Session
unfolding fetchone
get sid t = fetchone (has_id sid) t

unfoldable pub list_all : Table → List Session
unfolding order_by_desc
list_all t = order_by_desc (λ r. r.created_at) t

unfoldable pub list_by_status : Status → Table → List Session
unfolding order_by_desc select same_status
list_by_status status t =
    order_by_desc (λ r. r.created_at) (select (λ r. same_status r.status status) t)

-- `status IN ('ready', 'expired') AND expires_at < now`
unfoldable pub is_due : ℕ → Session → Bool
unfolding is_ready is_expired
is_due now r = (is_ready r.status || is_expired r.status) && ltb r.expires_at now

abbrev pub with_status : Status → Session → Session
with_status status r = record r { status = status }

-- The rows as they were read, before the UPDATE.
unfoldable pub claim_expired : ℕ → Table → List Session × Table
unfolding select is_due update contains
claim_expired now t =
    let rows = select (is_due now) t in
    elim rows [
      | [] ↦ ([], t)
      | r ∷ rs ↦ (r ∷ rs, update (λ x. contains x.id (ids (r ∷ rs))) (with_status expired) t)
    ]

-- An invalid status is refused before the transaction begins.
unfoldable pub set_status : String → Status → Table → Result (Unit {0}) × Table
unfolding is_valid update
set_status sid status t =
    if is_valid status
    then (ok tt, update (has_id sid) (with_status status) t)
    else (err (value_error ("invalid status: " <> status_text status)), t)

-- What the UPDATE of `update_to_ready` sets.
abbrev pub made_ready : List ℕ → ℕ → ℕ → Session → Session
made_ready creds_enc expires_at max_extended_until r = record r {
  status = ready;
  creds_enc = creds_enc;
  expires_at = expires_at;
  max_extended_until = max_extended_until;
}

unfoldable pub update_to_ready : String → List ℕ → ℕ → ℕ → Table → Bool × Table
unfolding is_starting update rowcount
update_to_ready sid creds_enc expires_at max_extended_until t =
    let matching = λ (r : Session). has_id sid r && is_starting r.status in
    (
      ltb 0 (rowcount matching t),
      update matching (made_ready creds_enc expires_at max_extended_until) t,
    )

-- `status IN ('starting', 'error') AND expires_at < now`
unfoldable pub is_stuck : ℕ → Session → Bool
unfolding is_starting is_error
is_stuck now r = (is_starting r.status || is_error r.status) && ltb r.expires_at now

-- `grace_seconds` is not read. The rows keep their status.
unfoldable pub claim_stuck : ℕ → ℕ → Table → List Session × Table
unfolding select is_stuck
claim_stuck now grace_seconds t = (select (is_stuck now) t, t)

-- `id = ? AND status NOT IN ('nuked', 'expired')`
unfoldable pub mark_nuked : String → Table → Table
unfolding is_nuked is_expired update
mark_nuked sid t =
    update (λ r. has_id sid r && not (is_nuked r.status || is_expired r.status)) (with_status nuked)
      t

abbrev pub with_ttl : ℕ → ℕ → Session → Session
with_ttl new_expires_at ttl_extended r = record r {
  expires_at = new_expires_at;
  ttl_extended = ttl_extended;
}

unfoldable pub update_ttl : String → ℕ → ℕ → Table → Bool × Table
unfolding update rowcount
update_ttl sid new_expires_at ttl_extended t =
    (ltb 0 (rowcount (has_id sid) t), update (has_id sid) (with_ttl new_expires_at ttl_extended) t)

unfoldable pub update_port : String → ℕ → Table → Table
unfolding update
update_port sid port t = update (has_id sid) (λ r. record r { port = port }) t

unfoldable pub delete : String → Table → Bool × Table
unfolding delete_where rowcount
delete sid t = (ltb 0 (rowcount (has_id sid) t), delete_where (has_id sid) t)
