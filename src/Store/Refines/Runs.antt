-- ===== src/Store/Refines/Runs.antt =====
-- Sequences of operations do what is promised.
use sansbox_sql.Base.{
  String, ℕ, Bool, false, List, [], ◌∷◌, ◌==◌, string_eq, contains, Distinct, ◌≡◌, refl, sym, subst,
  arith, inl, inr, Bool-cases,
}
use sansbox_sql.Errors.{Result, Result-cases}
use sansbox_sql.Session.{Session, expired, is_valid}
use sansbox_sql.Session.Draft.{Draft, check}
use sansbox_sql.Sql.{delete_where, update}
use sansbox_sql.Sql.Laws.{map-update}
use sansbox_sql.Store.{
  Table, reserve_session, used_ports, ids, has_id, create, set_status, update_to_ready, mark_nuked,
  update_ttl, update_port, delete, with_status, is_due,
}
use sansbox_sql.Store.Claims.{claim_expired-exact}
use sansbox_sql.Store.PortsInUse.{Distinct-ids-append}
use sansbox_sql.Store.Refines.{
  Op, create_row, reserve, set_row_status, to_ready, to_nuked, new_ttl, new_port, delete_row, claim,
  rows, perform, with_port, perform_all, PromisedAll,
}
use sansbox_sql.Store.Refines.Steps.{Keeps, Keeps-all}
use sansbox_sql.Store.Refines.Ports.{used_ports-PortsOf}
use sansbox_sql.Store.Refines.Inserts.{
  create_refused, create_taken, create_new, unallotted, unchecked, id_taken, appended, reservation,
}

update-Distinct :
    (p : Session → Bool) (f : Session → Session)
    → ((r : Session) → (f r).id ≡ r.id)
    → (t : Table) → Distinct (ids t)
    → Distinct (ids (update p f t))
update-Distinct p f h t d = subst Distinct (sym (map-update (λ r. r.id) p f h t)) d

absent-delete :
    (sid j : String) (t : Table)
    → contains j (ids t) ≡ false
    → contains j (ids (delete_where (has_id sid) t)) ≡ false
unfolding contains delete_where
absent-delete sid j [] h = refl
absent-delete sid j (r ∷ rs) h = ground (arith, absent-delete sid j rs)

delete-Distinct :
    (sid : String) (t : Table) → Distinct (ids t) → Distinct (ids (delete_where (has_id sid) t))
unfolding delete_where
delete-Distinct sid [] d = tt
delete-Distinct sid (r ∷ rs) d = elim (Bool-cases (r.id == sid)) [
  | inl y ↦ rw y (delete-Distinct sid rs d.1)
  | inr n ↦ rw n (absent-delete sid r.id rs d.0, delete-Distinct sid rs d.1)
]

create-Distinct : (d : Draft) (t : Table) → Distinct (ids t) → Distinct (ids (create d t).1)
create-Distinct d t u = elim (Result-cases (check d)) [
  | inr (e, h) ↦ rw (create_refused d e t h) u
  | inl (r, h) ↦ elim (Bool-cases (contains r.id (ids t))) [
    | inl k ↦ rw (create_taken d r t h k) u
    | inr k ↦ rw (create_new d r t h k) (Distinct-ids-append r t u k)
  ]
]

reserve-Distinct :
    (make : ℕ → Draft) (allocate : List ℕ → Result ℕ) (t : Table)
    → Distinct (ids t)
    → Distinct (ids (reserve_session make allocate t).1)
reserve-Distinct make allocate t u = elim (reservation make allocate t) [
  | unallotted e h s ↦ rw s u
  | unchecked p e h k s ↦ rw s u
  | id_taken p r h k y s ↦ rw s u
  | appended p r h k n s ↦ rw s (Distinct-ids-append r t u n)
]

-- The ids stay unique.
perform-Distinct : (op : Op) (t : Table) → Distinct (ids t) → Distinct (ids (perform op t).1)
unfolding perform set_status update_to_ready mark_nuked update_ttl update_port delete
perform-Distinct (create_row d) t u = create-Distinct d t u
perform-Distinct (reserve make allocate) t u = reserve-Distinct make allocate t u
perform-Distinct (set_row_status sid status) t u = elim (Bool-cases (is_valid status)) [
  | inl y ↦ rw y (update-Distinct (has_id sid) (with_status status) (λ r. refl) t u)
  | inr n ↦ rw n u
]
perform-Distinct (to_ready sid creds expires max) t u = update-Distinct _ _ (λ r. refl) t u
perform-Distinct (to_nuked sid) t u = update-Distinct _ _ (λ r. refl) t u
perform-Distinct (new_ttl sid expires flag) t u = update-Distinct _ _ (λ r. refl) t u
perform-Distinct (new_port sid port) t u = update-Distinct _ (with_port port) (λ r. refl) t u
perform-Distinct (delete_row sid) t u = delete-Distinct sid t u
perform-Distinct (claim now) t u =
    rw (claim_expired-exact now t u)
      (update-Distinct (is_due now) (with_status expired) (λ r. refl) t u)

-- From a table with unique ids, any sequence of the operations of `SessionStore` that write gives
-- the replies, and leaves for `get` the rows, that the same sequence promises on a map from ids to
-- rows: a second row with an id is refused; a reservation asks its allocator with the ports of the
-- rows that hold one and no other, and stores the row of the port that it gives; an invalid status
-- changes nothing; `update_to_ready` changes a starting row alone, `mark_nuked` no expired one; and
-- `claim_expired` claims the due rows and no others.
pub perform_all-Refines :
    (ops : List Op) (t : Table)
    → Distinct (ids t)
    → PromisedAll ops (rows t) (perform_all ops t).0 (rows (perform_all ops t).1)
unfolding perform_all PromisedAll Keeps
perform_all-Refines [] t u = (refl, refl)
perform_all-Refines (op ∷ ops) t u =
    let (reply, state) = Keeps-all op t u in
    (
      used_ports t,
      used_ports-PortsOf t u,
      (perform_all ops (perform op t).1).0,
      (λ i. reply i ∷ (perform_all ops (perform op t).1).0),
      subst
          (λ m.
            PromisedAll ops m (perform_all ops (perform op t).1).0
              (rows (perform_all ops (perform op t).1).1))
          state (perform_all-Refines ops (perform op t).1 (perform-Distinct op t u)),
    )
