-- ===== src/Store/Refines/Steps.antt =====
-- Each operation does what is promised.
use sansbox_sql.Base.{
  String, ℕ, Bool, false, ◌&&◌, Option, none, some, List, [], ◌∷◌, ltb, string_eq, contains,
  Distinct, select, ◌≡◌, refl, sym, ap, ◌∙◌, arith, inl, inr, Bool-cases, Option-cases,
}
use sansbox_sql.Errors.{Result, Result-cases}
use sansbox_sql.Session.{Session, Status, expired, is_valid, is_starting}
use sansbox_sql.Session.Draft.{Draft, check}
use sansbox_sql.Sql.{rowcount}
use sansbox_sql.Store.{
  Table, ids, get, has_id, used_ports, set_status, update_to_ready, update_ttl, update_port, delete,
  with_status, is_due,
}
use sansbox_sql.Store.Reads.{
  count_if, rowcount_at, get-update, get-update_id, get-update_to_ready, get-mark_nuked,
  get-update_ttl, get-delete,
}
use sansbox_sql.Store.Claims.{absent-select, claim_expired-exact}
use sansbox_sql.Store.Unique.{contains-selected}
use sansbox_sql.Store.Refines.Inserts.{
  present-ids, get-append, create_refused, create_taken, create_new, unallotted, unchecked,
  id_taken, appended, reservation,
}
use sansbox_sql.Store.Refines.{
  Op, create_row, reserve, set_row_status, to_ready, to_nuked, new_ttl, new_port, delete_row, claim,
  wrote, claimed, rows, perform, present, passes, with_port, put, insert_at, insert_checked,
  insert_reserved, promised,
}

-- The operation returns what is promised, and leaves the rows that are promised.
unfoldable pub Keeps : Op → Table → Type 0
Keeps op t =
    ((perform op t).0 ≡ (promised op (used_ports t) (rows t)).0)
    × (rows (perform op t).1 ≡ (promised op (used_ports t) (rows t)).1)

present-rowcount :
    (sid : String) (t : Table) → ltb 0 (rowcount (has_id sid) t) ≡ present (get sid t)
unfolding rowcount present get
present-rowcount sid [] = refl
present-rowcount sid (r ∷ rs) = ground (arith, present-rowcount sid rs)

create-Keeps : (d : Draft) (t : Table) → Keeps (create_row d) t
unfolding Keeps perform promised insert_checked insert_at put
create-Keeps d t = elim (Result-cases (check d)) [
  | inr (e, h) ↦ rw (create_refused d e t h, h) (refl, refl)
  | inl (r, h) ↦ elim (Bool-cases (contains r.id (ids t))) [
    | inl k ↦ rw (create_taken d r t h k, h, sym (present-ids r.id t), k) (refl, refl)
    | inr k ↦
        rw (create_new d r t h k, h, sym (present-ids r.id t), k)
          (refl, λ i j. get-append j t r k i)
  ]
]

reserve-Keeps :
    (make : ℕ → Draft) (allocate : List ℕ → Result ℕ) (t : Table) → Keeps (reserve make allocate) t
unfolding Keeps perform promised insert_reserved insert_checked insert_at put
reserve-Keeps make allocate t = elim (reservation make allocate t) [
  | unallotted e h s ↦ rw (s, h) (refl, refl)
  | unchecked p e h k s ↦ rw (s, h, k) (refl, refl)
  | id_taken p r h k y s ↦ rw (s, h, k, sym (present-ids r.id t), y) (refl, refl)
  | appended p r h k n s ↦
      rw (s, h, k, sym (present-ids r.id t), n) (refl, λ i j. get-append j t r n i)
]

set_status-Keeps :
    (sid : String) (status : Status) (t : Table) → Keeps (set_row_status sid status) t
unfolding Keeps perform promised set_status put
set_status-Keeps sid status t = elim (Bool-cases (is_valid status)) [
  | inl y ↦ rw y (refl, λ i j. get-update_id sid j (with_status status) (λ r. refl) t i)
  | inr n ↦ rw n (refl, refl)
]

counted : (q : Session → Bool) (o : Option Session) → ltb 0 (count_if q o) ≡ passes q o
unfolding count_if passes
counted q none = refl
counted q (some r) = ground arith

won :
    (sid : String) (t : Table)
    → Distinct (ids t)
    → ltb 0 (rowcount (λ r. has_id sid r && is_starting r.status) t)
      ≡ passes (λ r. is_starting r.status) (get sid t)
won sid t d =
    ap (ltb 0) (rowcount_at sid (λ r. is_starting r.status) t d)
    ∙ counted (λ r. is_starting r.status) (get sid t)

to_ready-Keeps :
    (sid : String) (creds : List ℕ) (expires max : ℕ) (t : Table)
    → Distinct (ids t)
    → Keeps (to_ready sid creds expires max) t
unfolding Keeps perform promised put update_to_ready
to_ready-Keeps sid creds expires max t d =
    (ap wrote (won sid t d), λ i j. get-update_to_ready sid j creds expires max t i)

nuke-Keeps : (sid : String) (t : Table) → Keeps (to_nuked sid) t
unfolding Keeps perform promised put
nuke-Keeps sid t = (refl, λ i j. get-mark_nuked sid j t i)

ttl-Keeps : (sid : String) (expires flag : ℕ) (t : Table) → Keeps (new_ttl sid expires flag) t
unfolding Keeps perform promised put update_ttl
ttl-Keeps sid expires flag t =
    (ap wrote (present-rowcount sid t), λ i j. (get-update_ttl sid j expires flag t).1 i)

port-Keeps : (sid : String) (port : ℕ) (t : Table) → Keeps (new_port sid port) t
unfolding Keeps perform promised put update_port
port-Keeps sid port t = (refl, λ i j. get-update_id sid j (with_port port) (λ r. refl) t i)

delete-Keeps : (sid : String) (t : Table) → Keeps (delete_row sid) t
unfolding Keeps perform promised put delete
delete-Keeps sid t = (ap wrote (present-rowcount sid t), λ i j. (get-delete sid j t).1 i)

absent : (sid : String) (t : Table) → get sid t ≡ none → contains sid (ids t) ≡ false
unfolding present
absent sid t h = present-ids sid t ∙ ap present h

taken :
    (now : ℕ) (t : Table)
    → Distinct (ids t)
    → (sid : String) → contains sid (ids (select (is_due now) t)) ≡ passes (is_due now) (get sid t)
unfolding passes
taken now t d sid = elim (Option-cases (get sid t)) [
  | inl e ↦ absent-select sid (is_due now) t (absent sid t e) ∙ sym (ap (passes (is_due now)) e)
  | inr (r, e) ↦ contains-selected (is_due now) sid t r d e ∙ sym (ap (passes (is_due now)) e)
]

claim-Keeps : (now : ℕ) (t : Table) → Distinct (ids t) → Keeps (claim now) t
unfolding Keeps perform promised
claim-Keeps now t d = rw (claim_expired-exact now t d) (
  ap claimed (λ i sid. taken now t d sid i),
  λ i sid. get-update sid (is_due now) (with_status expired) (λ r. refl) t i,
)

pub Keeps-all : (op : Op) (t : Table) → Distinct (ids t) → Keeps op t
Keeps-all (create_row d) t u = create-Keeps d t
Keeps-all (reserve make allocate) t u = reserve-Keeps make allocate t
Keeps-all (set_row_status sid status) t u = set_status-Keeps sid status t
Keeps-all (to_ready sid creds expires max) t u = to_ready-Keeps sid creds expires max t u
Keeps-all (to_nuked sid) t u = nuke-Keeps sid t
Keeps-all (new_ttl sid expires flag) t u = ttl-Keeps sid expires flag t
Keeps-all (new_port sid port) t u = port-Keeps sid port t
Keeps-all (delete_row sid) t u = delete-Keeps sid t
Keeps-all (claim now) t u = claim-Keeps now t u
