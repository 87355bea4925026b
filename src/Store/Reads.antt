-- ===== src/Store/Reads.antt =====
-- What `get` reads after each method that writes.
use mathlib.Core.Option
use sansbox_sql.Base.{
  ◌≢◌, ◌↔◌, String, ℕ, Bool, true, false, Option, none, some, List, [], ◌∷◌, ◌≡◌, refl, ap, subst,
  arith, contains, Distinct, ◌==◌, string_eq, eq_iff, inl, inr, Bool-cases, Option-cases, not, ◌&&◌,
  ◌||◌, ltb, if◌then◌else◌,
}
use sansbox_sql.Session.{
  Session, Status, starting, nuked, is_valid, is_starting, is_expired, is_nuked,
}
use sansbox_sql.Sql.{update, rowcount, delete_where}
use sansbox_sql.Sql.Laws.{fetchone-update, fetchone-true, update_none}
use sansbox_sql.Store.{
  Table, ids, get, has_id, with_status, with_ttl, made_ready, set_status, update_to_ready,
  mark_nuked, update_ttl, delete,
}

pub id-get : (sid : String) (t : Table) (r : Session) → get sid t ≡ some r → r.id ≡ sid
unfolding get
id-get sid t r h = (eq_iff r.id sid).0 (fetchone-true (has_id sid) t r h)

-- The row that `get` finds after an UPDATE which leaves the ids alone.
pub get-update :
    (sid : String) (p : Session → Bool) (f : Session → Session)
    → ((r : Session) → (f r).id ≡ r.id)
    → (t : Table) → get sid (update p f t) ≡ Option.map (λ r. if p r then f r else r) (get sid t)
unfolding get
get-update sid p f h t =
    fetchone-update (has_id sid) p f (λ r. ap (λ (s : String). s == sid) (h r)) t

-- An UPDATE of the row with one id, if the row passes a test: the others read as before.
pub get-update_at :
    (sid j : String) (q : Session → Bool) (f : Session → Session)
    → ((r : Session) → (f r).id ≡ r.id)
    → (t : Table)
    → get j (update (λ r. has_id sid r && q r) f t)
      ≡ (if sid == j then Option.map (λ r. if q r then f r else r) (get j t) else get j t)
get-update_at sid j q f h t = elim (Option-cases (get j t)) [
  | inl e ↦ rw (get-update j (λ r. has_id sid r && q r) f h t, e) (ground arith)
  | inr (r, e) ↦
      rw (get-update j (λ r. has_id sid r && q r) f h t, e)
        (ground (arith, id-get j t r e, eq_iff r.id sid, eq_iff sid j))
]

pub get-update_id :
    (sid j : String) (f : Session → Session)
    → ((r : Session) → (f r).id ≡ r.id)
    → (t : Table)
    → get j (update (has_id sid) f t) ≡ (if sid == j then Option.map f (get j t) else get j t)
get-update_id sid j f h t = elim (Option-cases (get j t)) [
  | inl e ↦ rw (get-update j (has_id sid) f h t, e) (ground arith)
  | inr (r, e) ↦
      rw (get-update j (has_id sid) f h t, e)
        (ground (arith, id-get j t r e, eq_iff r.id sid, eq_iff sid j))
]

-- A valid status is written to the one row with that id; an invalid one is refused, and nothing
-- is written.
pub get-set_status :
    (sid j : String) (status : Status) (t : Table)
    → get j (set_status sid status t).1
      ≡ (if is_valid status && sid == j then Option.map (with_status status) (get j t) else get j t)
unfolding set_status
get-set_status sid j status t = elim (Bool-cases (is_valid status)) [
  | inl y ↦ rw y (get-update_id sid j (with_status status) (λ r. refl) t)
  | inr n ↦ rw n
]

-- After `mark_nuked` the row with its id is nuked, unless its status was `nuked` or `expired`; for
-- another id, `get` reads what it read before.
pub get-mark_nuked :
    (sid j : String) (t : Table)
    → get j (mark_nuked sid t) ≡ (
        if sid == j
        then Option.map
            (λ r. if not (is_nuked r.status || is_expired r.status) then with_status nuked r else r)
            (get j t)
        else get j t)
unfolding mark_nuked
get-mark_nuked sid j t =
    get-update_at sid j (λ r. not (is_nuked r.status || is_expired r.status)) (with_status nuked)
      (λ r. refl) t

unfoldable pub count_if : (Session → Bool) → Option Session → ℕ
count_if q none = 0
count_if q (some r) = if q r then 1 else 0

rowcount_absent :
    (sid : String) (q : Session → Bool) (t : Table)
    → contains sid (ids t) ≡ false
    → rowcount (λ r. has_id sid r && q r) t ≡ 0
unfolding rowcount contains
rowcount_absent sid q [] h = refl
rowcount_absent sid q (r ∷ rs) h = ground (arith, rowcount_absent sid q rs)

pub rowcount_at :
    (sid : String) (q : Session → Bool) (t : Table)
    → Distinct (ids t)
    → rowcount (λ r. has_id sid r && q r) t ≡ count_if q (get sid t)
unfolding rowcount get count_if
rowcount_at sid q [] d = refl
rowcount_at sid q (r ∷ rs) d = ground (
  arith,
  rowcount_at sid q rs d.1,
  rowcount_absent sid q rs,
  eq_iff r.id sid,
  subst (λ s. contains s (ids rs) ≡ false) {x = r.id} {y = sid},
)

-- In a table with unique ids, `update_to_ready` returns True exactly when the row with that id is still `starting`.
pub update_to_ready-won :
    (sid : String) (creds : List ℕ) (expires max : ℕ) (t : Table)
    → Distinct (ids t)
    → ((update_to_ready sid creds expires max t).0 ≡ true)
      ↔ ((r : Session) × (get sid t ≡ some r) × (r.status ≡ starting))
unfolding update_to_ready count_if
update_to_ready-won sid creds expires max t d = (
  λ h. elim (Option-cases (get sid t)) [
    | inl e ↦ absurd (ground (arith, rowcount_at sid (λ r. is_starting r.status) t d))
    | inr (r, e) ↦ (r, e, ground (arith, rowcount_at sid (λ r. is_starting r.status) t d))
  ],
  λ (r, e, st). ground (arith, rowcount_at sid (λ r. is_starting r.status) t d),
)

-- `update_to_ready` gives the row with its id the status `ready`, the credentials and the two
-- deadlines if the row is `starting`; if it is not, or for another id, `get` reads what it read
-- before.
pub get-update_to_ready :
    (sid j : String) (creds : List ℕ) (expires max : ℕ) (t : Table)
    → get j (update_to_ready sid creds expires max t).1 ≡ (
        if sid == j
        then Option.map
            (λ r. if is_starting r.status then made_ready creds expires max r else r)
            (get j t)
        else get j t)
unfolding update_to_ready
get-update_to_ready sid j creds expires max t =
    get-update_at sid j (λ r. is_starting r.status) (made_ready creds expires max) (λ r. refl) t

-- Where `update_to_ready` returns False, the table is what it was.
pub update_to_ready-lost :
    (sid : String) (creds : List ℕ) (expires max : ℕ) (t : Table)
    → (update_to_ready sid creds expires max t).0 ≡ false
    → (update_to_ready sid creds expires max t).1 ≡ t
unfolding update_to_ready
update_to_ready-lost sid creds expires max t h =
    update_none (λ r. has_id sid r && is_starting r.status) _ t (ground arith)

rowcount_id :
    (sid : String) (t : Table) → (ltb 0 (rowcount (has_id sid) t) ≡ true) ↔ (get sid t ≢ none)
unfolding rowcount get
rowcount_id sid [] = (λ h. cc, λ h. absurd (h refl))
rowcount_id sid (r ∷ rs) = ground (arith, rowcount_id sid rs)

-- `update_ttl` returns True exactly when there is a row with that id, and writes the deadline and
-- the flag of that row alone.
pub get-update_ttl :
    (sid j : String) (expires flag : ℕ) (t : Table)
    → (((update_ttl sid expires flag t).0 ≡ true) ↔ (get sid t ≢ none))
      × (get j (update_ttl sid expires flag t).1
          ≡ (if sid == j then Option.map (with_ttl expires flag) (get j t) else get j t))
unfolding update_ttl
get-update_ttl sid j expires flag t =
    (rowcount_id sid t, get-update_id sid j (with_ttl expires flag) (λ r. refl) t)

get-delete_where :
    (sid j : String) (t : Table)
    → get j (delete_where (has_id sid) t) ≡ (if sid == j then none else get j t)
unfolding get delete_where
get-delete_where sid j [] = ground arith
get-delete_where sid j (r ∷ rs) =
    ground (arith, get-delete_where sid j rs, eq_iff r.id sid, eq_iff sid j, eq_iff r.id j)

-- `delete` returns True exactly when there was a row with that id; no row with it is left, and the
-- others read as before.
pub get-delete :
    (sid j : String) (t : Table)
    → (((delete sid t).0 ≡ true) ↔ (get sid t ≢ none))
      × (get j (delete sid t).1 ≡ (if sid == j then none else get j t))
unfolding delete
get-delete sid j t = (rowcount_id sid t, get-delete_where sid j t)
