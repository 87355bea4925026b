-- ===== src/Reaper/Marks.antt =====
-- The marks of one sweep, seen on the table alone.
use mathlib.Core.Option
use sansbox_sql.Base.{
  String, true, false, not, ◌||◌, some, List, [], ◌∷◌, ◌==◌, nat_eq, string_eq, if◌then◌else◌, ◌≡◌,
  refl, sym, ◌∙◌, ap, subst, inl, inr, arith, Bool-cases, Option-cases, contains, eq_iff, All,
  All-map,
}
use sansbox_sql.Session.{
  Session, Status, starting, nuked, error, is_valid, is_starting, is_ready, is_expired, is_error,
  is_nuked, same_status,
}
use sansbox_sql.Store
use sansbox_sql.Store.{Table, ids, get, with_status, is_due, is_stuck}
use sansbox_sql.Store.Reads.{get-set_status, get-mark_nuked}
use sansbox_sql.Reaper.{was_stuck, in_rows, same_row}

unfoldable pub nuke_one : List Session → Session → Table → Table
nuke_one stuck r t =
    if was_stuck r stuck then Store.mark_nuked r.id t else (Store.set_status r.id nuked t).1

unfoldable pub nuke_all : List Session → List Session → Table → Table
unfolding nuke_one
nuke_all stuck [] t = t
nuke_all stuck (r ∷ rs) t = nuke_all stuck rs (nuke_one stuck r t)

-- The mark of this record takes effect: it is unconditional, or the row is not `expired`.
pub data Fit (stuck : List Session) (t : Table) (r : Session) : Type 0 where
  outright : was_stuck r stuck ≡ false → Fit stuck t r
  open_row : ((x : Session) → get r.id t ≡ some x → is_expired x.status ≡ false) → Fit stuck t r

-- A guarded mark on a row that is not `expired` sets the status too.
guarded :
    (x : Session)
    → is_expired x.status ≡ false
    → (if not (is_nuked x.status || is_expired x.status) then with_status nuked x else x)
      ≡ with_status nuked x
unfolding is_nuked is_expired
guarded x h = ground arith

get-nuke_one :
    (stuck : List Session) (r : Session) (t : Table) (sid : String)
    → Fit stuck t r
    → get sid (nuke_one stuck r t)
      ≡ (if r.id == sid then Option.map (with_status nuked) (get sid t) else get sid t)
unfolding nuke_one
get-nuke_one stuck r t sid (outright h) = rw h (unfold is_valid in get-set_status r.id sid nuked t)
get-nuke_one stuck r t sid (open_row h) = elim (Bool-cases (was_stuck r stuck)) [
  | inr n ↦ rw n (unfold is_valid in get-set_status r.id sid nuked t)
  | inl y ↦ rw y (
      rw (get-mark_nuked r.id sid t) (elim (Option-cases (get sid t)) [
        | inl e ↦ rw e
        | inr (x, e) ↦ rw e (elim (Bool-cases (r.id == sid)) [
          | inr n ↦ rw n
          | inl same ↦ rw same (
              ap some (
                guarded x (h x (subst (λ i. get i t ≡ some x) (sym ((eq_iff r.id sid).0 same)) e))))
        ])
      ]))
]

-- A mark of any record leaves the others' marks fit.
Fit-nuke_one :
    (stuck : List Session) (r : Session) (t : Table) (q : Session)
    → Fit stuck t r
    → Fit stuck t q
    → Fit stuck (nuke_one stuck r t) q
unfolding is_expired
Fit-nuke_one stuck r t q f (outright h) = outright h
Fit-nuke_one stuck r t q f (open_row h) =
    open_row (λ x e. after x (sym (get-nuke_one stuck r t q.id f) ∙ e))
  where
    after :
        (x : Session)
        → (if r.id == q.id then Option.map (with_status nuked) (get q.id t) else get q.id t)
          ≡ some x
        → is_expired x.status ≡ false
    after x e = elim (Option-cases (get q.id t)) [
      | inl none_there ↦ absurd (ground arith)
      | inr (z, there) ↦ ground (arith, h z there)
    ]

-- After the marks of fit records, just the rows with their ids are nuked.
pub get-nuke_all :
    (stuck rs : List Session) (t : Table) (sid : String)
    → All (Fit stuck t) rs
    → get sid (nuke_all stuck rs t)
      ≡ (if contains sid (ids rs) then Option.map (with_status nuked) (get sid t) else get sid t)
unfolding nuke_all contains
get-nuke_all stuck [] t sid f = refl
get-nuke_all stuck (r ∷ rs) t sid f =
    get-nuke_all stuck rs (nuke_one stuck r t) sid (
      All-map (Fit stuck t) (Fit stuck (nuke_one stuck r t)) (λ q. Fit-nuke_one stuck r t q f.0) rs
        f.1)
    ∙ rw (get-nuke_one stuck r t sid f.0) (elim (Option-cases (get sid t)) [
      | inl e ↦ rw e (ground arith)
      | inr (x, e) ↦ rw e (ground arith)
    ])

same_row-status : (a b : Session) → same_row a b ≡ true → same_status a.status b.status ≡ true
unfolding same_row
same_row-status a b h = ground arith

-- A stuck row is `starting` or `error`.
abbrev pub Open : Session → Type 0
Open r = (is_starting r.status || is_error r.status) ≡ true

clash :
    (a b : Status)
    → (is_ready a || is_expired a) ≡ true
    → (is_starting b || is_error b) ≡ true
    → same_status a b ≡ true
    → ⊥
unfolding same_status is_ready is_expired is_starting is_error
clash a starting h k e = ground arith
clash a error h k e = ground arith
clash a _ h k e = ground arith

not_in-Open :
    (r : Session) (stuck : List Session)
    → (is_ready r.status || is_expired r.status) ≡ true
    → All Open stuck
    → in_rows r stuck ≡ false
unfolding in_rows
not_in-Open r [] h a = refl
not_in-Open r (x ∷ xs) h a = elim (Bool-cases (same_row r x)) [
  | inl y ↦ absurd (clash r.status x.status h a.0 (same_row-status r x y))
  | inr n ↦ rw n (not_in-Open r xs h a.1)
]

-- A row that was claimed as expired is not taken for a stuck one.
pub was_stuck_claimed :
    (r : Session) (stuck : List Session)
    → (is_ready r.status || is_expired r.status) ≡ true
    → All Open stuck
    → was_stuck r stuck ≡ false
unfolding was_stuck
was_stuck_claimed r stuck h a = ground (arith, not_in-Open r stuck h a)
