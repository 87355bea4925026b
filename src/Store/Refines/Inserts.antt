-- ===== src/Store/Refines/Inserts.antt =====
-- What the two operations that insert a row make of the table.
use sansbox_sql.Base.{
  String, ℕ, true, false, some, List, [], ◌∷◌, ◌++◌, ◌==◌, string_eq, eq_iff, contains,
  if◌then◌else◌, ◌≡◌, refl, ap, ◌∙◌, arith, inl, inr, Bool-cases,
}
use sansbox_sql.Errors.{◌>>=◌, Exc, Result, ok, err, Result-cases, integrity_error}
use sansbox_sql.Session.{Session}
use sansbox_sql.Session.Draft.{Draft, check}
use sansbox_sql.Store.{
  Table, ids, get, tx, insert_row, insert_draft, reserve_body, reserve_session, used_ports, create,
}
use sansbox_sql.Store.Refines.{present}

pub present-ids : (sid : String) (t : Table) → contains sid (ids t) ≡ present (get sid t)
unfolding contains present get
present-ids sid [] = refl
present-ids sid (r ∷ rs) = ground (arith, present-ids sid rs)

pub get-append :
    (j : String) (t : Table) (r : Session)
    → contains r.id (ids t) ≡ false
    → get j (t ++ (r ∷ [])) ≡ (if r.id == j then some r else get j t)
unfolding get contains
get-append j [] r h = ground arith
get-append j (x ∷ xs) r h =
    ground (arith, get-append j xs r, eq_iff x.id r.id, eq_iff x.id j, eq_iff r.id j)

pub create_refused : (d : Draft) (e : Exc) (t : Table) → check d ≡ err e → create d t ≡ (err e, t)
unfolding create
create_refused d e t h = rw (h, create) refl

pub committed :
    {A : Type 0} (body : Table → Result A × Table) (a : A) (t t' : Table)
    → body t ≡ (ok a, t')
    → tx body t ≡ (ok a, t')
unfolding tx
committed body a t t' h = λ i. tx (λ _. h i) t

pub rolled_back :
    {A : Type 0} (body : Table → Result A × Table) (e : Exc) (t t' : Table)
    → body t ≡ (err e, t')
    → tx body t ≡ (err e, t)
unfolding tx
rolled_back body e t t' h = λ i. tx (λ _. h i) t

create_checked :
    (d : Draft) (r : Session) (t : Table) → check d ≡ ok r → create d t ≡ tx (insert_row r) t
unfolding create
create_checked d r t h = rw (h, create) refl

insert_taken :
    (r : Session) (t : Table)
    → contains r.id (ids t) ≡ true
    → insert_row r t ≡ (err (integrity_error "UNIQUE constraint failed: sessions.id"), t)
unfolding insert_row
insert_taken r t k = rw k refl

insert_new :
    (r : Session) (t : Table)
    → contains r.id (ids t) ≡ false
    → insert_row r t ≡ (ok tt, t ++ (r ∷ []))
unfolding insert_row
insert_new r t k = rw k refl

pub create_taken :
    (d : Draft) (r : Session) (t : Table)
    → check d ≡ ok r
    → contains r.id (ids t) ≡ true
    → create d t ≡ (err (integrity_error "UNIQUE constraint failed: sessions.id"), t)
create_taken d r t h k =
    create_checked d r t h ∙ rolled_back (insert_row r) _ t t (insert_taken r t k)

pub create_new :
    (d : Draft) (r : Session) (t : Table)
    → check d ≡ ok r
    → contains r.id (ids t) ≡ false
    → create d t ≡ (ok tt, t ++ (r ∷ []))
create_new d r t h k = create_checked d r t h ∙ committed (insert_row r) tt t _ (insert_new r t k)

undrafted :
    (make : ℕ → Draft) (allocate : List ℕ → Result ℕ) (e : Exc) (t : Table)
    → allocate (used_ports t) ≡ err e
    → reserve_body make allocate t ≡ (err e, t)
unfolding reserve_body
undrafted make allocate e t h = rw (h, reserve_body) refl

reserve_unallotted :
    (make : ℕ → Draft) (allocate : List ℕ → Result ℕ) (e : Exc) (t : Table)
    → allocate (used_ports t) ≡ err e
    → reserve_session make allocate t ≡ (err e, t)
unfolding reserve_session
reserve_unallotted make allocate e t h =
    rolled_back (reserve_body make allocate) e t t (undrafted make allocate e t h)

drafted :
    (make : ℕ → Draft) (allocate : List ℕ → Result ℕ) (p : ℕ) (t : Table)
    → allocate (used_ports t) ≡ ok p
    → reserve_body make allocate t ≡ insert_draft (make p) t
unfolding reserve_body
drafted make allocate p t h = rw (h, reserve_body) refl

draft_refused : (d : Draft) (e : Exc) (t : Table) → check d ≡ err e → insert_draft d t ≡ (err e, t)
unfolding insert_draft
draft_refused d e t h = rw (h, insert_draft) refl

draft_checked :
    (d : Draft) (r : Session) (t : Table)
    → check d ≡ ok r
    → insert_draft d t ≡ (((insert_row r t).0 >>= λ _. ok d), (insert_row r t).1)
unfolding insert_draft
draft_checked d r t h = rw (h, insert_draft) refl

draft_taken :
    (d : Draft) (r : Session) (t : Table)
    → check d ≡ ok r
    → contains r.id (ids t) ≡ true
    → insert_draft d t ≡ (err (integrity_error "UNIQUE constraint failed: sessions.id"), t)
unfolding insert_draft
draft_taken d r t h k =
    draft_checked d r t h ∙ ap (λ q. ((q.0 >>= λ _. ok d), q.1)) (insert_taken r t k)

draft_new :
    (d : Draft) (r : Session) (t : Table)
    → check d ≡ ok r
    → contains r.id (ids t) ≡ false
    → insert_draft d t ≡ (ok d, t ++ (r ∷ []))
unfolding insert_draft
draft_new d r t h k =
    draft_checked d r t h ∙ ap (λ q. ((q.0 >>= λ _. ok d), q.1)) (insert_new r t k)

-- What a reservation makes of the table
pub data Reservation (make : ℕ → Draft) (allocate : List ℕ → Result ℕ) (t : Table) : Type 0 where
  unallotted :
      (e : Exc)
      → allocate (used_ports t) ≡ err e
      → reserve_session make allocate t ≡ (err e, t)
      → Reservation make allocate t
  unchecked :
      (p : ℕ) (e : Exc)
      → allocate (used_ports t) ≡ ok p
      → check (make p) ≡ err e
      → reserve_session make allocate t ≡ (err e, t)
      → Reservation make allocate t
  id_taken :
      (p : ℕ) (r : Session)
      → allocate (used_ports t) ≡ ok p
      → check (make p) ≡ ok r
      → contains r.id (ids t) ≡ true
      → reserve_session make allocate t
        ≡ (err (integrity_error "UNIQUE constraint failed: sessions.id"), t)
      → Reservation make allocate t
  appended :
      (p : ℕ) (r : Session)
      → allocate (used_ports t) ≡ ok p
      → check (make p) ≡ ok r
      → contains r.id (ids t) ≡ false
      → reserve_session make allocate t ≡ (ok (make p), t ++ (r ∷ []))
      → Reservation make allocate t

pub reservation :
    (make : ℕ → Draft) (allocate : List ℕ → Result ℕ) (t : Table) → Reservation make allocate t
unfolding reserve_session
reservation make allocate t = elim (Result-cases (allocate (used_ports t))) [
  | inr (e, h) ↦ unallotted e h (reserve_unallotted make allocate e t h)
  | inl (p, h) ↦ elim (Result-cases (check (make p))) [
    | inr (e, k) ↦ unchecked p e h k (
        rolled_back (reserve_body make allocate) e t t
          (drafted make allocate p t h ∙ draft_refused (make p) e t k))
    | inl (r, k) ↦ elim (Bool-cases (contains r.id (ids t))) [
      | inl y ↦ id_taken p r h k y (
          rolled_back (reserve_body make allocate) _ t t
            (drafted make allocate p t h ∙ draft_taken (make p) r t k y))
      | inr n ↦ appended p r h k n (
          committed (reserve_body make allocate) (make p) t (t ++ (r ∷ []))
            (drafted make allocate p t h ∙ draft_new (make p) r t k n))
    ]
  ]
]
