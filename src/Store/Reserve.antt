-- ===== src/Store/Reserve.antt =====
-- `reserve_session`: the port and the row in one transaction, or nothing.
use sansbox_sql.Base.{
  sym, ap, ◌∙◌, ℕ, false, List, [], ◌∷◌, ◌++◌, ◌≡◌, inl, inr, arith, Bool-cases, contains,
  string_eq,
}
use sansbox_sql.Errors.{Exc, Result, ok, err, Result-cases}
use sansbox_sql.Session.{Session}
use sansbox_sql.Session.Draft.{Draft, check}
use sansbox_sql.Store.{Table, ids, tx, insert_draft, reserve_body, reserve_session, used_ports}

-- A transaction that raises leaves the table as it was.
pub tx_rollback {ℓ} :
    {A : Type ℓ} (body : Table → Result A × Table) (t : Table) (e : Exc)
    → (tx body t).0 ≡ err e
    → (tx body t).1 ≡ t
unfolding tx
tx_rollback body t e h = ground arith

pub record Reserved (make : ℕ → Draft) (allocate : List ℕ → Result ℕ) (t : Table) (d : Draft)
    (t' : Table) : Type 0 where
  pub port : ℕ
  pub row : Session
  pub allocated : allocate (used_ports t) ≡ ok port
  pub made : d ≡ make port
  pub checked : check (make port) ≡ ok row
  pub fresh : contains row.id (ids t) ≡ false
  pub appended : t' ≡ t ++ (row ∷ [])

-- A reservation that succeeds has asked the allocator for a port outside the ports in use, and has
-- appended the checked row of that port, whose id is new; it returns the factory's dict.
pub reserve_session-ok :
    (make : ℕ → Draft) (allocate : List ℕ → Result ℕ) (t : Table) (d : Draft) (t' : Table)
    → reserve_session make allocate t ≡ (ok d, t')
    → Reserved make allocate t d t'
unfolding reserve_session insert_draft
reserve_session-ok make allocate t d t' h = elim (Result-cases (allocate (used_ports t))) [
  | inr (e, failed) ↦ absurd (ground arith)
  | inl (p, got) ↦ elim (Result-cases (check (make p))) [
    | inr (e, failed) ↦ absurd (ground arith)
    | inl (r, checked) ↦ elim (Bool-cases (contains r.id (ids t))) [
      | inl old ↦ absurd (ground arith)
      | inr new ↦ record {
        port = p;
        row = r;
        allocated = got;
        made = ground arith;
        checked = checked;
        fresh = new;
        appended = ground arith;
      }
    ]
  ]
]

-- A reservation that raises leaves the table as it was: no row, and no port taken.
pub reserve_session-err :
    (make : ℕ → Draft) (allocate : List ℕ → Result ℕ) (t : Table) (e : Exc) (t' : Table)
    → reserve_session make allocate t ≡ (err e, t')
    → t' ≡ t
unfolding reserve_session
reserve_session-err make allocate t e t' h =
    sym (ap (λ x. x.1) h) ∙ tx_rollback (reserve_body make allocate) t e (ap (λ x. x.0) h)
