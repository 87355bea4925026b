-- ===== src/Session/Draft/Checks.antt =====
-- The checks of `create` and `reserve_session` accept just the complete dicts with a valid status.
use sansbox_sql.Base.{List-cases, ◌⊎◌, inl, inr, ◌<>◌, true, false, [], ◌≡◌, ◌≢◌, arith}
use sansbox_sql.Errors.{Exc, Result-cases, ok, err, value_error}
use sansbox_sql.Session.{Session, is_valid, status_text}
use sansbox_sql.Session.Draft.{Draft, draft_of, missing, row, check, list_repr}

row-draft : (d : Draft) (r : Session) → row d ≡ ok r → (d ≡ draft_of r) × (r.ttl_extended ≡ 0)
unfolding row
row-draft d r h = (ground arith, ground arith)

-- A dict is accepted only if it has every required column and a valid status, and the row then has
-- just those columns, with `ttl_extended` 0.
pub check-ok :
    (d : Draft) (r : Session)
    → check d ≡ ok r
    → (d ≡ draft_of r) × (is_valid r.status ≡ true) × (r.ttl_extended ≡ 0)
unfolding check
check-ok d r h = ground (arith, row-draft d r)

-- No lookup of a column fails once no column is missing.
row_total : (d : Draft) (e : Exc) → missing d ≡ [] → row d ≢ err e
unfolding missing row
row_total d e h = ground arith

-- A refusal is a `ValueError`: it names the missing columns, or else an invalid status.
pub check-err :
    (d : Draft) (e : Exc)
    → check d ≡ err e
    → ((missing d ≢ []) × (e ≡ value_error ("record missing fields: " <> list_repr (missing d))))
      ⊎ ((r : Session) × (row d ≡ ok r)
          × (is_valid r.status ≡ false)
          × (e ≡ value_error ("invalid status: " <> status_text r.status)))
unfolding check
check-err d e h = elim (List-cases (missing d)) [
  | inr some_missing ↦ inl (ground arith, ground arith)
  | inl complete ↦ elim (Result-cases (row d)) [
    | inl (r, found) ↦ inr (r, found, ground (arith, row-draft d r), ground (arith, row-draft d r))
    | inr (f, failed) ↦ absurd (row_total d f complete failed)
  ]
]
