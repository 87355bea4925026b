-- ===== src/Service/Resets.antt =====
-- What `reset_ttl` does on each of its branches.
use sansbox_sql.Base.{
  String, ◌<>◌, ℕ, Bool, true, false, not, ◌&&◌, some, string_eq, leb, ltb, ◌≡◌, refl, ◌∙◌, inl,
  inr, arith, Bool-cases, eq_iff,
}
use sansbox_sql.Errors.{ok, err, permission_error}
use sansbox_sql.Exec.{◌>>=◌}
use sansbox_sql.Session.{Session, is_ready, status_text}
use sansbox_sql.Store.{get}
use sansbox_sql.Store.Reads.{get-update_ttl}
use sansbox_sql.Service.Require.{require_ok}
use sansbox_sql.Service.{World, Callables, may_reset, before_max, extended, reset_ttl}

-- The conditions under which a row's time may be extended at `now`.
unfoldable pub resettable : ℕ → Session → Bool
resettable now r =
    is_ready r.status && (not (ltb 0 r.ttl_extended) && not (leb r.max_extended_until now))

-- The row after the extension.
unfoldable pub reset_row : ℕ → Session → Session
reset_row until r = record r { expires_at = until; ttl_extended = 1 }

used_up : (now until : ℕ) (r : Session) → resettable now (reset_row until r) ≡ false
unfolding resettable reset_row
used_up now until r = ground arith

module _ {E : Type 0} (c : Callables E) where
  -- For a stored session that is ready, was not extended and has not reached its maximum at the
  -- time read, where reading the clock changes nothing: `reset_ttl` returns, and the response and
  -- the row both have the deadline `min(max, expires_at + add)`; the row is marked as extended and
  -- is otherwise unchanged.
  pub reset_ttl-granted :
      (sid : String) (w : World E) (r : Session) (now : ℕ)
      → get sid w.table ≡ some r
      → c.time w ≡ (ok now, w)
      → resettable now r ≡ true
      → ((reset_ttl c sid w).0
          ≡ ok (record {
            session_id = sid;
            expires_at = extended c.settings r;
            max_extended_until = r.max_extended_until;
            reset_used = true;
          }))
        × (get sid (reset_ttl c sid w).1.table ≡ some (reset_row (extended c.settings r) r))
  unfolding reset_ttl ◌>>=◌ may_reset before_max resettable reset_row
  reset_ttl-granted sid w r now here clock h =
      let ready : is_ready r.status ≡ true = ground (arith, h) in
      let fresh : ltb 0 r.ttl_extended ≡ false = ground (arith, h) in
      let early : leb r.max_extended_until now ≡ false = ground (arith, h) in
      rw (require_ok sid w r here, ready, fresh, clock, early)
        (
          refl,
          (get-update_ttl sid sid (extended c.settings r) 1 w.table).1
              ∙ rw here (ground (arith, eq_iff sid sid)),
        )

  -- For any other stored session, where reading the clock changes nothing, `reset_ttl` raises a
  -- `PermissionError` and changes nothing.
  pub reset_ttl-refused :
      (sid : String) (w : World E) (r : Session) (now : ℕ)
      → get sid w.table ≡ some r
      → c.time w ≡ (ok now, w)
      → resettable now r ≡ false
      → (m : String) × (reset_ttl c sid w ≡ (err (permission_error m), w))
  unfolding reset_ttl ◌>>=◌ may_reset before_max resettable
  reset_ttl-refused sid w r now here clock h = elim (Bool-cases (is_ready r.status)) [
    | inr n ↦
        ("cannot reset ttl for status=" <> status_text r.status, rw (require_ok sid w r here, n))
    | inl y ↦ elim (Bool-cases (ltb 0 r.ttl_extended)) [
      | inl extended_once ↦
          ("ttl already extended once", rw (require_ok sid w r here, y, extended_once))
      | inr fresh ↦
          let late : leb r.max_extended_until now ≡ true = ground (arith, h) in
          ("max ttl already reached", rw (require_ok sid w r here, y, fresh, clock, late))
    ]
  ]

  -- After a `reset_ttl` that was granted, where reading the clock changes nothing, a second one of
  -- the same session raises a `PermissionError` and changes nothing, whatever the time.
  pub reset_ttl-once :
      (sid : String) (w : World E) (r : Session) (now later : ℕ)
      → get sid w.table ≡ some r
      → c.time w ≡ (ok now, w)
      → resettable now r ≡ true
      → c.time (reset_ttl c sid w).1 ≡ (ok later, (reset_ttl c sid w).1)
      → (m : String) × (reset_ttl c sid (reset_ttl c sid w).1
          ≡ (err (permission_error m), (reset_ttl c sid w).1))
  reset_ttl-once sid w r now later here clock h clock' =
      reset_ttl-refused sid (reset_ttl c sid w).1 (reset_row (extended c.settings r) r) later
        (reset_ttl-granted sid w r now here clock h).1 clock'
        (used_up later (extended c.settings r) r)
