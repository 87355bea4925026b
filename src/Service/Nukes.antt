-- ===== src/Service/Nukes.antt =====
-- What `nuke` and `nuke_by_ticket` do, whatever the teardown does short of an interrupt.
use sansbox_sql.Base.{
  String, true, false, some, none, ◌==◌, string_eq, if◌then◌else◌, ◌≡◌, refl, ◌∙◌, ap, inl, inr,
  arith, Bool-cases, Option-cases, eq_iff,
}
use sansbox_sql.Errors.{Exc, ok, err, key_error, is_exception}
use sansbox_sql.Exec.{Exec, ◌>>=◌}
use sansbox_sql.Exec.Effort.{swallowed}
use sansbox_sql.Session.{Session, Status, nuked, is_nuked, is_valid}
use sansbox_sql.Store
use sansbox_sql.Store.{Table, get, with_status}
use sansbox_sql.Store.Reads.{get-set_status}
use sansbox_sql.Service.Require.{require_ok, require_err}
use sansbox_sql.Service.{
  World, Callables, now_nuked, already_nuked, teardown_and_mark, nuke, nuke_row, nuke_by_ticket,
}

is_nuked-nuked : (s : Status) → is_nuked s ≡ true → s ≡ nuked
unfolding is_nuked
is_nuked-nuked nuked h = refl
is_nuked-nuked _ h = absurd (ground arith)

already_so : (r : Session) → is_nuked r.status ≡ true → r ≡ with_status nuked r
already_so r h i = record r { status = is_nuked-nuked r.status h i }

module _ {E : Type 0} (c : Callables E) where
  -- For a session id that is unknown or belongs to another ticket, `nuke_by_ticket` raises the same
  -- `KeyError` and changes nothing.
  pub nuke_by_ticket-hidden :
      (ticket sid : String) (w : World E)
      → ((r : Session) → get sid w.table ≡ some r → (r.ticket == ticket) ≡ false)
      → nuke_by_ticket c ticket sid w ≡ (err (key_error sid), w)
  unfolding nuke_by_ticket ◌>>=◌ nuke_row
  nuke_by_ticket-hidden ticket sid w h = elim (Option-cases (get sid w.table)) [
    | inl e ↦ rw (require_err sid w e)
    | inr (r, e) ↦ rw (require_ok sid w r e, h r e)
  ]

  -- The teardown of a session's project, as `nuke` runs it: any failure is swallowed.
  down : Session → Exec (World E) (Unit {0})
  down r = c.down_session r.compose_path none

  -- A teardown that returns or fails, and leaves the table alone.
  pub record Calm : Type 0 where
    pub no_interrupt :
        (path : String) (w : World E) (e : Exc)
        → (c.down_session path none w).0 ≡ err e
        → is_exception e ≡ true
    pub quiet : (path : String) (w : World E) → (c.down_session path none w).1.table ≡ w.table

  after_down : Session → World E → World E
  after_down r w = (c.down_session r.compose_path none w).1

  nuked_world : String → Session → World E → World E
  nuked_world sid r w = record (after_down r w) {
    table = (Store.set_status sid nuked (after_down r w).table).1;
  }

  teardown_and_mark_lem :
      (calm : Calm) (sid : String) (r : Session) (w : World E)
      → teardown_and_mark c sid r w ≡ (ok tt, nuked_world sid r w)
  unfolding teardown_and_mark ◌>>=◌ nuked_world Store.set_status after_down is_valid
  teardown_and_mark_lem calm sid r w =
      rw (swallowed (c.down_session r.compose_path none) w (calm.no_interrupt r.compose_path w))
        refl

  get-nuked_world :
      (calm : Calm) (sid : String) (r : Session) (w : World E)
      → get sid w.table ≡ some r
      → get sid (nuked_world sid r w).table ≡ some (with_status nuked r)
  unfolding nuked_world after_down is_valid
  get-nuked_world calm sid r w here =
      get-set_status sid sid nuked (after_down r w).table
      ∙ rw (calm.quiet r.compose_path w, here) (ground (arith, eq_iff sid sid))

  -- Where the teardown ends without an interrupt and leaves the table alone, `nuke` of a stored
  -- session returns and its row is `nuked` and otherwise unchanged, also if the teardown failed.
  pub nuke_lem :
      (calm : Calm) (sid : String) (r : Session) (w : World E)
      → get sid w.table ≡ some r
      → ((nuke c sid w).0 ≡ ok tt) × (get sid (nuke c sid w).1.table ≡ some (with_status nuked r))
  unfolding nuke ◌>>=◌
  nuke_lem calm sid r w here =
      rw (require_ok sid w r here, teardown_and_mark_lem calm sid r w)
        (refl, get-nuked_world calm sid r w here)

  already :
      (ticket sid : String) (r : Session) (w : World E)
      → get sid w.table ≡ some r
      → (r.ticket == ticket) ≡ true
      → is_nuked r.status ≡ true
      → nuke_by_ticket c ticket sid w ≡ (ok already_nuked, w)
  unfolding nuke_by_ticket ◌>>=◌ nuke_row
  already ticket sid r w here same gone = rw (require_ok sid w r here, same, gone)

  first_time :
      (calm : Calm) (ticket sid : String) (r : Session) (w : World E)
      → get sid w.table ≡ some r
      → (r.ticket == ticket) ≡ true
      → is_nuked r.status ≡ false
      → nuke_by_ticket c ticket sid w ≡ (ok now_nuked, nuked_world sid r w)
  unfolding nuke_by_ticket ◌>>=◌ nuke_row
  first_time calm ticket sid r w here same open_still =
      rw (require_ok sid w r here, same, open_still, teardown_and_mark_lem calm sid r w)

  -- Where the teardown ends without an interrupt and leaves the table alone, `nuke_by_ticket` with
  -- the ticket of a stored session tells whether its row was nuked before and leaves the row
  -- `nuked`; a second call tells that it was and changes nothing.
  pub nuke_by_ticket-twice :
      (calm : Calm) (ticket sid : String) (r : Session) (w : World E)
      → get sid w.table ≡ some r
      → (r.ticket == ticket) ≡ true
      → ((nuke_by_ticket c ticket sid w).0
          ≡ ok (if is_nuked r.status then already_nuked else now_nuked))
        × (get sid (nuke_by_ticket c ticket sid w).1.table ≡ some (with_status nuked r))
        × (nuke_by_ticket c ticket sid (nuke_by_ticket c ticket sid w).1
            ≡ (ok already_nuked, (nuke_by_ticket c ticket sid w).1))
  unfolding is_nuked
  nuke_by_ticket-twice calm ticket sid r w here same = elim (Bool-cases (is_nuked r.status)) [
    | inl gone ↦
        rw (gone, already ticket sid r w here same gone)
          (refl, here ∙ ap some (already_so r gone), already ticket sid r w here same gone)
    | inr open_still ↦
        rw (open_still, first_time calm ticket sid r w here same open_still)
          (
            refl,
            get-nuked_world calm sid r w here,
            already ticket sid (with_status nuked r) (nuked_world sid r w)
                (get-nuked_world calm sid r w here) same refl,
          )
  ]
