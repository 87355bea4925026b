-- ===== src/Reaper/Reaped.antt =====
-- What one sweep means for each row, and which records it returns.
use mathlib.Core.Option
use sansbox_sql.Base.{
  String, ℕ, Bool, true, false, ◌&&◌, ◌||◌, some, List, [], ◌∷◌, ◌++◌, nat_eq, string_eq,
  if◌then◌else◌, ◌≡◌, refl, sym, ◌∙◌, ap, subst, inl, inr, arith, Option-cases, contains, All,
  All-map, All-append, All-select, All-of, Distinct, select, select-append, select-select,
}
use sansbox_sql.Errors.{ok}
use sansbox_sql.Session.{Session, expired, nuked, is_starting, is_ready, is_expired, is_error}
use sansbox_sql.Sql.{update}
use sansbox_sql.Store.{Table, ids, get, with_status, is_due, is_stuck}
use sansbox_sql.Store.Reads.{get-update}
use sansbox_sql.Store.Claims.{claim_expired-exact}
use sansbox_sql.Store.Unique.{get_self, contains-selected}
use sansbox_sql.Service.{World}
use sansbox_sql.Reaper.{Teardown, reap_once}
use sansbox_sql.Reaper.Marks.{
  nuke_all, Fit, outright, open_row, get-nuke_all, Open, was_stuck_claimed,
}
use sansbox_sql.Reaper.Sweep.{Settled, torn_down, claimed, gone_rows, reap_once-Swept}

-- What a sweep at `now` makes of a row.
unfoldable pub reaped : ℕ → (String → Bool) → Session → Session
reaped now fine r =
    if is_due now r
    then (if fine r.compose_path then with_status nuked r else with_status expired r)
    else if is_stuck now r && fine r.compose_path
    then with_status nuked r
    else r

stuck_not_due : (now : ℕ) (r : Session) → is_stuck now r ≡ true → is_due now r ≡ false
unfolding is_stuck is_due is_starting is_error is_ready is_expired
stuck_not_due now r h = ground arith

-- The claim leaves the stuck rows alone.
stuck_unclaimed :
    (now : ℕ) (t : Table)
    → select (is_stuck now) (update (is_due now) (with_status expired) t) ≡ select (is_stuck now) t
unfolding select update is_stuck is_starting is_error is_due is_ready is_expired
stuck_unclaimed now [] = refl
stuck_unclaimed now (r ∷ rs) = ground (arith, stuck_unclaimed now rs)

pub claimed_lem :
    (now : ℕ) (t : Table)
    → Distinct (ids t)
    → claimed now t ≡ update (is_due now) (with_status expired) t
unfolding claimed
claimed_lem now t d = ap (λ c. c.1) (claim_expired-exact now t d)

gone_rows_lem :
    (now : ℕ) (t : Table)
    → Distinct (ids t)
    → gone_rows now t ≡ select (is_due now) t ++ select (is_stuck now) t
unfolding gone_rows
gone_rows_lem now t d =
    ap (λ rows. rows ++ select (is_stuck now) (claimed now t))
      (ap (λ c. c.0) (claim_expired-exact now t d))
    ∙ ap (λ rows. select (is_due now) t ++ rows)
        (ap (select (is_stuck now)) (claimed_lem now t d) ∙ stuck_unclaimed now t)

All-Open : (now : ℕ) (t : Table) → All Open (select (is_stuck now) t)
unfolding is_stuck
All-Open now t = All-select Open (is_stuck now) t (All-of _ (λ r h. ground arith) t)

marked_twice :
    (due stuck fine : Bool) (r : Session)
    → (if due && fine || stuck && fine
        then some (with_status nuked (if due then with_status expired r else r))
        else some (if due then with_status expired r else r))
      ≡ some (
          if due
          then (if fine then with_status nuked r else with_status expired r)
          else if stuck && fine
          then with_status nuked r
          else r)
marked_twice true true true r = refl
marked_twice true false true r = refl
marked_twice true true false r = refl
marked_twice true false false r = refl
marked_twice false true true r = refl
marked_twice false false true r = refl
marked_twice false true false r = refl
marked_twice false false false r = refl

contains-ids-append :
    (sid : String) (a b : Table)
    → contains sid (ids (a ++ b)) ≡ (contains sid (ids a) || contains sid (ids b))
unfolding contains
contains-ids-append sid [] b = refl
contains-ids-append sid (r ∷ rs) b = ground (arith, contains-ids-append sid rs b)

module _ (now : ℕ) (fine : String → Bool) (t : Table) (d : Distinct (ids t)) where
  after : Table
  after = update (is_due now) (with_status expired) t

  get-after :
      (sid : String)
      → get sid after
        ≡ Option.map (λ r. if is_due now r then with_status expired r else r) (get sid t)
  unfolding after
  get-after sid = get-update sid (is_due now) (with_status expired) (λ r. refl) t

  due_Fit :
      (r : Session)
      → (is_due now r && torn_down fine r) ≡ true
      → Fit (select (is_stuck now) t) after r
  unfolding is_due
  due_Fit r h =
      outright (was_stuck_claimed r (select (is_stuck now) t) (ground arith) (All-Open now t))

  stuck_Fit :
      (r : Session)
      → get r.id t ≡ some r
      → (is_stuck now r && torn_down fine r) ≡ true
      → Fit (select (is_stuck now) t) after r
  unfolding is_stuck is_starting is_error is_expired
  stuck_Fit r here h = open_row λ x e. ground (arith, get-after r.id, here, stuck_not_due now r)

  gone : List Session
  gone = select (torn_down fine) (select (is_due now) t ++ select (is_stuck now) t)

  gone_parts :
      gone
      ≡ select (λ r. is_due now r && torn_down fine r) t
        ++ select (λ r. is_stuck now r && torn_down fine r) t
  unfolding gone
  gone_parts = rw (
    select-append (torn_down fine) (select (is_due now) t) (select (is_stuck now) t),
    select-select (torn_down fine) (is_due now) t,
    select-select (torn_down fine) (is_stuck now) t,
  )

  gone_Fit : All (Fit (select (is_stuck now) t) after) gone
  gone_Fit = subst (All (Fit (select (is_stuck now) t) after)) (sym gone_parts) (
      All-append _ (select (λ r. is_due now r && torn_down fine r) t)
        (select (λ r. is_stuck now r && torn_down fine r) t)
        (All-select _ (λ r. is_due now r && torn_down fine r) t (All-of _ due_Fit t))
        (All-select _ (λ r. is_stuck now r && torn_down fine r) t
          (All-map (λ r. get r.id t ≡ some r) _ stuck_Fit t (get_self t d))))

  swept :
      (sid : String)
      → get sid (nuke_all (select (is_stuck now) t) gone after) ≡ (
          if contains sid (ids gone)
          then Option.map (with_status nuked) (get sid after)
          else get sid after)
  swept sid = get-nuke_all (select (is_stuck now) t) gone after sid gone_Fit

  contains-gone :
      (sid : String) (r : Session)
      → get sid t ≡ some r
      → contains sid (ids gone)
        ≡ ((is_due now r && torn_down fine r) || (is_stuck now r && torn_down fine r))
  contains-gone sid r here =
      ap (λ rows. contains sid (ids rows)) gone_parts
      ∙ contains-ids-append sid (select (λ r. is_due now r && torn_down fine r) t)
          (select (λ r. is_stuck now r && torn_down fine r) t)
      ∙ rw (
        contains-selected (λ r. is_due now r && torn_down fine r) sid t r d here,
        contains-selected (λ r. is_stuck now r && torn_down fine r) sid t r d here,
      )

  get_swept :
      (sid : String)
      → get sid (nuke_all (select (is_stuck now) t) gone after)
        ≡ Option.map (reaped now fine) (get sid t)
  unfolding reaped
  get_swept sid = elim (Option-cases (get sid t)) [
    | inl e ↦ rw (swept sid, get-after sid, e) (ground arith)
    | inr (r, e) ↦
        rw (swept sid, get-after sid, contains-gone sid r e, e)
          (marked_twice (is_due now r) (is_stuck now r) (torn_down fine r) r)
  ]

module _ {E : Type 0} (c : Teardown E) (fine : String → Bool) (settled : Settled c fine) where
  -- In a table with unique ids, where each teardown returns, with success as `fine` says, and leaves
  -- the table alone: `reap_once` returns the due and then the stuck records whose teardown
  -- succeeded, and afterwards a due row is `nuked` if its teardown succeeded and `expired` if not, a
  -- stuck row is `nuked` if its teardown succeeded, and every other row reads as before. A failed
  -- teardown of one row keeps no other row from its mark.
  pub get-reap_once :
      (now grace : ℕ) (volumes : Bool) (w : World E)
      → Distinct (ids w.table)
      → ((reap_once c now grace volumes w).0
          ≡ ok (
              select
                (torn_down fine)
                (select (is_due now) w.table ++ select (is_stuck now) w.table)))
        × ((sid : String)
            → get sid (reap_once c now grace volumes w).1.table
              ≡ Option.map (reaped now fine) (get sid w.table))
  unfolding after gone
  get-reap_once now grace volumes w d =
      let (result, table) = reap_once-Swept c fine settled now grace volumes w in
      (
        result ∙ ap (λ rows. ok (select (torn_down fine) rows)) (gone_rows_lem now w.table d),
        λ sid.
            ap (get sid) (
              table
              ∙ ap
                  (λ rows.
                    nuke_all (select (is_stuck now) (claimed now w.table))
                      (select (torn_down fine) rows) (claimed now w.table))
                  (gone_rows_lem now w.table d)
              ∙ ap (λ u. nuke_all (select (is_stuck now) u) (gone now fine w.table d) u)
                  (claimed_lem now w.table d)
              ∙ ap (λ rows. nuke_all rows (gone now fine w.table d) (after now fine w.table d))
                  (stuck_unclaimed now w.table))
            ∙ get_swept now fine w.table d sid,
      )
