-- ===== src/Reaper/Retried.antt =====
-- What a series of sweeps makes of a session whose time is over.
use mathlib.Core.Option
use sansbox_sql.Base.{
  String, ℕ, ◌≤◌, Bool, true, false, ◌&&◌, ◌||◌, some, List, [], ◌∷◌, nat_eq, string_eq, ◌≡◌, refl,
  sym, ◌∙◌, ap, subst, inl, inr, arith, Bool-cases, Distinct,
}
use sansbox_sql.Session.{
  Session, nuked, expired, is_valid, is_starting, is_ready, is_expired, is_error,
}
use sansbox_sql.Sql.Laws.{map-update}
use sansbox_sql.Store
use sansbox_sql.Store.{Table, ids, get, has_id, with_status, is_due, is_stuck}
use sansbox_sql.Service.{World}
use sansbox_sql.Reaper.{Teardown, reap_once, was_stuck}
use sansbox_sql.Reaper.Marks.{nuke_one, nuke_all}
use sansbox_sql.Reaper.Sweep.{Settled, claimed, reap_once-Swept}
use sansbox_sql.Reaper.Reaped.{reaped, claimed_lem, get-reap_once}

ids-nuke_one : (stuck : List Session) (r : Session) (t : Table) → ids (nuke_one stuck r t) ≡ ids t
unfolding nuke_one Store.mark_nuked Store.set_status is_valid
ids-nuke_one stuck r t = elim (Bool-cases (was_stuck r stuck)) [
  | inl y ↦ rw y (map-update (λ x. x.id) _ (with_status nuked) (λ x. refl) t)
  | inr n ↦ rw n (map-update (λ x. x.id) (has_id r.id) (with_status nuked) (λ x. refl) t)
]

ids-nuke_all : (stuck rs : List Session) (t : Table) → ids (nuke_all stuck rs t) ≡ ids t
unfolding nuke_all
ids-nuke_all stuck [] t = refl
ids-nuke_all stuck (r ∷ rs) t = ids-nuke_all stuck rs (nuke_one stuck r t) ∙ ids-nuke_one stuck r t

ids-claimed : (now : ℕ) (t : Table) → Distinct (ids t) → ids (claimed now t) ≡ ids t
ids-claimed now t d =
    ap (λ u. ids u) (claimed_lem now t d)
    ∙ map-update (λ x. x.id) (is_due now) (with_status expired) (λ x. refl) t

-- One sweep: its calls, which teardowns succeed, and its arguments
pub record Sweep (E : Type 0) : Type 0 where
  pub calls : Teardown E
  pub succeeds : String → Bool
  pub settled : Settled calls succeeds
  pub at : ℕ
  pub grace : ℕ
  pub volumes : Bool

-- The time of the row is over, and it still holds its container or its files.
unfoldable pub pending : ℕ → Session → Bool
pending now r = is_due now r || is_stuck now r

stuck_if_early :
    (now : ℕ) (r : Session) → is_due now r ≡ false → pending now r ≡ true → is_stuck now r ≡ true
unfolding pending
stuck_if_early now r early p = ground arith

pending_done :
    (now : ℕ) (fine : String → Bool) (r : Session)
    → pending now r ≡ true
    → fine r.compose_path ≡ true
    → reaped now fine r ≡ with_status nuked r
unfolding reaped
pending_done now fine r p f = elim (Bool-cases (is_due now r)) [
  | inl due ↦ rw (due, f) refl
  | inr early ↦ rw (early, stuck_if_early now r early p, f) refl
]

reaped_due :
    (now : ℕ) (fine : String → Bool) (r : Session)
    → is_due now r ≡ true
    → fine r.compose_path ≡ false
    → reaped now fine r ≡ with_status expired r
unfolding reaped
reaped_due now fine r due f = rw (due, f) refl

reaped_stuck :
    (now : ℕ) (fine : String → Bool) (r : Session)
    → is_due now r ≡ false
    → is_stuck now r ≡ true
    → fine r.compose_path ≡ false
    → reaped now fine r ≡ r
unfolding reaped
reaped_stuck now fine r early stuck f = rw (early, stuck, f) refl

-- A row whose teardown failed is `expired`, and due again.
due_again :
    (now : ℕ) (r : Session) → is_due now r ≡ true → pending now (with_status expired r) ≡ true
unfolding pending is_due is_stuck is_ready is_expired is_starting is_error
due_again now r due = ground arith

pending_failed :
    (now : ℕ) (fine : String → Bool) (r : Session)
    → pending now r ≡ true
    → fine r.compose_path ≡ false
    → pending now (reaped now fine r) ≡ true
pending_failed now fine r p f = elim (Bool-cases (is_due now r)) [
  | inl due ↦ ap (pending now) (reaped_due now fine r due f) ∙ due_again now r due
  | inr early ↦
      ap (pending now) (reaped_stuck now fine r early (stuck_if_early now r early p) f) ∙ p
]

pending_later :
    (now later : ℕ) (r : Session) → now ≤ later → pending now r ≡ true → pending later r ≡ true
unfolding pending is_due is_stuck
pending_later now later r a p = ground arith

same_path :
    (now : ℕ) (fine : String → Bool) (r : Session)
    → (reaped now fine r).compose_path ≡ r.compose_path
unfolding reaped
same_path now fine r = ground arith

same_nuked :
    (now : ℕ) (fine : String → Bool) (r : Session)
    → with_status nuked (reaped now fine r) ≡ with_status nuked r
unfolding reaped
same_nuked now fine r = elim (Bool-cases (is_due now r)) [
  | inl due ↦ elim (Bool-cases (fine r.compose_path)) [
    | inl y ↦ rw (due, y) refl
    | inr n ↦ rw (due, n) refl
  ]
  | inr early ↦ elim (Bool-cases (is_stuck now r && fine r.compose_path)) [
    | inl y ↦ rw (early, y) refl
    | inr n ↦ rw (early, n) refl
  ]
]

reaped-nuked :
    (now : ℕ) (fine : String → Bool) (r : Session)
    → reaped now fine (with_status nuked r) ≡ with_status nuked r
unfolding reaped is_due is_stuck is_ready is_expired is_starting is_error
reaped-nuked now fine r = refl

module _ {E : Type 0} where
  swept : Sweep E → World E → World E
  swept s w = (reap_once s.calls s.at s.grace s.volumes w).1

  -- The sweeps one after the other
  unfoldable pub sweeps : List (Sweep E) → World E → World E
  unfolding swept
  sweeps [] w = w
  sweeps (s ∷ ss) w = sweeps ss (swept s w)

  -- No sweep is before the time, or before the one that it follows.
  unfoldable pub InOrder : ℕ → List (Sweep E) → Type 0
  InOrder now [] = Unit {0}
  InOrder now (s ∷ ss) = (now ≤ s.at) × InOrder s.at ss

  -- Whether the teardown of the path succeeds in some sweep
  unfoldable pub torn_down_once : String → List (Sweep E) → Bool
  torn_down_once path [] = false
  torn_down_once path (s ∷ ss) = s.succeeds path || torn_down_once path ss

  swept-Distinct :
      (s : Sweep E) (w : World E) → Distinct (ids w.table) → Distinct (ids (swept s w).table)
  unfolding swept
  swept-Distinct s w d =
      subst Distinct
        (sym (
          ap (λ u. ids u) (reap_once-Swept s.calls s.succeeds s.settled s.at s.grace s.volumes w).1
          ∙ ids-nuke_all _ _ (claimed s.at w.table)
          ∙ ids-claimed s.at w.table d))
        d

  get-swept :
      (s : Sweep E) (w : World E) (sid : String) (r : Session)
      → Distinct (ids w.table)
      → get sid w.table ≡ some r
      → get sid (swept s w).table ≡ some (reaped s.at s.succeeds r)
  unfolding swept
  get-swept s w sid r d h =
      (get-reap_once s.calls s.succeeds s.settled s.at s.grace s.volumes w d).1 sid
      ∙ ap (Option.map (reaped s.at s.succeeds)) h

  nuked_stays :
      (ss : List (Sweep E)) (w : World E) (sid : String) (r : Session)
      → Distinct (ids w.table)
      → get sid w.table ≡ some (with_status nuked r)
      → get sid (sweeps ss w).table ≡ some (with_status nuked r)
  unfolding sweeps
  nuked_stays [] w sid r d h = h
  nuked_stays (s ∷ ss) w sid r d h =
      nuked_stays ss (swept s w) sid r (swept-Distinct s w d)
        (get-swept s w sid (with_status nuked r) d h ∙ ap some (reaped-nuked s.at s.succeeds r))

  -- From a table with unique ids, through any series of sweeps in the order of their times, in which
  -- each teardown returns and leaves the table alone: a session that is due or stuck when they begin
  -- is `nuked` at the end if its teardown succeeds in any one of them, whatever failed before or
  -- after, and its row is otherwise as it was.
  pub sweeps-Retried :
      (ss : List (Sweep E)) (now : ℕ) (w : World E) (sid : String) (r : Session)
      → Distinct (ids w.table)
      → InOrder now ss
      → get sid w.table ≡ some r
      → pending now r ≡ true
      → torn_down_once r.compose_path ss ≡ true
      → get sid (sweeps ss w).table ≡ some (with_status nuked r)
  unfolding sweeps InOrder torn_down_once
  sweeps-Retried [] now w sid r d order h p once = absurd cc
  sweeps-Retried (s ∷ ss) now w sid r d (a, order) h p once =
      let there = get-swept s w sid r d h in
      let p' = pending_later now s.at r a p in
      elim (Bool-cases (s.succeeds r.compose_path)) [
        | inl y ↦
            nuked_stays ss (swept s w) sid r (swept-Distinct s w d)
              (there ∙ ap some (pending_done s.at s.succeeds r p' y))
        | inr n ↦
            sweeps-Retried ss s.at (swept s w) sid (reaped s.at s.succeeds r) (swept-Distinct s w d)
              order there (pending_failed s.at s.succeeds r p' n)
              (ap (λ path. torn_down_once path ss) (same_path s.at s.succeeds r) ∙ ground arith)
            ∙ ap some (same_nuked s.at s.succeeds r)
      ]
