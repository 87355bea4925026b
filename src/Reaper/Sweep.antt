-- ===== src/Reaper/Sweep.antt =====
-- What one sweep does to the table, when each teardown ends in success or failure and the table is
-- left to the sweep.
use sansbox_sql.Base.{
  String, ℕ, Bool, false, List, [], ◌∷◌, ◌++◌, nat_eq, string_eq, ◌≡◌, refl, ◌∙◌, ap, inl, inr,
  Bool-cases, map, select,
}
use mathlib.Core.List.{map-append}
use sansbox_sql.Errors.{ok}
use sansbox_sql.Exec.{Exec, pure, ◌>>=◌, ◌>>◌}
use sansbox_sql.Session.{Session}
use sansbox_sql.Store
use sansbox_sql.Store.{Table, ids, get, has_id, with_status, is_due, is_stuck}
use sansbox_sql.Service.{World}
use sansbox_sql.Reaper.{
  Teardown, Outcome, teardown, run_all, mark, mark_all, sweep, sweep_some, reap_once, was_stuck,
}
use sansbox_sql.Reaper.Marks.{nuke_one, nuke_all}

-- Each teardown returns, with success just where `fine` says, and leaves the table alone.
pub record Settled {E : Type 0} (c : Teardown E) (fine : String → Bool) : Type 0 where
  pub ends :
      (path : String) (volumes : Bool) (w : World E)
      → (teardown c path volumes w).0 ≡ ok (fine path)
  pub quiet :
      (path : String) (volumes : Bool) (w : World E) → (teardown c path volumes w).1.table ≡ w.table

abbrev pub torn_down : (String → Bool) → Session → Bool
torn_down fine r = fine r.compose_path

-- The table after the claim, and the stuck rows that are then read.
unfoldable pub claimed : ℕ → Table → Table
claimed now t = (Store.claim_expired now t).1

unfoldable pub gone_rows : ℕ → Table → List Session
unfolding claimed
gone_rows now t = (Store.claim_expired now t).0 ++ select (is_stuck now) (claimed now t)

module _ {E : Type 0} (c : Teardown E) (fine : String → Bool) (settled : Settled c fine) where
  outcome : Session → Outcome
  outcome r = record { rec = r; result = ok (torn_down fine r) }

  run_all-outcomes :
      (volumes : Bool) (rs : List Session) (w : World E)
      → ((run_all c volumes rs w).0 ≡ map outcome rs) × ((run_all c volumes rs w).1.table ≡ w.table)
  unfolding run_all outcome
  run_all-outcomes volumes [] w = (refl, refl)
  run_all-outcomes volumes (r ∷ rs) w =
      let w₁ = (teardown c r.compose_path volumes w).1 in
      let (outs, same) = run_all-outcomes volumes rs w₁ in
      (
        (λ i. record { rec = r; result = settled.ends r.compose_path volumes w i } ∷ outs i),
        same ∙ settled.quiet r.compose_path volumes w,
      )

  marked : List Session → Session → World E → World E
  marked stuck r w = record w { table = nuke_one stuck r w.table }

  mark_lem :
      (stuck : List Session) (r : Session) (w : World E)
      → mark c stuck r w ≡ (ok tt, marked stuck r w)
  unfolding mark nuke_one marked Store.set_status
  mark_lem stuck r w = elim (Bool-cases (was_stuck r stuck)) [ inl y ↦ rw y | inr n ↦ rw n ]

  then_cons :
      (r : Session) (m : Exec (World E) (List Session)) (l : List Session) (w : World E)
      → (m w).0 ≡ ok l
      → (((m >>= λ rest. pure (r ∷ rest)) w).0 ≡ ok (r ∷ l))
        × (((m >>= λ rest. pure (r ∷ rest)) w).1 ≡ (m w).1)
  unfolding ◌>>=◌
  then_cons r m l w h = (rw h, rw h)

  after_mark :
      (stuck : List Session) (r : Session) (m : Exec (World E) (List Session)) (w : World E)
      → (mark c stuck r >> m) w ≡ m (marked stuck r w)
  unfolding ◌>>=◌
  after_mark stuck r m w = rw (mark_lem stuck r w)

  mark_all-table :
      (stuck rs : List Session) (w : World E)
      → ((mark_all c stuck (map outcome rs) w).0 ≡ ok (select (torn_down fine) rs))
        × ((mark_all c stuck (map outcome rs) w).1.table
            ≡ nuke_all stuck (select (torn_down fine) rs) w.table)
  unfolding mark_all outcome select nuke_all marked
  mark_all-table stuck [] w = (refl, refl)
  mark_all-table stuck (r ∷ rs) w = elim (Bool-cases (torn_down fine r)) [
    | inr n ↦ rw n (mark_all-table stuck rs w)
    | inl y ↦
        let later = mark_all c stuck (map outcome rs) in
        let (result, table) = mark_all-table stuck rs (marked stuck r w) in
        let (cons_result, cons_world) = then_cons r later _ (marked stuck r w) result in
        rw (y, after_mark stuck r (later >>= λ rest. pure (r ∷ rest)) w)
          (cons_result, ap (λ v. v.table) cons_world ∙ table)
  ]

  Swept : Exec (World E) (List Session) → List Session → List Session → World E → Type 0
  Swept m stuck rs w =
      ((m w).0 ≡ ok (select (torn_down fine) rs))
      × ((m w).1.table ≡ nuke_all stuck (select (torn_down fine) rs) w.table)

  sweep-Swept :
      (volumes : Bool) (gone stuck : List Session) (w : World E)
      → Swept (sweep c volumes gone stuck) stuck (gone ++ stuck) w
  unfolding sweep Swept
  sweep-Swept volumes gone stuck w =
      let (first, w₁) = run_all c false gone w in
      let w₂ = (run_all c volumes stuck w₁).1 in
      let (outs₁, same₁) = run_all-outcomes false gone w in
      let (outs₂, same₂) = run_all-outcomes volumes stuck w₁ in
      rw (outs₁, outs₂, ← map-append outcome gone stuck)
        (let (result, table) = mark_all-table stuck (gone ++ stuck) w₂ in
          (
            result,
            table ∙ ap (nuke_all stuck (select (torn_down fine) (gone ++ stuck))) (same₂ ∙ same₁),
          ))

  sweep_some-Swept :
      (volumes : Bool) (gone stuck : List Session) (w : World E)
      → Swept (sweep_some c volumes gone stuck) stuck (gone ++ stuck) w
  unfolding sweep_some Swept select nuke_all
  sweep_some-Swept volumes [] [] w = (refl, refl)
  sweep_some-Swept volumes (r ∷ rs) stuck w = sweep-Swept volumes (r ∷ rs) stuck w
  sweep_some-Swept volumes [] (r ∷ rs) w = sweep-Swept volumes [] (r ∷ rs) w

  pub reap_once-Swept :
      (now grace : ℕ) (volumes : Bool) (w : World E)
      → ((reap_once c now grace volumes w).0 ≡ ok (select (torn_down fine) (gone_rows now w.table)))
        × ((reap_once c now grace volumes w).1.table
            ≡ nuke_all
                (select (is_stuck now) (claimed now w.table))
                (select (torn_down fine) (gone_rows now w.table))
                (claimed now w.table))
  unfolding reap_once ◌>>=◌ Store.claim_stuck gone_rows claimed Swept
  reap_once-Swept now grace volumes w =
      sweep_some-Swept volumes (Store.claim_expired now w.table).0
        (select (is_stuck now) (Store.claim_expired now w.table).1)
        (record w { table = (Store.claim_expired now w.table).1 })
