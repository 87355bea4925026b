-- ===== src/Lifecycle/Births.antt =====
-- The transactions of a create request keep the invariant: the reservation and `update_to_ready`.
use sansbox_sql.Base.{
  ◌≤◌, All-zip, Option-cases, String, ℕ, ◌+◌, false, some, List, [], ◌∷◌, ◌++◌, ◌≡◌, ◌≢◌, refl, sym,
  ◌∙◌, ap, subst, inl, inr, arith, contains, nat_eq, string_eq, eq_iff, Distinct, All, All-map,
  ◌&&◌,
}
use sansbox_sql.Config.{Settings}
use sansbox_sql.Errors.{Result, ok, err}
use sansbox_sql.Docker.{SessionPaths, allocate_port}
use sansbox_sql.Docker.Ports.{allocate_port-least}
use sansbox_sql.Models.{DbSpec}
use sansbox_sql.Session.{Session, starting, is_starting, is_active}
use sansbox_sql.Session.Draft.{Draft, check}
use sansbox_sql.Session.Draft.Checks.{check-ok}
use sansbox_sql.Sql.{update}
use sansbox_sql.Sql.Laws.{All-update}
use sansbox_sql.Store
use sansbox_sql.Store.{Table, ids, get, has_id, used_ports, made_ready}
use sansbox_sql.Store.PortsInUse.{
  Distinct-used_ports-append, Distinct-ids-append, All-append, contains-append,
}
use sansbox_sql.Store.Unique.{get_unique, get-none}
use sansbox_sql.Store.Reserve.{reserve_session-ok, reserve_session-err}
use sansbox_sql.Service.Calls.{factory}
use sansbox_sql.Lifecycle.{System, with_table}
use sansbox_sql.Lifecycle.Rows.{AtStatus, RowOk, Later, ResetOk, made_ready-RowOk}
use sansbox_sql.Lifecycle.Invariant.{Inv, Gentle, update-Inv}

module _ (s : Settings) where
  -- The row that is inserted is the placeholder: `starting`, not extended, within the range.
  placeholder-RowOk :
      (sid ticket date : String) (paths : SessionPaths) (dbs : List DbSpec) (now p : ℕ)
      (r : Session)
      → check (factory s sid ticket date paths dbs now p) ≡ ok r
      → (s.sandbox_port_range_start ≤ p) × (p ≤ s.sandbox_port_range_end)
      → RowOk s r × (r.id ≡ sid) × (r.port ≡ p) × (r.status ≡ starting)
  unfolding factory
  placeholder-RowOk sid ticket date paths dbs now p r h inside =
      let (same, _, unextended) = check-ok (factory s sid ticket date paths dbs now p) r h in
      let st : r.status ≡ starting = ground (arith, same) in
      (
        (
          (ground (arith, same), ground (arith, same)),
          subst (AtStatus s r) (sym st) (unextended, ground (arith, same)),
        ),
        ground (arith, same),
        ground (arith, same),
        st,
      )

  insert-Inv :
      (y : System) (r : Session)
      → RowOk s r
      → contains r.id (ids y.table) ≡ false
      → contains r.port (used_ports y.table) ≡ false
      → Inv s y
      → Inv s (with_table y (y.table ++ (r ∷ [])))
  insert-Inv y r k new free i = record {
    table_ok = record {
      keys = Distinct-ids-append r y.table i.table_ok.keys new;
      ports = Distinct-used_ports-append r y.table i.table_ok.ports free;
      rows = All-append (RowOk s) y.table r i.table_ok.rows k;
    };
    resets =
        All-map (ResetOk s y.table) (ResetOk s (y.table ++ (r ∷ [])))
          (λ r0 o. record {
            max = o.max;
            expiry = o.expiry;
            present = contains-append r0.id y.table r o.present;
            since =
                All-append (Later s r0) y.table r o.since
                  (λ e. absurd (cc (o.present, new, ap (λ x. contains x (ids y.table)) e)));
          })
          y.resets i.resets;
  }

  pub reserve-Inv :
      (y : System) (sid ticket date : String) (paths : SessionPaths) (dbs : List DbSpec) (now : ℕ)
      → Inv s y
      → Inv s (
          with_table y
            (Store.reserve_session
              (factory s sid ticket date paths dbs now)
              (λ used. allocate_port used s)
              y.table).1)
  reserve-Inv y sid ticket date paths dbs now i = go _ _ refl
    where
      make : ℕ → Draft
      make = factory s sid ticket date paths dbs now

      go :
          (r : Result Draft) (t : Table)
          → Store.reserve_session make (λ used. allocate_port used s) y.table ≡ (r, t)
          → Inv s (with_table y t)
      go (err e) t h =
          subst (λ u. Inv s (with_table y u))
            (sym (reserve_session-err make (λ used. allocate_port used s) y.table e t h)) i
      go (ok d) t h =
          let got = reserve_session-ok make (λ used. allocate_port used s) y.table d t h in
          let (free, inside, _) =
            allocate_port-least (used_ports y.table) s got.port got.allocated in
          let (k, same_id, same_port, _) =
            placeholder-RowOk sid ticket date paths dbs now got.port got.row got.checked inside in
          subst (λ u. Inv s (with_table y u)) (sym got.appended)
            (insert-Inv y got.row k got.fresh
              (subst (λ q. contains q (used_ports y.table) ≡ false) (sym same_port) free) i)

  abbrev Born : String → ℕ → Session → Type 0
  Born sid now r = r.id ≡ sid → r.created_at ≡ now

  All-Born :
      (sid : String) (now : ℕ) (t : Table)
      → Distinct (ids t)
      → ((r : Session) → get sid t ≡ some r → r.created_at ≡ now)
      → All (Born sid now) t
  All-Born sid now t d born = elim (Option-cases (get sid t)) [
    | inl e ↦
        All-map (λ x. x.id ≢ sid) (Born sid now) (λ x ne q. absurd (ne q)) t (get-none sid t e)
    | inr (r, e) ↦
        All-map (λ x. x.id ≡ sid → x ≡ r) (Born sid now)
          (λ x same q. ap (λ z. z.created_at) (same q) ∙ born r e) t (get_unique sid t r d e)
  ]

  readying :
      (sid : String) (creds : List ℕ) (e m : ℕ)
      → Gentle s (λ r. has_id sid r && is_starting r.status) (made_ready creds e m)
  unfolding is_active is_starting
  readying sid creds e m = record {
    id = λ r. refl;
    created = λ r. refl;
    frees = record { port = λ r. refl; active = λ r p h. ground arith };
    begins = λ r h. ground arith;
  }

  pub update_to_ready-Inv :
      (y : System) (sid : String) (creds : List ℕ) (now : ℕ)
      → ((r : Session) → get sid y.table ≡ some r → r.created_at ≡ now)
      → Inv s y
      → Inv s (
          with_table y
            (Store.update_to_ready sid creds
              (now + s.sandbox_ttl_default_seconds)
              (now + s.sandbox_ttl_max_seconds)
              y.table).1)
  unfolding Store.update_to_ready
  update_to_ready-Inv y sid creds now born i =
      let e = now + s.sandbox_ttl_default_seconds in
      let m = now + s.sandbox_ttl_max_seconds in
      update-Inv s y (λ r. has_id sid r && is_starting r.status) (made_ready creds e m)
        (readying sid creds e m)
        (All-map (λ r. RowOk s r × Born sid now r) (RowOk s) (λ r k. k.0)
          (update (λ r. has_id sid r && is_starting r.status) (made_ready creds e m) y.table)
          (All-update (λ r. RowOk s r × Born sid now r) _ (made_ready creds e m)
            (λ r p k. (
              made_ready-RowOk s creds now r (ground arith) (k.1 (ground (arith, eq_iff r.id sid)))
                  k.0,
              k.1,
            ))
            y.table
            (All-zip (RowOk s) (Born sid now) y.table i.table_ok.rows
              (All-Born sid now y.table i.table_ok.keys born))))
        i
