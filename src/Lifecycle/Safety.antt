-- ===== src/Lifecycle/Safety.antt =====
-- What holds in every table that the service can reach, under any interleaving.
use sansbox_sql.Base.{
  String, ◌+◌, ◌≤◌, some, [], ◌≡◌, subst, inl, inr, arith, string_eq, nat_eq, Distinct, All,
  All-map, ◌⊎◌,
}
use sansbox_sql.Config.{Settings}
use sansbox_sql.Session.{Session, ready, expired}
use sansbox_sql.Store.{Table, ids, used_ports, get}
use sansbox_sql.Lifecycle.{
  System, Step, reserves, readies, sets, claims, marks, reads, extends, Reach, start, later,
}
use sansbox_sql.Lifecycle.Holders.{Holds, Holds-is_active, port_owner}
use sansbox_sql.Lifecycle.Rows.{AtStatus, Deadlines, RowOk}
use sansbox_sql.Lifecycle.Invariant.{Inv}
use sansbox_sql.Lifecycle.Moves.{set_status-Inv, mark_nuked-Inv, claim_expired-Inv}
use sansbox_sql.Lifecycle.Births.{reserve-Inv, update_to_ready-Inv}
use sansbox_sql.Lifecycle.Resets.{get-RowOk, read-Inv, extend-Inv}

module _ (s : Settings) where
  pub Step-Inv : {y z : System} → Step s y z → Inv s y → Inv s z
  Step-Inv {y} (reserves sid ticket date paths dbs now) i =
      reserve-Inv s y sid ticket date paths dbs now i
  Step-Inv {y} (readies sid creds now born) i = update_to_ready-Inv s y sid creds now born i
  Step-Inv {y} (sets sid status e) i = set_status-Inv s y sid status e i
  Step-Inv {y} (claims now) i = claim_expired-Inv s y now i
  Step-Inv {y} (marks sid) i = mark_nuked-Inv s y sid i
  Step-Inv {y} (reads sid r found st z) i = read-Inv s y sid r found st z i
  Step-Inv {y} (extends r m) i = extend-Inv s y r m i

  start-Inv : Inv s (record { table = []; resets = [] })
  unfolding used_ports
  start-Inv = record { table_ok = record { keys = tt; ports = tt; rows = tt }; resets = tt }

  pub Reach-Inv : {y : System} → Reach s y → Inv s y
  Reach-Inv start = start-Inv
  Reach-Inv (later r st) = Step-Inv st (Reach-Inv r)

  in_range :
      (t : Table)
      → All (RowOk s) t
      → All (λ r. (s.sandbox_port_range_start ≤ r.port) × (r.port ≤ s.sandbox_port_range_end)) t
  in_range t = All-map (RowOk s) _ (λ r k. k.0) t

  -- In every reachable table the ids are unique, a port belongs to one session only among those that
  -- are `starting`, `ready` or `expired`, and every port lies in the configured range.
  pub ports_unique :
      {y : System}
      → Reach s y
      → Distinct (ids y.table)
        × ((a b : String) (r q : Session)
            → get a y.table ≡ some r
            → get b y.table ≡ some q
            → Holds r.status
            → Holds q.status
            → r.port ≡ q.port
            → r ≡ q)
        × All
            (λ r. (s.sandbox_port_range_start ≤ r.port) × (r.port ≤ s.sandbox_port_range_end))
            y.table
  ports_unique {y} reached =
      let k = (Reach-Inv reached).table_ok in
      (
        k.keys,
        λ a b r q h h' u v same.
            port_owner a b r q y.table k.ports h h' (Holds-is_active r.status u)
              (Holds-is_active q.status v) same,
        in_range y.table k.rows,
      )

  Deadlines-bounds :
      (r : Session)
      → s.sandbox_ttl_default_seconds ≤ s.sandbox_ttl_max_seconds
      → Deadlines s r
      → (r.created_at + s.sandbox_ttl_default_seconds ≤ r.expires_at)
        × (r.expires_at ≤ r.created_at + s.sandbox_ttl_max_seconds)
        × (r.expires_at
            ≤ r.created_at + s.sandbox_ttl_default_seconds + s.sandbox_ttl_reset_add_seconds)
        × (r.ttl_extended ≤ 1)
  Deadlines-bounds r h d = elim d.expiry [
    | inl (a, b) ↦ (omega arith, omega arith, omega arith, omega arith)
    | inr (a, b) ↦ (omega arith, omega arith, omega arith, omega arith)
  ]

  -- In every reachable table, with settings that the validators accept, a session that is ready or
  -- expired lasts at least the default TTL and never more than the maximum, counted from its
  -- creation, and was extended at most once, however many resets run at the same time.
  pub ttl_ceiling :
      {y : System} (sid : String) (r : Session)
      → s.sandbox_ttl_default_seconds ≤ s.sandbox_ttl_max_seconds
      → Reach s y
      → get sid y.table ≡ some r
      → (r.status ≡ ready) ⊎ (r.status ≡ expired)
      → (r.created_at + s.sandbox_ttl_default_seconds ≤ r.expires_at)
        × (r.expires_at ≤ r.created_at + s.sandbox_ttl_max_seconds)
        × (r.expires_at
            ≤ r.created_at + s.sandbox_ttl_default_seconds + s.sandbox_ttl_reset_add_seconds)
        × (r.ttl_extended ≤ 1)
  ttl_ceiling {y} sid r h reached found (inl st) =
      Deadlines-bounds r h
        (subst (AtStatus s r) st (get-RowOk s sid y.table r (Reach-Inv reached).table_ok found).1)
  ttl_ceiling {y} sid r h reached found (inr st) =
      Deadlines-bounds r h
        (subst (AtStatus s r) st (get-RowOk s sid y.table r (Reach-Inv reached).table_ok found).1)
