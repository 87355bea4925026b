-- ===== src/Lifecycle/Rows.antt =====
-- What holds of each row of a reachable table, and of each row that a `reset_ttl` has read.
use sansbox_sql.Base.{
  ℕ, ◌+◌, ◌≤◌, min, true, false, List, [], ◌∷◌, ◌≡◌, refl, ◌⊎◌, inl, inr, arith, contains, nat_eq,
  string_eq, All,
}
use sansbox_sql.Config.{Settings}
use sansbox_sql.Session.{
  Session, Status, starting, ready, expired, nuked, error, unknown, is_starting,
}
use sansbox_sql.Store.{Table, ids, is_due, with_status, with_ttl, made_ready}
use sansbox_sql.Service.{extended}

module _ (s : Settings) where
  -- The deadlines of a session that became ready: not extended, or extended once.
  pub record Deadlines (r : Session) : Type 0 where
    pub max : r.max_extended_until ≡ r.created_at + s.sandbox_ttl_max_seconds
    pub expiry :
        ((r.ttl_extended ≡ 0) × (r.expires_at ≡ r.created_at + s.sandbox_ttl_default_seconds))
        ⊎ ((r.ttl_extended ≡ 1)
            × (r.expires_at
                ≡ min (r.created_at + s.sandbox_ttl_max_seconds) (
                    r.created_at + s.sandbox_ttl_default_seconds
                    + s.sandbox_ttl_reset_add_seconds)))

  abbrev pub AtStatus : Session → Status → Type 0
  AtStatus r starting = (r.ttl_extended ≡ 0) × (r.creds_enc ≡ 0 ∷ [])
  AtStatus r ready = Deadlines r
  AtStatus r expired = Deadlines r
  AtStatus r nuked = Unit {0}
  AtStatus r error = Unit {0}
  AtStatus r (unknown text) = ⊥

  -- The port lies in the configured range.
  abbrev pub InRange : Session → Type 0
  InRange r = (s.sandbox_port_range_start ≤ r.port) × (r.port ≤ s.sandbox_port_range_end)

  abbrev pub RowOk : Session → Type 0
  RowOk r = InRange r × AtStatus r r.status

  -- Of a row that a `reset_ttl` has read: the row with its id has left `starting` since, and was
  -- created when it was.
  abbrev pub Later : Session → Session → Type 0
  Later r0 r = r.id ≡ r0.id → (is_starting r.status ≡ false) × (r.created_at ≡ r0.created_at)

  pub record ResetOk (t : Table) (r0 : Session) : Type 0 where
    pub max : r0.max_extended_until ≡ r0.created_at + s.sandbox_ttl_max_seconds
    pub expiry : r0.expires_at ≡ r0.created_at + s.sandbox_ttl_default_seconds
    pub present : contains r0.id (ids t) ≡ true
    pub since : All (Later r0) t

  pub expired-RowOk :
      (now : ℕ) (r : Session) → is_due now r ≡ true → RowOk r → RowOk (with_status expired r)
  unfolding is_due
  expired-RowOk now r h k = (k.0, go r.status refl k.1)
    where
      go : (st : Status) → r.status ≡ st → AtStatus r st → Deadlines (with_status expired r)
      go starting e a = absurd (ground arith)
      go ready e a = record { max = a.max; expiry = a.expiry }
      go expired e a = record { max = a.max; expiry = a.expiry }
      go nuked e a = absurd (ground arith)
      go error e a = absurd (ground arith)
      go (unknown x) e a = absurd a

  pub closed-RowOk :
      (status : Status) (r : Session)
      → (status ≡ nuked) ⊎ (status ≡ error)
      → RowOk r
      → RowOk (with_status status r)
  closed-RowOk status r (inl e) k = (k.0, rw e tt)
  closed-RowOk status r (inr e) k = (k.0, rw e tt)

  pub made_ready-RowOk :
      (creds : List ℕ) (now : ℕ) (r : Session)
      → is_starting r.status ≡ true
      → r.created_at ≡ now
      → RowOk r
      → RowOk (
          made_ready creds
            (now + s.sandbox_ttl_default_seconds)
            (now + s.sandbox_ttl_max_seconds)
            r)
  unfolding is_starting
  made_ready-RowOk creds now r h c k = (k.0, go r.status refl k.1)
    where
      go :
          (st : Status)
          → r.status ≡ st
          → AtStatus r st
          → Deadlines (
              made_ready creds
                (now + s.sandbox_ttl_default_seconds)
                (now + s.sandbox_ttl_max_seconds)
                r)
      go starting e a = record { max = omega arith; expiry = inl (a.0, omega arith) }
      go ready e a = absurd (ground arith)
      go expired e a = absurd (ground arith)
      go nuked e a = absurd (ground arith)
      go error e a = absurd (ground arith)
      go (unknown x) e a = absurd a

  extended-Deadlines :
      (t : Table) (r0 r : Session)
      → ResetOk t r0
      → r.created_at ≡ r0.created_at
      → Deadlines r
      → Deadlines (with_ttl (extended s r0) 1 r)
  unfolding extended
  extended-Deadlines t r0 r o c d = record {
    max = d.max;
    expiry = inr (refl, omega (arith, o.max, o.expiry, c));
  }

  pub with_ttl-RowOk :
      (t : Table) (r0 r : Session)
      → ResetOk t r0
      → is_starting r.status ≡ false
      → r.created_at ≡ r0.created_at
      → RowOk r
      → RowOk (with_ttl (extended s r0) 1 r)
  unfolding is_starting
  with_ttl-RowOk t r0 r o h c k = (k.0, go r.status refl k.1)
    where
      go :
          (st : Status) → r.status ≡ st → AtStatus r st → AtStatus (with_ttl (extended s r0) 1 r) st
      go starting e a = absurd (ground arith)
      go ready e a = extended-Deadlines t r0 r o c a
      go expired e a = extended-Deadlines t r0 r o c a
      go nuked e a = tt
      go error e a = tt
      go (unknown x) e a = a
