-- ===== src/Lifecycle/Moves.antt =====
-- Each kind of transaction keeps the invariant of the table and of the pending resets.
use sansbox_sql.Base.{
  String, ℕ, Bool, ◌≡◌, refl, sym, subst, ◌⊎◌, inl, inr, arith, nat_eq, string_eq,
}
use sansbox_sql.Config.{Settings}
use sansbox_sql.Session.{Session, Status, expired, nuked, error, is_starting, is_active}
use sansbox_sql.Sql.{update}
use sansbox_sql.Sql.Laws.{All-update}
use sansbox_sql.Store
use sansbox_sql.Store.{
  Table, ids, get, has_id, is_due, used_ports, with_status, with_ttl, made_ready,
}
use sansbox_sql.Store.Claims.{claim_expired-exact}
use sansbox_sql.Lifecycle.{System, with_table}
use sansbox_sql.Lifecycle.Rows.{RowOk, expired-RowOk, closed-RowOk}
use sansbox_sql.Lifecycle.Invariant.{Inv, Gentle, update-Inv}

module _ (s : Settings) where
  closing :
      (p : Session → Bool) (status : Status)
      → (status ≡ nuked) ⊎ (status ≡ error)
      → Gentle s p (with_status status)
  unfolding is_active is_starting
  closing p status e = record {
    id = λ r. refl;
    created = λ r. refl;
    frees = record { port = λ r. refl; active = λ r _ h. ground arith };
    begins = λ r h. ground arith;
  }

  close-Inv :
      (y : System) (p : Session → Bool) (status : Status)
      → (status ≡ nuked) ⊎ (status ≡ error)
      → Inv s y
      → Inv s (with_table y (update p (with_status status) y.table))
  close-Inv y p status e i =
      update-Inv s y p (with_status status) (closing p status e)
        (All-update (RowOk s) p (with_status status) (λ r _ k. closed-RowOk s status r e k) y.table
          i.table_ok.rows)
        i

  pub set_status-Inv :
      (y : System) (sid : String) (status : Status)
      → (status ≡ nuked) ⊎ (status ≡ error)
      → Inv s y
      → Inv s (with_table y (Store.set_status sid status y.table).1)
  unfolding Store.set_status
  set_status-Inv y sid status (inl e) i = rw e (close-Inv y (has_id sid) nuked (inl refl) i)
  set_status-Inv y sid status (inr e) i = rw e (close-Inv y (has_id sid) error (inr refl) i)

  pub mark_nuked-Inv :
      (y : System) (sid : String) → Inv s y → Inv s (with_table y (Store.mark_nuked sid y.table))
  unfolding Store.mark_nuked
  mark_nuked-Inv y sid i = close-Inv y _ nuked (inl refl) i

  expiring : (now : ℕ) → Gentle s (is_due now) (with_status expired)
  unfolding is_active is_starting is_due
  expiring now = record {
    id = λ r. refl;
    created = λ r. refl;
    frees = record { port = λ r. refl; active = λ r p h. ground arith };
    begins = λ r h. ground arith;
  }

  pub claim_expired-Inv :
      (y : System) (now : ℕ) → Inv s y → Inv s (with_table y (Store.claim_expired now y.table).1)
  claim_expired-Inv y now i =
      subst (λ c. Inv s (with_table y c.1)) (sym (claim_expired-exact now y.table i.table_ok.keys))
        (update-Inv s y (is_due now) (with_status expired) (expiring now)
          (All-update (RowOk s) (is_due now) (with_status expired) (expired-RowOk s now) y.table
            i.table_ok.rows)
          i)
