-- ===== src/Lifecycle/Invariant.antt =====
-- Each transaction keeps the table in order.
use sansbox_sql.Base.{
  Bool, true, ◌≡◌, sym, ◌∙◌, subst, arith, contains, nat_eq, string_eq, Distinct, All, All-map,
}
use sansbox_sql.Config.{Settings}
use sansbox_sql.Session.{Session, is_starting}
use sansbox_sql.Sql.{update}
use sansbox_sql.Sql.Laws.{map-update, All-update}
use sansbox_sql.Store.{Table, ids, used_ports}
use sansbox_sql.Store.PortsInUse.{Frees, Distinct-used_ports-update}
use sansbox_sql.Lifecycle.{System, with_table}
use sansbox_sql.Lifecycle.Rows.{RowOk, Later, ResetOk}

module _ (s : Settings) where
  pub record TableOk (t : Table) : Type 0 where
    pub keys : Distinct (ids t)
    pub ports : Distinct (used_ports t)
    pub rows : All (RowOk s) t

  pub record Inv (y : System) : Type 0 where
    pub table_ok : TableOk y.table
    pub resets : All (ResetOk s y.table) y.resets

  -- An UPDATE that keeps ids, ports and creation times, gives no port back and brings no row back to
  -- `starting`.
  pub record Gentle (p : Session → Bool) (f : Session → Session) : Type 0 where
    pub id : (r : Session) → (f r).id ≡ r.id
    pub created : (r : Session) → (f r).created_at ≡ r.created_at
    pub frees : Frees p f
    pub begins : (r : Session) → is_starting (f r).status ≡ true → is_starting r.status ≡ true

  update-Later :
      (r0 : Session) (p : Session → Bool) (f : Session → Session) (t : Table)
      → Gentle p f
      → All (Later s r0) t
      → All (Later s r0) (update p f t)
  update-Later r0 p f t g h =
      All-update (Later s r0) p f
        (λ r _ l e.
          let (a, b) = l (sym (g.id r) ∙ e) in (ground (arith, g.begins r), g.created r ∙ b))
        t h

  pub update-Inv :
      (y : System) (p : Session → Bool) (f : Session → Session)
      → Gentle p f
      → All (RowOk s) (update p f y.table)
      → Inv y
      → Inv (with_table y (update p f y.table))
  update-Inv y p f g rows i =
      let same = map-update (λ r. r.id) p f g.id y.table in
      record {
        table_ok = record {
          keys = subst Distinct (sym same) i.table_ok.keys;
          ports = Distinct-used_ports-update p f g.frees y.table i.table_ok.ports;
          rows = rows;
        };
        resets =
            All-map (ResetOk s y.table) (ResetOk s (update p f y.table))
              (λ r0 o. record {
                max = o.max;
                expiry = o.expiry;
                present = subst (λ l. contains r0.id l ≡ true) (sym same) o.present;
                since = update-Later r0 p f y.table g o.since;
              })
              y.resets i.resets;
      }
