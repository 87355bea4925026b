-- ===== src/Lifecycle/Resets.antt =====
-- The two transactions of `reset_ttl` keep the invariant, whatever stands between them.
use sansbox_sql.Base.{
  String, ℕ, ◌+◌, some, List, [], ◌∷◌, ◌≡◌, refl, sym, ◌∙◌, ap, subst, inl, inr, arith, string_eq,
  eq_iff, All, All-map, All-zip,
}
use sansbox_sql.Config.{Settings}
use sansbox_sql.Session.{Session, ready, is_starting}
use sansbox_sql.Sql.{update}
use sansbox_sql.Sql.Laws.{All-update, fetchone-All}
use sansbox_sql.Store
use sansbox_sql.Store.{Table, ids, get, has_id, with_ttl}
use sansbox_sql.Store.Reads.{id-get}
use sansbox_sql.Store.Unique.{get_unique, contains-get}
use sansbox_sql.Service.{extended}
use sansbox_sql.Lifecycle.{System, In, with_table}
use sansbox_sql.Lifecycle.Rows.{AtStatus, Deadlines, RowOk, Later, ResetOk, with_ttl-RowOk}
use sansbox_sql.Lifecycle.Invariant.{TableOk, Inv, Gentle, update-Inv}

module _ (s : Settings) where
  pub get-RowOk :
      (sid : String) (t : Table) (r : Session) → TableOk s t → get sid t ≡ some r → RowOk s r
  unfolding get
  get-RowOk sid t r k h = fetchone-All (RowOk s) (has_id sid) t r k.rows h

  not_extended :
      (r : Session)
      → Deadlines s r
      → r.ttl_extended ≡ 0
      → r.expires_at ≡ r.created_at + s.sandbox_ttl_default_seconds
  not_extended r d z = elim d.expiry [ inl e ↦ e.1 | inr e ↦ absurd (omega (arith, e.0)) ]

  pub read-Inv :
      (y : System) (sid : String) (r : Session)
      → get sid y.table ≡ some r
      → r.status ≡ ready
      → r.ttl_extended ≡ 0
      → Inv s y
      → Inv s (record y { resets = r ∷ y.resets })
  unfolding is_starting
  read-Inv y sid r found st z i =
      let k = get-RowOk sid y.table r i.table_ok found in
      let d = subst (AtStatus s r) st k.1 in
      let same_id = id-get sid y.table r found in
      record {
        table_ok = i.table_ok;
        resets = (
          record {
            max = d.max;
            expiry = not_extended r d z;
            present =
                contains-get r.id y.table r
                  (subst (λ n. get n y.table ≡ some r) (sym same_id) found);
            since =
                All-map (λ x. x.id ≡ sid → x ≡ r) (Later s r)
                  (λ x same e. (
                    ground (arith, same (e ∙ same_id)),
                    ap (λ v. v.created_at) (same (e ∙ same_id)),
                  ))
                  y.table (get_unique sid y.table r i.table_ok.keys found);
          },
          i.resets,
        );
      }

  pending :
      (y : System) (r : Session) (rs : List Session)
      → All (ResetOk s y.table) rs
      → In r rs
      → ResetOk s y.table r
  pending y r [] a m = absurd m
  pending y r (x ∷ xs) a (inl e) = subst (ResetOk s y.table) (sym e) a.0
  pending y r (x ∷ xs) a (inr m) = pending y r xs a.1 m

  extending : (sid : String) (e n : ℕ) → Gentle s (has_id sid) (with_ttl e n)
  extending sid e n = record {
    id = λ r. refl;
    created = λ r. refl;
    frees = record { port = λ r. refl; active = λ r p h. h };
    begins = λ r h. h;
  }

  pub extend-Inv :
      (y : System) (r0 : Session)
      → In r0 y.resets
      → Inv s y
      → Inv s (with_table y (Store.update_ttl r0.id (extended s r0) 1 y.table).1)
  unfolding Store.update_ttl
  extend-Inv y r0 m i =
      let o = pending y r0 y.resets i.resets m in
      let f = with_ttl (extended s r0) 1 in
      update-Inv s y (has_id r0.id) f (extending r0.id (extended s r0) 1)
        (All-map (λ r. RowOk s r × Later s r0 r) (RowOk s) (λ r k. k.0)
          (update (has_id r0.id) f y.table)
          (All-update (λ r. RowOk s r × Later s r0 r) (has_id r0.id) f
            (λ r p k.
              let (begun, born) = k.1 ((eq_iff r.id r0.id).0 p) in
              (with_ttl-RowOk s y.table r0 r o begun born k.0, k.1))
            y.table (All-zip (RowOk s) (Later s r0) y.table i.table_ok.rows o.since)))
        i
