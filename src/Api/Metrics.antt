-- ===== src/Api/Metrics.antt =====
-- When `metrics` answers.
use sansbox_sql.Base.{
  String, ℕ, zero, suc, List, [], ◌∷◌, length, ◌≡◌, ◌⊎◌, inl, inr, refl, ◌∙◌, arith, Bool-cases,
}
use sansbox_sql.Errors.{Exc, ok, err, other_error}
use sansbox_sql.Exec.{◌>>=◌}
use sansbox_sql.Session.{Session, is_ready}
use sansbox_sql.Sql.{rowcount}
use sansbox_sql.Store.{list_all}
use sansbox_sql.Store.Listing.{list_all-Sorted}
use sansbox_sql.Service.{World}
use sansbox_sql.Api.Operations.{oldest_unused, metrics, metrics_text, by_status}

-- the ready rows
abbrev pub ready_rows : List Session → ℕ
ready_rows t = rowcount (λ r. is_ready r.status) t

oldest_none : (t : List Session) → ready_rows t ≡ 0 → oldest_unused t ≡ ok 0
unfolding oldest_unused rowcount
oldest_none [] h = refl
oldest_none (r ∷ rs) h = ground (arith, oldest_none rs)

oldest_some :
    (t : List Session) (n : ℕ)
    → ready_rows t ≡ suc n
    → (m : String) × (oldest_unused t ≡ err (other_error m))
unfolding oldest_unused rowcount
oldest_some [] n h = absurd (ground arith)
oldest_some (r ∷ rs) n h = elim (Bool-cases (is_ready r.status)) [
  | inl y ↦ rw y (_, refl)
  | inr n0 ↦ rw n0 (oldest_some rs n (ground arith))
]

module _ {E : Type 0} where
  metrics_fails :
      (w : World E) (e : Exc) → oldest_unused (list_all w.table) ≡ err e → metrics w ≡ (err e, w)
  unfolding metrics ◌>>=◌
  metrics_fails w e h = rw h refl

  metrics_answers :
      (w : World E)
      → oldest_unused (list_all w.table) ≡ ok 0
      → metrics w
        ≡ (ok (metrics_text (length (list_all w.table)) (by_status [] (list_all w.table)) 0), w)
  unfolding metrics ◌>>=◌
  metrics_answers w h = rw h refl

  -- `metrics` answers only while no session is ready, and then reports 0 as the age of the oldest
  -- ready session; as soon as there is a ready session, it raises, whatever the time is.
  pub metrics-Fails :
      (w : World E)
      → ((ready_rows w.table ≡ 0)
          × (metrics w ≡ (
            ok (metrics_text (length (list_all w.table)) (by_status [] (list_all w.table)) 0),
            w,
          )))
        ⊎ ((n : ℕ) × (ready_rows w.table ≡ suc n)
            × (m : String) × (metrics w ≡ (err (other_error m), w)))
  metrics-Fails w =
      let same = (list_all-Sorted w.table).1 (λ r. is_ready r.status) in
      go (ready_rows w.table) refl same
    where
      go :
          (n : ℕ)
          → ready_rows w.table ≡ n
          → ready_rows (list_all w.table) ≡ ready_rows w.table
          → ((ready_rows w.table ≡ 0)
              × (metrics w ≡ (
                ok (metrics_text (length (list_all w.table)) (by_status [] (list_all w.table)) 0),
                w,
              )))
            ⊎ ((n : ℕ) × (ready_rows w.table ≡ suc n)
                × (m : String) × (metrics w ≡ (err (other_error m), w)))
      go zero e same = inl (e, metrics_answers w (oldest_none (list_all w.table) (same ∙ e)))
      go (suc n) e same =
          let (m, h) = oldest_some (list_all w.table) n (same ∙ e) in
          inr (n, e, m, metrics_fails w (other_error m) h)
