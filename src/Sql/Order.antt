-- ===== src/Sql/Order.antt =====
-- `ORDER BY key DESC` sorts the rows and keeps each of them.
use sansbox_sql.Base.{
  ℕ, ◌≤◌, Bool, List, [], ◌∷◌, leb, ◌≡◌, refl, ◌∙◌, arith, All, All-map, Bool-cases, inl, inr,
}
use sansbox_sql.Sql.{rowcount, insert_desc, order_by_desc}

module _ {R : Type 0} (key : R → ℕ) where
  -- Each key is at most the keys before it.
  pub Descending : List R → Type 0
  Descending [] = Unit
  Descending (x ∷ xs) = All (λ y. key y ≤ key x) xs × Descending xs

  rowcount-insert :
      (p : R → Bool) (r : R) (xs : List R) → rowcount p (insert_desc key r xs) ≡ rowcount p (r ∷ xs)
  unfolding rowcount insert_desc
  rowcount-insert p r [] = refl
  rowcount-insert p r (x ∷ xs) = ground (arith, rowcount-insert p r xs)

  pub rowcount-order :
      (p : R → Bool) (xs : List R) → rowcount p (order_by_desc key xs) ≡ rowcount p xs
  unfolding rowcount order_by_desc
  rowcount-order p [] = refl
  rowcount-order p (r ∷ rs) =
      rowcount-insert p r (order_by_desc key rs) ∙ ground (arith, rowcount-order p rs)

  All-insert :
      (P : R → Type 0) (r : R) (xs : List R) → P r → All P xs → All P (insert_desc key r xs)
  unfolding insert_desc
  All-insert P r [] h k = (h, tt)
  All-insert P r (x ∷ xs) h k = elim (Bool-cases (leb (key x) (key r))) [
    | inl y ↦ rw y (h, k)
    | inr n ↦ rw n (k.0, All-insert P r xs h k.1)
  ]

  insert-Descending : (r : R) (xs : List R) → Descending xs → Descending (insert_desc key r xs)
  unfolding insert_desc Descending
  insert-Descending r [] h = (tt, tt)
  insert-Descending r (x ∷ xs) h = elim (Bool-cases (leb (key x) (key r))) [
    | inl y ↦
        let below : key x ≤ key r = ground arith in
        rw y (
          (below, All-map (λ z. key z ≤ key x) (λ z. key z ≤ key r) (λ z k. omega arith) xs h.0),
          h,
        )
    | inr n ↦
        rw n (All-insert (λ z. key z ≤ key x) r xs (ground arith) h.0, insert-Descending r xs h.1)
  ]

  pub order-Descending : (xs : List R) → Descending (order_by_desc key xs)
  unfolding order_by_desc Descending
  order-Descending [] = tt
  order-Descending (r ∷ rs) = insert-Descending r (order_by_desc key rs) (order-Descending rs)
