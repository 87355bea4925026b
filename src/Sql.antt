-- ===== src/Sql.antt =====
-- The SQL that api/state.py uses, over a table as the list of its rows in insertion order.
pub mod Laws
pub mod Order
use sansbox_sql.Base.{ℕ, suc, Bool, Option, none, some, List, [], ◌∷◌, leb, if◌then◌else◌}

module _ {ℓ} {R : Type ℓ} where
  -- `UPDATE … SET … WHERE`
  unfoldable pub update : (R → Bool) → (R → R) → List R → List R
  update p f [] = []
  update p f (r ∷ rs) = (if p r then f r else r) ∷ update p f rs

  -- `cursor.rowcount` of an UPDATE or a DELETE with this condition
  unfoldable pub rowcount : (R → Bool) → List R → ℕ
  rowcount p [] = 0
  rowcount p (r ∷ rs) = if p r then suc (rowcount p rs) else rowcount p rs

  -- `DELETE … WHERE`
  unfoldable pub delete_where : (R → Bool) → List R → List R
  delete_where p [] = []
  delete_where p (r ∷ rs) = let rest = delete_where p rs in if p r then rest else r ∷ rest

  -- the first row of a SELECT
  unfoldable pub fetchone : (R → Bool) → List R → Option R
  fetchone p [] = none
  fetchone p (r ∷ rs) = if p r then some r else fetchone p rs

  unfoldable insert_desc : (R → ℕ) → R → List R → List R
  insert_desc key r [] = r ∷ []
  insert_desc key r (x ∷ xs) =
      let rest = x ∷ insert_desc key r xs in if leb (key x) (key r) then r ∷ x ∷ xs else rest

  -- `ORDER BY key DESC`; rows with equal keys keep their order.
  unfoldable pub order_by_desc : (R → ℕ) → List R → List R
  unfolding insert_desc
  order_by_desc key [] = []
  order_by_desc key (r ∷ rs) = insert_desc key r (order_by_desc key rs)
