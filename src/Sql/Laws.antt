-- ===== src/Sql/Laws.antt =====
-- What an UPDATE keeps, and what a SELECT by key reads after it.
use mathlib.Core.Option
use sansbox_sql.Base.{Bool, true, some, List, [], ◌∷◌, map}
use sansbox_sql.Base.{◌≡◌, refl, subst, arith, All, if◌then◌else◌, inl, inr, Bool-cases}
use sansbox_sql.Sql.{update, rowcount, fetchone}

module _ {ℓ} {R : Type ℓ} where
  -- A column that the UPDATE does not set is unchanged, in every row.
  pub map-update {κ} :
      {A : Type κ} (k : R → A) (p : R → Bool) (f : R → R)
      → ((r : R) → k (f r) ≡ k r)
      → (t : List R) → map k (update p f t) ≡ map k t
  unfolding update
  map-update k p f h [] = refl
  map-update k p f h (r ∷ rs) = ground (arith, h r, map-update k p f h rs)

  -- A row that a test on unchanged columns finds before is found after, with the new columns.
  pub fetchone-update :
      (q p : R → Bool) (f : R → R)
      → ((r : R) → q (f r) ≡ q r)
      → (t : List R)
      → fetchone q (update p f t) ≡ Option.map (λ r. if p r then f r else r) (fetchone q t)
  unfolding fetchone update
  fetchone-update q p f h [] = refl
  fetchone-update q p f h (r ∷ rs) = ground (arith, h r, fetchone-update q p f h rs)

  pub fetchone-true : (q : R → Bool) (t : List R) (r : R) → fetchone q t ≡ some r → q r ≡ true
  unfolding fetchone
  fetchone-true q [] r h = ground arith
  fetchone-true q (x ∷ xs) r h = ground (arith, fetchone-true q xs r)

  pub fetchone-All {κ} :
      (P : R → Type κ) (q : R → Bool) (t : List R) (r : R) → All P t → fetchone q t ≡ some r → P r
  unfolding fetchone
  fetchone-All P q [] r a h = absurd (ground arith)
  fetchone-All P q (x ∷ xs) r a h = elim (Bool-cases (q x)) [
    | inl y ↦ subst P (ground arith) a.0
    | inr n ↦ fetchone-All P q xs r a.1 (ground arith)
  ]

  pub All-update {κ} :
      (P : R → Type κ) (p : R → Bool) (f : R → R)
      → ((r : R) → p r ≡ true → P r → P (f r))
      → (t : List R) → All P t
      → All P (update p f t)
  unfolding update
  All-update P p f h [] a = tt
  All-update P p f h (r ∷ rs) a = elim (Bool-cases (p r)) [
    | inl y ↦ rw y (h r y a.0, All-update P p f h rs a.1)
    | inr n ↦ rw n (a.0, All-update P p f h rs a.1)
  ]

  -- An UPDATE changes nothing exactly when its row count is 0.
  pub update_none : (p : R → Bool) (f : R → R) (t : List R) → rowcount p t ≡ 0 → update p f t ≡ t
  unfolding update rowcount
  update_none p f [] h = refl
  update_none p f (r ∷ rs) h = ground (arith, update_none p f rs)

  pub update_congr :
      (p q : R → Bool) (f : R → R) (t : List R)
      → All (λ r. p r ≡ q r) t
      → update p f t ≡ update q f t
  unfolding update
  update_congr p q f [] h = refl
  update_congr p q f (r ∷ rs) h = ground (arith, update_congr p q f rs h.1)
