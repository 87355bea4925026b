-- ===== src/Store/Claims.antt =====
-- `claim_expired` and `claim_stuck` over a table with unique ids.
use sansbox_sql.Base.{
  List-cases, String, ℕ, Bool, true, false, List, [], ◌∷◌, ◌≡◌, refl, sym, ◌∙◌, ap, subst, arith,
  All, contains, Distinct, select, ◌==◌, string_eq, eq_iff, inl, inr, Bool-cases,
}
use sansbox_sql.Session.{Session, expired}
use sansbox_sql.Sql.{update}
use sansbox_sql.Sql.Laws.{update_congr}
use sansbox_sql.Store.{Table, ids, claim_expired, is_due, with_status}

abbrev pub Apart : String → Table → Type 0
Apart sid = All (λ r. (sid == r.id) ≡ false)

pub Apart-of_absent : (sid : String) (t : Table) → contains sid (ids t) ≡ false → Apart sid t
unfolding contains
Apart-of_absent sid [] h = tt
Apart-of_absent sid (r ∷ rs) h =
    (ground (arith, eq_iff sid r.id, eq_iff r.id sid), Apart-of_absent sid rs (ground arith))

pub absent-select :
    (sid : String) (p : Session → Bool) (t : Table)
    → contains sid (ids t) ≡ false
    → contains sid (ids (select p t)) ≡ false
unfolding contains select
absent-select sid p [] h = refl
absent-select sid p (r ∷ rs) h = ground (arith, absent-select sid p rs)

keep_later :
    (p : Session → Bool) (x : Session) (xs t : Table)
    → Apart x.id t
    → All (λ r. contains r.id (ids xs) ≡ p r) t
    → All (λ r. contains r.id (ids (x ∷ xs)) ≡ p r) t
unfolding contains
keep_later p x xs [] a h = tt
keep_later p x xs (r ∷ rs) a h = (ground arith, keep_later p x xs rs a.1 h.1)

select_yes :
    (p : Session → Bool) (x : Session) (xs : Table)
    → p x ≡ true
    → x ∷ select p xs ≡ select p (x ∷ xs)
unfolding select
select_yes p x xs h = ground arith

select_no :
    (p : Session → Bool) (x : Session) (xs : Table) → p x ≡ false → select p xs ≡ select p (x ∷ xs)
unfolding select
select_no p x xs h = ground arith

abbrev Picks : (Session → Bool) → Table → Table → Type 0
Picks p t chosen = All (λ r. contains r.id (ids chosen) ≡ p r) t

contains_head : (sid : String) (xs : List String) → contains sid (sid ∷ xs) ≡ true
unfolding contains
contains_head sid xs = ground (arith, eq_iff sid sid)

-- Among the ids of the selected rows stand just the ids of rows that pass the test.
pub contains-ids-select :
    (p : Session → Bool) (t : Table) → Distinct (ids t) → Picks p t (select p t)
contains-ids-select p [] d = tt
contains-ids-select p (x ∷ xs) d = elim (Bool-cases (p x)) [
  | inl y ↦ subst (Picks p (x ∷ xs)) (select_yes p x xs y) (
    contains_head x.id (ids (select p xs)) ∙ sym y,
    keep_later p x (select p xs) xs (Apart-of_absent x.id xs d.0) (contains-ids-select p xs d.1),
  )
  | inr n ↦
      subst (Picks p (x ∷ xs)) (select_no p x xs n)
        (absent-select x.id p xs d.0 ∙ sym n, contains-ids-select p xs d.1)
]

pub update_unselected :
    (p : Session → Bool) (f : Session → Session) (t : Table) → select p t ≡ [] → update p f t ≡ t
unfolding select update
update_unselected p f [] h = refl
update_unselected p f (r ∷ rs) h = ground (arith, update_unselected p f rs)

-- With unique ids, `claim_expired` returns the rows that are due as they were, and marks exactly
-- those as expired: the UPDATE by ids touches no other row.
pub claim_expired-exact :
    (now : ℕ) (t : Table)
    → Distinct (ids t)
    → claim_expired now t ≡ (select (is_due now) t, update (is_due now) (with_status expired) t)
unfolding claim_expired
claim_expired-exact now t d = elim (List-cases (select (is_due now) t)) [
  | inl e ↦ rw (e, claim_expired) (ap (λ u. ([], u)) (sym (update_unselected (is_due now) _ t e)))
  | inr (r, rs, e) ↦
      rw (e, claim_expired)
        (ap (λ u. (r ∷ rs, u))
          (update_congr (λ x. contains x.id (ids (r ∷ rs))) (is_due now) _ t
            (subst (Picks (is_due now) t) e (contains-ids-select (is_due now) t d))))
]
