-- ===== src/Store/Unique.antt =====
-- With unique ids, the row that `get` finds is the only one with its id.
use sansbox_sql.Base.{
  none, subst, select, Bool, ◌≢◌, String, true, false, some, [], ◌∷◌, ◌≡◌, arith, contains,
  string_eq, eq_iff, ◌==◌, Distinct, All, inl, inr, Bool-cases,
}
use sansbox_sql.Session.{Session}
use sansbox_sql.Sql.Laws.{fetchone-All}
use sansbox_sql.Store.Reads.{id-get}
use sansbox_sql.Store.Claims.{Apart-of_absent, contains-ids-select}
use sansbox_sql.Store.{Table, ids, get, has_id}

absent-All :
    (sid : String) (r : Session) (t : Table)
    → contains sid (ids t) ≡ false
    → All (λ x. x.id ≡ sid → x ≡ r) t
unfolding contains
absent-All sid r [] h = tt
absent-All sid r (x ∷ xs) h =
    ((λ e. absurd (ground (arith, eq_iff x.id sid))), absent-All sid r xs (ground arith))

pub get_unique :
    (sid : String) (t : Table) (r : Session)
    → Distinct (ids t)
    → get sid t ≡ some r
    → All (λ x. x.id ≡ sid → x ≡ r) t
unfolding get
get_unique sid [] r d h = tt
get_unique sid (x ∷ xs) r d h = elim (Bool-cases (x.id == sid)) [
  | inl y ↦ ((λ _. ground arith), absent-All sid r xs (ground (arith, eq_iff x.id sid, d.0)))
  | inr n ↦
      ((λ e. absurd (ground (arith, eq_iff x.id sid))), get_unique sid xs r d.1 (ground arith))
]

pub contains-get :
    (sid : String) (t : Table) (r : Session) → get sid t ≡ some r → contains sid (ids t) ≡ true
unfolding get contains
contains-get sid [] r h = absurd (ground arith)
contains-get sid (x ∷ xs) r h = ground (arith, contains-get sid xs r)

pub get-none : (sid : String) (t : Table) → get sid t ≡ none → All (λ x. x.id ≢ sid) t
unfolding get
get-none sid [] h = tt
get-none sid (x ∷ xs) h = ((λ e. ground (arith, eq_iff x.id sid)), get-none sid xs (ground arith))

get_later :
    (x : Session) (xs t : Table)
    → All (λ r. (x.id == r.id) ≡ false) t
    → All (λ r. get r.id xs ≡ some r) t
    → All (λ r. get r.id (x ∷ xs) ≡ some r) t
unfolding get
get_later x xs [] a h = tt
get_later x xs (r ∷ rs) a h = (ground arith, get_later x xs rs a.1 h.1)

pub get_self : (t : Table) → Distinct (ids t) → All (λ r. get r.id t ≡ some r) t
unfolding get
get_self [] d = tt
get_self (x ∷ xs) d = (
  ground (arith, eq_iff x.id x.id),
  get_later x xs xs (Apart-of_absent x.id xs d.0) (get_self xs d.1),
)

-- Whether the id of a stored row stands among the ids of the selected rows.
pub contains-selected :
    (p : Session → Bool) (sid : String) (t : Table) (r : Session)
    → Distinct (ids t)
    → get sid t ≡ some r
    → contains sid (ids (select p t)) ≡ p r
unfolding get
contains-selected p sid t r d here =
    subst (λ i. contains i (ids (select p t)) ≡ p r) (id-get sid t r here)
      (fetchone-All (λ x. contains x.id (ids (select p t)) ≡ p x) (has_id sid) t r
        (contains-ids-select p t d) here)
