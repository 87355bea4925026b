-- ===== src/Store/PortsInUse.antt =====
-- The ports in use, across an UPDATE and an INSERT.
use sansbox_sql.Base.{
  String, ℕ, Bool, true, false, [], ◌∷◌, ◌++◌, ◌≡◌, refl, inl, inr, arith, Bool-cases, contains,
  nat_eq, string_eq, eq_iff, ◌==◌, Distinct, All,
}
use sansbox_sql.Session.{Session, is_active}
use sansbox_sql.Sql.{update}
use sansbox_sql.Store.{Table, ids, used_ports}

-- An UPDATE that leaves the ports alone and gives no row back its port.
pub record Frees (p : Session → Bool) (f : Session → Session) : Type 0 where
  pub port : (r : Session) → (f r).port ≡ r.port
  pub active :
      (r : Session) → p r ≡ true → is_active (f r).status ≡ true → is_active r.status ≡ true

module _ (p : Session → Bool) (f : Session → Session) (fr : Frees p f) where
  unused-update :
      (q : ℕ) (t : Table)
      → contains q (used_ports t) ≡ false
      → contains q (used_ports (update p f t)) ≡ false
  unfolding used_ports update contains
  unused-update q [] h = refl
  unused-update q (r ∷ rs) h = elim (Bool-cases (p r)) [
    | inl y ↦ ground (arith, fr.port r, fr.active r y, unused-update q rs)
    | inr n ↦ ground (arith, unused-update q rs)
  ]

  pub Distinct-used_ports-update :
      (t : Table) → Distinct (used_ports t) → Distinct (used_ports (update p f t))
  unfolding used_ports update
  Distinct-used_ports-update [] d = tt
  Distinct-used_ports-update (r ∷ rs) d = elim (Bool-cases (p r)) [
    | inl y ↦
        ground
          (arith, fr.port r, fr.active r y, unused-update r.port rs, Distinct-used_ports-update rs)
    | inr n ↦ ground (arith, unused-update r.port rs, Distinct-used_ports-update rs)
  ]

-- An INSERT of a row whose port is not in use.
module _ (r : Session) where
  unused-append :
      (q : ℕ) (t : Table)
      → contains q (used_ports t) ≡ false
      → (r.port == q) ≡ false
      → contains q (used_ports (t ++ (r ∷ []))) ≡ false
  unfolding used_ports contains
  unused-append q [] h e = ground arith
  unused-append q (x ∷ xs) h e = ground (arith, unused-append q xs)

  pub Distinct-used_ports-append :
      (t : Table)
      → Distinct (used_ports t)
      → contains r.port (used_ports t) ≡ false
      → Distinct (used_ports (t ++ (r ∷ [])))
  unfolding used_ports contains
  Distinct-used_ports-append [] d h = ground arith
  Distinct-used_ports-append (x ∷ xs) d h =
      ground (arith, unused-append x.port xs, Distinct-used_ports-append xs)

  absent-append :
      (sid : String) (t : Table)
      → contains sid (ids t) ≡ false
      → (r.id == sid) ≡ false
      → contains sid (ids (t ++ (r ∷ []))) ≡ false
  unfolding contains
  absent-append sid [] h e = ground arith
  absent-append sid (x ∷ xs) h e = ground (arith, absent-append sid xs)

  pub Distinct-ids-append :
      (t : Table)
      → Distinct (ids t)
      → contains r.id (ids t) ≡ false
      → Distinct (ids (t ++ (r ∷ [])))
  unfolding contains
  Distinct-ids-append [] d h = (refl, tt)
  Distinct-ids-append (x ∷ xs) d h =
      ground
        (arith, absent-append x.id xs, Distinct-ids-append xs, eq_iff x.id r.id, eq_iff r.id x.id)

pub All-append {κ} :
    (P : Session → Type κ) (t : Table) (r : Session) → All P t → P r → All P (t ++ (r ∷ []))
All-append P [] r h k = (k, tt)
All-append P (x ∷ xs) r h k = (h.0, All-append P xs r h.1 k)

pub contains-append :
    (sid : String) (t : Table) (r : Session)
    → contains sid (ids t) ≡ true
    → contains sid (ids (t ++ (r ∷ []))) ≡ true
unfolding contains
contains-append sid [] r h = absurd (ground arith)
contains-append sid (x ∷ xs) r h = ground (arith, contains-append sid xs r)
