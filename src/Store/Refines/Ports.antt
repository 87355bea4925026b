-- ===== src/Store/Refines/Ports.antt =====
-- The ports in use, read off the map of the rows.
use sansbox_sql.Base.{
  String, ℕ, true, false, some, [], ◌∷◌, ◌≡◌, ◌⊎◌, refl, sym, ap, subst, ◌∙◌, arith, inl, inr,
  Bool-cases, contains, nat_eq, string_eq, eq_iff, nat_beq_iff, ◌==◌, Distinct,
}
use sansbox_sql.Session.{Session, is_active}
use sansbox_sql.Store.{Table, ids, get, used_ports}
use sansbox_sql.Store.Refines.{present, rows, PortsOf}
use sansbox_sql.Store.Refines.Inserts.{present-ids}

-- The row that holds a port
Holder : ℕ → Table → Type 0
Holder port t =
    (sid : String) × (r : Session) × (get sid t ≡ some r)
    × (is_active r.status ≡ true)
    × (r.port ≡ port)

stored : (sid : String) (t : Table) (r : Session) → get sid t ≡ some r → contains sid (ids t) ≡ true
unfolding present
stored sid t r h = present-ids sid t ∙ ap present h

get_first : (r : Session) (t : Table) → get r.id (r ∷ t) ≡ some r
unfolding get
get_first r t = ground (arith, eq_iff r.id r.id)

get_later :
    (sid : String) (x : Session) (t : Table) (r : Session)
    → contains x.id (ids t) ≡ false
    → get sid t ≡ some r
    → get sid (x ∷ t) ≡ some r
unfolding get
get_later sid x t r new h = elim (Bool-cases (x.id == sid)) [
  | inr n ↦ rw n h
  | inl y ↦
      absurd
        (cc (sym (ap (λ s. contains s (ids t)) ((eq_iff x.id sid).0 y)) ∙ new, stored sid t r h))
]

later :
    (port : ℕ) (x : Session) (t : Table)
    → contains x.id (ids t) ≡ false
    → Holder port t
    → Holder port (x ∷ t)
unfolding Holder
later port x t new (sid, r, h, active, p) = (sid, r, get_later sid x t r new h, active, p)

used_cons :
    (port : ℕ) (x : Session) (t : Table)
    → contains port (used_ports (x ∷ t)) ≡ true
    → ((is_active x.status ≡ true) × (x.port ≡ port)) ⊎ (contains port (used_ports t) ≡ true)
unfolding used_ports contains
used_cons port x t h = elim (Bool-cases (is_active x.status)) [
  | inr n ↦ inr (ground arith)
  | inl y ↦ elim (Bool-cases (x.port == port)) [
    | inl e ↦ inl (y, (nat_beq_iff x.port port).0 e)
    | inr n ↦ inr (ground arith)
  ]
]

used-Holder :
    (port : ℕ) (t : Table) → Distinct (ids t) → contains port (used_ports t) ≡ true → Holder port t
unfolding Holder
used-Holder port [] d h = absurd (unfold used_ports contains in ground arith)
used-Holder port (x ∷ t) d h = elim (used_cons port x t h) [
  | inl (active, p) ↦ (x.id, x, get_first x t, active, p)
  | inr rest ↦ later port x t d.0 (used-Holder port t d.1 rest)
]

used_first :
    (x r : Session) (t : Table)
    → x ≡ r
    → is_active r.status ≡ true
    → contains r.port (used_ports (x ∷ t)) ≡ true
unfolding used_ports contains
used_first x r t e a =
    subst (λ y. contains y.port (used_ports (x ∷ t)) ≡ true) e
      (rw (ap (λ y. is_active y.status) e ∙ a, (nat_beq_iff x.port x.port).1 refl) refl)

used_later :
    (port : ℕ) (x : Session) (t : Table)
    → contains port (used_ports t) ≡ true
    → contains port (used_ports (x ∷ t)) ≡ true
unfolding used_ports contains
used_later port x t h = ground arith

get_here :
    (sid : String) (x : Session) (t : Table) → (x.id == sid) ≡ true → get sid (x ∷ t) ≡ some x
unfolding get
get_here sid x t y = rw y refl

get_there :
    (sid : String) (x : Session) (t : Table) → (x.id == sid) ≡ false → get sid (x ∷ t) ≡ get sid t
unfolding get
get_there sid x t n = rw n refl

some_inj : {a b : Session} → some a ≡ some b → a ≡ b
some_inj e = cc

Holder-used :
    (sid : String) (r : Session) (t : Table)
    → get sid t ≡ some r
    → is_active r.status ≡ true
    → contains r.port (used_ports t) ≡ true
Holder-used sid r [] h a = absurd (unfold get in cc)
Holder-used sid r (x ∷ t) h a = elim (Bool-cases (x.id == sid)) [
  | inl y ↦ used_first x r t (some_inj (sym (get_here sid x t y) ∙ h)) a
  | inr n ↦ used_later r.port x t (Holder-used sid r t (sym (get_there sid x t n) ∙ h) a)
]

pub used_ports-PortsOf : (t : Table) → Distinct (ids t) → PortsOf (used_ports t) (rows t)
unfolding PortsOf Holder
used_ports-PortsOf t d port = (
  used-Holder port t d,
  λ (sid, r, h, a, p). ap (λ q. contains q (used_ports t)) (sym p) ∙ Holder-used sid r t h a,
)
