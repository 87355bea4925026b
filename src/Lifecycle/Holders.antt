-- ===== src/Lifecycle/Holders.antt =====
-- Two sessions with one port among those in use are one session.
use sansbox_sql.Base.{
  String, ℕ, true, false, some, [], ◌∷◌, ◌≡◌, ◌⊎◌, refl, sym, ◌∙◌, inl, inr, arith, Bool-cases,
  contains, nat_eq, string_eq, ◌==◌, Distinct, subst,
}
use sansbox_sql.Session.{
  Session, Status, starting, ready, expired, is_active, is_starting, is_ready, is_expired,
}
use sansbox_sql.Store.{Table, used_ports, get}

-- A session with this status holds its port.
abbrev pub Holds : Status → Type 0
Holds status = (status ≡ starting) ⊎ ((status ≡ ready) ⊎ (status ≡ expired))

pub Holds-is_active : (status : Status) → Holds status → is_active status ≡ true
unfolding is_active is_starting is_ready is_expired
Holds-is_active status (inl e) = rw e refl
Holds-is_active status (inr (inl e)) = rw e refl
Holds-is_active status (inr (inr e)) = rw e refl

head_row :
    (sid : String) (x r : Session) (xs : Table)
    → (x.id == sid) ≡ true
    → get sid (x ∷ xs) ≡ some r
    → x ≡ r
unfolding get
head_row sid x r xs y h = ground arith

tail_row :
    (sid : String) (x r : Session) (xs : Table)
    → (x.id == sid) ≡ false
    → get sid (x ∷ xs) ≡ some r
    → get sid xs ≡ some r
unfolding get
tail_row sid x r xs n h = ground arith

head_port :
    (x : Session) (xs : Table)
    → is_active x.status ≡ true
    → contains x.port (used_ports (x ∷ xs)) ≡ true
unfolding used_ports contains
head_port x xs a = ground arith

tail_port :
    (p : ℕ) (x : Session) (xs : Table)
    → contains p (used_ports xs) ≡ true
    → contains p (used_ports (x ∷ xs)) ≡ true
unfolding used_ports contains
tail_port p x xs h = ground arith

head_Distinct :
    (x : Session) (xs : Table)
    → Distinct (used_ports (x ∷ xs))
    → Distinct (used_ports xs)
      × (is_active x.status ≡ true → contains x.port (used_ports xs) ≡ false)
unfolding used_ports
head_Distinct x xs d = elim (Bool-cases (is_active x.status)) [
  | inl y ↦ (ground arith, λ _. ground arith)
  | inr n ↦ (ground arith, λ y. absurd (ground arith))
]

get-used_ports :
    (sid : String) (r : Session) (t : Table)
    → get sid t ≡ some r
    → is_active r.status ≡ true
    → contains r.port (used_ports t) ≡ true
get-used_ports sid r [] h a = absurd (unfold get in ground arith)
get-used_ports sid r (x ∷ xs) h a = elim (Bool-cases (x.id == sid)) [
  | inl y ↦
      subst (λ q. is_active q.status ≡ true → contains q.port (used_ports (x ∷ xs)) ≡ true)
        (head_row sid x r xs y h) (head_port x xs) a
  | inr n ↦ tail_port r.port x xs (get-used_ports sid r xs (tail_row sid x r xs n h) a)
]

-- The first row of the table holds a port, and so does a later one: not the same.
clash :
    (sid : String) (x r : Session) (xs : Table)
    → Distinct (used_ports (x ∷ xs))
    → get sid xs ≡ some r
    → is_active x.status ≡ true
    → is_active r.status ≡ true
    → x.port ≡ r.port
    → ⊥
clash sid x r xs d h a b same = ground (
  arith,
  (head_Distinct x xs d).1 a,
  subst (λ p. contains p (used_ports xs) ≡ true) (sym same) (get-used_ports sid r xs h b),
)

pub port_owner :
    (a b : String) (r q : Session) (t : Table)
    → Distinct (used_ports t)
    → get a t ≡ some r
    → get b t ≡ some q
    → is_active r.status ≡ true
    → is_active q.status ≡ true
    → r.port ≡ q.port
    → r ≡ q
port_owner a b r q [] d h k u v same = absurd (unfold get in ground arith)
port_owner a b r q (x ∷ xs) d h k u v same = elim (Bool-cases (x.id == a)) [
  | inl ya ↦ elim (Bool-cases (x.id == b)) [
    | inl yb ↦ sym (head_row a x r xs ya h) ∙ head_row b x q xs yb k
    | inr nb ↦ absurd (
        subst (λ o. is_active o.status ≡ true → o.port ≡ q.port → ⊥) (head_row a x r xs ya h)
          (λ c e. clash b x q xs d (tail_row b x q xs nb k) c v e) u same)
  ]
  | inr na ↦ elim (Bool-cases (x.id == b)) [
    | inl yb ↦ absurd (
        subst (λ o. is_active o.status ≡ true → o.port ≡ r.port → ⊥) (head_row b x q xs yb k)
          (λ c e. clash a x r xs d (tail_row a x r xs na h) c u e) v (sym same))
    | inr nb ↦
        port_owner a b r q xs (head_Distinct x xs d).0 (tail_row a x r xs na h)
          (tail_row b x q xs nb k) u v same
  ]
]
