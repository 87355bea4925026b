-- ===== src/Lifecycle/History.antt =====
-- What becomes of one row over time: it is never lost, keeps its identity, and never comes back.
use sansbox_sql.Base.{
  String, ℕ, Bool, true, false, some, List, [], ◌∷◌, ◌++◌, ◌≡◌, refl, sym, ◌∙◌, subst, inl, inr,
  arith, string_eq, ◌⊎◌, Bool-cases, ◌&&◌,
}
use sansbox_sql.Config.{Settings}
use sansbox_sql.Docker.{allocate_port}
use sansbox_sql.Errors.{Result, ok, err}
use sansbox_sql.Session.{Session, Status, expired, nuked, error, is_starting, is_active}
use sansbox_sql.Session.Draft.{Draft}
use sansbox_sql.Sql.{update}
use sansbox_sql.Store
use sansbox_sql.Store.{Table, ids, get, has_id, is_due, with_status, with_ttl, made_ready}
use sansbox_sql.Store.Reads.{get-update}
use sansbox_sql.Store.Claims.{claim_expired-exact}
use sansbox_sql.Store.Reserve.{reserve_session-ok, reserve_session-err}
use sansbox_sql.Service.{extended}
use sansbox_sql.Service.Calls.{factory}
use sansbox_sql.Lifecycle.{
  System, Step, reserves, readies, sets, claims, marks, reads, extends, Reach,
}
use sansbox_sql.Lifecycle.Invariant.{Inv}
use sansbox_sql.Lifecycle.Safety.{Step-Inv, Reach-Inv}

-- Two states of one row, the later one second.
pub record Kept (r r' : Session) : Type 0 where
  pub id : r'.id ≡ r.id
  pub ticket : r'.ticket ≡ r.ticket
  pub port : r'.port ≡ r.port
  pub compose_path : r'.compose_path ≡ r.compose_path
  pub created_at : r'.created_at ≡ r.created_at
  pub begun : is_starting r'.status ≡ true → is_starting r.status ≡ true
  pub closed : is_active r.status ≡ false → is_active r'.status ≡ false

Kept-refl : (r : Session) → Kept r r
Kept-refl r = record {
  id = refl;
  ticket = refl;
  port = refl;
  compose_path = refl;
  created_at = refl;
  begun = λ h. h;
  closed = λ h. h;
}

Kept-trans : {r r' r'' : Session} → Kept r r' → Kept r' r'' → Kept r r''
Kept-trans a b = record {
  id = b.id ∙ a.id;
  ticket = b.ticket ∙ a.ticket;
  port = b.port ∙ a.port;
  compose_path = b.compose_path ∙ a.compose_path;
  created_at = b.created_at ∙ a.created_at;
  begun = λ h. a.begun (b.begun h);
  closed = λ h. b.closed (a.closed h);
}

-- The row with this id is there, and is a later state of `r`.
abbrev pub KeptAs : String → Session → Table → Type 0
KeptAs sid r t = (r' : Session) × (get sid t ≡ some r') × Kept r r'

update-KeptAs :
    (sid : String) (r : Session) (p : Session → Bool) (f : Session → Session) (t : Table)
    → ((x : Session) → (f x).id ≡ x.id)
    → ((x : Session) → p x ≡ true → Kept x (f x))
    → get sid t ≡ some r
    → KeptAs sid r (update p f t)
update-KeptAs sid r p f t same k h = elim (Bool-cases (p r)) [
  | inl y ↦ (f r, get-update sid p f same t ∙ rw (h, y) refl, k r y)
  | inr n ↦ (r, get-update sid p f same t ∙ rw (h, n) refl, Kept-refl r)
]

get-append :
    (sid : String) (r x : Session) (t : Table)
    → get sid t ≡ some r
    → get sid (t ++ (x ∷ [])) ≡ some r
unfolding get
get-append sid r x [] h = absurd (ground arith)
get-append sid r x (y ∷ ys) h = ground (arith, get-append sid r x ys)

reserve-KeptAs :
    (sid : String) (r : Session) (make : ℕ → Draft) (allocate : List ℕ → Result ℕ) (t : Table)
    → get sid t ≡ some r
    → KeptAs sid r (Store.reserve_session make allocate t).1
reserve-KeptAs sid r make allocate t h = go _ _ refl
  where
    go :
        (d : Result Draft) (t' : Table)
        → Store.reserve_session make allocate t ≡ (d, t')
        → KeptAs sid r t'
    go (ok d) t' e =
        let got = reserve_session-ok make allocate t d t' e in
        (r, rw got.appended (get-append sid r got.row t h), Kept-refl r)
    go (err x) t' e = (r, rw (reserve_session-err make allocate t x t' e) h, Kept-refl r)

closing-Kept :
    (status : Status) (x : Session)
    → (status ≡ nuked) ⊎ (status ≡ error)
    → Kept x (with_status status x)
unfolding is_starting is_active
closing-Kept status x (inl e) = record {
  id = refl;
  ticket = refl;
  port = refl;
  compose_path = refl;
  created_at = refl;
  begun = λ h. ground arith;
  closed = λ h. ground arith;
}
closing-Kept status x (inr e) = record {
  id = refl;
  ticket = refl;
  port = refl;
  compose_path = refl;
  created_at = refl;
  begun = λ h. ground arith;
  closed = λ h. ground arith;
}

expired-Kept : (now : ℕ) (x : Session) → is_due now x ≡ true → Kept x (with_status expired x)
unfolding is_starting is_active is_due
expired-Kept now x y = record {
  id = refl;
  ticket = refl;
  port = refl;
  compose_path = refl;
  created_at = refl;
  begun = λ h. ground arith;
  closed = λ h. ground arith;
}

ready-Kept :
    (sid : String) (creds : List ℕ) (e m : ℕ) (x : Session)
    → (has_id sid x && is_starting x.status) ≡ true
    → Kept x (made_ready creds e m x)
unfolding is_starting is_active
ready-Kept sid creds e m x y = record {
  id = refl;
  ticket = refl;
  port = refl;
  compose_path = refl;
  created_at = refl;
  begun = λ h. ground arith;
  closed = λ h. ground arith;
}

ttl-Kept : (e n : ℕ) (x : Session) → Kept x (with_ttl e n x)
ttl-Kept e n x = record {
  id = refl;
  ticket = refl;
  port = refl;
  compose_path = refl;
  created_at = refl;
  begun = λ h. h;
  closed = λ h. h;
}

module _ (s : Settings) where
  Step-KeptAs :
      {y z : System} (sid : String) (r : Session)
      → Step s y z
      → Inv s y
      → get sid y.table ≡ some r
      → KeptAs sid r z.table
  unfolding Store.update_to_ready Store.set_status Store.mark_nuked Store.update_ttl
  Step-KeptAs {y} sid r (reserves n ticket date paths dbs now) i h =
      reserve-KeptAs sid r (factory s n ticket date paths dbs now) (λ used. allocate_port used s)
        y.table h
  Step-KeptAs {y} sid r (readies n creds now _) i h =
      update-KeptAs sid r _ (made_ready creds _ _) y.table (λ x. refl) (ready-Kept n creds _ _) h
  Step-KeptAs {y} sid r (sets n status (inl e)) i h = rw e (
      update-KeptAs sid r (has_id n) (with_status nuked) y.table (λ x. refl)
        (λ x _. closing-Kept nuked x (inl refl)) h)
  Step-KeptAs {y} sid r (sets n status (inr e)) i h = rw e (
      update-KeptAs sid r (has_id n) (with_status error) y.table (λ x. refl)
        (λ x _. closing-Kept error x (inr refl)) h)
  Step-KeptAs {y} sid r (claims now) i h =
      subst (λ c. KeptAs sid r c.1) (sym (claim_expired-exact now y.table i.table_ok.keys))
        (update-KeptAs sid r (is_due now) (with_status expired) y.table (λ x. refl)
          (expired-Kept now) h)
  Step-KeptAs {y} sid r (marks n) i h =
      update-KeptAs sid r _ (with_status nuked) y.table (λ x. refl)
        (λ x _. closing-Kept nuked x (inl refl)) h
  Step-KeptAs sid r (reads n x found st z) i h = (r, h, Kept-refl r)
  Step-KeptAs {y} sid r (extends x m) i h =
      update-KeptAs sid r (has_id x.id) (with_ttl (extended s x) 1) y.table (λ x'. refl)
        (λ x' _. ttl-Kept _ 1 x') h

  -- Any number of transactions.
  pub data Steps (y : System) : System → Type 0 where
    here : Steps y y
    next : {z w : System} → Steps y z → Step s z w → Steps y w

  Steps-Inv : {y z : System} → Steps y z → Inv s y → Inv s z
  Steps-Inv here i = i
  Steps-Inv (next p st) i = Step-Inv s st (Steps-Inv p i)

  Steps-KeptAs :
      {y z : System} (sid : String) (r : Session)
      → Steps y z
      → Inv s y
      → get sid y.table ≡ some r
      → KeptAs sid r z.table
  Steps-KeptAs sid r here i h = (r, h, Kept-refl r)
  Steps-KeptAs sid r (next p st) i h =
      let (r1, h1, k1) = Steps-KeptAs sid r p i h in
      let (r2, h2, k2) = Step-KeptAs sid r1 st (Steps-Inv p i) h1 in (r2, h2, Kept-trans k1 k2)

  -- From a reachable system, whatever transactions follow, a session's row is still there with its
  -- id, ticket, port, compose path and creation time; it never becomes `starting` again, and once it
  -- is `nuked` or `error` it never holds a port again.
  pub row-Kept :
      {y z : System} (sid : String) (r : Session)
      → Reach s y
      → Steps y z
      → get sid y.table ≡ some r
      → (r' : Session) × (get sid z.table ≡ some r') × Kept r r'
  row-Kept sid r reached p h = Steps-KeptAs sid r p (Reach-Inv s reached) h
