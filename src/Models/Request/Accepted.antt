-- ===== src/Models/Request/Accepted.antt =====
-- What holds of every request that is accepted.
use sansbox_sql.Base.{
  String, ℕ, ◌≤◌, Bool, true, false, ◌&&◌, List, [], ◌∷◌, map, length, leb, nat_eq, string_eq, ◌≡◌,
  refl, sym, ap, ◌∙◌, subst, arith, Distinct, All,
}
use sansbox_sql.Base.Text.{codes}
use sansbox_sql.Errors.{Exc, Result, ok, err, guard, ◌>>=◌}
use sansbox_sql.Models.{
  DbSpec, RawTables, null_value, validate_name, normalise_tables, db_spec, unique_dbs,
}
use sansbox_sql.Models.Names.{validate_name-same}
use sansbox_sql.Models.Specs.{unique_dbs_iff}
use sansbox_sql.Models.Request.{
  CreateSessionRequest, RawDb, legacy, spec, other_db, ticket_ok, is_ticket_char, all_ticket_chars,
  accept_db, accept_dbs, create_request,
}

ok_inv : {A : Type 0} {a b : A} → ok a ≡ ok b → a ≡ b
ok_inv e = cc

-- What a chain that succeeds has done: its first part gave `a`, and the rest succeeds on it.
parts :
    {S T : Type 0} {t : T} (next : S → Result T) (first : Result S)
    → (first >>= next) ≡ ok t
    → (a : S) × (next a ≡ ok t) × (first ≡ ok a)
parts next (err raised) e = absurd (no_value e)
  where
    no_value : {T : Type 0} {t : T} → err raised ≡ ok t → ⊥
    no_value e = cc
parts next (ok a) e = (a, e, refl)

guard_inv : (b : Bool) (e : Exc) (u : Unit {0}) → guard b e ≡ ok u → b ≡ true
guard_inv true e u h = refl
guard_inv false e u h = absurd (cc h)

-- What `DBSpec` demands of its name.
pub IsDbName : String → Type 0
IsDbName name = validate_name name "db" ≡ ok name

db_spec-IsDbName :
    (name : String) (raw : RawTables) (d : DbSpec) → db_spec name raw ≡ ok d → IsDbName d.name
unfolding db_spec IsDbName
db_spec-IsDbName name raw d h =
    let (checked, h₁, valid) = parts _ (validate_name name "db") h in
    let (tables, h₂, _) = parts _ (normalise_tables raw) h₁ in
    subst (λ x. validate_name x "db" ≡ ok x) (ap (λ x. x.name) (ok_inv h₂))
      (subst (λ x. validate_name x "db" ≡ ok checked)
        (sym (validate_name-same name "db" checked valid)) valid)

accept_db-IsDbName : (raw : RawDb) (d : DbSpec) → accept_db raw ≡ ok d → IsDbName d.name
unfolding accept_db
accept_db-IsDbName (legacy name) d h = db_spec-IsDbName name null_value d h
accept_db-IsDbName (spec name tables) d h = db_spec-IsDbName name tables d h
accept_db-IsDbName other_db d h = absurd (cc h)

pub record Accepted (r : CreateSessionRequest) : Type 0 where
  pub ticket_length : (1 ≤ length (codes r.ticket)) × (length (codes r.ticket) ≤ 64)
  pub ticket_chars : All (λ ch. is_ticket_char ch ≡ true) (codes r.ticket)
  pub some_dbs : 1 ≤ length r.dbs
  pub few_dbs : length r.dbs ≤ 10
  pub names : All (λ d. IsDbName d.name) r.dbs
  pub distinct : Distinct (map (λ d. d.name) r.dbs)

accept_dbs-All :
    (raws : List RawDb) (ds : List DbSpec)
    → accept_dbs raws ≡ ok ds
    → (length ds ≡ length raws) × All (λ d. IsDbName d.name) ds
unfolding accept_dbs
accept_dbs-All [] ds h =
    subst (λ l. (length l ≡ 0) × All (λ d. IsDbName d.name) l) (ok_inv h) (refl, tt)
accept_dbs-All (raw ∷ raws) ds h =
    let (d, h₁, first) = parts _ (accept_db raw) h in
    let (rest, h₂, others) = parts _ (accept_dbs raws) h₁ in
    let (n, a) = accept_dbs-All raws rest others in
    subst (λ l. (length l ≡ length (raw ∷ raws)) × All (λ d. IsDbName d.name) l) (ok_inv h₂)
      (omega (arith, n), (accept_db-IsDbName raw d first, a))

same_dbs : (specs dbs : List DbSpec) → unique_dbs specs ≡ ok dbs → specs ≡ dbs
unfolding unique_dbs
same_dbs specs dbs h = ground arith

All-chars : (cs : List ℕ) → all_ticket_chars cs ≡ true → All (λ ch. is_ticket_char ch ≡ true) cs
unfolding all_ticket_chars
All-chars [] h = tt
All-chars (ch ∷ cs) h = (ground arith, All-chars cs (ground arith))

ticket_ok-length :
    (t : String) → ticket_ok t ≡ true → (1 ≤ length (codes t)) × (length (codes t) ≤ 64)
unfolding ticket_ok
ticket_ok-length t h = (ground arith, ground arith)

ticket_ok-chars : (t : String) → ticket_ok t ≡ true → All (λ ch. is_ticket_char ch ≡ true) (codes t)
unfolding ticket_ok
ticket_ok-chars t h = All-chars (codes t) (ground arith)

-- Every request that is accepted has a ticket of 1 to 64 letters, digits, dots, dashes and
-- underscores, and 1 to 10 databases with valid and pairwise different names.
pub create_request-Accepted :
    (ticket : String) (raws : List RawDb) (r : CreateSessionRequest)
    → create_request ticket raws ≡ ok r
    → Accepted r
unfolding create_request
create_request-Accepted ticket raws r h =
    let (u, h₁, fits) = parts _ (guard (ticket_ok ticket) _) h in
    let (v, h₂, few) = parts _ (guard (leb 1 (length raws) && leb (length raws) 10) _) h₁ in
    let (specs, h₃, accepted) = parts _ (accept_dbs raws) h₂ in
    let (dbs, h₄, unique) = parts _ (unique_dbs specs) h₃ in
    let same = same_dbs specs dbs unique in
    let (n, names) = accept_dbs-All raws specs accepted in
    subst Accepted (ok_inv h₄) (
      subst (λ l. Accepted (record { ticket = ticket; dbs = l })) same
        (record {
          ticket_length = ticket_ok-length ticket (guard_inv (ticket_ok ticket) _ u fits);
          ticket_chars = ticket_ok-chars ticket (guard_inv (ticket_ok ticket) _ u fits);
          some_dbs =
              ground (arith, n, guard_inv (leb 1 (length raws) && leb (length raws) 10) _ v few);
          few_dbs =
              ground (arith, n, guard_inv (leb 1 (length raws) && leb (length raws) 10) _ v few);
          names = names;
          distinct = (unique_dbs_iff specs).0 (unique ∙ ap ok (sym same));
        }))
