-- ===== src/Docker/Render/Grants.antt =====
-- The quoting of the rendered grants.
use Prim.Native.String.{String}
use sansbox_sql.Base.{
  ◌<>◌, ℕ, ◌+◌, ◌*◌, suc, List, [], ◌∷◌, ◌++◌, length, All, if◌then◌else◌, ◌==◌, nat_eq, ◌≡◌, refl,
  ap, ◌∙◌, arith,
}
use sansbox_sql.Base.Text.{codes}
use sansbox_sql.Service.Calls.{Grant}
use sansbox_sql.Service.Failure.Mentions.{codes-append}
use sansbox_sql.Docker.Render.{grant_text, render_grant_sql}

-- How often a code stands in a text
unfoldable pub count : ℕ → List ℕ → ℕ
count c [] = 0
count c (x ∷ xs) = let rest = count c xs in if x == c then suc rest else rest

pub count-append : (c : ℕ) (a b : List ℕ) → count c (a ++ b) ≡ count c a + count c b
unfolding count
count-append c [] b = omega arith
count-append c (x ∷ a) b = ground (arith, count-append c a b)

pub count_text :
    (c : ℕ) (s t : String) → count c (codes (s <> t)) ≡ count c (codes s) + count c (codes t)
count_text c s t = ap (count c) (codes-append s t) ∙ count-append c (codes s) (codes t)

-- No quote and no backtick
unfoldable pub Plain : String → Type 0
Plain s = (count 39 (codes s) ≡ 0) × (count 96 (codes s) ≡ 0)

joined : List String → String
joined [] = ""
joined (s ∷ []) = s
joined (s ∷ t ∷ parts) = s <> joined (t ∷ parts)

total : ℕ → List String → ℕ
total c [] = 0
total c (s ∷ []) = count c (codes s)
total c (s ∷ t ∷ parts) = count c (codes s) + total c (t ∷ parts)

total_lem : (c : ℕ) (parts : List String) → count c (codes (joined parts)) ≡ total c parts
unfolding joined total count
total_lem c [] = refl
total_lem c (s ∷ []) = refl
total_lem c (s ∷ t ∷ parts) =
    count_text c s (joined (t ∷ parts)) ∙ ap (λ n. count c (codes s) + n) (total_lem c (t ∷ parts))

parts_of : Grant → List String
parts_of g =
    "CREATE USER IF NOT EXISTS '" ∷ g.user ∷ "'@'%' IDENTIFIED BY '" ∷ g.password
    ∷ "' REQUIRE SSL;\nGRANT SELECT, INSERT, UPDATE, DELETE, CREATE, DROP, INDEX, ALTER,\n      CREATE TEMPORARY TABLES, LOCK TABLES, EXECUTE, CREATE VIEW, SHOW VIEW,\n      CREATE ROUTINE, ALTER ROUTINE, EVENT, TRIGGER\n  ON `"
    ∷ g.db ∷ "`.* TO '" ∷ g.user ∷ "'@'%';\nFLUSH PRIVILEGES;\n" ∷ []

grant_parts : (g : Grant) → grant_text g ≡ joined (parts_of g)
unfolding grant_text joined parts_of
grant_parts g = refl

grant_quotes :
    (g : Grant)
    → Plain g.user
    → Plain g.password
    → Plain g.db
    → (total 39 (parts_of g) ≡ 10) × (total 96 (parts_of g) ≡ 2)
unfolding Plain total parts_of count
grant_quotes g u p d = (omega (arith, u.0, p.0, d.0), omega (arith, u.1, p.1, d.1))

-- The account and the database that a grant names, and its password, hold no quote.
unfoldable pub GrantPlain : Grant → Type 0
GrantPlain g = Plain g.user × Plain g.password × Plain g.db

quotes_of :
    (g : Grant)
    → GrantPlain g
    → (count 39 (codes (grant_text g)) ≡ 10) × (count 96 (codes (grant_text g)) ≡ 2)
unfolding GrantPlain
quotes_of g (u, p, d) = (
  ap (λ s. count 39 (codes s)) (grant_parts g)
      ∙ total_lem 39 (parts_of g)
      ∙ (grant_quotes g u p d).0,
  ap (λ s. count 96 (codes s)) (grant_parts g)
      ∙ total_lem 96 (parts_of g)
      ∙ (grant_quotes g u p d).1,
)

-- Where no user, password or database of the grants holds a quote or a backtick: the rendered SQL has
-- the ten quotes and two backticks of the template for each grant and no other, so that every literal
-- and identifier ends where the template ends it.
pub render_grant_sql-Quoted :
    (grants : List Grant)
    → All GrantPlain grants
    → (count 39 (codes (render_grant_sql grants)) ≡ 10 * length grants)
      × (count 96 (codes (render_grant_sql grants)) ≡ 2 * length grants)
unfolding render_grant_sql count
render_grant_sql-Quoted [] h = (refl, refl)
render_grant_sql-Quoted (g ∷ grants) (q, h) = (
  omega (
    arith,
    count_text 39 (grant_text g) (render_grant_sql grants),
    (quotes_of g q).0,
    (render_grant_sql-Quoted grants h).0,
  ),
  omega (
    arith,
    count_text 96 (grant_text g) (render_grant_sql grants),
    (quotes_of g q).1,
    (render_grant_sql-Quoted grants h).1,
  ),
)
