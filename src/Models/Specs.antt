-- ===== src/Models/Specs.antt =====
-- What the validators of `DBSpec` and of the list of specs accept.
use sansbox_sql.Base.{
  subst, String, ◌≤◌, false, List, [], ◌∷◌, ◌≡◌, ◌≢◌, ◌⊎◌, ◌↔◌, inl, inr, refl, ap, arith, map,
  Option, none, some, All, length, nat_eq, ◌==◌, Bool-cases, eq_iff, string_eq, contains, Distinct,
}
use sansbox_sql.Base.Text.{codes}
use sansbox_sql.Errors.{ok, Result-cases}
use sansbox_sql.Models.{
  DbSpec, Tables, omitted, all_tables, listed, RawTables, null_value, text, items, other_value,
  check_tables, normalise_list, normalise_tables, table_list, to_set, unique_dbs, max_name_len,
}
use sansbox_sql.Models.Names.{NameText, validate_name_iff, validate_name-same}

-- A name that the field may list.
abbrev pub IsName : String → Type 0
IsName t = NameText (codes t) × (length (codes t) ≤ max_name_len)

abbrev NewTo : List String → List String → Type 0
NewTo seen = All (λ n. contains n seen ≡ false)

NewTo-cons :
    (t : String) (seen ns : List String)
    → NewTo (t ∷ seen) ns
    → NewTo seen ns × (contains t ns ≡ false)
unfolding contains
NewTo-cons t seen [] h = (tt, refl)
NewTo-cons t seen (n ∷ ns) h =
    let (new, absent) = NewTo-cons t seen ns h.1 in
    ((ground arith, new), ground (arith, eq_iff n t, eq_iff t n))

record Checked (seen : List String) (vs : List (Option String)) (names : List String) : Type 0 where
  same : vs ≡ map some names
  valid : All IsName names
  new : NewTo seen names
  distinct : Distinct names

Checked-cons :
    (seen : List String) (t : String) (vs : List (Option String)) (ns : List String)
    → IsName t
    → contains t seen ≡ false
    → Checked (t ∷ seen) vs ns
    → Checked seen (some t ∷ vs) (t ∷ ns)
Checked-cons seen t vs ns v f c =
    let (new, absent) = NewTo-cons t seen ns c.new in
    record {
      same = ap (◌∷◌ (some t)) c.same;
      valid = (v, c.valid);
      new = (f, new);
      distinct = (absent, c.distinct);
    }

-- The names that the loop returns are those of the request, each valid, and none seen before.
check_tables-Checked :
    (seen : List String) (vs : List (Option String)) (names : List String)
    → check_tables seen vs ≡ ok names
    → Checked seen vs names
unfolding check_tables
check_tables-Checked seen [] [] h = record { same = refl; valid = tt; new = tt; distinct = tt }
check_tables-Checked seen [] (n ∷ ns) h = absurd (ground arith)
check_tables-Checked seen (none ∷ vs) names h = absurd (ground arith)
check_tables-Checked seen (some t ∷ vs) [] h = absurd (ground arith)
check_tables-Checked seen (some t ∷ vs) (n ∷ ns) h =
    let same : t ≡ n = ground arith in
    subst (λ m. Checked seen (some t ∷ vs) (m ∷ ns)) same
      (Checked-cons seen t vs ns
        ((validate_name_iff t "table").0 (ground (arith, validate_name-same t "table")))
        (ground arith) (check_tables-Checked (t ∷ seen) vs ns (ground arith)))

pub record AreListed (names : List String) : Type 0 where
  pub nonempty : names ≢ []
  pub valid : All IsName names
  pub distinct : Distinct names

names_nonempty :
    (v : Option String) (vs : List (Option String)) (names : List String)
    → v ∷ vs ≡ map some names
    → names ≢ []
names_nonempty v vs [] e = λ _. cc
names_nonempty v vs (n ∷ ns) e = λ q. cc

normalise_list-ok :
    (v : Option String) (vs : List (Option String)) (tables : Tables)
    → normalise_list (v ∷ vs) ≡ ok tables
    → (names : List String) × (tables ≡ listed names) × AreListed names × (v ∷ vs ≡ map some names)
unfolding normalise_list
normalise_list-ok v vs tables h = elim (Result-cases (check_tables [] (v ∷ vs))) [
  | inl (names, found) ↦
      let c = check_tables-Checked [] (v ∷ vs) names found in
      (
        names,
        ground arith,
        record {
          nonempty = names_nonempty v vs names c.same;
          valid = c.valid;
          distinct = c.distinct;
        },
        c.same,
      )
  | inr (e, failed) ↦ absurd (ground arith)
]

single : (t : String) (names : List String) → some t ∷ [] ≡ map some names → names ≡ t ∷ []
single t [] e = cc
single t (n ∷ []) e = ground arith
single t (n ∷ m ∷ ns) e = absurd (ground arith)

-- An accepted `tables` is None for None, "all" for "all", or else a non-empty list of different
-- valid names: those of the request's list in its order, or the one name that it holds.
pub normalise_tables-ok :
    (raw : RawTables) (tables : Tables)
    → normalise_tables raw ≡ ok tables
    → ((tables ≡ omitted) × (raw ≡ null_value))
      ⊎ (((tables ≡ all_tables) × (raw ≡ text "all"))
          ⊎ ((names : List String) × (tables ≡ listed names)
              × AreListed names
              × ((raw ≡ items (map some names))
                  ⊎ ((t : String) × (raw ≡ text t) × (names ≡ t ∷ [])))))
unfolding normalise_tables
normalise_tables-ok null_value tables h = inl (ground arith, refl)
normalise_tables-ok (text v) tables h = elim (Bool-cases (v == "all")) [
  | inl y ↦ inr (inl (ground arith, ap text ((eq_iff v "all").0 y)))
  | inr n ↦
      let (names, e, l, q) = normalise_list-ok (some v) [] tables (ground arith) in
      inr (inr (names, e, l, inr (v, refl, single v names q)))
]
normalise_tables-ok (items []) tables h = absurd (unfold normalise_list in ground arith)
normalise_tables-ok (items (v ∷ vs)) tables h =
    let (names, e, l, q) = normalise_list-ok v vs tables h in
    inr (inr (names, e, l, inl (ap items q)))
normalise_tables-ok other_value tables h = absurd (ground arith)

table_list_full :
    (raw : RawTables) (tables : Tables)
    → normalise_tables raw ≡ ok tables
    → ((raw ≡ null_value) ⊎ (raw ≡ text "all"))
    → table_list tables ≡ none
unfolding normalise_tables table_list
table_list_full raw tables h (inl e) = ground arith
table_list_full raw tables h (inr e) = ground (arith, eq_iff "all" "all")

table_list_listed : (names : List String) → names ≢ [] → table_list (listed names) ≡ some names
unfolding table_list
table_list_listed [] h = absurd (h refl)
table_list_listed (n ∷ ns) h = refl

-- If `_normalise_tables` accepts the request's value, `table_list` of the result is None, which
-- means the whole database, exactly when the value was null or "all".
pub table_list-normalised :
    (raw : RawTables) (tables : Tables)
    → normalise_tables raw ≡ ok tables
    → (table_list tables ≡ none) ↔ ((raw ≡ null_value) ⊎ (raw ≡ text "all"))
table_list-normalised raw tables h = (
  λ none_listed. elim (normalise_tables-ok raw tables h) [
    | inl (_, e) ↦ inl e
    | inr (inl (_, e)) ↦ inr e
    | inr (inr (names, e, l, _)) ↦ absurd (cc (none_listed, e, table_list_listed names l.nonempty))
  ],
  table_list_full raw tables h,
)

to_set-le : (ns : List String) → length (to_set ns) ≤ length ns
unfolding to_set
to_set-le [] = omega arith
to_set-le (n ∷ ns) = ground (arith, to_set-le ns)

Distinct-of_length : (ns : List String) → length (to_set ns) ≡ length ns → Distinct ns
unfolding to_set
Distinct-of_length [] h = tt
Distinct-of_length (n ∷ ns) h = ground (arith, to_set-le ns, Distinct-of_length ns)

length_of_Distinct : (ns : List String) → Distinct ns → length (to_set ns) ≡ length ns
unfolding to_set
length_of_Distinct [] d = refl
length_of_Distinct (n ∷ ns) d = ground (arith, length_of_Distinct ns d.1)

-- The databases of a request are accepted exactly when their names are pairwise different.
pub unique_dbs_iff :
    (specs : List DbSpec) → (unique_dbs specs ≡ ok specs) ↔ Distinct (map (λ d. d.name) specs)
unfolding unique_dbs
unique_dbs_iff specs = (
  λ h. Distinct-of_length (map (λ d. d.name) specs) (ground arith),
  λ d. ground (arith, length_of_Distinct (map (λ d. d.name) specs) d),
)
