-- ===== src/Models.antt =====
-- api/models.py: the request models and their validators.
pub mod Names
pub mod Specs
pub mod Request
use sansbox_sql.Base.{
  String, ◌<>◌, ℕ, Bool, true, false, not, ◌&&◌, ◌||◌, Option, none, some, List, [], ◌∷◌, map,
  length, leb, ltb, contains, ◌==◌, nat_eq, string_eq, if◌then◌else◌,
}
use sansbox_sql.Base.Text.{codes}
use sansbox_sql.Errors.{Result, ok, err, value_error, ◌>>=◌}

-- `[A-Za-z0-9_]`
unfoldable pub is_word : ℕ → Bool
is_word c =
    (leb b'A' c && leb c b'Z')
    || ((leb b'a' c && leb c b'z') || ((leb b'0' c && leb c b'9') || c == b'_'))

-- The rest of `^[A-Za-z0-9_]+$` after its first character. Python's `$` also matches before a
-- newline that ends the text.
matches_rest : List ℕ → Bool
matches_rest [] = true
matches_rest (c ∷ []) = is_word c || c == 10
matches_rest (c ∷ d ∷ cs) = is_word c && matches_rest (d ∷ cs)

-- `_NAME_RE.match(value)`
unfoldable pub name_re : List ℕ → Bool
unfolding matches_rest is_word
name_re [] = false
name_re (c ∷ cs) = is_word c && matches_rest cs

abbrev pub max_name_len : ℕ
max_name_len = 64

-- The value stands in the message as it is, without the escapes of `repr`.
abbrev invalid_name : String → String → String
invalid_name kind value = "invalid " <> (kind <> (" name: '" <> (value <> "'")))

-- `_validate_name`
unfoldable pub validate_name : String → String → Result String
unfolding name_re
validate_name value kind =
    if value == "" || (ltb max_name_len (length (codes value)) || not (name_re (codes value)))
    then err (value_error (invalid_name kind value))
    else ok value

-- The field `tables`: None, `"all"` or a list of names.
pub data Tables : Type 0 where
  omitted all_tables : Tables
  listed : List String → Tables

pub record DbSpec : Type 0 where
  pub name : String
  pub tables : Tables

-- What a request may hold there; an entry of a list that is no text is none.
pub data RawTables : Type 0 where
  null_value other_value : RawTables
  text : String → RawTables
  items : List (Option String) → RawTables

-- The loop of `_normalise_tables`, with the names seen so far.
check_tables : List String → List (Option String) → Result (List String)
unfolding contains validate_name
check_tables seen [] = ok []
check_tables seen (none ∷ rest) = err (value_error "each table must be a string")
check_tables seen (some t ∷ rest) = do
  name ← validate_name t "table"
  let others = check_tables (t ∷ seen) rest
  if contains t seen
      then err (value_error ("duplicate table: " <> t))
      else others >>= λ names. ok (t ∷ names)

normalise_list : List (Option String) → Result Tables
unfolding check_tables
normalise_list [] =
    err (value_error "tables must be non-empty if provided (or omit/'all' for full DB)")
normalise_list (v ∷ vs) = check_tables [] (v ∷ vs) >>= λ names. ok (listed names)

-- `_normalise_tables`
unfoldable pub normalise_tables : RawTables → Result Tables
unfolding normalise_list
normalise_tables null_value = ok omitted
normalise_tables (text v) = if v == "all" then ok all_tables else normalise_list (some v ∷ [])
normalise_tables (items vs) = normalise_list vs
normalise_tables other_value = err (value_error "tables must be a list of strings or 'all'")

-- `DBSpec(name=…, tables=…)`
unfoldable pub db_spec : String → RawTables → Result DbSpec
unfolding validate_name normalise_tables
db_spec name raw = do
  checked ← validate_name name "db"
  tables ← normalise_tables raw
  ok (record { name = checked; tables = tables })

-- `is_full`
unfoldable pub is_full : Tables → Bool
is_full omitted = true
is_full all_tables = true
is_full (listed []) = true
is_full (listed (t ∷ ts)) = false

-- `table_list`
unfoldable pub table_list : Tables → Option (List String)
unfolding is_full
table_list omitted = none
table_list all_tables = none
table_list (listed names) = if is_full (listed names) then none else some names

-- `set(names)`: each name once
unfoldable pub to_set : List String → List String
unfolding contains
to_set [] = []
to_set (n ∷ ns) = let rest = to_set ns in if contains n ns then rest else n ∷ rest

-- `_unique_dbs`
unfoldable pub unique_dbs : List DbSpec → Result (List DbSpec)
unfolding to_set
unique_dbs specs =
    let names = map (λ (d : DbSpec). d.name) specs in
    if not (length (to_set names) == length names)
    then err (value_error "dbs must be unique")
    else ok specs
