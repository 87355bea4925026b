-- ===== src/Service/Json.antt =====
-- `json.dumps([s.model_dump() for s in dbs])` in `SessionService.create`.
use Prim.Native.Char.{code}
use Prim.Native.String.{String}
use sansbox_sql.Base.{◌<>◌, List, [], ◌∷◌, ◌==◌, nat_eq, if◌then◌else◌}
use sansbox_sql.Models.{DbSpec, Tables, omitted, all_tables, listed}

-- The escapes of the characters that a validated name can hold, and of the two that JSON gives a
-- meaning to.
escape : String → String
escape String.[] = ""
escape (String.◌∷◌ c s) =
    let rest = escape s in
    if code c == 10
    then "\\n" <> rest
    else if code c == b'"'
    then "\\\"" <> rest
    else if code c == b'\\'
    then "\\\\" <> rest
    else String.◌∷◌ c rest

json_string : String → String
unfolding escape
json_string s = "\"" <> (escape s <> "\"")

join_items : List String → String
join_items [] = ""
join_items (x ∷ []) = x
join_items (x ∷ y ∷ ys) = x <> (", " <> join_items (y ∷ ys))

json_strings : List String → List String
unfolding json_string
json_strings [] = []
json_strings (s ∷ ss) = json_string s ∷ json_strings ss

json_tables : Tables → String
unfolding json_strings join_items
json_tables omitted = "null"
json_tables all_tables = "\"all\""
json_tables (listed names) = "[" <> (join_items (json_strings names) <> "]")

json_specs : List DbSpec → List String
unfolding json_string json_tables
json_specs [] = []
json_specs (d ∷ ds) =
    ("{\"name\": " <> (json_string d.name <> (", \"tables\": " <> (json_tables d.tables <> "}"))))
    ∷ json_specs ds

unfoldable pub dump_specs : List DbSpec → String
unfolding json_specs join_items
dump_specs specs = "[" <> (join_items (json_specs specs) <> "]")
