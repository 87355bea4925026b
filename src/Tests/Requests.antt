-- ===== src/Tests/Requests.antt =====
-- The theorems on the request models and on failures at concrete data.
use sansbox_sql.Base.{◌≤◌, some, List, [], ◌∷◌, ◌≡◌, ◌↔◌, refl, length, contains, string_eq}
use sansbox_sql.Base.Text.{codes}
use sansbox_sql.Errors.{ok}
use sansbox_sql.Models.{
  RawTables, items, omitted, listed, DbSpec, validate_name, name_re, normalise_tables, unique_dbs,
  max_name_len,
}
use sansbox_sql.Models.Request.{CreateSessionRequest, RawDb, legacy, spec, create_request}
use sansbox_sql.Models.Request.Accepted.{Accepted, create_request-Accepted}
use sansbox_sql.Models.Names.{NameText, validate_name_iff}

-- The name "shop" with a newline behind it is accepted.
trailing_newline : validate_name "shop\n" "db" ≡ ok "shop\n"
unfolding validate_name name_re
trailing_newline = refl

validate_name_iff_example :
    (validate_name "shop\n" "db" ≡ ok "shop\n")
    ↔ (NameText (codes "shop\n") × (length (codes "shop\n") ≤ max_name_len))
validate_name_iff_example = validate_name_iff "shop\n" "db"

abbrev two_tables : RawTables
two_tables = items (some "users" ∷ some "orders" ∷ [])

abbrev specs : List DbSpec
specs =
    record { name = "shop"; tables = omitted }
    ∷ record { name = "blog"; tables = listed ("posts" ∷ []) }
    ∷ []

abbrev raws : List RawDb
raws = legacy "shop" ∷ spec "blog" (items (some "posts" ∷ [])) ∷ []

abbrev request : CreateSessionRequest
request = record { ticket = "OPS-17.2"; dbs = specs }

create_request-Accepted_example : Accepted request
unfolding create_request normalise_tables validate_name name_re contains unique_dbs
create_request-Accepted_example = create_request-Accepted "OPS-17.2" raws request refl
