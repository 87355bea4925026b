-- ===== src/Models/Request.antt =====
-- `CreateSessionRequest`. pydantic matches the pattern of the ticket with the regex of Rust, where `$`
-- stands for the end of the text alone, and counts characters.
pub mod Accepted
use sansbox_sql.Base.{
  String, ◌<>◌, ℕ, Bool, true, false, not, ◌&&◌, ◌||◌, Option, none, some, List, [], ◌∷◌, map,
  length, leb, ltb, ◌==◌, nat_eq, string_eq, if◌then◌else◌,
}
use sansbox_sql.Base.Text.{codes}
use sansbox_sql.Errors.{Result, ok, err, value_error, ◌>>=◌, ◌>>◌, guard}
use sansbox_sql.Models.{DbSpec, RawTables, null_value, is_word, db_spec, unique_dbs}

pub record CreateSessionRequest : Type 0 where
  pub ticket : String
  pub dbs : List DbSpec

-- An entry of `dbs` in the request: a text, an object with a name and tables, or something else.
pub data RawDb : Type 0 where
  legacy : String → RawDb
  spec : String → RawTables → RawDb
  other_db : RawDb

-- `[A-Za-z0-9._-]`
unfoldable pub is_ticket_char : ℕ → Bool
unfolding is_word
is_ticket_char c = is_word c || (c == b'.' || c == b'-')

unfoldable pub all_ticket_chars : List ℕ → Bool
unfolding is_ticket_char
all_ticket_chars [] = true
all_ticket_chars (c ∷ cs) = is_ticket_char c && all_ticket_chars cs

-- The bounds and the pattern of `ticket`
unfoldable pub ticket_ok : String → Bool
unfolding all_ticket_chars
ticket_ok ticket =
    leb 1 (length (codes ticket))
    && (leb (length (codes ticket)) 64 && all_ticket_chars (codes ticket))

-- `_accept_legacy_strings`, and the validation of the entry that it makes
unfoldable pub accept_db : RawDb → Result DbSpec
unfolding db_spec
accept_db (legacy name) = db_spec name null_value
accept_db (spec name tables) = db_spec name tables
accept_db other_db = err (value_error "each db must be a string or {name, tables}")

unfoldable pub accept_dbs : List RawDb → Result (List DbSpec)
unfolding accept_db
accept_dbs [] = ok []
accept_dbs (raw ∷ raws) = do d ← accept_db raw; ds ← accept_dbs raws; ok (d ∷ ds)

-- The validation of a request whose `dbs` is a list
unfoldable pub create_request : String → List RawDb → Result CreateSessionRequest
unfolding ticket_ok accept_dbs
create_request ticket raws = do
  guard (ticket_ok ticket) (value_error "invalid ticket")
  guard (leb 1 (length raws) && leb (length raws) 10) (value_error "invalid number of dbs")
  specs ← accept_dbs raws
  dbs ← unique_dbs specs
  ok (record { ticket = ticket; dbs = dbs })
