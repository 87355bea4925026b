-- ===== src/Session.antt =====
-- api/state.py: the row of the table `sessions` and its status.
pub mod Draft
use sansbox_sql.Base.{String, ℕ, Bool, true, false, List, ◌==◌, string_eq, ◌||◌}

-- The status is a text in the source; `unknown` holds one outside `_VALID_STATUSES`.
pub data Status : Type 0 where
  starting ready expired nuked error : Status
  unknown : String → Status

unfoldable pub status_text : Status → String
status_text starting = "starting"
status_text ready = "ready"
status_text expired = "expired"
status_text nuked = "nuked"
status_text error = "error"
status_text (unknown text) = text

-- `status in _VALID_STATUSES`
unfoldable pub is_valid : Status → Bool
is_valid (unknown text) = false
is_valid _ = true

-- SQL's `=` between two of the statuses above; a text outside them equals none of them.
unfoldable pub is_starting : Status → Bool
is_starting starting = true
is_starting _ = false

unfoldable pub is_ready : Status → Bool
is_ready ready = true
is_ready _ = false

unfoldable pub is_expired : Status → Bool
is_expired expired = true
is_expired _ = false

unfoldable pub is_nuked : Status → Bool
is_nuked nuked = true
is_nuked _ = false

unfoldable pub is_error : Status → Bool
is_error error = true
is_error _ = false

-- SQL's `status = ?`
unfoldable pub same_status : Status → Status → Bool
unfolding is_starting is_ready is_expired is_nuked is_error
same_status s starting = is_starting s
same_status s ready = is_ready s
same_status s expired = is_expired s
same_status s nuked = is_nuked s
same_status s error = is_error s
same_status (unknown a) (unknown b) = a == b
same_status _ (unknown b) = false

pub record Session : Type 0 where
  pub id : String
  pub ticket : String
  pub date : String
  pub dbs_json : String
  pub creds_enc : List ℕ
  pub host : String
  pub mysql_host : String
  pub port : ℕ
  pub container_name : String
  pub compose_path : String
  pub tls_dir : String
  pub log_dir : String
  pub created_at : ℕ
  pub expires_at : ℕ
  pub max_extended_until : ℕ
  pub ttl_extended : ℕ
  pub status : Status

-- `status IN ('starting', 'ready', 'expired')`: the session holds its port.
unfoldable pub is_active : Status → Bool
unfolding is_starting is_ready is_expired
is_active s = is_starting s || (is_ready s || is_expired s)
