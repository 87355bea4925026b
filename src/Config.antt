-- ===== src/Config.antt =====
-- api/config.py: the settings, the validators that relate them, and the derived properties.
pub mod Range
use sansbox_sql.Base.{String, ℕ, zero, suc, ◌+◌, ◌-◌, Bool, true, false, ◌&&◌, not, Option, none}
use sansbox_sql.Base.{some, List, [], ◌∷◌, ltb, if◌then◌else◌, ◌==◌, string_eq}
use sansbox_sql.Errors.{Result, ok, err, value_error, ◌>>=◌}

pub record Settings : Type 0 where
  pub sandbox_api_key : String
  pub sandbox_webhook_secret : String
  pub sandbox_cf_access_aud : Option String
  pub sandbox_cf_access_certs_url : Option String
  pub sandbox_fernet_key : String
  pub sandbox_state_db : String
  pub sandbox_compose_dir : String
  pub sandbox_tls_dir : String
  pub sandbox_log_dir : String
  pub sandbox_public_host : String
  pub sandbox_mysql_host : String
  pub sandbox_port_range_start : ℕ
  pub sandbox_port_range_end : ℕ
  pub sandbox_tunnel_bind_host : String
  pub sandbox_working_dir : String
  pub prod_ssh_host : String
  pub prod_ssh_user : String
  pub prod_ssh_key : String
  pub prod_ssh_port : ℕ
  pub prod_mysql_host : String
  pub prod_mysql_port : ℕ
  pub prod_mysql_user : String
  pub prod_mysql_password : String
  pub sandbox_mysql_image : String
  pub sandbox_ttl_min_seconds : ℕ
  pub sandbox_ttl_default_seconds : ℕ
  pub sandbox_ttl_max_seconds : ℕ
  pub sandbox_ttl_reset_add_seconds : ℕ
  pub sandbox_reaper_interval_seconds : ℕ
  pub sandbox_test_mode : Bool

-- `_port_range_order`: `v` is the end, and the start was validated before it.
unfoldable pub port_range_order : ℕ → ℕ → Result ℕ
port_range_order start v =
    if ltb v start
    then err (value_error "SANDBOX_PORT_RANGE_END must be >= SANDBOX_PORT_RANGE_START")
    else ok v

-- `_ttl_max_above_default`: `v` is the maximum.
unfoldable pub ttl_max_above_default : ℕ → ℕ → ℕ → Result ℕ
ttl_max_above_default default minimum v =
    if ltb v default
    then err (value_error "SANDBOX_TTL_MAX_SECONDS must be >= SANDBOX_TTL_DEFAULT_SECONDS")
    else if ltb default minimum
    then err (value_error "SANDBOX_TTL_DEFAULT_SECONDS must be >= SANDBOX_TTL_MIN_SECONDS")
    else ok v

-- The validators in the order of the fields, on the values that the environment gives.
unfoldable pub validate : Settings → Result Settings
unfolding port_range_order ttl_max_above_default
validate s = do
  end ← port_range_order s.sandbox_port_range_start s.sandbox_port_range_end
  ttl_max ←
      ttl_max_above_default s.sandbox_ttl_default_seconds s.sandbox_ttl_min_seconds
        s.sandbox_ttl_max_seconds
  ok s

-- `range(start, start + n)`
unfoldable pub range : ℕ → ℕ → List ℕ
range start zero = []
range start (suc n) = start ∷ range (suc start) n

-- `range(start, end + 1)`: empty if the end stands before the start.
unfoldable pub port_range : Settings → List ℕ
unfolding range
port_range s =
    range s.sandbox_port_range_start (suc s.sandbox_port_range_end - s.sandbox_port_range_start)

-- Python's truth of a text that may be None
abbrev pub truthy : Option String → Bool
truthy none = false
truthy (some text) = not (text == "")

unfoldable pub cf_access_enabled : Settings → Bool
cf_access_enabled s = truthy s.sandbox_cf_access_aud && truthy s.sandbox_cf_access_certs_url
