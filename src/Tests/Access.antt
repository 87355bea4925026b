-- ===== src/Tests/Access.antt =====
-- The theorems on access at a concrete `Crypto`: a byte string is its text, a client is the URL and
-- the time that it was made for.
use sansbox_sql.Base.{
  String, ◌<>◌, ℕ, true, false, Option, some, ◌≡◌, ◌≢◌, ◌⊎◌, ◌↔◌, refl, ◌==◌, string_eq, eq_iff,
}
use sansbox_sql.Config.{Settings, cf_access_enabled}
use sansbox_sql.Auth.{
  Crypto, allowed, refused, payload, enforce_api_key, webhook_signature_for,
  require_webhook_signature, Cache, get_client, AccessIdentity, enforce_cf_access,
}
use sansbox_sql.Auth.Access.{Named, Presented, enforce_cf_access-Presented}
use sansbox_sql.Auth.Gates.{Sound, enforce_api_key_iff, require_webhook_signature_iff}
use sansbox_sql.Auth.Keys.{Kept, Fresh, get_client-Fresh}
use sansbox_sql.Tests.Data.{settings}

abbrev pub plain : Crypto
plain = record {
  Bytes = String;
  Client = String × ℕ;
  Claims = String;
  encode = λ s. s;
  compare_digest = λ a b. a == b;
  hmac_sha256 = λ key body. key <> body;
  no_bytes = "";
  client_for = λ url now. (url, now);
  decode = λ client token algorithms audience required. payload token;
  claim = λ claims name. some claims;
  no_claims = "";
}

pub plain-Sound : Sound plain
plain-Sound = record { digest_iff = eq_iff; encode_inj = λ s t e. e }

abbrev pub live_settings : Settings
live_settings = record settings { sandbox_test_mode = false }

abbrev configured : String
configured = "key"

abbrev sent : Option String
sent = some "key"

enforce_api_key_iff_example :
    (enforce_api_key plain sent live_settings ≡ allowed tt)
    ↔ ((false ≡ true) ⊎ ((sent ≡ some configured) × (configured ≢ "")))
enforce_api_key_iff_example = enforce_api_key_iff plain plain-Sound sent live_settings

require_webhook_signature_iff_example :
    ((some "sha256=hookbody" ≡ some (webhook_signature_for plain "hook" "body"))
      × (require_webhook_signature plain "body" (some "sha256=hookbody") live_settings
          ≡ allowed "body"))
    ⊎ ((some "sha256=hookbody" ≢ some (webhook_signature_for plain "hook" "body"))
        × (require_webhook_signature plain "body" (some "sha256=hookbody") live_settings
            ≡ refused 401 "invalid or missing webhook signature"))
require_webhook_signature_iff_example =
    require_webhook_signature_iff plain plain-Sound "body" (some "sha256=hookbody") live_settings
      refl

abbrev cache : Cache plain
cache = record { client = some ("https://certs", 5); url = some "https://certs"; fetched_at = 5 }

cache-Kept : Kept plain cache
cache-Kept = record { made = λ client e. ("https://certs", refl, kept_client e) }
  where
    kept_client :
        {client : String × ℕ}
        → some ("https://certs", 5) ≡ some client
        → client ≡ ("https://certs", 5)
    kept_client e = cc

get_client-Fresh_example :
    Fresh plain "https://certs" 3600000000000
      (get_client plain "https://certs" 3600000000000 cache).0
    × Kept plain (get_client plain "https://certs" 3600000000000 cache).1
get_client-Fresh_example = get_client-Fresh plain cache "https://certs" 3600000000000 cache-Kept

abbrev guarded : Settings
guarded = record live_settings {
  sandbox_cf_access_aud = some "aud";
  sandbox_cf_access_certs_url = some "https://certs";
}

abbrev somebody : AccessIdentity plain
somebody = record { email = some "token"; sub = some "token"; raw = "token" }

guarded_on : cf_access_enabled guarded ≡ true
unfolding cf_access_enabled
guarded_on = refl

let_in :
    enforce_cf_access plain (some "token") guarded 3600000000000 cache ≡ (allowed somebody, cache)
unfolding enforce_cf_access
let_in = refl

enforce_cf_access-Presented_example :
    Named (some "aud")
    × Named (some "https://certs")
    × Presented plain (some "token") guarded 3600000000000 cache somebody
enforce_cf_access-Presented_example =
    enforce_cf_access-Presented plain (some "token") guarded 3600000000000 cache somebody cache
      guarded_on refl cache-Kept let_in
