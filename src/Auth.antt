-- ===== src/Auth.antt =====
-- api/auth.py: who may call, and the cache of the signing keys. A `Crypto` stands for `hmac`, the
-- encoding of texts, and PyJWT: its client of one URL, made at one time, and `jwt.decode` with that
-- client's key, which is told the algorithms, the audience and the claims that a token must have.
pub mod Access
pub mod Gates
pub mod Keys
use sansbox_sql.Base.{
  String, ◌<>◌, ℕ, ◌+◌, ◌-◌, Bool, true, false, not, ◌||◌, Option, none, some, List, [], ◌∷◌, ◌==◌,
  string_eq, ltb, if◌then◌else◌,
}
use sansbox_sql.Errors.{Exc}
use sansbox_sql.Config.{Settings, cf_access_enabled}

-- What a dependency gives: a value, an `HTTPException`, or another exception, which it does not
-- catch.
pub data Answer (A : Type 0) : Type 0 where
  allowed : A → Answer A
  refused : ℕ → String → Answer A
  crashed : Exc → Answer A

-- The exceptions of PyJWT that are caught, and any other that the two calls may raise.
pub data JwtError : Type 0 where
  keys_unreachable keys_error invalid_token : String → JwtError
  expired_signature invalid_audience : JwtError
  not_caught : Exc → JwtError

pub data Decoded (A : Type 0) : Type 0 where
  payload : A → Decoded A
  failed : JwtError → Decoded A

-- `Bytes` are byte strings, `Client` a `PyJWKClient`, `Claims` the payload of a token.
pub record Crypto : Type 1 where
  pub Bytes : Type 0
  pub Client : Type 0
  pub Claims : Type 0
  pub encode : String → Bytes
  pub compare_digest : Bytes → Bytes → Bool
  pub hmac_sha256 : Bytes → Bytes → String
  pub no_bytes : Bytes
  pub client_for : String → ℕ → Client
  pub decode : Client → String → List String → Option String → List String → Decoded Claims
  pub claim : Claims → String → Option String
  pub no_claims : Claims

module _ (c : Crypto) where
  pub record AccessIdentity : Type 0 where
    pub email : Option String
    pub sub : Option String
    pub raw : c.Claims

  -- `constant_time_eq` of two texts
  unfoldable pub constant_time_eq : String → String → Bool
  constant_time_eq a b = c.compare_digest (c.encode a) (c.encode b)

  -- `_JWKSCache`; a time is in nanoseconds.
  pub record Cache : Type 0 where
    pub client : Option c.Client
    pub url : Option String
    pub fetched_at : ℕ

  abbrev pub jwks_ttl : ℕ
  jwks_ttl = 3600000000000

  -- `self._url != url`
  other_url : Option String → String → Bool
  other_url none url = true
  other_url (some u) url = not (u == url)

  fetch : String → ℕ → c.Client × Cache
  fetch url now = (
    c.client_for url now,
    record { client = some (c.client_for url now); url = some url; fetched_at = now },
  )

  cached_or_fetched : Cache → String → ℕ → Option c.Client → c.Client × Cache
  unfolding fetch other_url
  cached_or_fetched cache url now none = fetch url now
  cached_or_fetched cache url now (some client) =
      if other_url cache.url url || ltb jwks_ttl (now - cache.fetched_at)
      then fetch url now
      else (client, cache)

  -- `_JWKSCache.get`
  unfoldable pub get_client : String → ℕ → Cache → c.Client × Cache
  unfolding cached_or_fetched
  get_client url now cache = cached_or_fetched cache url now cache.client

  abbrev pub invalidate : Cache → Cache
  invalidate cache = record { client = none; url = none; fetched_at = 0 }

  -- The `except` clauses of `_decode_cf_jwt`
  refusal : {A : Type 0} → JwtError → Answer A
  refusal (keys_unreachable m) = refused 503 ("cf access jwks unreachable: " <> m)
  refusal (keys_error m) = refused 401 ("cf access token invalid: " <> m)
  refusal expired_signature = refused 401 "cf access token expired"
  refusal invalid_audience = refused 401 "cf access token audience mismatch"
  refusal (invalid_token m) = refused 401 ("cf access token invalid: " <> m)
  refusal (not_caught e) = crashed e

  identified : Decoded c.Claims → Answer AccessIdentity
  unfolding refusal
  identified (failed e) = refusal e
  identified (payload p) =
      allowed (record { email = c.claim p "email"; sub = c.claim p "sub"; raw = p })

  -- `_decode_cf_jwt`; the URL is a text where the check is enabled.
  unfoldable pub decode_cf_jwt :
      String → Settings → String → ℕ → Cache → Answer AccessIdentity × Cache
  unfolding identified get_client
  decode_cf_jwt token settings url now cache =
      let (client, cache') = get_client url now cache in
      if token == "" then (refused 401 "missing Cf-Access-Jwt-Assertion", cache) else (
        identified (
            c.decode client token ("RS256" ∷ []) settings.sandbox_cf_access_aud
              ("exp" ∷ "iat" ∷ [])),
        cache',
      )

  or_empty : Option String → String
  or_empty none = ""
  or_empty (some s) = s

  unfoldable pub enforce_cf_access :
      Option String → Settings → ℕ → Cache → Answer AccessIdentity × Cache
  unfolding decode_cf_jwt or_empty cf_access_enabled
  enforce_cf_access cf_jwt settings now cache =
      if not (cf_access_enabled settings)
      then (allowed (record { email = none; sub = none; raw = c.no_claims }), cache)
      else if settings.sandbox_test_mode
      then (
        allowed (record { email = some "test@local"; sub = some "test"; raw = c.no_claims }),
        cache,
      )
      else decode_cf_jwt (or_empty cf_jwt) settings (or_empty settings.sandbox_cf_access_certs_url)
          now cache

  right_key : Option String → Settings → Bool
  unfolding constant_time_eq
  right_key none settings = false
  right_key (some key) settings =
      if key == "" then false else constant_time_eq key settings.sandbox_api_key

  unfoldable pub enforce_api_key : Option String → Settings → Answer (Unit {0})
  unfolding right_key
  enforce_api_key api_key settings =
      if settings.sandbox_test_mode
      then allowed tt
      else if not (right_key api_key settings)
      then refused 401 "invalid or missing API key"
      else allowed tt

  unfoldable pub webhook_signature_for : String → c.Bytes → String
  webhook_signature_for secret body = "sha256=" <> c.hmac_sha256 (c.encode secret) body

  unfoldable pub verify_webhook_signature : String → c.Bytes → Option String → Bool
  unfolding webhook_signature_for constant_time_eq
  verify_webhook_signature secret body none = false
  verify_webhook_signature secret body (some header) =
      if header == "" then false else constant_time_eq (webhook_signature_for secret body) header

  -- The body is read where the signature is checked.
  unfoldable pub require_webhook_signature : c.Bytes → Option String → Settings → Answer c.Bytes
  unfolding verify_webhook_signature
  require_webhook_signature body header settings =
      if settings.sandbox_test_mode
      then allowed c.no_bytes
      else if not (verify_webhook_signature settings.sandbox_webhook_secret body header)
      then refused 401 "invalid or missing webhook signature"
      else allowed body
