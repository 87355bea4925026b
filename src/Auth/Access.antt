-- ===== src/Auth/Access.antt =====
-- Whom Cloudflare Access lets in.
use sansbox_sql.Base.{[], ◌∷◌}
use sansbox_sql.Base.{
  String, ℕ, true, false, Option, none, some, ◌==◌, string_eq, ◌≡◌, ◌≢◌, refl, sym, ap, ◌∙◌,
  Bool-cases, eq_iff, not, arith, inl, inr,
}
use sansbox_sql.Errors.{Exc}
use sansbox_sql.Config.{Settings, truthy, cf_access_enabled}
use sansbox_sql.Auth.{
  allowed, refused, JwtError, keys_unreachable, keys_error, invalid_token, expired_signature,
  invalid_audience, not_caught, crashed, Decoded, payload, failed, Crypto, AccessIdentity, Cache,
  get_client, refusal, identified, decode_cf_jwt, or_empty, enforce_cf_access,
}
use sansbox_sql.Auth.Keys.{Fresh, Kept, get_client-Fresh}

not_let_in : {A : Type 0} {n : ℕ} {m : String} {a : A} → refused n m ≡ allowed a → ⊥
not_let_in e = cc

crash_not_let_in : {A : Type 0} {e : Exc} {a : A} → crashed e ≡ allowed a → ⊥
crash_not_let_in e = cc

let_in_inj : {A : Type 0} {a b : A} → allowed a ≡ allowed b → a ≡ b
let_in_inj e = cc

-- A setting that is there and not empty
abbrev pub Named : Option String → Type 0
Named o = (t : String) × (o ≡ some t) × (t ≢ "")

truthy-Named : (o : Option String) → truthy o ≡ true → Named o
truthy-Named none h = absurd (cc h)
truthy-Named (some t) h = (t, refl, λ e. cc (ap not ((eq_iff t "").1 e), h))

enabled-Named :
    (s : Settings)
    → cf_access_enabled s ≡ true
    → Named s.sandbox_cf_access_aud × Named s.sandbox_cf_access_certs_url
unfolding cf_access_enabled
enabled-Named s h = (
  truthy-Named s.sandbox_cf_access_aud (ground arith),
  truthy-Named s.sandbox_cf_access_certs_url (ground arith),
)

module _ (c : Crypto) where
  -- The identity is what a verified token says.
  pub Verified : Decoded c.Claims → AccessIdentity c → Type 0
  Verified d who =
      (p : c.Claims) × (d ≡ payload p)
      × (who ≡ record { email = c.claim p "email"; sub = c.claim p "sub"; raw = p })

  refusal-not_allowed : (e : JwtError) (who : AccessIdentity c) → refusal c e ≡ allowed who → ⊥
  unfolding refusal
  refusal-not_allowed (keys_unreachable m) who h = not_let_in h
  refusal-not_allowed (keys_error m) who h = not_let_in h
  refusal-not_allowed expired_signature who h = not_let_in h
  refusal-not_allowed invalid_audience who h = not_let_in h
  refusal-not_allowed (invalid_token m) who h = not_let_in h
  refusal-not_allowed (not_caught e) who h = crash_not_let_in h

  identified-Verified :
      (d : Decoded c.Claims) (who : AccessIdentity c)
      → identified c d ≡ allowed who
      → Verified d who
  unfolding identified Verified
  identified-Verified (failed e) who h = absurd (refusal-not_allowed e who h)
  identified-Verified (payload p) who h = (p, refl, sym (let_in_inj h))

  -- A token that the key client of this URL verified for this audience
  pub Presented : Option String → Settings → ℕ → Cache c → AccessIdentity c → Type 0
  Presented cf_jwt s now cache who =
      (token : String) × (cf_jwt ≡ some token)
      × (token ≢ "")
      × Fresh c (or_empty c s.sandbox_cf_access_certs_url) now
          (get_client c (or_empty c s.sandbox_cf_access_certs_url) now cache).0
      × Verified
          (c.decode (get_client c (or_empty c s.sandbox_cf_access_certs_url) now cache).0 token
            ("RS256" ∷ []) s.sandbox_cf_access_aud ("exp" ∷ "iat" ∷ []))
          who

  decode_missing :
      (s : Settings) (url : String) (now : ℕ) (cache : Cache c) (token : String)
      → (token == "") ≡ true
      → decode_cf_jwt c token s url now cache
        ≡ (refused 401 "missing Cf-Access-Jwt-Assertion", cache)
  unfolding decode_cf_jwt
  decode_missing s url now cache token y = rw y refl

  decode_empty :
      (s : Settings) (url : String) (now : ℕ) (cache : Cache c) (who : AccessIdentity c)
      (token : String)
      → (token == "") ≡ true
      → (decode_cf_jwt c token s url now cache).0 ≡ allowed who
      → ⊥
  decode_empty s url now cache who token y h =
      not_let_in (sym (ap (λ q. q.0) (decode_missing s url now cache token y)) ∙ h)

  decode_text :
      (s : Settings) (url : String) (now : ℕ) (cache : Cache c) (token : String)
      → (token == "") ≡ false
      → decode_cf_jwt c token s url now cache ≡ (
        identified c (
            c.decode
              (get_client c url now cache).0
              token
              ("RS256" ∷ [])
              s.sandbox_cf_access_aud
              ("exp" ∷ "iat" ∷ [])),
        (get_client c url now cache).1,
      )
  unfolding decode_cf_jwt
  decode_text s url now cache token n = rw n refl

  enforce_live :
      (cf_jwt : Option String) (s : Settings) (now : ℕ) (cache : Cache c)
      → cf_access_enabled s ≡ true
      → s.sandbox_test_mode ≡ false
      → enforce_cf_access c cf_jwt s now cache
        ≡ decode_cf_jwt c (or_empty c cf_jwt) s (or_empty c s.sandbox_cf_access_certs_url) now cache
  unfolding enforce_cf_access
  enforce_live cf_jwt s now cache on live = rw (on, live) refl

  decode-Presented :
      (cf_jwt : Option String) (s : Settings) (now : ℕ) (cache : Cache c) (who : AccessIdentity c)
      → Kept c cache
      → (decode_cf_jwt c
          (or_empty c cf_jwt)
          s
          (or_empty c s.sandbox_cf_access_certs_url)
          now
          cache).0
        ≡ allowed who
      → Presented cf_jwt s now cache who
  unfolding or_empty Presented
  decode-Presented none s now cache who kept h = absurd (decode_empty s _ now cache who "" refl h)
  decode-Presented (some token) s now cache who kept h = elim (Bool-cases (token == "")) [
    | inl y ↦ absurd (decode_empty s _ now cache who token y h)
    | inr n ↦ (
      token,
      refl,
      (λ e. cc (sym ((eq_iff token "").1 e) ∙ n)),
      (get_client-Fresh c cache _ now kept).0,
      identified-Verified _ who (
          sym (
            ap (λ q. q.0)
              (decode_text s (or_empty c s.sandbox_cf_access_certs_url) now cache token n))
          ∙ h),
    )
  ]

  -- Where Access is enabled, outside test mode, and with a cache that keeps a client only with the URL
  -- and the time it was made for: if a request is let in as somebody, then an audience and a URL are
  -- configured, and the request carried a token that is not empty, which PyJWT verified for that
  -- audience with a key client that was made for that URL at most an hour before; and the identity is
  -- the email, the subject and the claims of that token.
  pub enforce_cf_access-Presented :
      (cf_jwt : Option String) (s : Settings) (now : ℕ) (cache : Cache c) (who : AccessIdentity c)
      (cache' : Cache c)
      → cf_access_enabled s ≡ true
      → s.sandbox_test_mode ≡ false
      → Kept c cache
      → enforce_cf_access c cf_jwt s now cache ≡ (allowed who, cache')
      → Named s.sandbox_cf_access_aud
        × Named s.sandbox_cf_access_certs_url
        × Presented cf_jwt s now cache who
  enforce_cf_access-Presented cf_jwt s now cache who cache' on live kept h = (
    (enabled-Named s on).0,
    (enabled-Named s on).1,
    decode-Presented cf_jwt s now cache who kept
        (sym (ap (λ q. q.0) (enforce_live cf_jwt s now cache on live)) ∙ ap (λ q. q.0) h),
  )
