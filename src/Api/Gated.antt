-- ===== src/Api/Gated.antt =====
-- The gates of the endpoints.
use sansbox_sql.Base.{String, ℕ, false, some, ◌≡◌, ◌≢◌, ◌⊎◌, inl, inr, refl}
use sansbox_sql.Errors.{Exc, Result, ok, err}
use sansbox_sql.Exec.{Exec, ◌>>=◌}
use sansbox_sql.Auth.{
  Answer, allowed, refused, crashed, AccessIdentity, Cache, enforce_cf_access, enforce_api_key,
}
use sansbox_sql.Auth.Gates.{Sound, enforce_api_key_iff, key_decided}
use sansbox_sql.Service.{World}
use sansbox_sql.Api.{Response, http_exception, Headers, Site, depends, cf_access, protected}

key_known :
    {E : Type 0} (site : Site E) (headers : Headers)
    → Sound site.crypto
    → site.settings.sandbox_test_mode ≡ false
    → enforce_api_key site.crypto headers.api_key site.settings ≡ allowed tt
    → (headers.api_key ≡ some site.settings.sandbox_api_key) × (site.settings.sandbox_api_key ≢ "")
key_known site headers sound live h =
    elim ((enforce_api_key_iff site.crypto sound headers.api_key site.settings).0 h) [
      | inl test ↦ absurd (cc (live, test))
      | inr known ↦ known
    ]

module _ {E : Type 0} (site : Site E) {A : Type 0} (headers : Headers) where
  pub Entered : Exec (World E) (Response A) → World E → Type 0
  Entered endpoint w =
      (identity : AccessIdentity site.crypto) × (cache' : Cache site.crypto) × (enforce_cf_access
          site.crypto headers.cf_jwt site.settings (site.monotonic w) (site.cache w)
        ≡ (allowed identity, cache'))
      × (headers.api_key ≡ some site.settings.sandbox_api_key)
      × (site.settings.sandbox_api_key ≢ "")
      × (protected site headers endpoint w ≡ endpoint (site.keep cache' w))

  -- The response is an `HTTPException`, or it is what the check of Access raised, which it may do
  -- where PyJWT raises what the check does not catch.
  pub Denied : Answer (AccessIdentity site.crypto) → Result (Response A) → Type 0
  Denied access response =
      ((status : ℕ) × (detail : String) × (response ≡ ok (http_exception status detail)))
      ⊎ ((e : Exc) × (response ≡ err e) × (access ≡ crashed e))

  pub TurnedAway : Exec (World E) (Response A) → World E → Type 0
  TurnedAway endpoint w =
      (response : Result (Response A)) × (cache' : Cache site.crypto) × (protected site headers
          endpoint w
        ≡ (response, site.keep cache' w))
      × Denied
          (enforce_cf_access site.crypto headers.cf_jwt site.settings (site.monotonic w)
            (site.cache w)).0
          response

  by_access :
      (endpoint : Exec (World E) (Response A)) (v : World E)
      (a : Answer (AccessIdentity site.crypto)) (k : Answer (Unit {0})) (detail : String)
      → (k ≡ allowed tt) ⊎ (k ≡ refused 401 detail)
      → ((identity : AccessIdentity site.crypto) × (a ≡ allowed identity)
          × (k ≡ allowed tt)
          × (depends a (depends k endpoint) v ≡ endpoint v))
        ⊎ ((response : Result (Response A)) × (depends a (depends k endpoint) v ≡ (response, v))
            × Denied a response)
  unfolding depends Denied
  by_access endpoint v (refused status detail) k m q =
      inr (ok (http_exception status detail), refl, inl (status, detail, refl))
  by_access endpoint v (crashed e) k m q = inr (err e, refl, inr (e, refl, refl))
  by_access endpoint v (allowed identity) k m (inl e) = inl (identity, refl, e, rw e refl)
  by_access endpoint v (allowed identity) k m (inr e) =
      inr (ok (http_exception 401 m), rw e refl, inl (401, m, refl))

  -- Outside test mode, where `compare_digest` compares: the code of a protected endpoint runs only
  -- for a request with the configured API key, which is not empty, and with what Cloudflare Access
  -- asks for. Any other request is answered by an `HTTPException`, or ends with what PyJWT raised and
  -- the check of Access does not catch; all that it may have changed is the cache of the signing keys.
  pub protected-Gated :
      Sound site.crypto
      → site.settings.sandbox_test_mode ≡ false
      → (endpoint : Exec (World E) (Response A)) (w : World E)
      → Entered endpoint w ⊎ TurnedAway endpoint w
  unfolding protected cf_access ◌>>=◌ Entered TurnedAway
  protected-Gated sound live endpoint w =
      let decided =
        enforce_cf_access site.crypto headers.cf_jwt site.settings (site.monotonic w)
          (site.cache w) in
      elim (by_access endpoint (site.keep decided.1 w) decided.0
        (enforce_api_key site.crypto headers.api_key site.settings) _
        (key_decided site.crypto sound headers.api_key site.settings)) [
          | inl (identity, a, k, h) ↦
              let (sent, set) = key_known site headers sound live k in
              inl (identity, decided.1, λ i. (a i, decided.1), sent, set, h)
          | inr (response, h, denied) ↦ inr (response, decided.1, h, denied)
        ]
