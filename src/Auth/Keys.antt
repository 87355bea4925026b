-- ===== src/Auth/Keys.antt =====
-- How old the client is that the cache of the signing keys gives.
use sansbox_sql.Base.{
  String, ℕ, ◌+◌, ◌-◌, ◌≤◌, false, Option, none, some, string_eq, ltb, ◌≡◌, refl, sym, ap, ◌∙◌, inl,
  inr, arith, Bool-cases, eq_iff,
}
use sansbox_sql.Auth.{
  Crypto, Cache, jwks_ttl, fetch, other_url, cached_or_fetched, get_client, invalidate,
}

module _ (c : Crypto) where
  -- The client that is kept was made for the URL that is kept, at the time that is kept.
  pub record Kept (cache : Cache c) : Type 0 where
    pub made :
        (client : c.Client)
        → cache.client ≡ some client
        → (u : String) × (cache.url ≡ some u) × (client ≡ c.client_for u cache.fetched_at)

  pub record Fresh (url : String) (now : ℕ) (client : c.Client) : Type 0 where
    pub made_at : ℕ
    pub made : client ≡ c.client_for url made_at
    pub young : now ≤ made_at + jwks_ttl c

  invalidate-Kept : (cache : Cache c) → Kept (invalidate c cache)
  invalidate-Kept cache = record { made = λ client e. absurd (cc e) }

  fetch-Kept : (url : String) (now : ℕ) → Kept (fetch c url now).1
  unfolding fetch
  fetch-Kept url now = record { made = λ client e. (url, refl, some_client e) }
    where
      some_client :
          {client : c.Client}
          → some (c.client_for url now) ≡ some client
          → client ≡ c.client_for url now
      some_client e = cc

  fetch-Fresh : (url : String) (now : ℕ) → Fresh url now (fetch c url now).0
  unfolding fetch
  fetch-Fresh url now = record { made_at = now; made = refl; young = omega arith }

  same_url : (u url : String) → other_url c (some u) url ≡ false → u ≡ url
  unfolding other_url
  same_url u url h = (eq_iff u url).0 (ground arith)

  hit-Fresh :
      (cache : Cache c) (url : String) (now : ℕ) (client : c.Client)
      → Kept cache
      → cache.client ≡ some client
      → other_url c cache.url url ≡ false
      → ltb (jwks_ttl c) (now - cache.fetched_at) ≡ false
      → Fresh url now client
  hit-Fresh cache url now client kept e same early =
      let (u, at, made) = kept.made client e in
      record {
        made_at = cache.fetched_at;
        made =
            made
            ∙ ap (λ x. c.client_for x cache.fetched_at)
                (same_url u url (sym (ap (λ o. other_url c o url) at) ∙ same));
        young = ground arith;
      }

  Served : String → ℕ → c.Client × Cache c → Type 0
  Served url now out = Fresh url now out.0 × Kept out.1

  fetch-Served : (url : String) (now : ℕ) → Served url now (fetch c url now)
  unfolding Served
  fetch-Served url now = (fetch-Fresh url now, fetch-Kept url now)

  serve :
      (cache : Cache c) (url : String) (now : ℕ) (kept_client : Option c.Client)
      → Kept cache
      → cache.client ≡ kept_client
      → Served url now (cached_or_fetched c cache url now kept_client)
  unfolding cached_or_fetched
  serve cache url now none kept e = fetch-Served url now
  serve cache url now (some client) kept e = elim (Bool-cases (other_url c cache.url url)) [
    | inl y ↦ rw y (fetch-Served url now)
    | inr same ↦ elim (Bool-cases (ltb (jwks_ttl c) (now - cache.fetched_at))) [
      | inl y ↦ rw (same, y) (fetch-Served url now)
      | inr early ↦
          rw (same, early)
            (unfold Served in (hit-Fresh cache url now client kept e same early, kept))
    ]
  ]

  -- If the cache keeps a client only with the URL and the time it was made for, then so does the
  -- cache that `get` leaves, and the client that `get` returns was made for the URL that was asked,
  -- at most an hour before.
  pub get_client-Fresh :
      (cache : Cache c) (url : String) (now : ℕ)
      → Kept cache
      → Fresh url now (get_client c url now cache).0 × Kept (get_client c url now cache).1
  unfolding get_client Served
  get_client-Fresh cache url now kept = serve cache url now cache.client kept refl
