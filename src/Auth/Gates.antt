-- ===== src/Auth/Gates.antt =====
-- Whom the API key and the webhook signature let in.
use sansbox_sql.Base.{
  String, ◌<>◌, ℕ, true, false, Option, none, some, ◌==◌, string_eq, ◌≡◌, ◌≢◌, ◌⊎◌, ◌↔◌, inl, inr,
  refl, sym, ap, ◌∙◌, Bool-cases, eq_iff,
}
use Prim.Native.String.append
use sansbox_sql.Base.Text.{codes}
use sansbox_sql.Config.{Settings}
use sansbox_sql.Auth.{
  allowed, refused, Crypto, constant_time_eq, right_key, enforce_api_key, webhook_signature_for,
  verify_webhook_signature, require_webhook_signature,
}

-- `compare_digest` tells whether two byte strings are equal, and different texts have different
-- encodings.
pub record Sound (c : Crypto) : Type 0 where
  pub digest_iff : (a b : c.Bytes) → (c.compare_digest a b ≡ true) ↔ (a ≡ b)
  pub encode_inj : (s t : String) → c.encode s ≡ c.encode t → s ≡ t

some_inj : {a b : String} → some a ≡ some b → a ≡ b
some_inj e = cc

not_allowed : {A : Type 0} {n : ℕ} {m : String} {a : A} → refused n m ≡ allowed a → ⊥
not_allowed e = cc

prefix_not_empty : (s : String) → ("sha256=" <> s) ≡ "" → ⊥
prefix_not_empty s e = cc (ap codes (sym (append.cons "s" "ha256=" s) ∙ e))

module _ (c : Crypto) (sound : Sound c) where
  constant_time_eq_iff : (a b : String) → (constant_time_eq c a b ≡ true) ↔ (a ≡ b)
  unfolding constant_time_eq
  constant_time_eq_iff a b = (
    λ h. sound.encode_inj a b ((sound.digest_iff _ _).0 h),
    λ e. (sound.digest_iff _ _).1 (ap c.encode e),
  )

  right_key_empty : (k : String) (s : Settings) → (k == "") ≡ true → right_key c (some k) s ≡ false
  unfolding right_key
  right_key_empty k s h = rw h refl

  right_key_text :
      (k : String) (s : Settings)
      → (k == "") ≡ false
      → right_key c (some k) s ≡ constant_time_eq c k s.sandbox_api_key
  unfolding right_key
  right_key_text k s h = rw h refl

  test_key :
      (key : Option String) (s : Settings)
      → s.sandbox_test_mode ≡ true
      → enforce_api_key c key s ≡ allowed tt
  unfolding enforce_api_key
  test_key key s h = rw h refl

  allowed_key :
      (key : Option String) (s : Settings)
      → s.sandbox_test_mode ≡ false
      → right_key c key s ≡ true
      → enforce_api_key c key s ≡ allowed tt
  unfolding enforce_api_key
  allowed_key key s h k = rw (k, h) refl

  refused_key :
      (key : Option String) (s : Settings)
      → s.sandbox_test_mode ≡ false
      → right_key c key s ≡ false
      → enforce_api_key c key s ≡ refused 401 "invalid or missing API key"
  unfolding enforce_api_key
  refused_key key s h k = rw (k, h) refl

  pub key_decided :
      (key : Option String) (s : Settings)
      → (enforce_api_key c key s ≡ allowed tt)
        ⊎ (enforce_api_key c key s ≡ refused 401 "invalid or missing API key")
  key_decided key s = elim (Bool-cases s.sandbox_test_mode) [
    | inl y ↦ inl (test_key key s y)
    | inr n ↦ elim (Bool-cases (right_key c key s)) [
      | inl right ↦ inl (allowed_key key s n right)
      | inr wrong ↦ inr (refused_key key s n wrong)
    ]
  ]

  signed_empty :
      (secret : String) (body : c.Bytes) (header : String)
      → (header == "") ≡ true
      → verify_webhook_signature c secret body (some header) ≡ false
  unfolding verify_webhook_signature
  signed_empty secret body header h = rw h refl

  signed_text :
      (secret : String) (body : c.Bytes) (header : String)
      → (header == "") ≡ false
      → verify_webhook_signature c secret body (some header)
        ≡ constant_time_eq c (webhook_signature_for c secret body) header
  unfolding verify_webhook_signature
  signed_text secret body header h = rw h refl

  signature_not_empty :
      (secret : String) (body : c.Bytes) (header : String)
      → header ≡ webhook_signature_for c secret body
      → (header == "") ≡ false
  unfolding webhook_signature_for
  signature_not_empty secret body header e = elim (Bool-cases (header == "")) [
    | inr n ↦ n
    | inl y ↦
        absurd
          (prefix_not_empty (c.hmac_sha256 (c.encode secret) body) (sym e ∙ (eq_iff header "").0 y))
  ]

  right_key_iff :
      (key : Option String) (s : Settings)
      → (right_key c key s ≡ true) ↔ ((key ≡ some s.sandbox_api_key) × (s.sandbox_api_key ≢ ""))
  unfolding right_key
  right_key_iff none s = (λ h. absurd (cc h), λ (e, _). absurd (cc e))
  right_key_iff (some k) s = (
    λ h. elim (Bool-cases (k == "")) [
      | inl y ↦ absurd (cc (sym h ∙ right_key_empty k s y))
      | inr n ↦
          let e : k ≡ s.sandbox_api_key =
            (constant_time_eq_iff k s.sandbox_api_key).0 (sym (right_key_text k s n) ∙ h) in
          (ap some e, λ z. cc (sym ((eq_iff k "").1 (e ∙ z)) ∙ n))
    ],
    λ (e, ne). elim (Bool-cases (k == "")) [
      | inl y ↦ absurd (ne (sym (some_inj e) ∙ (eq_iff k "").0 y))
      | inr n ↦ right_key_text k s n ∙ (constant_time_eq_iff k s.sandbox_api_key).1 (some_inj e)
    ],
  )

  -- With a `compare_digest` that tells equality and an injective encoding: a request passes the API
  -- key check exactly in test mode, or with the configured key if that is not empty.
  pub enforce_api_key_iff :
      (key : Option String) (s : Settings)
      → (enforce_api_key c key s ≡ allowed tt) ↔ (
          (s.sandbox_test_mode ≡ true)
          ⊎ ((key ≡ some s.sandbox_api_key) × (s.sandbox_api_key ≢ "")))
  enforce_api_key_iff key s = (
    λ h. elim (Bool-cases s.sandbox_test_mode) [
      | inl y ↦ inl y
      | inr n ↦ elim (Bool-cases (right_key c key s)) [
        | inl right ↦ inr ((right_key_iff key s).0 right)
        | inr wrong ↦ absurd (not_allowed (sym (refused_key key s n wrong) ∙ h))
      ]
    ],
    λ reason. elim reason [
      | inl y ↦ test_key key s y
      | inr owner ↦ elim (Bool-cases s.sandbox_test_mode) [
        | inl y ↦ test_key key s y
        | inr n ↦ allowed_key key s n ((right_key_iff key s).1 owner)
      ]
    ],
  )

  signed_iff :
      (secret : String) (body : c.Bytes) (header : Option String)
      → (verify_webhook_signature c secret body header ≡ true)
        ↔ (header ≡ some (webhook_signature_for c secret body))
  unfolding verify_webhook_signature
  signed_iff secret body none = (λ h. absurd (cc h), λ e. absurd (cc e))
  signed_iff secret body (some header) = (
    λ h. elim (Bool-cases (header == "")) [
      | inl y ↦ absurd (cc (sym h ∙ signed_empty secret body header y))
      | inr n ↦ ap some (
          sym (
            (constant_time_eq_iff (webhook_signature_for c secret body) header).0
              (sym (signed_text secret body header n) ∙ h)))
    ],
    λ e.
        signed_text secret body header (signature_not_empty secret body header (some_inj e))
        ∙ (constant_time_eq_iff (webhook_signature_for c secret body) header).1 (sym (some_inj e)),
  )

  -- With a `compare_digest` that tells equality and an injective encoding: outside test mode the
  -- webhook gets the body of a request exactly if its header is the signature of that body under the
  -- secret; else the request is refused with 401.
  pub require_webhook_signature_iff :
      (body : c.Bytes) (header : Option String) (s : Settings)
      → s.sandbox_test_mode ≡ false
      → ((header ≡ some (webhook_signature_for c s.sandbox_webhook_secret body))
          × (require_webhook_signature c body header s ≡ allowed body))
        ⊎ ((header ≢ some (webhook_signature_for c s.sandbox_webhook_secret body))
            × (require_webhook_signature c body header s
                ≡ refused 401 "invalid or missing webhook signature"))
  unfolding require_webhook_signature
  require_webhook_signature_iff body header s live =
      elim (Bool-cases (verify_webhook_signature c s.sandbox_webhook_secret body header)) [
        | inl y ↦ inl ((signed_iff s.sandbox_webhook_secret body header).0 y, rw (y, live) refl)
        | inr n ↦ inr (
          (λ e. cc (sym ((signed_iff s.sandbox_webhook_secret body header).1 e) ∙ n)),
          rw (n, live) refl,
        )
      ]
