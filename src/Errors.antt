-- ===== src/Errors.antt =====
-- The exceptions that the modules of api/ raise and catch, and the result of code that may raise.
use sansbox_sql.Base.{◌⊎◌, inl, inr, String, ◌<>◌, Bool, true, false, ◌≡◌, refl}

-- `CreateSessionError.category`
pub data Category : Type 0 where
  validation ssh dump container restore grant port internal : Category

-- `integrity_error` is sqlite3's, for a second row with one primary key; `interrupt` stands for
-- what is a `BaseException` and no `Exception`, such as `KeyboardInterrupt`.
pub data Exc : Type 0 where
  tunnel_error mysql_ops_error docker_ops_error value_error key_error : String → Exc
  permission_error file_not_found type_error integrity_error other_error : String → Exc
  create_session_error : Category → String → String → Exc
  interrupt : String → Exc

-- `str(exc)`
unfoldable pub exc_text : Exc → String
exc_text (tunnel_error m) = m
exc_text (mysql_ops_error m) = m
exc_text (docker_ops_error m) = m
exc_text (value_error m) = m
exc_text (key_error k) = "'" <> (k <> "'")
exc_text (permission_error m) = m
exc_text (file_not_found m) = m
exc_text (type_error m) = m
exc_text (integrity_error m) = m
exc_text (other_error m) = m
exc_text (create_session_error category sid m) = m
exc_text (interrupt m) = m

-- What `except Exception` catches.
unfoldable pub is_exception : Exc → Bool
is_exception (interrupt m) = false
is_exception _ = true

pub data Result {ℓ} (A : Type ℓ) : Type ℓ where
  ok : A → Result A
  err : Exc → Result A

module _ {ℓ} {A : Type ℓ} where
  abbrev pub is_ok : Result A → Bool
  is_ok (ok a) = true
  is_ok (err e) = false

  pub Result-cases : (m : Result A) → ((a : A) × (m ≡ ok a)) ⊎ ((e : Exc) × (m ≡ err e))
  Result-cases (ok a) = inl (a, refl)
  Result-cases (err e) = inr (e, refl)

-- `if not test: raise e`
abbrev pub guard : Bool → Exc → Result (Unit {0})
guard false e = err e
guard true e = ok tt

module _ {κ ℓ} {S : Type κ} {T : Type ℓ} where
  infixl 5 ◌>>=◌
  abbrev pub ◌>>=◌ : Result S → (S → Result T) → Result T
  err raised >>= next = err raised
  ok value >>= next = next value

infixl 5 ◌>>◌
abbrev pub ◌>>◌ {ℓ} : {T : Type ℓ} → Result (Unit {0}) → Result T → Result T
first >> second = first >>= λ _. second
