-- ===== src/Exec.antt =====
-- Actions that read and write the world and may raise. What was done before a raise stays done, so
-- the world comes back beside the exception too.
pub mod Effort
pub mod Returns
pub mod Takes
use sansbox_sql.Base.{Bool, true, false, ◌≡◌, refl, if◌then◌else◌}
use sansbox_sql.Errors.{Exc, Result, ok, err, is_exception}

abbrev pub Exec {ℓ} : Type ℓ → Type ℓ → Type ℓ
Exec W A = W → Result A × W

module _ {ℓ} {W A : Type ℓ} where
  abbrev pub pure : A → Exec W A
  pure a w = (ok a, w)

  abbrev pub raise : Exc → Exec W A
  raise e w = (err e, w)

  abbrev pub lift : Result A → Exec W A
  lift r w = (r, w)

  abbrev pub gets : (W → A) → Exec W A
  gets f w = (ok (f w), w)

  -- `try: m except Exception: …`; an interrupt goes on.
  unfoldable pub except_exception_at : (Exc → Exec W A) → Result A → Exec W A
  except_exception_at handler (ok a) w = (ok a, w)
  except_exception_at handler (err e) w = if is_exception e then handler e w else (err e, w)

  unfoldable pub except_exception : Exec W A → (Exc → Exec W A) → Exec W A
  unfolding except_exception_at
  except_exception m handler w = let (r, w') = m w in except_exception_at handler r w'

  -- `try: m except BaseException: …`
  except_base_at : (Exc → Exec W A) → Result A → Exec W A
  except_base_at handler (ok a) w = (ok a, w)
  except_base_at handler (err e) w = handler e w

  unfoldable pub except_base : Exec W A → (Exc → Exec W A) → Exec W A
  unfolding except_base_at
  except_base m handler w = let (r, w') = m w in except_base_at handler r w'

-- A call that has its effect, returns nothing and never raises
abbrev pub act {ℓ} : {W : Type ℓ} → (W → W) → Exec W (Unit {ℓ})
act f w = (ok tt, f w)

module _ {ℓ} {W A B : Type ℓ} where
  abbrev pub continue : Result A → (A → Exec W B) → Exec W B
  continue (ok a) f w = f a w
  continue (err e) f w = (err e, w)

  infixl 5 ◌>>=◌ ◌>>◌
  unfoldable pub ◌>>=◌ : Exec W A → (A → Exec W B) → Exec W B
  ◌>>=◌ m f w = let (r, w') = m w in continue r f w'

  abbrev pub ◌>>◌ : Exec W A → Exec W B → Exec W B
  m >> n = m >>= λ _. n

-- `try: m except Exception: log.exception(…)`
unfoldable pub best_effort {ℓ} : {W : Type ℓ} → Exec W (Unit {ℓ}) → Exec W (Unit {ℓ})
unfolding except_exception
best_effort m = except_exception m (λ e. pure tt)
