-- ===== src/Exec/Takes.antt =====
-- How long an action takes by a clock that reads the world, one rule for each way to build an
-- action.
use sansbox_sql.Base.{ℕ, ◌+◌, ◌≤◌, Bool, true, false, if◌then◌else◌, ◌≡◌, refl, ap, arith}
use sansbox_sql.Errors.{Result, ok, err}
use sansbox_sql.Exec.{Exec, continue, ◌>>=◌}
use sansbox_sql.Exec.Returns.{ok_inj, no_ok}

module _ {W : Type 0} (monotonic : W → ℕ) where
  -- An action that returns `a` lasts `cost a` nanoseconds or more.
  pub record Takes {A : Type 0} (cost : A → ℕ) (m : Exec W A) : Type 0 where
    pub lasts : (w : W) (a : A) → (m w).0 ≡ ok a → monotonic w + cost a ≤ monotonic (m w).1

module _ {W A : Type 0} (monotonic : W → ℕ) {cost : A → ℕ} where
  pub Takes-pure : (a : A) → cost a ≡ 0 → Takes monotonic cost (λ (w : W). (ok a, w))
  Takes-pure a z = record { lasts = λ w b e. omega (arith, ap cost (ok_inj e), z) }

module _ {W A B : Type 0} (monotonic : W → ℕ) {cost : B → ℕ} where
  continue-Takes :
      (now : ℕ) (r : Result A) (f : A → Exec W B) (w : W) (b : B)
      → ((a : A) → r ≡ ok a → now ≤ monotonic w)
      → ((a : A) → Takes monotonic cost (f a))
      → (continue r f w).0 ≡ ok b
      → now + cost b ≤ monotonic (continue r f w).1
  continue-Takes now (ok a) f w b t k h = omega (arith, t a refl, (k a).lasts w b h)
  continue-Takes now (err e) f w b t k h = absurd (no_ok h)

  pub Takes-bind :
      (m : Exec W A) (f : A → Exec W B)
      → Takes monotonic (λ _. 0) m
      → ((a : A) → Takes monotonic cost (f a))
      → Takes monotonic cost (m >>= f)
  unfolding ◌>>=◌
  Takes-bind m f tm tf = record {
    lasts = λ w b h.
        continue-Takes (monotonic w) (m w).0 f (m w).1 b (λ a e. omega (arith, tm.lasts w a e)) tf
          h;
  }

module _ {W A : Type 0} (monotonic : W → ℕ) {cost : A → ℕ} where
  pub Takes-if :
      (b : Bool) (m n : Exec W A)
      → Takes monotonic cost m
      → Takes monotonic cost n
      → Takes monotonic cost (if b then m else n)
  Takes-if true m n tm tn = tm
  Takes-if false m n tm tn = tn
