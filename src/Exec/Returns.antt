-- ===== src/Exec/Returns.antt =====
-- What holds of an action whenever it returns, one rule for each way to build an action.
use sansbox_sql.Base.{Bool, true, false, if◌then◌else◌, ◌≡◌, refl, ◌∙◌, ap, subst}
use sansbox_sql.Errors.{Exc, Result, ok, err, is_exception}
use sansbox_sql.Exec.{Exec, continue, except_base, except_exception, except_exception_at, ◌>>=◌}

pub no_ok : {A : Type 0} {x : Exc} {a : A} → err x ≡ ok a → ⊥
no_ok e = cc

pub ok_inj : {A : Type 0} {a b : A} → ok a ≡ ok b → a ≡ b
ok_inj e = cc

-- What holds of the value and the world of an action whenever it returns.
pub record Returns {W B : Type 0} (P : B → W → Type 0) (m : Exec W B) : Type 0 where
  pub gives : (w : W) (b : B) (w' : W) → m w ≡ (ok b, w') → P b w'

module _ {W A B : Type 0} {P : B → W → Type 0} where
  continue_ok :
      (r : Result A) (f : A → Exec W B) (w : W) (b : B) (w' : W)
      → ((a : A) → Returns P (f a))
      → continue r f w ≡ (ok b, w')
      → P b w'
  continue_ok (ok a) f w b w' k h = (k a).gives w b w' h
  continue_ok (err x) f w b w' k h = absurd (no_ok (ap (λ p. p.0) h))

  pub Returns-bind :
      (m : Exec W A) (f : A → Exec W B) → ((a : A) → Returns P (f a)) → Returns P (m >>= f)
  unfolding ◌>>=◌
  Returns-bind m f k = record { gives = λ w b w' h. continue_ok (m w).0 f (m w).1 b w' k h }

module _ {W B : Type 0} {P : B → W → Type 0} where
  pub Returns-raise : {e : Exc} → Returns P (λ (w : W). (err e, w))
  Returns-raise = record { gives = λ w b w' h. absurd (no_ok (ap (λ p. p.0) h)) }

  pub Returns-except_base :
      {m : Exec W B} {handler : Exc → Exec W B}
      → Returns P m
      → ((e : Exc) → Returns P (handler e))
      → Returns P (except_base m handler)
  unfolding except_base
  Returns-except_base {m = m} {handler = handler} rm rh = record {
    gives = λ w b w' h. go (m w).0 (m w).1 refl b w' h;
  }
    where
      go :
          {w : W} (r : Result B) (v : W)
          → m w ≡ (r, v)
          → (b : B) (w' : W) → except_base (λ _. (r, v)) handler w ≡ (ok b, w')
          → P b w'
      go {w = w} (ok a) v e b w' h = rm.gives w b w' (e ∙ h)
      go (err x) v e b w' h = (rh x).gives v b w' h

module _ {W B : Type 0} {P : B → W → Type 0} where
  handled_or_raised :
      (caught : Bool) (e : Exc) (handler : Exec W B) (v : W) (b : B) (w' : W)
      → Returns P handler
      → (if caught then handler v else (err e, v)) ≡ (ok b, w')
      → P b w'
  handled_or_raised true e handler v b w' rh h = rh.gives _ b w' h
  handled_or_raised false e handler v b w' rh h = absurd (no_ok (ap (λ p. p.0) h))

  pub Returns-except_exception :
      {m : Exec W B} {handler : Exc → Exec W B}
      → Returns P m
      → ((e : Exc) → Returns P (handler e))
      → Returns P (except_exception m handler)
  unfolding except_exception except_exception_at
  Returns-except_exception {m = m} {handler = handler} rm rh = record {
    gives = λ w b w' h. go (m w).0 (m w).1 refl b w' h;
  }
    where
      go :
          {w : W} (r : Result B) (v : W)
          → m w ≡ (r, v)
          → (b : B) (w' : W) → except_exception (λ _. (r, v)) handler w ≡ (ok b, w')
          → P b w'
      go {w = w} (ok a) v e b w' h = rm.gives w b w' (e ∙ h)
      go (err x) v e b w' h = handled_or_raised (is_exception x) x (handler x) v b w' (rh x) h

module _ {W A : Type 0} {P : A → W → Type 0} where
  pub Returns-if :
      (b : Bool) (m n : Exec W A)
      → (b ≡ true → Returns P m)
      → (b ≡ false → Returns P n)
      → Returns P (if b then m else n)
  Returns-if true m n rm rn = rm refl
  Returns-if false m n rm rn = rn refl

module _ {W A : Type 0} where
  -- What holds of a returned value and its world holds of their other names.
  pub returned :
      (P : A → W → Type 0) {a b : A} {w w' : W}
      → Path (Result A × W) (ok a, w) (ok b, w')
      → P a w
      → P b w'
  returned P h = subst {A = A × W} (λ q. P q.0 q.1) (λ i. (ok_inj (ap (λ q. q.0) h) i, (h i).1))

module _ {W A B : Type 0} {P : B → W → Type 0} {Q : A → W → Type 0} where
  continue_after :
      (r : Result A) (f : A → Exec W B) (w : W) (b : B) (w' : W)
      → ((a : A) → r ≡ ok a → Q a w)
      → ((a : A) (w : W) (b : B) (w' : W) → Q a w → f a w ≡ (ok b, w') → P b w')
      → continue r f w ≡ (ok b, w')
      → P b w'
  continue_after (ok a) f w b w' q k h = k a w b w' (q a refl) h
  continue_after (err x) f w b w' q k h = absurd (no_ok (ap (λ p. p.0) h))

  -- What the first part has reached is known to the second.
  pub Returns-after :
      (m : Exec W A) (f : A → Exec W B)
      → Returns Q m
      → ((a : A) (w : W) (b : B) (w' : W) → Q a w → f a w ≡ (ok b, w') → P b w')
      → Returns P (m >>= f)
  unfolding ◌>>=◌
  Returns-after m f rm k = record {
    gives = λ w b w' h.
        continue_after (m w).0 f (m w).1 b w' (λ a e. rm.gives w a (m w).1 (λ i. (e i, (m w).1))) k
          h;
  }
