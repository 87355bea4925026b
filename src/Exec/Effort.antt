-- ===== src/Exec/Effort.antt =====
-- An action whose failure is logged and passed over returns, short of an interrupt.
use sansbox_sql.Base.{true, ◌≡◌, inl, inr}
use sansbox_sql.Errors.{Exc, ok, err, is_exception, Result-cases}
use sansbox_sql.Exec.{Exec, best_effort, except_exception}

pub swallowed :
    {W : Type 0} (m : Exec W (Unit {0})) (w : W)
    → ((e : Exc) → (m w).0 ≡ err e → is_exception e ≡ true)
    → best_effort m w ≡ (ok tt, (m w).1)
unfolding best_effort except_exception
swallowed m w h = elim (Result-cases (m w).0) [ inl (a, e) ↦ rw e | inr (x, e) ↦ rw (e, h x e) ]

pub swallowed_ok :
    {W : Type 0} (m : Exec W (Unit {0})) (w : W)
    → (m w).0 ≡ ok tt
    → best_effort m w ≡ (ok tt, (m w).1)
unfolding best_effort except_exception
swallowed_ok m w h = rw h
