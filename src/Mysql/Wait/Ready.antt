-- ===== src/Mysql/Wait/Ready.antt =====
-- `wait_ready` returns only after a ping that succeeded.
use sansbox_sql.Base.{
  String, ℕ, zero, suc, true, false, Option, none, some, List, ◌∷◌, ◌++◌, ltb, ◌≡◌, refl, sym, ap,
  ◌∙◌, Bool-cases, inl, inr,
}
use sansbox_sql.Errors.{ok}
use sansbox_sql.Exec.{Exec, ◌>>=◌}
use sansbox_sql.Exec.Returns.{Returns, Returns-bind, Returns-after, returned, no_ok}
use sansbox_sql.Docker.Compose.{succeeded}
use sansbox_sql.Docker.Health.{strip}
use sansbox_sql.Process.{Command, Output, Machine}
use sansbox_sql.Mysql.{Target, run_with, server_args, ssl_args}
use sansbox_sql.Mysql.Wait.{
  Pinged, answers, too_late, no_fuel, judge, ping_once, ping_again, ping, conclude_ping, ping_until,
  wait_ready,
}
use sansbox_sql.Mysql.Wait.Enough.{next_ping, ping_early, ping_late}

module _ {W : Type 0} (m : Machine W) (cmd : List String) where
  Ran : Output → W → Type 0
  Ran proc w = (c : Command) × (v : W) × (c.argv ≡ cmd) × (m.run c v ≡ (ok proc, w))

  -- The command was just run and exited with status 0, and this is the world after it.
  pub Succeeded : W → Type 0
  Succeeded w = (proc : Output) × Ran proc w × (succeeded proc.returncode ≡ true)

  Turned : Option String → W → Type 0
  Turned after w = after ≡ none → Succeeded w

  run_with-Ran : (password : String) → Returns Ran (run_with m cmd password none 5)
  unfolding run_with Ran
  run_with-Ran password = Returns-bind _ _ λ environ. record { gives = λ w b w' h. (_, w, refl, h) }

  judge_fine :
      (proc : Output) (w : W) → succeeded proc.returncode ≡ true → judge m proc w ≡ (ok none, w)
  unfolding judge
  judge_fine proc w y = rw y refl

  judge_failed :
      (proc : Output) (w : W)
      → succeeded proc.returncode ≡ false
      → judge m proc w ≡ (ok (some (strip (m.decode proc.stderr))), m.sleep 1 w)
  unfolding judge ◌>>=◌
  judge_failed proc w n = rw n refl

  judge-Turned :
      (proc : Output) (w : W) (b : Option String) (w' : W)
      → Ran proc w
      → judge m proc w ≡ (ok b, w')
      → Turned b w'
  unfolding Turned Succeeded
  judge-Turned proc w b w' ran h = elim (Bool-cases (succeeded proc.returncode)) [
    | inl y ↦ returned Turned (sym (judge_fine proc w y) ∙ h) (λ _. (proc, ran, y))
    | inr n ↦ returned Turned (sym (judge_failed proc w n) ∙ h) (λ e. cc)
  ]

  ping_once-Turned : (password : String) → Returns Turned (ping_once m cmd password)
  unfolding ping_once
  ping_once-Turned password =
      Returns-after {P = Turned} {Q = Ran} (run_with m cmd password none 5) (judge m)
        (run_with-Ran password) (λ proc w b w' q h. judge-Turned proc w b w' q h)

  PingedOk : Pinged → W → Type 0
  PingedOk pinged w = pinged ≡ answers → Succeeded w

  ping_again-PingedOk :
      (after : Option String) (again : String → Exec W Pinged) (w : W) (b : Pinged) (w' : W)
      → ((last_err : String) → Returns PingedOk (again last_err))
      → Turned after w
      → ping_again m after again w ≡ (ok b, w')
      → PingedOk b w'
  unfolding ping_again Turned PingedOk
  ping_again-PingedOk none again w b w' k q h = returned PingedOk h (λ _. q refl)
  ping_again-PingedOk (some last_err) again w b w' k q h = (k last_err).gives w b w' h

  next-PingedOk :
      (fuel : ℕ) (password : String) (deadline : ℕ)
      → ((last_err : String) → Returns PingedOk (ping m fuel cmd password deadline last_err))
      → Returns PingedOk (next_ping m fuel cmd password deadline)
  unfolding next_ping
  next-PingedOk fuel password deadline k =
      Returns-after {P = PingedOk} {Q = Turned} (ping_once m cmd password) _
        (ping_once-Turned password) (λ after w b w' q h. ping_again-PingedOk after _ w b w' k q h)

  ping-PingedOk :
      (fuel : ℕ) (password : String) (deadline : ℕ) (last_err : String)
      → Returns PingedOk (ping m fuel cmd password deadline last_err)
  unfolding ping
  ping-PingedOk zero password deadline last_err = record {
    gives = λ w b w' h. returned PingedOk h (unfold PingedOk in λ e. cc);
  }
  ping-PingedOk (suc fuel) password deadline last_err = record {
    gives = λ w b w' h. elim (Bool-cases (ltb (m.monotonic w) deadline)) [
      | inl early ↦
          (next-PingedOk fuel password deadline (ping-PingedOk fuel password deadline)).gives w b w'
            (sym (ping_early m fuel cmd password deadline last_err w early) ∙ h)
      | inr late ↦
          returned PingedOk (sym (ping_late m fuel cmd password deadline last_err w late) ∙ h)
            (unfold PingedOk in λ e. cc)
    ];
  }

  ends_answered :
      (t : Target) (timeout : ℕ) (pinged : Pinged) (w : W) (b : Unit {0}) (w' : W)
      → PingedOk pinged w
      → conclude_ping m t timeout pinged w ≡ (ok b, w')
      → Succeeded w'
  unfolding conclude_ping PingedOk
  ends_answered t timeout answers w b w' q h = returned (λ _ v. Succeeded v) h (q refl)
  ends_answered t timeout (too_late last_err) w b w' q h = absurd (no_ok (ap (λ p. p.0) h))
  ends_answered t timeout no_fuel w b w' q h = absurd (no_ok (ap (λ p. p.0) h))

  ping_until-Succeeded :
      (t : Target) (timeout : ℕ) → Returns (λ _ v. Succeeded v) (ping_until m t timeout cmd)
  unfolding ping_until
  ping_until-Succeeded t timeout = record {
    gives = λ w b w' h.
        (Returns-after {P = λ _ v. Succeeded v} {Q = PingedOk} (ping m (suc timeout) cmd _ _ _)
            (conclude_ping m t timeout) (ping-PingedOk (suc timeout) _ _ _)
            (λ pinged v b v' q e. ends_answered t timeout pinged v b v' q e)).gives
          w b w' h;
  }

-- If `wait_ready` returns, then its last act was a `mysqladmin ping` of the host, the port and the
-- user, with the session's CA where there is one, that exited with status 0.
pub wait_ready-Succeeded :
    {W : Type 0} (m : Machine W) (t : Target) (timeout : ℕ) (w w' : W)
    → wait_ready m t timeout w ≡ (ok tt, w')
    → (mysqladmin : String) × Succeeded m
        (mysqladmin ∷ "ping" ∷ (server_args t ++ ssl_args t.ssl_ca))
        w'
unfolding wait_ready
wait_ready-Succeeded {W} m t timeout w w' h =
    (Returns-bind
        {P = λ _ v.
          (mysqladmin : String) × Succeeded m
            (mysqladmin ∷ "ping" ∷ (server_args t ++ ssl_args t.ssl_ca)) v}
        _ _
        (λ path. record {
          gives = λ w b w' h. (path, (ping_until-Succeeded m _ t timeout).gives w b w' h);
        })).gives
      w tt w' h
