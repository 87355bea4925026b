-- ===== src/Docker/Health/Ready.antt =====
-- `wait_healthy` returns only when a connection to the published port was just made.
use Prim.Native.String.{String}
use sansbox_sql.Base.{
  ℕ, zero, suc, Bool, true, false, not, Option, none, some, ◌≡◌, ◌≢◌, refl, sym, ap, ◌∙◌, arith,
  Bool-cases, inl, inr, nat_eq, string_eq, ◌==◌, ltb,
}
use sansbox_sql.Errors.{Result, ok}
use sansbox_sql.Exec.{Exec}
use sansbox_sql.Exec.Returns.{
  Returns, Returns-bind, Returns-if, Returns-after, returned, ok_inj, no_ok,
}
use sansbox_sql.Docker.Compose.{Host, Completed, succeeded}
use sansbox_sql.Docker.Health.Turns.{next_turn, poll_early, poll_late}
use sansbox_sql.Docker.Inspect.{Json}
use sansbox_sql.Docker.Health.{
  Seen, Polled, up, timed_out, out_of_fuel, probe, probe_port, docker_says, sleep_unless, fallback,
  fallback_unless, continue_unless, turn, poll, conclude, wait_healthy, strip,
}

false_not_true : {b : Bool} → false ≡ b → b ≡ true → ⊥
false_not_true e y = cc

module _ {W : Type 0} (d : Host W) (parse : String → Option Json) where
  -- A connection to a port of the host was made, and this is the world after it.
  pub Connected : W → Type 0
  Connected w = (p : ℕ) × (v : W) × (p ≢ 0) × (d.connects "127.0.0.1" p 2 v ≡ (true, w))

  Opened : Bool → W → Type 0
  Opened b w = b ≡ true → Connected w

  open_probe :
      (p : ℕ) (w : W)
      → (p == 0) ≡ false
      → probe d parse (some p) w
        ≡ (ok (d.connects "127.0.0.1" p 2 w).0, (d.connects "127.0.0.1" p 2 w).1)
  unfolding probe
  open_probe p w h = rw h

  closed : (p : ℕ) (w : W) → (p == 0) ≡ true → probe d parse (some p) w ≡ (ok false, w)
  unfolding probe
  closed p w h = rw h

  connected :
      (p : ℕ) (w : W) (b : Bool) (w' : W)
      → (p == 0) ≡ false
      → probe d parse (some p) w ≡ (ok b, w')
      → b ≡ true
      → d.connects "127.0.0.1" p 2 w ≡ (true, w')
  unfolding probe
  connected p w b w' n h y =
      let e : Path (Result Bool × W)
          (ok (d.connects "127.0.0.1" p 2 w).0, (d.connects "127.0.0.1" p 2 w).1) (ok b, w') =
        sym (open_probe p w n) ∙ h in
      λ i. ((ok_inj (ap (λ q. q.0) e) ∙ y) i, (e i).1)

  probe-Opened : (port : Option ℕ) → Returns Opened (probe d parse port)
  unfolding probe Opened Connected
  probe-Opened none = record {
    gives = λ w b w' h y. absurd (false_not_true (ok_inj (ap (λ q. q.0) h)) y);
  }
  probe-Opened (some p) = record {
    gives = λ w b w' h y. elim (Bool-cases (p == 0)) [
      | inl zero_port ↦
          absurd (false_not_true (ok_inj (ap (λ q. q.0) (sym (closed p w zero_port) ∙ h))) y)
      | inr some_port ↦ (p, w, ground arith, connected p w b w' some_port h y)
    ];
  }

  probe_port-Opened : (name : String) → Returns Opened (probe_port d parse name)
  unfolding probe_port
  probe_port-Opened name = Returns-bind _ _ (λ port. probe-Opened port)

  Said : Bool × String → W → Type 0
  Said s w = s.0 ≡ true → Connected w

  no_word : {t : String} → Returns Said (λ (w : W). (ok (false, t), w))
  unfolding Said
  no_word = record {
    gives = λ w b w' h y. absurd (false_not_true (ap (λ q. q.0) (ok_inj (ap (λ q. q.0) h))) y);
  }

  docker_says-Said :
      (name last : String) (proc : Completed) → Returns Said (docker_says d parse name last proc)
  unfolding docker_says Said Opened
  docker_says-Said name last proc =
      Returns-if (not (succeeded proc.returncode)) _ _ (λ _. no_word)
        (λ _.
          Returns-if (not (strip proc.stdout == "healthy")) _ _ (λ _. no_word)
            (λ _.
              Returns-after {P = Said} {Q = Opened} (probe_port d parse name) _
                (probe_port-Opened name) (λ a w b w' q h. returned Said h q)))

  Turned : Option Seen → W → Type 0
  Turned after w = after ≡ none → Connected w

  sleep_unless-Turned :
      (o : Bool) (port : Option ℕ) (status : String) (w : W) (b : Option Seen) (w' : W)
      → Opened o w
      → sleep_unless d parse o port status w ≡ (ok b, w')
      → Turned b w'
  unfolding sleep_unless Turned Opened
  sleep_unless-Turned true port status w b w' q h = returned Turned h (λ _. q refl)
  sleep_unless-Turned false port status w b w' q h = returned Turned h (λ e. cc)

  fallback-Turned : (name status : String) → Returns Turned (fallback d parse name status)
  unfolding fallback
  fallback-Turned name status = Returns-bind _ _ (λ port.
      Returns-after {P = Turned} {Q = Opened} (probe d parse port) _ (probe-Opened port)
        (λ o w b w' q h. sleep_unless-Turned o port status w b w' q h))

  fallback_unless-Turned :
      (name : String) (said : Bool × String) (w : W) (b : Option Seen) (w' : W)
      → Said said w
      → fallback_unless d parse name said w ≡ (ok b, w')
      → Turned b w'
  unfolding fallback_unless Said
  fallback_unless-Turned name (true, status) w b w' q h =
      returned Turned h (unfold Turned in λ _. q refl)
  fallback_unless-Turned name (false, status) w b w' q h =
      (fallback-Turned name status).gives w b w' h

  turn-Turned : (name : String) (seen : Seen) → Returns Turned (turn d parse name seen)
  unfolding turn
  turn-Turned name seen = Returns-bind _ _ (λ proc.
      Returns-after {P = Turned} {Q = Said} (docker_says d parse name seen.last_status proc) _
        (docker_says-Said name seen.last_status proc)
        (λ said w b w' q h. fallback_unless-Turned name said w b w' q h))

  PolledOk : Polled → W → Type 0
  PolledOk polled w = polled ≡ up → Connected w

  continue_unless-PolledOk :
      (after : Option Seen) (again : Seen → Exec W Polled) (w : W) (b : Polled) (w' : W)
      → ((seen : Seen) → Returns PolledOk (again seen))
      → Turned after w
      → continue_unless d parse after again w ≡ (ok b, w')
      → PolledOk b w'
  unfolding continue_unless Turned PolledOk
  continue_unless-PolledOk none again w b w' k q h = returned PolledOk h (λ _. q refl)
  continue_unless-PolledOk (some seen) again w b w' k q h = (k seen).gives w b w' h

  next-PolledOk :
      (fuel : ℕ) (name : String) (deadline : ℕ) (seen : Seen)
      → ((seen' : Seen) → Returns PolledOk (poll d parse fuel name deadline seen'))
      → Returns PolledOk (next_turn d parse fuel name deadline seen)
  unfolding next_turn
  next-PolledOk fuel name deadline seen k =
      Returns-after {P = PolledOk} {Q = Turned} (turn d parse name seen) _ (turn-Turned name seen)
        (λ after w b w' q h. continue_unless-PolledOk after _ w b w' k q h)

  poll-PolledOk :
      (fuel : ℕ) (name : String) (deadline : ℕ) (seen : Seen)
      → Returns PolledOk (poll d parse fuel name deadline seen)
  unfolding poll
  poll-PolledOk zero name deadline seen = record {
    gives = λ w b w' h. returned PolledOk h (unfold PolledOk in λ e. cc);
  }
  poll-PolledOk (suc fuel) name deadline seen = record {
    gives = λ w b w' h. elim (Bool-cases (ltb (d.monotonic w) deadline)) [
      | inl early ↦
          (next-PolledOk fuel name deadline seen (poll-PolledOk fuel name deadline)).gives w b w'
            (sym (poll_early d parse fuel name deadline seen w early) ∙ h)
      | inr late ↦
          returned PolledOk (sym (poll_late d parse fuel name deadline seen w late) ∙ h)
            (unfold PolledOk in λ e. cc)
    ];
  }

  ends_up :
      (name : String) (timeout : ℕ) (polled : Polled) (w : W) (b : Unit {0}) (w' : W)
      → PolledOk polled w
      → conclude d parse name timeout polled w ≡ (ok b, w')
      → Connected w'
  unfolding conclude PolledOk
  ends_up name timeout up w b w' q h = returned (λ _ v. Connected v) h (q refl)
  ends_up name timeout (timed_out seen) w b w' q h = absurd (no_ok (ap (λ p. p.0) h))
  ends_up name timeout out_of_fuel w b w' q h = absurd (no_ok (ap (λ p. p.0) h))

  -- If `wait_healthy` returns, then a connection to a port of 127.0.0.1, not 0, was just made: its
  -- last act is the probe that succeeded.
  pub wait_healthy-Connected :
      (name : String) (timeout : ℕ) (w w' : W)
      → wait_healthy d parse name timeout w ≡ (ok tt, w')
      → (p : ℕ) × (v : W) × (p ≢ 0) × (d.connects "127.0.0.1" p 2 v ≡ (true, w'))
  unfolding wait_healthy Connected
  wait_healthy-Connected name timeout w w' h =
      (Returns-after {P = λ _ v. Connected v} {Q = PolledOk} (poll d parse (suc timeout) name _ _)
          (conclude d parse name timeout) (poll-PolledOk (suc timeout) name _ _)
          (λ polled v b v' q e. ends_up name timeout polled v b v' q e)).gives
        w tt w' h
