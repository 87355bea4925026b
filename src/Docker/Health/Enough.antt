-- ===== src/Docker/Health/Enough.antt =====
-- The polling ends: each turn that does not end the loop sleeps, and the clock never runs back.
use Prim.Native.String.{String}
use sansbox_sql.Base.{
  ℕ, ◌+◌, ◌*◌, ◌≤◌, ◌<◌, zero, suc, Bool, true, false, not, Option, none, some, ◌≡◌, ◌≢◌, refl, sym,
  ap, ◌∙◌, arith, Bool-cases, inl, inr, nat_eq, string_eq, ◌==◌, ltb, List,
}
use sansbox_sql.Errors.{Result, ok, err}
use sansbox_sql.Exec.{continue, ◌>>=◌}
use sansbox_sql.Exec.Returns.{ok_inj}
use sansbox_sql.Exec.Takes.{Takes, Takes-pure, Takes-bind, Takes-if}
use sansbox_sql.Docker.Compose.{Host, Completed, succeeded}
use sansbox_sql.Docker.Inspect.{Json}
use sansbox_sql.Docker.Health.{
  Seen, out_of_fuel, probe, probe_port, docker_says, sleep_unless, fallback, fallback_unless,
  continue_unless, turn, poll, read_published_port, strip, seconds,
}
use sansbox_sql.Docker.Health.Turns.{next_turn, poll_early, poll_late}

-- No call sets the clock back, and a sleep lasts at least its seconds.
pub record Clock {W : Type 0} (d : Host W) : Type 0 where
  pub run_lasts :
      (args : List String) (t : ℕ) (w : W) → d.monotonic w ≤ d.monotonic (d.run args t w).1
  pub connect_lasts :
      (host : String) (p t : ℕ) (w : W) → d.monotonic w ≤ d.monotonic (d.connects host p t w).1
  pub sleep_lasts : (n : ℕ) (w : W) → d.monotonic w + n * 1000000000 ≤ d.monotonic (d.sleep n w)

-- A turn after which the loop goes on has slept.
turn_cost : Option Seen → ℕ
turn_cost none = 0
turn_cost (some seen) = 2000000000

module _ {W : Type 0} (d : Host W) (parse : String → Option Json) (clock : Clock d) where
  run-Takes : (args : List String) (t : ℕ) → Takes d.monotonic (λ _. 0) (d.run args t)
  run-Takes args t = record { lasts = λ w a h. omega (arith, clock.run_lasts args t w) }

  read-Takes : (name : String) → Takes d.monotonic (λ _. 0) (read_published_port d parse name)
  unfolding read_published_port
  read-Takes name =
      Takes-bind d.monotonic _ _ (run-Takes _ _) (λ proc. Takes-pure d.monotonic _ refl)

  probe-Takes : (port : Option ℕ) → Takes d.monotonic (λ _. 0) (probe d parse port)
  unfolding probe
  probe-Takes none = Takes-pure d.monotonic _ refl
  probe-Takes (some p) = record {
    lasts = λ w a h. elim (Bool-cases (p == 0)) [
      | inl y ↦ rw y (omega arith)
      | inr n ↦ rw n (omega (arith, clock.connect_lasts "127.0.0.1" p 2 w))
    ];
  }

  probe_port-Takes : (name : String) → Takes d.monotonic (λ _. 0) (probe_port d parse name)
  unfolding probe_port
  probe_port-Takes name = Takes-bind d.monotonic _ _ (read-Takes name) probe-Takes

  docker_says-Takes :
      (name last : String) (proc : Completed)
      → Takes d.monotonic (λ _. 0) (docker_says d parse name last proc)
  unfolding docker_says
  docker_says-Takes name last proc =
      Takes-if d.monotonic (not (succeeded proc.returncode)) _ _ (Takes-pure d.monotonic _ refl) (
        Takes-if d.monotonic (not (strip proc.stdout == "healthy")) _ _
          (Takes-pure d.monotonic _ refl)
          (Takes-bind d.monotonic _ _ (probe_port-Takes name) (λ o. Takes-pure d.monotonic _ refl)))

  sleep_unless-Takes :
      (o : Bool) (port : Option ℕ) (status : String)
      → Takes d.monotonic turn_cost (sleep_unless d parse o port status)
  unfolding sleep_unless turn_cost
  sleep_unless-Takes true port status = record {
    lasts = λ w a h. omega (arith, ap turn_cost (ok_inj h));
  }
  sleep_unless-Takes false port status = record {
    lasts = λ w a h. omega (arith, ap turn_cost (ok_inj h), clock.sleep_lasts 2 w);
  }

  fallback_unless-Takes :
      (name : String) (said : Bool × String)
      → Takes d.monotonic turn_cost (fallback_unless d parse name said)
  unfolding fallback_unless fallback turn_cost
  fallback_unless-Takes name (true, status) = Takes-pure d.monotonic _ refl
  fallback_unless-Takes name (false, status) = Takes-bind d.monotonic _ _ (read-Takes name) (λ port.
      Takes-bind d.monotonic _ _ (probe-Takes port) (λ o. sleep_unless-Takes o port status))

  turn-Takes : (name : String) (seen : Seen) → Takes d.monotonic turn_cost (turn d parse name seen)
  unfolding turn
  turn-Takes name seen = Takes-bind d.monotonic _ _ (run-Takes _ _) (λ proc.
      Takes-bind d.monotonic _ _ (docker_says-Takes name seen.last_status proc)
        (fallback_unless-Takes name))

  after_turn :
      (fuel : ℕ) (name : String) (deadline : ℕ) (r : Result (Option Seen)) (v : W)
      → ((seen : Seen)
          → r ≡ ok (some seen)
          → (poll d parse fuel name deadline seen v).0 ≢ ok out_of_fuel)
      → (continue r (λ after. continue_unless d parse after (poll d parse fuel name deadline)) v).0
        ≢ ok out_of_fuel
  unfolding continue_unless
  after_turn fuel name deadline (ok none) v k = λ e. cc
  after_turn fuel name deadline (ok (some seen)) v k = k seen refl
  after_turn fuel name deadline (err e) v k = λ h. cc

  next_turn-enough :
      (fuel : ℕ) (name : String) (deadline : ℕ) (seen : Seen) (w : W)
      → ((seen' : Seen) (v : W)
          → d.monotonic w + 2000000000 ≤ d.monotonic v
          → (poll d parse fuel name deadline seen' v).0 ≢ ok out_of_fuel)
      → (next_turn d parse fuel name deadline seen w).0 ≢ ok out_of_fuel
  unfolding next_turn ◌>>=◌ turn_cost
  next_turn-enough fuel name deadline seen w k =
      after_turn fuel name deadline (turn d parse name seen w).0 (turn d parse name seen w).1
        (λ seen' e. k seen' _ ((turn-Takes name seen).lasts w (some seen') e))

  late_or_next :
      (fuel : ℕ) (name : String) (deadline : ℕ) (seen : Seen) (w : W)
      → (d.monotonic w < deadline
          → (next_turn d parse fuel name deadline seen w).0 ≢ ok out_of_fuel)
      → (poll d parse (suc fuel) name deadline seen w).0 ≢ ok out_of_fuel
  late_or_next fuel name deadline seen w k = elim (Bool-cases (ltb (d.monotonic w) deadline)) [
    | inr late ↦
        λ e. absurd (cc (ap (λ r. r.0) (poll_late d parse fuel name deadline seen w late), e))
    | inl early ↦ λ e.
        k (ground arith)
          (ap (λ r. r.0) (sym (poll_early d parse fuel name deadline seen w early)) ∙ e)
  ]

  poll-enough :
      (fuel : ℕ) (name : String) (deadline : ℕ) (seen : Seen) (w : W)
      → deadline ≤ d.monotonic w + seconds fuel
      → (poll d parse (suc fuel) name deadline seen w).0 ≢ ok out_of_fuel
  poll-enough zero name deadline seen w h =
      late_or_next zero name deadline seen w (λ early. absurd (omega arith))
  poll-enough (suc fuel) name deadline seen w h =
      late_or_next (suc fuel) name deadline seen w (λ early.
        next_turn-enough (suc fuel) name deadline seen w
          (λ seen' v later. poll-enough fuel name deadline seen' v (omega arith)))

  -- With a clock that never runs back and sleeps that last their time, the polling that
  -- `wait_healthy` starts never comes to the end of its fuel: a turn for each second, and one more,
  -- is enough for the deadline to pass.
  pub poll-in_time :
      (timeout : ℕ) (name : String) (seen : Seen) (w : W)
      → (poll d parse (suc timeout) name (d.monotonic w + seconds timeout) seen w).0
        ≢ ok out_of_fuel
  poll-in_time timeout name seen w = poll-enough timeout name _ seen w (omega arith)
