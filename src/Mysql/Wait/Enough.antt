-- ===== src/Mysql/Wait/Enough.antt =====
-- `wait_ready` ends: each turn that does not end the loop sleeps, and the clock never runs back.
use sansbox_sql.Base.{
  String, ℕ, ◌+◌, ◌*◌, ◌≤◌, ◌<◌, zero, suc, true, false, Option, none, some, List, ltb, ◌≡◌, ◌≢◌,
  refl, sym, ap, ◌∙◌, arith, Bool-cases, inl, inr,
}
use sansbox_sql.Errors.{Result, ok, err}
use sansbox_sql.Exec.{Exec, continue, act, ◌>>=◌, ◌>>◌}
use sansbox_sql.Exec.Returns.{ok_inj}
use sansbox_sql.Exec.Takes.{Takes, Takes-pure, Takes-bind, Takes-if}
use sansbox_sql.Docker.Compose.{succeeded}
use sansbox_sql.Docker.Health.{seconds}
use sansbox_sql.Process.{Command, Machine}
use sansbox_sql.Mysql.{run_with, mysql_env}
use sansbox_sql.Mysql.Wait.{Pinged, too_late, no_fuel, judge, ping_once, ping_again, ping}

-- No run sets the clock back, and a sleep lasts at least its seconds.
pub record Ticking {W : Type 0} (m : Machine W) : Type 0 where
  pub run_lasts : (c : Command) (w : W) → m.monotonic w ≤ m.monotonic (m.run c w).1
  pub sleep_lasts : (n : ℕ) (w : W) → m.monotonic w + n * 1000000000 ≤ m.monotonic (m.sleep n w)

-- A turn after which the loop goes on has slept.
turn_cost : Option String → ℕ
turn_cost none = 0
turn_cost (some last_err) = 1000000000

module _ {W : Type 0} (m : Machine W) where
  -- A turn, and what follows it.
  unfoldable pub next_ping : ℕ → List String → String → ℕ → Exec W Pinged
  next_ping fuel cmd password deadline =
      ping_once m cmd password >>= λ after. ping_again m after (ping m fuel cmd password deadline)

  pub ping_early :
      (fuel : ℕ) (cmd : List String) (password : String) (deadline : ℕ) (last_err : String) (w : W)
      → ltb (m.monotonic w) deadline ≡ true
      → ping m (suc fuel) cmd password deadline last_err w ≡ next_ping fuel cmd password deadline w
  unfolding ping next_ping
  ping_early fuel cmd password deadline last_err w h = rw h refl

  pub ping_late :
      (fuel : ℕ) (cmd : List String) (password : String) (deadline : ℕ) (last_err : String) (w : W)
      → ltb (m.monotonic w) deadline ≡ false
      → ping m (suc fuel) cmd password deadline last_err w ≡ (ok (too_late last_err), w)
  unfolding ping
  ping_late fuel cmd password deadline last_err w h = rw h refl

  module _ (ticking : Ticking m) where
    run_with-Takes :
        (cmd : List String) (password : String)
        → Takes m.monotonic (λ _. 0) (run_with m cmd password none 5)
    unfolding run_with mysql_env
    run_with-Takes cmd password =
        Takes-bind m.monotonic _ _ (record { lasts = λ w a h. omega arith })
          λ environ. record { lasts = λ w a h. omega (arith, ticking.run_lasts _ w) }

    slept-Takes :
        (text : String)
        → Takes m.monotonic turn_cost (act (m.sleep 1) >> (λ w. (ok (some text), w)))
    unfolding ◌>>=◌ turn_cost
    slept-Takes text = record {
      lasts = λ w a h. omega (arith, ap turn_cost (ok_inj h), ticking.sleep_lasts 1 w);
    }

    ping_once-Takes :
        (cmd : List String) (password : String)
        → Takes m.monotonic turn_cost (ping_once m cmd password)
    unfolding ping_once judge turn_cost
    ping_once-Takes cmd password = Takes-bind m.monotonic _ _ (run_with-Takes cmd password) λ proc.
        Takes-if m.monotonic (succeeded proc.returncode) _ _ (Takes-pure m.monotonic _ refl)
          (slept-Takes _)

    later_ping :
        (fuel : ℕ) (cmd : List String) (password : String) (deadline : ℕ)
        (r : Result (Option String)) (v : W)
        → ((last_err : String)
            → r ≡ ok (some last_err)
            → (ping m fuel cmd password deadline last_err v).0 ≢ ok no_fuel)
        → (continue r (λ after. ping_again m after (ping m fuel cmd password deadline)) v).0
          ≢ ok no_fuel
    unfolding ping_again
    later_ping fuel cmd password deadline (ok none) v k = λ e. cc
    later_ping fuel cmd password deadline (ok (some last_err)) v k = k last_err refl
    later_ping fuel cmd password deadline (err e) v k = λ h. cc

    next_ping-enough :
        (fuel : ℕ) (cmd : List String) (password : String) (deadline : ℕ) (w : W)
        → ((last_err : String) (v : W)
            → m.monotonic w + 1000000000 ≤ m.monotonic v
            → (ping m fuel cmd password deadline last_err v).0 ≢ ok no_fuel)
        → (next_ping fuel cmd password deadline w).0 ≢ ok no_fuel
    unfolding next_ping ◌>>=◌ turn_cost
    next_ping-enough fuel cmd password deadline w k =
        later_ping fuel cmd password deadline (ping_once m cmd password w).0
          (ping_once m cmd password w).1
          (λ last_err e. k last_err _ ((ping_once-Takes cmd password).lasts w (some last_err) e))

    late_or_next :
        (fuel : ℕ) (cmd : List String) (password : String) (deadline : ℕ) (last_err : String)
        (w : W)
        → (m.monotonic w < deadline → (next_ping fuel cmd password deadline w).0 ≢ ok no_fuel)
        → (ping m (suc fuel) cmd password deadline last_err w).0 ≢ ok no_fuel
    late_or_next fuel cmd password deadline last_err w k =
        elim (Bool-cases (ltb (m.monotonic w) deadline)) [
          | inr late ↦ λ e.
              absurd (cc (ap (λ r. r.0) (ping_late fuel cmd password deadline last_err w late), e))
          | inl early ↦ λ e.
              k (ground arith)
                (ap (λ r. r.0) (sym (ping_early fuel cmd password deadline last_err w early)) ∙ e)
        ]

    ping-enough :
        (fuel : ℕ) (cmd : List String) (password : String) (deadline : ℕ) (last_err : String)
        (w : W)
        → deadline ≤ m.monotonic w + seconds fuel
        → (ping m (suc fuel) cmd password deadline last_err w).0 ≢ ok no_fuel
    ping-enough zero cmd password deadline last_err w h =
        late_or_next zero cmd password deadline last_err w (λ early. absurd (omega arith))
    ping-enough (suc fuel) cmd password deadline last_err w h =
        late_or_next (suc fuel) cmd password deadline last_err w λ early.
          next_ping-enough (suc fuel) cmd password deadline w
            λ last_err' v later. ping-enough fuel cmd password deadline last_err' v (omega arith)

    -- With a clock that never runs back and sleeps that last their time, the polling of
    -- `wait_ready` ends: the fuel of a turn for each second, and one more, is never used up before
    -- the deadline has passed, however short the pings are.
    pub ping-in_time :
        (timeout : ℕ) (cmd : List String) (password last_err : String) (w : W)
        → (ping m (suc timeout) cmd password (m.monotonic w + seconds timeout) last_err w).0
          ≢ ok no_fuel
    ping-in_time timeout cmd password last_err w =
        ping-enough timeout cmd password _ last_err w (omega arith)
