-- ===== src/Docker/Health/Turns.antt =====
-- The polling loop, one turn at a time.
use Prim.Native.String.{String}
use sansbox_sql.Base.{ℕ, suc, true, false, Option, ltb, ◌≡◌, refl}
use sansbox_sql.Errors.{ok}
use sansbox_sql.Exec.{Exec, ◌>>=◌}
use sansbox_sql.Docker.Compose.{Host}
use sansbox_sql.Docker.Inspect.{Json}
use sansbox_sql.Docker.Health.{Seen, Polled, timed_out, turn, continue_unless, poll}

module _ {W : Type 0} (d : Host W) (parse : String → Option Json) where
  -- A turn, and what follows it.
  unfoldable pub next_turn : ℕ → String → ℕ → Seen → Exec W Polled
  next_turn fuel name deadline seen = turn d parse name seen >>= λ after.
      continue_unless d parse after (poll d parse fuel name deadline)

  pub poll_early :
      (fuel : ℕ) (name : String) (deadline : ℕ) (seen : Seen) (w : W)
      → ltb (d.monotonic w) deadline ≡ true
      → poll d parse (suc fuel) name deadline seen w ≡ next_turn fuel name deadline seen w
  unfolding poll next_turn
  poll_early fuel name deadline seen w h = rw h refl

  pub poll_late :
      (fuel : ℕ) (name : String) (deadline : ℕ) (seen : Seen) (w : W)
      → ltb (d.monotonic w) deadline ≡ false
      → poll d parse (suc fuel) name deadline seen w ≡ (ok (timed_out seen), w)
  unfolding poll
  poll_late fuel name deadline seen w h = rw h refl
