-- ===== src/Service/Failure/Unready.antt =====
-- How the error of `wait_healthy` is classified.
use Prim.Native.String.{String}
use sansbox_sql.Base.{ℕ, ◌<◌, suc, true, Option, none, some, ◌≡◌, refl, ap, ◌∙◌}
use sansbox_sql.Base.Text.{codes, lower, occurs}
use sansbox_sql.Errors.{ok, docker_ops_error, port}
use sansbox_sql.Docker.Compose.{Host, decimal}
use sansbox_sql.Docker.Inspect.{Json}
use sansbox_sql.Docker.Health.{Seen, timed_out, poll, not_ready, port_text}
use sansbox_sql.Docker.Health.Probes.{poll-Probed}
use sansbox_sql.Service.Failure.Mentions.{lower-append, mentions-right}
use sansbox_sql.Service.Failure.{mentions, classify_failure}

mentions-port_text : (q : Option ℕ) → mentions "port" (port_text q) ≡ true
unfolding port_text mentions occurs lower
mentions-port_text none = refl
mentions-port_text (some p) = ap (occurs (codes "port")) (lower-append "port=" (decimal p))

module _ {W : Type 0} (d : Host W) (parse : String → Option Json) where
  mentions-not_ready :
      (name : String) (timeout : ℕ) (seen : Seen) (q : Option ℕ)
      → seen.last_tcp ≡ port_text q
      → mentions "port" (not_ready d parse name timeout seen) ≡ true
  unfolding not_ready
  mentions-not_ready name timeout seen q h = mentions-right "port" _ _ (
      mentions-right "port" _ _ (
        mentions-right "port" _ _ (
          mentions-right "port" _ _ (
            mentions-right "port" _ _ (
              mentions-right "port" _ _
                (mentions-right "port" _ _ (ap (mentions "port") h ∙ mentions-port_text q)))))))

  -- When the polling of `wait_healthy` has begun before its deadline and ends with the deadline
  -- passed, the `DockerOpsError` that it then raises is classified as `port`, whatever the container
  -- was waiting for: its text names the last probe of the published port.
  pub not_ready-port :
      (fuel : ℕ) (name : String) (timeout deadline : ℕ) (seen seen' : Seen) (w w' : W)
      → d.monotonic w < deadline
      → poll d parse (suc fuel) name deadline seen w ≡ (ok (timed_out seen'), w')
      → (classify_failure (docker_ops_error (not_ready d parse name timeout seen'))).0 ≡ port
  unfolding classify_failure
  not_ready-port fuel name timeout deadline seen seen' w w' early h =
      let (q, e) = poll-Probed d parse fuel name deadline seen seen' w w' early h in
      rw (mentions-not_ready name timeout seen' q e) refl
