-- ===== src/Tunnel/Stopped.antt =====
-- The `ssh` process does not outlive its tunnel.
use sansbox_sql.Base.{
  ℕ, Bool, true, false, Option, none, some, ◌≡◌, refl, ap, ◌∙◌, Bool-cases, inl, inr,
}
use sansbox_sql.Errors.{Exc, Result, ok, err, is_exception}
use sansbox_sql.Exec.{
  Exec, raise, act, continue, best_effort, except_exception, except_exception_at, ◌>>=◌, ◌>>◌,
}
use sansbox_sql.Docker.Compose.{ReturnCode}
use sansbox_sql.Service.Calls.{Tunnel, TunnelArgs}
use sansbox_sql.Tunnel.Listening.{Ticks, wait_listening-returns}
use sansbox_sql.Tunnel.{
  SshHost, close, stop, stop_running, kill_unless, last_wait, kill_after, give_up, lend,
  lend_unless_dead, lend_if, serve,
}

-- What the calls on a process promise: `poll`, `terminate` and `wait` raise no more than the
-- `TimeoutExpired` of `wait`; a process that `poll` or `wait` saw ending is stopped, as is one that
-- was killed, and no later call starts it again.
pub record Obeys {W : Type 0} (h : SshHost W) (Stopped : ℕ → W → Type 0) : Type 0 where
  pub poll_returns : (p : ℕ) (w : W) → (o : Option ReturnCode) × ((h.poll p w).0 ≡ ok o)
  pub terminate_returns : (p : ℕ) (w : W) → (h.terminate p w).0 ≡ ok tt
  pub wait_returns :
      (p : ℕ) (t : Option ℕ) (w : W) → (o : Option ReturnCode) × ((h.wait p t w).0 ≡ ok o)
  pub poll_ends :
      (p : ℕ) (w : W) (rc : ReturnCode) → (h.poll p w).0 ≡ ok (some rc) → Stopped p (h.poll p w).1
  pub wait_ends :
      (p : ℕ) (t : Option ℕ) (w : W) (rc : ReturnCode)
      → (h.wait p t w).0 ≡ ok (some rc)
      → Stopped p (h.wait p t w).1
  pub kill_stops : (p : ℕ) (w : W) → Stopped p (h.kill p w)
  pub wait_keeps : (p : ℕ) (t : Option ℕ) (w : W) → Stopped p w → Stopped p (h.wait p t w).1
  pub log_keeps : (p : ℕ) (w : W) → Stopped p w → Stopped p (h.close_log w)

module _ {W : Type 0} (h : SshHost W) (Stopped : ℕ → W → Type 0) (obeys : Obeys h Stopped) where
  last_wait-world : (o : Option ReturnCode) (w : W) → (last_wait h o w).1 ≡ w
  unfolding last_wait
  last_wait-world none w = refl
  last_wait-world (some rc) w = refl

  kill_unless-Stopped :
      (p : ℕ) (o : Option ReturnCode) (w : W)
      → ((rc : ReturnCode) → o ≡ some rc → Stopped p w)
      → Stopped p (kill_unless h p o w).1
  unfolding kill_unless ◌>>=◌
  kill_unless-Stopped p (some rc) w k = k rc refl
  kill_unless-Stopped p none w k =
      let (o, e) = obeys.wait_returns p (some 2) (h.kill p w) in
      rw (e, last_wait-world o (h.wait p (some 2) (h.kill p w)).1)
        (obeys.wait_keeps p (some 2) _ (obeys.kill_stops p w))

  stop-Stopped : (p : ℕ) (w : W) → Stopped p (stop h p w).1
  unfolding stop ◌>>=◌
  stop-Stopped p w =
      let (o, e) = obeys.wait_returns p (some 3) (h.terminate p w).1 in
      rw (obeys.terminate_returns p w, e)
        (kill_unless-Stopped p o _
          (λ rc k. obeys.wait_ends p (some 3) (h.terminate p w).1 rc (e ∙ ap ok k)))

  handled-world :
      (r : Result (Unit {0})) (v : W) → (except_exception_at (λ e w. (ok tt, w)) r v).1 ≡ v
  unfolding except_exception_at
  handled-world (ok a) v = refl
  handled-world (err e) v = elim (Bool-cases (is_exception e)) [
    | inl y ↦ rw y refl
    | inr n ↦ rw n refl
  ]

  swallowed-world : (m : Exec W (Unit {0})) (w : W) → (best_effort m w).1 ≡ (m w).1
  unfolding best_effort except_exception
  swallowed-world m w = handled-world (m w).0 (m w).1

  stop_running-Stopped :
      (p : ℕ) (o : Option ReturnCode) (w : W)
      → ((rc : ReturnCode) → o ≡ some rc → Stopped p w)
      → Stopped p (stop_running h p o w).1
  unfolding stop_running
  stop_running-Stopped p (some rc) w k = k rc refl
  stop_running-Stopped p none w k = rw (swallowed-world (stop h p) w) (stop-Stopped p w)

  close-Stopped : (p : ℕ) (w : W) → Stopped p (close h p w).1
  unfolding close ◌>>=◌
  close-Stopped p w =
      let (o, e) = obeys.poll_returns p w in
      rw e (stop_running-Stopped p o _ (λ rc k. obeys.poll_ends p w rc (e ∙ ap ok k)))

  module _ {A : Type 0} (a : TunnelArgs) (body : Tunnel → Exec W A) where
    killed-Stopped :
        (p : ℕ) (o : Option ReturnCode) (e : Exc) (v : W)
        → ((rc : ReturnCode) → o ≡ some rc → Stopped p v)
        → Stopped p ((kill_after h a body p o >> raise {A = A} e) v).1
    unfolding kill_after ◌>>=◌
    killed-Stopped p none e v k = obeys.kill_stops p v
    killed-Stopped p (some rc) e v k = k rc refl

    give_up-Stopped : (p local_port : ℕ) (w : W) → Stopped p (give_up h a body p local_port w).1
    unfolding give_up ◌>>=◌
    give_up-Stopped p local_port w =
        let (o, e) = obeys.wait_returns p (some 3) (h.terminate p w).1 in
        rw (obeys.terminate_returns p w, e)
          (killed-Stopped p o _ _
            (λ rc k. obeys.wait_ends p (some 3) (h.terminate p w).1 rc (e ∙ ap ok k)))

    logged-Stopped :
        (p : ℕ) (r : Result (Unit {0})) (x : Result A) (u : W)
        → Stopped p u
        → Stopped p (continue r (λ _ (v : W). (x, h.close_log v)) u).1
    logged-Stopped p (ok tt) x u s = obeys.log_keeps p u s
    logged-Stopped p (err e) x u s = s

    lend-Stopped : (p local_port : ℕ) (w : W) → Stopped p (lend h a body p local_port w).1
    unfolding lend ◌>>=◌
    lend-Stopped p local_port w = logged-Stopped p _ _ _ (close-Stopped p _)

    lend_unless_dead-Stopped :
        (p local_port : ℕ) (o : Option ReturnCode) (w : W)
        → ((rc : ReturnCode) → o ≡ some rc → Stopped p w)
        → Stopped p (lend_unless_dead h a body p local_port o w).1
    unfolding lend_unless_dead
    lend_unless_dead-Stopped p local_port none w k = lend-Stopped p local_port w
    lend_unless_dead-Stopped p local_port (some rc) w k = k rc refl

    lend_if-Stopped :
        (p local_port : ℕ) (heard : Bool) (w : W)
        → Stopped p (lend_if h a body p local_port heard w).1
    unfolding lend_if ◌>>=◌
    lend_if-Stopped p local_port false w = give_up-Stopped p local_port w
    lend_if-Stopped p local_port true w =
        let (o, e) = obeys.poll_returns p w in
        rw e
          (lend_unless_dead-Stopped p local_port o _ (λ rc k. obeys.poll_ends p w rc (e ∙ ap ok k)))

    reraised-Stopped :
        (p : ℕ) (r : Result A) (v : W)
        → Stopped p v
        → Stopped p
            (except_exception_at (λ e. best_effort (act h.close_log) >> raise {A = A} e) r v).1
    unfolding except_exception_at best_effort except_exception ◌>>=◌
    reraised-Stopped p (ok x) v s = s
    reraised-Stopped p (err e) v s = elim (Bool-cases (is_exception e)) [
      | inl y ↦ rw y (obeys.log_keeps p v s)
      | inr n ↦ rw n s
    ]

    -- Where a socket can be made for each try to connect, with a clock that never runs back and pauses
    -- that last their time, and where the calls on the process keep their promises: once `ssh` was started, it is stopped when `open_tunnel` ends,
    -- however it ends: without a forward, with a forward that died, or when the body of the `with`
    -- has returned, raised or was interrupted.
    pub serve-Stopped :
        (ticks : Ticks h) (p local_port : ℕ) (w : W) → Stopped p (serve h a body p local_port w).1
    unfolding serve except_exception ◌>>=◌
    serve-Stopped ticks p local_port w =
        let (heard, e) = wait_listening-returns h a.bind_host local_port ticks 10 w in
        rw e (
          reraised-Stopped p (lend_if h a body p local_port heard _).0 _
            (lend_if-Stopped p local_port heard _))
