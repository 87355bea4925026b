-- ===== src/Mysql/Clone/Reaped.antt =====
-- `clone_db` leaves neither of its two processes running.
use sansbox_sql.Base.{ℕ, Option, none, some, List, ◌≡◌, refl, ap, ◌∙◌}
use sansbox_sql.Errors.{ok}
use sansbox_sql.Exec.{◌>>=◌}
use sansbox_sql.Docker.Compose.{ReturnCode}
use sansbox_sql.Process.{Machine}
use sansbox_sql.Mysql.Clone.{CloneDb, expired_clone, after_wait, after_communicate, transfer}

-- What the calls on a process promise, where they raise no more than `TimeoutExpired`: a process that
-- `communicate` or `wait` saw ending is gone, and stays so; a process that was killed is one that
-- `wait` without a time-out sees ending.
pub record Promises {W : Type 0} (m : Machine W) (Killed Gone : ℕ → W → Type 0) : Type 0 where
  pub communicate_returns :
      (p t : ℕ) (w : W) → (o : Option (ReturnCode × List ℕ)) × ((m.communicate p t w).0 ≡ ok o)
  pub wait_returns :
      (p : ℕ) (t : Option ℕ) (w : W) → (o : Option ReturnCode) × ((m.wait p t w).0 ≡ ok o)
  pub communicate_ends :
      (p t : ℕ) (w : W) (x : ReturnCode × List ℕ)
      → (m.communicate p t w).0 ≡ ok (some x)
      → Gone p (m.communicate p t w).1
  pub wait_ends :
      (p : ℕ) (t : Option ℕ) (w : W) (rc : ReturnCode)
      → (m.wait p t w).0 ≡ ok (some rc)
      → Gone p (m.wait p t w).1
  pub wait_killed :
      (p : ℕ) (w : W) → Killed p w → (rc : ReturnCode) × ((m.wait p none w).0 ≡ ok (some rc))
  pub kill_kills : (p : ℕ) (w : W) → Killed p (m.kill p w)
  pub kill_keeps : (p q : ℕ) (w : W) → Killed q w → Killed q (m.kill p w)
  pub wait_keeps : (p q : ℕ) (t : Option ℕ) (w : W) → Killed q w → Killed q (m.wait p t w).1
  pub stays_gone : (p q : ℕ) (t : Option ℕ) (w : W) → Gone q w → Gone q (m.wait p t w).1

module _ {W : Type 0} (m : Machine W) (c : CloneDb) (Killed Gone : ℕ → W → Type 0)
    (promises : Promises m Killed Gone) where
  waited : (p : ℕ) (w : W) → Killed p w → Gone p (m.wait p none w).1
  waited p w k = let (rc, e) = promises.wait_killed p w k in promises.wait_ends p none w rc e

  expired-Gone :
      (dump restore : ℕ) (w : W)
      → Gone dump (expired_clone m c dump restore w).1
        × Gone restore (expired_clone m c dump restore w).1
  unfolding expired_clone ◌>>=◌
  expired-Gone dump restore w =
      let v = m.kill restore (m.kill dump w) in
      let kd = promises.kill_keeps restore dump _ (promises.kill_kills dump w) in
      let kr = promises.wait_keeps dump restore none v (promises.kill_kills restore _) in
      let (o, e) = promises.wait_returns dump none v in
      let (o', e') = promises.wait_returns restore none (m.wait dump none v).1 in
      rw (e, e') (promises.stays_gone restore dump none _ (waited dump v kd), waited restore _ kr)

  after_wait-Gone :
      (dump restore : ℕ) (rc : ReturnCode) (stderr : List ℕ) (o : Option ReturnCode) (v : W)
      → ((drc : ReturnCode) → o ≡ some drc → Gone dump v)
      → Gone restore v
      → Gone dump (after_wait m c dump restore rc stderr o v).1
        × Gone restore (after_wait m c dump restore rc stderr o v).1
  unfolding after_wait
  after_wait-Gone dump restore rc stderr none v gd gr = expired-Gone dump restore v
  after_wait-Gone dump restore rc stderr (some drc) v gd gr = (gd drc refl, gr)

  after_communicate-Gone :
      (dump restore : ℕ) (o : Option (ReturnCode × List ℕ)) (v : W)
      → ((x : ReturnCode × List ℕ) → o ≡ some x → Gone restore v)
      → Gone dump (after_communicate m c dump restore o v).1
        × Gone restore (after_communicate m c dump restore o v).1
  unfolding after_communicate ◌>>=◌
  after_communicate-Gone dump restore none v g = expired-Gone dump restore v
  after_communicate-Gone dump restore (some (rc, stderr)) v g =
      let (o, e) = promises.wait_returns dump (some 30) v in
      rw e (
        after_wait-Gone dump restore rc stderr o (m.wait dump (some 30) v).1
          (λ drc h. promises.wait_ends dump (some 30) v drc (e ∙ ap ok h))
          (promises.stays_gone dump restore (some 30) v (g (rc, stderr) refl)))

  -- Where the calls on the two processes keep their promises, both processes are gone when the
  -- transfer of `clone_db` ends: whether they ended in time, or one of the two waits timed out and
  -- both were killed.
  pub transfer-Gone :
      (dump restore : ℕ) (w : W)
      → Gone dump (transfer m c dump restore w).1 × Gone restore (transfer m c dump restore w).1
  unfolding transfer ◌>>=◌
  transfer-Gone dump restore w =
      let (o, e) = promises.communicate_returns restore c.timeout_seconds w in
      rw e (
        after_communicate-Gone dump restore o _
          (λ x h. promises.communicate_ends restore c.timeout_seconds w x (e ∙ ap ok h)))
