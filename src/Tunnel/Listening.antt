-- ===== src/Tunnel/Listening.antt =====
-- The wait for the forward ends.
use sansbox_sql.Base.{
  String, ℕ, ◌+◌, ◌*◌, ◌≤◌, ◌<◌, zero, suc, Bool, true, false, ltb, ◌≡◌, ◌⊎◌, refl, ap, ◌∙◌, arith,
  Bool-cases, inl, inr,
}
use sansbox_sql.Errors.{Exc, ok, err}
use sansbox_sql.Tunnel.{SshHost, listen, wait_listening}

-- A socket can be made; a connection attempt does not set the clock back, and a pause lasts at least its milliseconds.
pub record Ticks {W : Type 0} (h : SshHost W) : Type 0 where
  pub connect_returns :
      (host : String) (port : ℕ) (w : W) → (b : Bool) × ((h.connects host port w).0 ≡ ok b)
  pub connect_lasts :
      (host : String) (port : ℕ) (w : W) → h.monotonic w ≤ h.monotonic (h.connects host port w).1
  pub pause_lasts : (n : ℕ) (w : W) → h.monotonic w + n * 1000000 ≤ h.monotonic (h.pause n w)

module _ {W : Type 0} (h : SshHost W) (host : String) (port : ℕ) where
  pub listen_late :
      (fuel deadline : ℕ) (w : W)
      → ltb (h.monotonic w) deadline ≡ false
      → listen h (suc fuel) host port deadline w ≡ (ok false, w)
  unfolding listen
  listen_late fuel deadline w late = rw late refl

  pub listen_heard :
      (fuel deadline : ℕ) (w : W)
      → ltb (h.monotonic w) deadline ≡ true
      → (h.connects host port w).0 ≡ ok true
      → listen h (suc fuel) host port deadline w ≡ (ok true, (h.connects host port w).1)
  unfolding listen
  listen_heard fuel deadline w early heard = rw (early, heard) refl

  pub listen_again :
      (fuel deadline : ℕ) (w : W)
      → ltb (h.monotonic w) deadline ≡ true
      → (h.connects host port w).0 ≡ ok false
      → listen h (suc fuel) host port deadline w
        ≡ listen h fuel host port deadline (h.pause 100 (h.connects host port w).1)
  unfolding listen
  listen_again fuel deadline w early silent = rw (early, silent) refl

  pub listen_raised :
      (fuel deadline : ℕ) (w : W) (e : Exc)
      → ltb (h.monotonic w) deadline ≡ true
      → (h.connects host port w).0 ≡ err e
      → listen h (suc fuel) host port deadline w ≡ (err e, (h.connects host port w).1)
  unfolding listen
  listen_raised fuel deadline w e early failed = rw (early, failed) refl

  module _ (ticks : Ticks h) where
    try_made :
        (w : W) → ((h.connects host port w).0 ≡ ok true) ⊎ ((h.connects host port w).0 ≡ ok false)
    try_made w =
        let (b, e) = ticks.connect_returns host port w in
        elim (Bool-cases b) [ inl y ↦ inl (e ∙ ap ok y) | inr n ↦ inr (e ∙ ap ok n) ]

    early_turn :
        (fuel deadline : ℕ) (w : W)
        → (h.monotonic w < deadline
            → (h.connects host port w).0 ≡ ok false
            → (b : Bool) × ((listen h fuel host port deadline
                  (h.pause 100 (h.connects host port w).1)).0
                ≡ ok b))
        → (b : Bool) × ((listen h (suc fuel) host port deadline w).0 ≡ ok b)
    early_turn fuel deadline w k = elim (Bool-cases (ltb (h.monotonic w) deadline)) [
      | inr late ↦ (false, ap (λ r. r.0) (listen_late fuel deadline w late))
      | inl early ↦ elim (try_made w) [
        | inl heard ↦ (true, ap (λ r. r.0) (listen_heard fuel deadline w early heard))
        | inr silent ↦
            let (b, e) = k (ground arith) silent in
            (b, ap (λ r. r.0) (listen_again fuel deadline w early silent) ∙ e)
      ]
    ]

    listen-returns :
        (fuel deadline : ℕ) (w : W)
        → deadline ≤ h.monotonic w + fuel * 100000000
        → (b : Bool) × ((listen h (suc fuel) host port deadline w).0 ≡ ok b)
    listen-returns zero deadline w enough =
        early_turn zero deadline w (λ early silent. absurd (omega arith))
    listen-returns (suc fuel) deadline w enough = early_turn (suc fuel) deadline w λ early silent.
        listen-returns fuel deadline _ (
          omega (
            arith,
            ticks.connect_lasts host port w,
            ticks.pause_lasts 100 (h.connects host port w).1,
          ))

    -- Where a socket can be made, with a clock that never runs back and pauses that last their time,
    -- `_wait_listening` returns:
    -- ten turns for each second, and one more, are never used up before the deadline has passed.
    pub wait_listening-returns :
        (timeout : ℕ) (w : W) → (b : Bool) × ((wait_listening h host port timeout w).0 ≡ ok b)
    unfolding wait_listening
    wait_listening-returns timeout w = listen-returns (timeout * 10) _ w (omega arith)
