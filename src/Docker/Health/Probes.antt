-- ===== src/Docker/Health/Probes.antt =====
-- What the polling has seen when the deadline passes.
use Prim.Native.String.{String}
use sansbox_sql.Base.{
  ℕ, ◌<◌, zero, suc, Bool, true, false, Option, none, some, ◌≡◌, refl, sym, ap, ◌∙◌, arith,
  Bool-cases, inl, inr, ltb,
}
use sansbox_sql.Errors.{ok}
use sansbox_sql.Exec.{Exec}
use sansbox_sql.Exec.Returns.{Returns, Returns-bind, Returns-after, returned}
use sansbox_sql.Docker.Compose.{Host}
use sansbox_sql.Docker.Inspect.{Json}
use sansbox_sql.Docker.Health.{
  Seen, Polled, timed_out, sleep_unless, fallback, fallback_unless, continue_unless, turn, poll,
  port_text,
}
use sansbox_sql.Docker.Health.Turns.{next_turn, poll_early, poll_late}

-- The last probe of the published port stands in the text.
abbrev pub Probed : Seen → Type 0
Probed seen = (q : Option ℕ) × (seen.last_tcp ≡ port_text q)

tcp_of : String → Option Seen → String
tcp_of default none = default
tcp_of default (some seen) = seen.last_tcp

timed_out_inj : {a b : Seen} → timed_out a ≡ timed_out b → a ≡ b
timed_out_inj e = cc

module _ {W : Type 0} (d : Host W) (parse : String → Option Json) where
  AfterTurn : Option Seen → W → Type 0
  AfterTurn after w = (seen : Seen) → after ≡ some seen → Probed seen

  sleep_unless-AfterTurn :
      (o : Bool) (port : Option ℕ) (status : String)
      → Returns AfterTurn (sleep_unless d parse o port status)
  unfolding sleep_unless AfterTurn tcp_of
  sleep_unless-AfterTurn true port status = record {
    gives = λ w b w' h. returned AfterTurn h (λ seen e. absurd (cc e));
  }
  sleep_unless-AfterTurn false port status = record {
    gives =
        λ w b w' h. returned AfterTurn h (λ seen e. (port, sym (ap (tcp_of (port_text port)) e)));
  }

  fallback_unless-AfterTurn :
      (name : String) (said : Bool × String) → Returns AfterTurn (fallback_unless d parse name said)
  unfolding fallback_unless fallback AfterTurn
  fallback_unless-AfterTurn name (true, status) = record {
    gives = λ w b w' h. returned AfterTurn h (λ seen e. absurd (cc e));
  }
  fallback_unless-AfterTurn name (false, status) =
      Returns-bind _ _ (λ port. Returns-bind _ _ (λ o. sleep_unless-AfterTurn o port status))

  turn-AfterTurn : (name : String) (seen : Seen) → Returns AfterTurn (turn d parse name seen)
  unfolding turn
  turn-AfterTurn name seen =
      Returns-bind _ _ (λ proc. Returns-bind _ _ (λ said. fallback_unless-AfterTurn name said))

  TimedOut : Polled → W → Type 0
  TimedOut polled w = (seen : Seen) → polled ≡ timed_out seen → Probed seen

  continue_unless-TimedOut :
      (after : Option Seen) (again : Seen → Exec W Polled) (w : W) (b : Polled) (w' : W)
      → ((seen : Seen) → Probed seen → Returns TimedOut (again seen))
      → AfterTurn after w
      → continue_unless d parse after again w ≡ (ok b, w')
      → TimedOut b w'
  unfolding continue_unless AfterTurn TimedOut
  continue_unless-TimedOut none again w b w' k q h = returned TimedOut h (λ seen e. absurd (cc e))
  continue_unless-TimedOut (some seen) again w b w' k q h = (k seen (q seen refl)).gives w b w' h

  next_turn-TimedOut :
      (fuel : ℕ) (name : String) (deadline : ℕ) (seen : Seen)
      → ((seen' : Seen) → Probed seen' → Returns TimedOut (poll d parse fuel name deadline seen'))
      → Returns TimedOut (next_turn d parse fuel name deadline seen)
  unfolding next_turn
  next_turn-TimedOut fuel name deadline seen k =
      Returns-after {P = TimedOut} {Q = AfterTurn} (turn d parse name seen) _
        (turn-AfterTurn name seen)
        (λ after w b w' q h. continue_unless-TimedOut after _ w b w' k q h)

  poll-TimedOut :
      (fuel : ℕ) (name : String) (deadline : ℕ) (seen : Seen)
      → Probed seen
      → Returns TimedOut (poll d parse fuel name deadline seen)
  unfolding poll TimedOut
  poll-TimedOut zero name deadline seen p = record {
    gives = λ w b w' h. returned TimedOut h (λ seen' e. absurd (cc e));
  }
  poll-TimedOut (suc fuel) name deadline seen p = record {
    gives = λ w b w' h. elim (Bool-cases (ltb (d.monotonic w) deadline)) [
      | inl early ↦
          (next_turn-TimedOut fuel name deadline seen (poll-TimedOut fuel name deadline)).gives w b
            w' (sym (poll_early d parse fuel name deadline seen w early) ∙ h)
      | inr late ↦
          returned TimedOut (sym (poll_late d parse fuel name deadline seen w late) ∙ h)
            (λ seen' e. (p.0, ap (λ x. x.last_tcp) (sym (timed_out_inj e)) ∙ p.1))
    ];
  }

  pub poll-Probed :
      (fuel : ℕ) (name : String) (deadline : ℕ) (seen seen' : Seen) (w w' : W)
      → d.monotonic w < deadline
      → poll d parse (suc fuel) name deadline seen w ≡ (ok (timed_out seen'), w')
      → Probed seen'
  unfolding TimedOut
  poll-Probed fuel name deadline seen seen' w w' early h =
      (next_turn-TimedOut fuel name deadline seen (poll-TimedOut fuel name deadline)).gives w
        (timed_out seen') w' (sym (poll_early d parse fuel name deadline seen w (ground arith)) ∙ h)
        seen' refl
