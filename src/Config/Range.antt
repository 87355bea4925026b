-- ===== src/Config/Range.antt =====
-- The ports of the configured range.
use sansbox_sql.Base.{ℕ, zero, suc, ◌+◌, ◌≤◌, ◌<◌, true, ◌≡◌, arith, contains, nat_eq}
use sansbox_sql.Config.{Settings, range, port_range}

pub contains-range :
    (p start n : ℕ) → contains p (range start n) ≡ true → (start ≤ p) × (p < start + n)
unfolding contains range
contains-range p start zero h = absurd (ground arith)
contains-range p start (suc n) h = ground (arith, contains-range p (suc start) n)

pub range-contains : (p start n : ℕ) → start ≤ p → p < start + n → contains p (range start n) ≡ true
unfolding contains range
range-contains p start zero h k = absurd (omega arith)
range-contains p start (suc n) h k = ground (arith, range-contains p (suc start) n)

-- A port of the range lies between the two ends, both included.
pub contains-port_range :
    (s : Settings) (p : ℕ)
    → contains p (port_range s) ≡ true
    → (s.sandbox_port_range_start ≤ p) × (p ≤ s.sandbox_port_range_end)
unfolding port_range
contains-port_range s p h = omega (arith, contains-range p _ _ h)

pub port_range-contains :
    (s : Settings) (p : ℕ)
    → s.sandbox_port_range_start ≤ p
    → p ≤ s.sandbox_port_range_end
    → contains p (port_range s) ≡ true
unfolding port_range
port_range-contains s p h k = range-contains p _ _ h (omega arith)
