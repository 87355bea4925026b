-- ===== src/Docker/Ports.antt =====
-- `allocate_port` returns the lowest free port of the range, and fails only when none is free.
use sansbox_sql.Base.{
  ℕ, ◌+◌, ◌-◌, zero, suc, if◌then◌else◌, ◌==◌, length, nat_beq_iff, ◌≤◌, ◌<◌, true, false, List, [],
  ◌∷◌, ◌≡◌, arith, contains, nat_eq, ◌↔◌, ◌∙◌, ap, inl, inr,
}
use sansbox_sql.Errors.{Exc, ok, err, Result-cases, docker_ops_error}
use sansbox_sql.Config.{Settings, range, port_range}
use sansbox_sql.Config.Range.{contains-port_range, port_range-contains}
use sansbox_sql.Docker.{first_free, allocate_port}

first_free-free :
    (used ps : List ℕ) (p : ℕ)
    → first_free used ps ≡ ok p
    → (contains p used ≡ false) × (contains p ps ≡ true)
unfolding first_free contains
first_free-free used [] p h = absurd (ground arith)
first_free-free used (q ∷ qs) p h =
    (ground (arith, first_free-free used qs p), ground (arith, first_free-free used qs p))

-- A port below the one that was returned is in use.
first_free-least :
    (used : List ℕ) (start n p q : ℕ)
    → first_free used (range start n) ≡ ok p
    → start ≤ q
    → q < p
    → contains q used ≡ true
unfolding first_free range
first_free-least used start zero p q h a b = absurd (ground arith)
first_free-least used start (suc n) p q h a b =
    ground (arith, first_free-least used (suc start) n p q)

first_free-exhausted :
    (used ps : List ℕ) (e : Exc) (q : ℕ)
    → first_free used ps ≡ err e
    → contains q ps ≡ true
    → contains q used ≡ true
unfolding first_free contains
first_free-exhausted used [] e q h m = absurd (ground arith)
first_free-exhausted used (p ∷ ps) e q h m =
    ground (arith, first_free-exhausted used ps e q, nat_beq_iff p q)

first_free-error :
    (used ps : List ℕ) (e : Exc)
    → first_free used ps ≡ err e
    → e ≡ docker_ops_error "no free ports in configured range"
unfolding first_free
first_free-error used [] e h = ground arith
first_free-error used (p ∷ ps) e h = ground (arith, first_free-error used ps e)

-- The port that `allocate_port` returns is not in use, lies in the configured range, and every
-- lower port of the range is in use.
pub allocate_port-least :
    (used : List ℕ) (s : Settings) (p : ℕ)
    → allocate_port used s ≡ ok p
    → (contains p used ≡ false)
      × ((s.sandbox_port_range_start ≤ p) × (p ≤ s.sandbox_port_range_end))
      × ((q : ℕ) → s.sandbox_port_range_start ≤ q → q < p → contains q used ≡ true)
unfolding allocate_port
allocate_port-least used s p h =
    let (free, inside) = first_free-free used (port_range s) p h in
    (
      free,
      contains-port_range s p inside,
      unfold port_range in λ q a b. first_free-least used _ _ p q h a b,
    )

-- The one text with which `allocate_port` fails.
abbrev pub no_free_ports : Exc
no_free_ports = docker_ops_error "no free ports in configured range"

AllUsed : List ℕ → Settings → Type 0
AllUsed used s =
    (q : ℕ) → s.sandbox_port_range_start ≤ q → q ≤ s.sandbox_port_range_end → contains q used ≡ true

free_not_used :
    (used : List ℕ) (s : Settings) (p : ℕ) → allocate_port used s ≡ ok p → AllUsed used s → ⊥
unfolding AllUsed
free_not_used used s p h full =
    let (free, (low, high), _) = allocate_port-least used s p h in ground (arith, full p low high)

-- `allocate_port` raises exactly when every port of the configured range is in use, and then the
-- `DockerOpsError` with the text "no free ports in configured range".
pub allocate_port-exhausted :
    (used : List ℕ) (s : Settings)
    → (allocate_port used s ≡ err no_free_ports) ↔ (
        (q : ℕ)
        → s.sandbox_port_range_start ≤ q
        → q ≤ s.sandbox_port_range_end
        → contains q used ≡ true)
unfolding AllUsed
allocate_port-exhausted used s = (
  unfold allocate_port in
      λ h q a b. first_free-exhausted used (port_range s) _ q h (port_range-contains s q a b),
  λ full. elim (Result-cases (allocate_port used s)) [
    | inl (p, e) ↦ absurd (free_not_used used s p e full)
    | inr (x, e) ↦ e ∙ ap err (unfold allocate_port in first_free-error used (port_range s) x e)
  ],
)

allocate_port-error :
    (used : List ℕ) (s : Settings) (x : Exc) → allocate_port used s ≡ err x → x ≡ no_free_ports
unfolding allocate_port
allocate_port-error used s x e = first_free-error used (port_range s) x e

-- The list less one occurrence of a port
without : ℕ → List ℕ → List ℕ
without p [] = []
without p (x ∷ xs) = let rest = without p xs in if x == p then xs else x ∷ rest

length-without :
    (p : ℕ) (xs : List ℕ) → contains p xs ≡ true → suc (length (without p xs)) ≡ length xs
unfolding contains without
length-without p [] h = absurd (ground arith)
length-without p (x ∷ xs) h = ground (arith, length-without p xs)

contains-without :
    (p q : ℕ) (xs : List ℕ) → p < q → contains q xs ≡ true → contains q (without p xs) ≡ true
unfolding contains without
contains-without p q [] a h = absurd (ground arith)
contains-without p q (x ∷ xs) a h =
    ground (arith, contains-without p q xs, nat_beq_iff x p, nat_beq_iff x q)

-- A list that has every port of an interval is as long as the interval.
interval-length :
    (n start : ℕ) (used : List ℕ)
    → ((q : ℕ) → start ≤ q → q < start + n → contains q used ≡ true)
    → n ≤ length used
interval-length zero start used h = omega arith
interval-length (suc n) start used h =
    let here = h start (omega arith) (omega arith) in
    let rest =
      interval-length n (suc start) (without start used)
        (λ q a b. contains-without start q used (omega arith) (h q (omega arith) (omega arith))) in
    omega (arith, length-without start used here, rest)

-- While fewer ports are in use than the configured range has, `allocate_port` returns one of the
-- range that is not in use.
pub allocate_port-available :
    (used : List ℕ) (s : Settings)
    → s.sandbox_port_range_start + length used ≤ s.sandbox_port_range_end
    → (p : ℕ) × (allocate_port used s ≡ ok p)
      × (contains p used ≡ false)
      × ((s.sandbox_port_range_start ≤ p) × (p ≤ s.sandbox_port_range_end))
allocate_port-available used s few = elim (Result-cases (allocate_port used s)) [
  | inl (p, e) ↦ let (free, inside, _) = allocate_port-least used s p e in (p, e, free, inside)
  | inr (x, e) ↦
      let text = allocate_port-error used s x e in
      let full = (allocate_port-exhausted used s).0 (e ∙ ap err text) in
      let long =
        interval-length (suc (s.sandbox_port_range_end - s.sandbox_port_range_start))
          s.sandbox_port_range_start used (λ q a b. full q a (omega arith)) in
      absurd (omega arith)
]
