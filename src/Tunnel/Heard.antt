-- ===== src/Tunnel/Heard.antt =====
-- The body of the `with` runs only behind a forward that listens.
use sansbox_sql.Base.{String, ℕ, Bool, true, none, ◌≡◌}
use sansbox_sql.Errors.{ok}
use sansbox_sql.Exec.{Exec}
use sansbox_sql.Exec.Returns.{Returns}
use sansbox_sql.Service.Calls.{Tunnel, TunnelArgs}
use sansbox_sql.Tunnel.{SshHost}

module _ {W : Type 0} (h : SshHost W) (host : String) (port : ℕ) where
  -- The connection was made, and this is the world after it.
  pub Connected : W → Type 0
  Connected w = (u : W) × (h.connects host port u ≡ (ok true, w))

  Heard : Bool → W → Type 0
  Heard heard w = heard ≡ true → Connected w

module _ {W A : Type 0} (h : SshHost W) (a : TunnelArgs) (body : Tunnel → Exec W A) where
  -- The body, run in this world, has returned the value.
  Ran : ℕ → W → A → Type 0
  Ran local_port v x =
      (v' : W) × (body (record { local_port = local_port; local_host = a.bind_host }) v
        ≡ (ok x, v'))

  -- A connection was made, right after it the process was still there, and right after that the body
  -- was run.
  pub Lent : A → W → Type 0
  Lent x w =
      (local_port : ℕ) × (proc : ℕ) × (u : W) × (v : W) × Connected h a.bind_host local_port u
      × (h.poll proc u ≡ (ok none, v))
      × (v' : W) × (body (record { local_port = local_port; local_host = a.bind_host }) v
          ≡ (ok x, v'))
