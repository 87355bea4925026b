-- ===== src/Reaper.antt =====
-- api/reaper.py: one sweep, over the world of the service. The pool's teardowns are run in the order
-- in which they are submitted; each acts on the world as its callable does, so it may let other
-- requests run. The marks are written after them, in the same order, as the code does.
pub mod Marks
pub mod Sweep
pub mod Reaped
pub mod Retried
use sansbox_sql.Base.{
  String, ℕ, Bool, true, false, not, ◌&&◌, ◌||◌, List, [], ◌∷◌, ◌++◌, ◌==◌, nat_eq, string_eq,
  if◌then◌else◌,
}
use sansbox_sql.Errors.{Exc, type_error, Result, ok, err}
use sansbox_sql.Exec.{Exec, pure, raise, except_exception, ◌>>=◌, ◌>>◌}
use sansbox_sql.Session.{Session, nuked, is_starting, is_expired, is_error, same_status}
use sansbox_sql.Store
use sansbox_sql.Service.{World, store, stored}

-- `Path.exists`, and `down_session`, with and without the argument `remove_volumes`.
pub record Teardown (E : Type 0) : Type 0 where
  pub exists : String → Exec (World E) Bool
  pub down : String → Bool → Exec (World E) (Unit {0})
  pub down_legacy : String → Exec (World E) (Unit {0})

same_bytes : List ℕ → List ℕ → Bool
same_bytes [] [] = true
same_bytes (a ∷ as') (b ∷ bs) = a == b && same_bytes as' bs
same_bytes _ _ = false

-- `==` of two rows as dicts
same_row : Session → Session → Bool
unfolding same_bytes same_status
same_row a b =
    same_status a.status b.status
    && (a.id == b.id
        && (a.ticket == b.ticket
            && (a.date == b.date
                && (a.dbs_json == b.dbs_json
                    && (same_bytes a.creds_enc b.creds_enc
                        && (a.host == b.host
                            && (a.mysql_host == b.mysql_host
                                && (a.port == b.port
                                    && (a.container_name == b.container_name
                                        && (a.compose_path == b.compose_path
                                            && (a.tls_dir == b.tls_dir
                                                && (a.log_dir == b.log_dir
                                                    && (a.created_at == b.created_at
                                                        && (a.expires_at == b.expires_at
                                                            && (a.max_extended_until
                                                            == b.max_extended_until
                                                            && a.ttl_extended
                                                            == b.ttl_extended)))))))))))))))

-- `rec in stuck`
in_rows : Session → List Session → Bool
unfolding same_row
in_rows r [] = false
in_rows r (x ∷ xs) = same_row r x || in_rows r xs

unfoldable pub was_stuck : Session → List Session → Bool
unfolding in_rows
was_stuck r stuck =
    (is_expired r.status || (is_starting r.status || is_error r.status)) && in_rows r stuck

-- The future of one teardown: the record, and whether it succeeded or what it raised.
pub record Outcome : Type 0 where
  pub rec : Session
  pub result : Result Bool

module _ {E : Type 0} (c : Teardown E) where
  returns_true : Exec (World E) (Unit {0}) → Exec (World E) Bool
  returns_true m = m >>= λ _. pure true

  -- `except TypeError: … except Exception: …` of `_teardown`
  on_down_error : String → Exc → Exec (World E) Bool
  unfolding returns_true
  on_down_error path (type_error m) =
      except_exception (returns_true (c.down_legacy path)) (λ _. pure false)
  on_down_error path e = pure false

  -- `_teardown`
  unfoldable pub teardown : String → Bool → Exec (World E) Bool
  unfolding returns_true on_down_error
  teardown path remove_volumes = do
    there ← c.exists path
    if not there
        then pure true
        else except_exception (returns_true (c.down path remove_volumes)) (on_down_error path)

  -- A future keeps what its call raised.
  unfoldable pub run_all : Bool → List Session → World E → List Outcome × World E
  run_all volumes [] w = ([], w)
  run_all volumes (r ∷ rs) w =
      let (res, w₁) = teardown r.compose_path volumes w in
      let (rest, w₂) = run_all volumes rs w₁ in (record { rec = r; result = res } ∷ rest, w₂)

  -- One iteration of the second loop, after a teardown that succeeded.
  mark : List Session → Session → Exec (World E) (Unit {0})
  mark stuck r =
      if was_stuck r stuck
      then stored (λ t. (tt, Store.mark_nuked r.id t))
      else store (Store.set_status r.id nuked)

  -- `for fut in futures: …`; `fut.result()` raises what the teardown raised. A record whose
  -- teardown failed is passed over.
  mark_all : List Session → List Outcome → Exec (World E) (List Session)
  unfolding mark
  mark_all stuck [] = pure []
  mark_all stuck (o ∷ os) =
      let later = mark_all stuck os in
      elim o.result [
        | err e ↦ raise e
        | ok false ↦ later
        | ok true ↦ do mark stuck o.rec; rest ← later; pure (o.rec ∷ rest)
      ]

  sweep : Bool → List Session → List Session → Exec (World E) (List Session)
  unfolding mark_all
  sweep volumes expired stuck w =
      let (first, w₁) = run_all false expired w in
      let (second, w₂) = run_all volumes stuck w₁ in mark_all stuck (first ++ second) w₂

  -- `if not expired and not stuck: return []`
  sweep_some : Bool → List Session → List Session → Exec (World E) (List Session)
  unfolding sweep
  sweep_some volumes [] [] = pure []
  sweep_some volumes (r ∷ rs) stuck = sweep volumes (r ∷ rs) stuck
  sweep_some volumes [] (r ∷ rs) = sweep volumes [] (r ∷ rs)

  unfoldable pub reap_once : ℕ → ℕ → Bool → Exec (World E) (List Session)
  unfolding sweep_some
  reap_once now grace_seconds down_with_volumes = do
    expired ← stored (Store.claim_expired now)
    stuck ← stored (Store.claim_stuck now grace_seconds)
    sweep_some down_with_volumes expired stuck

  -- One round of `reap_loop`: what an iteration raises is logged. The loop calls `reap_once` with the
  -- defaults, so no teardown of the background reaper removes volumes.
  unfoldable pub reap_iteration : ℕ → Exec (World E) (List Session)
  reap_iteration now = except_exception (reap_once now 300 false) (λ e. pure [])
