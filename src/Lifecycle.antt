-- ===== src/Lifecycle.antt =====
-- The life of the table under concurrent requests: api/service.py and api/reaper.py seen as the
-- transactions that they run on the store, in any order. Each constructor of `Step` is one
-- transaction with the arguments that the code passes; `reset_ttl` reads its row in one and writes
-- it in a later one, so the rows that it has read and tested stand in the system beside the table.
pub mod Rows
pub mod Invariant
pub mod Moves
pub mod Births
pub mod Resets
pub mod Holders
pub mod Safety
pub mod History
use sansbox_sql.Base.{String, ℕ, ◌+◌, List, [], ◌∷◌, ◌≡◌, ◌⊎◌, some}
use sansbox_sql.Config.{Settings}
use sansbox_sql.Docker.{SessionPaths, allocate_port}
use sansbox_sql.Models.{DbSpec}
use sansbox_sql.Session.{Session, Status, ready, nuked, error}
use sansbox_sql.Store
use sansbox_sql.Store.{Table}
use sansbox_sql.Service.{extended}
use sansbox_sql.Service.Calls.{factory}

pub record System : Type 0 where
  pub table : Table
  pub resets : List Session

-- Some entry of the list is this row.
abbrev pub In : Session → List Session → Type 0
In a [] = ⊥
In a (x ∷ xs) = (a ≡ x) ⊎ In a xs

abbrev pub with_table : System → Table → System
with_table y t = record y { table = t }

module _ (s : Settings) where
  pub data Step (y : System) : System → Type 0 where
    -- `create`: the placeholder row
    reserves :
        (sid ticket date : String) (paths : SessionPaths) (dbs : List DbSpec) (now : ℕ)
        → Step y (
            with_table y
              (Store.reserve_session
                (factory s sid ticket date paths dbs now)
                (λ used. allocate_port used s)
                y.table).1)
    -- `_do_create`: the row that the same request reserved at `now`
    readies :
        (sid : String) (creds : List ℕ) (now : ℕ)
        → ((r : Session) → Store.get sid y.table ≡ some r → r.created_at ≡ now)
        → Step y (
            with_table y
              (Store.update_to_ready sid creds
                (now + s.sandbox_ttl_default_seconds)
                (now + s.sandbox_ttl_max_seconds)
                y.table).1)
    -- `nuke`, `nuke_by_ticket` and the reaper; the failure path of `create`
    sets :
        (sid : String) (status : Status)
        → (status ≡ nuked) ⊎ (status ≡ error)
        → Step y (with_table y (Store.set_status sid status y.table).1)
    -- the reaper
    claims : (now : ℕ) → Step y (with_table y (Store.claim_expired now y.table).1)
    marks : (sid : String) → Step y (with_table y (Store.mark_nuked sid y.table))
    -- `reset_ttl`: the row that passed the tests, and the write
    reads :
        (sid : String) (r : Session)
        → Store.get sid y.table ≡ some r
        → r.status ≡ ready
        → r.ttl_extended ≡ 0
        → Step y (record y { resets = r ∷ y.resets })
    extends :
        (r : Session)
        → In r y.resets
        → Step y (with_table y (Store.update_ttl r.id (extended s r) 1 y.table).1)

  -- What a service that starts with an empty table can reach.
  pub data Reach : System → Type 0 where
    start : Reach (record { table = []; resets = [] })
    later : {y z : System} → Reach y → Step y z → Reach z
