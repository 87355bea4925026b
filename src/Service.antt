-- ===== src/Service.antt =====
-- api/service.py: `SessionService`. The world is the table of the store and an environment that
-- holds all else; the callables that the service is given act on both, so that other requests and
-- the reaper may change the table while one of them runs.
pub mod Failure
pub mod Json
pub mod Calls
pub mod Steps
pub mod Create
pub mod Require
pub mod Resets
pub mod Nukes
use sansbox_sql.Base.{
  String, ◌<>◌, ℕ, ◌+◌, min, Bool, true, false, not, ◌&&◌, Option, none, some, List, [], ◌∷◌, ◌==◌,
  string_eq, leb, ltb, if◌then◌else◌,
}
use sansbox_sql.Errors.{
  Category, Exc, Result, ok, err, value_error, key_error, permission_error, file_not_found,
}
use sansbox_sql.Exec.{Exec, pure, raise, lift, gets, best_effort, ◌>>=◌, ◌>>◌}
use sansbox_sql.Config.{Settings}
use sansbox_sql.Session.{Session, Status, ready, nuked, is_ready, is_nuked, status_text}
use sansbox_sql.Store
use sansbox_sql.Store.{Table}

pub record World (E : Type 0) : Type 0 where
  pub table : Table
  pub env : E

-- `DatabaseInfo`, and an entry of `creds["dbs"]`
pub record DatabaseInfo : Type 0 where
  pub name : String
  pub user : String
  pub password : String
  pub tables : Option (List String)

-- The dict that is encrypted into `creds_enc`.
pub record Creds : Type 0 where
  pub dbs : List DatabaseInfo
  pub root_password : String

-- The results of `view` and of `reset_ttl`; a time is its number of seconds since the epoch.
pub record SessionView : Type 0 where
  pub session_id : String
  pub ticket : String
  pub status : Status
  pub api_host : String
  pub mysql_host : String
  pub mysql_port : ℕ
  pub expires_at : ℕ
  pub max_extended_until : ℕ
  pub ttl_extended : Bool
  pub ca_url : String
  pub databases : List DatabaseInfo

pub record ResetTtl : Type 0 where
  pub session_id : String
  pub expires_at : ℕ
  pub max_extended_until : ℕ
  pub reset_used : Bool

pub data NukeResult : Type 0 where
  now_nuked already_nuked : NukeResult

-- The callables that these methods use, and the clock. `down_session` takes `remove_volumes` where
-- it is passed; `decrypt` is `decrypt_creds` with the service's key; `read_file` gives none for a
-- file that does not exist.
pub record Callables (E : Type 0) : Type 0 where
  pub settings : Settings
  pub time : Exec (World E) ℕ
  pub down_session : String → Option Bool → Exec (World E) (Unit {0})
  pub decrypt : List ℕ → Result Creds
  pub read_file : String → Exec (World E) (Option (List ℕ))

-- A method of the store that writes, and one that only reads.
abbrev pub store : {E A : Type 0} → (Table → Result A × Table) → Exec (World E) A
store m w = let (r, t) = m w.table in (r, record w { table = t })

abbrev pub stored : {E A : Type 0} → (Table → A × Table) → Exec (World E) A
stored m w = let (a, t) = m w.table in (ok a, record w { table = t })

-- `record = self.store.get(sid)`, and `if record is None: raise KeyError(sid)`
unfoldable pub require : {E : Type 0} → String → Exec (World E) Session
require sid w = elim (Store.get sid w.table) [
  | none ↦ (err (key_error sid), w)
  | some r ↦ (ok r, w)
]

unfoldable pub ca_url : String → String → String
ca_url host sid = "https://" <> (host <> ("/session-tls/" <> (sid <> "/ca.pem")))

-- Python's truth of a number
abbrev pub nonzero : ℕ → Bool
nonzero n = ltb 0 n

unfoldable pub view_of : Session → Creds → SessionView
unfolding ca_url
view_of r creds = record {
  session_id = r.id;
  ticket = r.ticket;
  status = r.status;
  api_host = r.host;
  mysql_host = r.mysql_host;
  mysql_port = r.port;
  expires_at = r.expires_at;
  max_extended_until = r.max_extended_until;
  ttl_extended = nonzero r.ttl_extended;
  ca_url = ca_url r.host r.id;
  databases = creds.dbs;
}

-- `min(max_extended_until, expires_at + settings.sandbox_ttl_reset_add_seconds)`
unfoldable pub extended : Settings → Session → ℕ
extended s r = min r.max_extended_until (r.expires_at + s.sandbox_ttl_reset_add_seconds)

module _ {E : Type 0} (c : Callables E) where
  unfoldable pub view : String → Exec (World E) (Option SessionView)
  view sid w = elim (Store.get sid w.table) [
    | none ↦ (ok none, w)
    | some r ↦ elim (c.decrypt r.creds_enc) [
      | err e ↦ (err e, w)
      | ok creds ↦ (ok (some (view_of r creds)), w)
    ]
  ]

  -- The tests on the row before the clock is read.
  may_reset : Session → Result (Unit {0})
  may_reset r =
      if not (is_ready r.status)
      then err (permission_error ("cannot reset ttl for status=" <> status_text r.status))
      else if nonzero r.ttl_extended
      then err (permission_error "ttl already extended once")
      else ok tt

  before_max : ℕ → Session → Result (Unit {0})
  before_max now r =
      if leb r.max_extended_until now
      then err (permission_error "max ttl already reached")
      else ok tt

  unfoldable pub reset_ttl : String → Exec (World E) ResetTtl
  unfolding require may_reset before_max
  reset_ttl sid = do
    r ← require sid
    lift (may_reset r)
    now ← c.time
    lift (before_max now r)
    stored (Store.update_ttl sid (extended c.settings r) 1)
    pure (record {
      session_id = sid;
      expires_at = extended c.settings r;
      max_extended_until = r.max_extended_until;
      reset_used = true;
    })

  -- A failure to tear down is logged, and the row is marked all the same.
  teardown_and_mark : String → Session → Exec (World E) (Unit {0})
  teardown_and_mark sid r = do
    best_effort (c.down_session r.compose_path none)
    store (Store.set_status sid nuked)

  unfoldable pub nuke : String → Exec (World E) (Unit {0})
  unfolding require teardown_and_mark
  nuke sid = do r ← require sid; teardown_and_mark sid r

  nuke_row : String → String → Session → Exec (World E) NukeResult
  unfolding teardown_and_mark
  nuke_row ticket sid r =
      if not (r.ticket == ticket)
      then raise (key_error sid)
      else if is_nuked r.status
      then pure already_nuked
      else do teardown_and_mark sid r; pure now_nuked

  unfoldable pub nuke_by_ticket : String → String → Exec (World E) NukeResult
  unfolding require nuke_row
  nuke_by_ticket ticket sid = do r ← require sid; nuke_row ticket sid r

  or_missing : String → Option (List ℕ) → Exec (World E) (List ℕ)
  or_missing path none = raise (file_not_found path)
  or_missing path (some bytes) = pure bytes

  unfoldable pub ca_pem : String → Exec (World E) (List ℕ)
  unfolding require or_missing
  ca_pem sid = do
    r ← require sid
    content ← c.read_file (r.tls_dir <> "/ca.pem")
    or_missing (r.tls_dir <> "/ca.pem") content
