-- ===== src/Service/Create/Won.antt =====
-- What a create that returns has left in the store.
use sansbox_sql.Base.{
  String, ℕ, ◌+◌, Bool, true, false, ◌&&◌, some, List, string_eq, ◌≡◌, refl, sym, ◌∙◌, ap, subst,
  arith, eq_iff, Distinct,
}
use sansbox_sql.Errors.{Exc, ok}
use sansbox_sql.Exec.{best_effort, ◌>>=◌}
use sansbox_sql.Exec.Returns.{Returns, Returns-bind, Returns-raise, Returns-except_base, ok_inj}
use sansbox_sql.Docker.{SessionPaths}
use sansbox_sql.Models.{DbSpec}
use sansbox_sql.Session.{Session, ready, is_starting}
use sansbox_sql.Sql.Laws.{map-update}
use sansbox_sql.Store.{Table, get, ids, has_id, update_to_ready, made_ready}
use sansbox_sql.Store.Reads.{update_to_ready-won, get-update_to_ready}
use sansbox_sql.Service.{World, DatabaseInfo}
use sansbox_sql.Service.Calls.{CreateCallables, Created}
use sansbox_sql.Service.Steps.{Run, Accounts}
use sansbox_sql.Service.Create.{
  created, settle, provision, run_of, won_or_torn_down, publish, do_create, create, on_failure,
}

-- The row of the response's id is ready, until the times that the response tells.
pub record Live (made : Created) (t : Table) : Type 0 where
  pub row : Session
  pub found : get made.session_id t ≡ some row
  pub is_ready_now : row.status ≡ ready
  pub until : row.expires_at ≡ made.expires_at
  pub at_most : row.max_extended_until ≡ made.max_extended_until

module _ {E : Type 0} (c : CreateCallables E) where
  published_row :
      (sid : String) (blob : List ℕ) (expires max : ℕ) (t : Table)
      → Distinct (ids t)
      → (update_to_ready sid blob expires max t).0 ≡ true
      → (r : Session) × (get sid (update_to_ready sid blob expires max t).1
          ≡ some (made_ready blob expires max r))
  unfolding is_starting
  published_row sid blob expires max t d won =
      let (r, here, st) = (update_to_ready-won sid blob expires max t d).0 won in
      (
        r,
        get-update_to_ready sid sid blob expires max t
            ∙ rw (here, st) (ground (arith, eq_iff sid sid)),
      )

  ids-update_to_ready :
      (sid : String) (blob : List ℕ) (expires max : ℕ) (t : Table)
      → ids (update_to_ready sid blob expires max t).1 ≡ ids t
  unfolding update_to_ready
  ids-update_to_ready sid blob expires max t =
      map-update (λ x. x.id) (λ r. has_id sid r && is_starting r.status)
        (made_ready blob expires max) (λ r. refl) t

  LiveThen : Created → World E → Type 0
  LiveThen made w = Distinct (ids w.table) → Live made w.table

  settled_row :
      (r : Run) (created_at : ℕ) (db_creds : List DatabaseInfo) (blob : List ℕ) (t u : Table)
      → update_to_ready r.sid blob
          (created c r created_at db_creds).expires_at
          (created c r created_at db_creds).max_extended_until
          t
        ≡ (true, u)
      → Distinct (ids u)
      → Live (created c r created_at db_creds) u
  unfolding created
  settled_row r created_at db_creds blob t u h d =
      let made = created c r created_at db_creds in
      let tables : (update_to_ready r.sid blob made.expires_at made.max_extended_until t).1 ≡ u =
        ap (λ o. o.1) h in
      let unique : Distinct (ids t) =
        subst Distinct
          (ap ids (sym tables)
            ∙ ids-update_to_ready r.sid blob made.expires_at made.max_extended_until t)
          d in
      let (row, found) =
        published_row r.sid blob made.expires_at made.max_extended_until t unique
          (ap (λ o. o.0) h) in
      record {
        row = made_ready blob made.expires_at made.max_extended_until row;
        found =
            subst
              (λ v.
                get r.sid v ≡ some (made_ready blob made.expires_at made.max_extended_until row))
              tables found;
        is_ready_now = refl;
        until = refl;
        at_most = refl;
      }

  settle-Live :
      (r : Run) (created_at : ℕ) (db_creds : List DatabaseInfo) (blob : List ℕ)
      → Returns LiveThen (settle c r created_at db_creds blob)
  unfolding settle ◌>>=◌ won_or_torn_down LiveThen created
  settle-Live r created_at db_creds blob = record { gives = λ w made w' h. go w made w' _ _ refl h }
    where
      go :
          (w : World E) (made : Created) (w' : World E) (won : Bool) (u : Table)
          → update_to_ready r.sid blob
              (created_at + c.settings.sandbox_ttl_default_seconds)
              (created_at + c.settings.sandbox_ttl_max_seconds)
              w.table
            ≡ (won, u)
          → won_or_torn_down c r created_at db_creds won (record w { table = u }) ≡ (ok made, w')
          → LiveThen made w'
      go w made w' true u e h =
          subst {A = Created × World E} (λ p. LiveThen p.0 p.1)
            (λ i. (ok_inj (ap (λ p. p.0) h) i, (h i).1))
            (settled_row r created_at db_creds blob w.table u e)
      go w made w' false u e h =
          (Returns-bind {P = LiveThen}
              (best_effort (c.down_session r.paths.compose_path (some true))) _
              (λ _. Returns-raise)).gives
            (record w { table = u }) made w' h

  publish-Live :
      (r : Run) (dbs : List DbSpec) (created_at : ℕ) (accounts : Accounts)
      → Returns LiveThen (provision c r dbs created_at accounts)
  unfolding provision publish
  publish-Live r dbs created_at accounts = Returns-bind _ _ (λ _. Returns-bind _ _ (λ _.
      Returns-bind _ _
        (λ _. Returns-bind _ _ (λ blob. settle-Live r created_at accounts.db_creds blob))))

  do_create-Live :
      (sid : String) (dbs : List DbSpec) (paths : SessionPaths) (host_port : ℕ)
      (container_name : String) (created_at : ℕ)
      → Returns LiveThen (do_create c sid dbs paths host_port container_name created_at)
  unfolding do_create
  do_create-Live sid dbs paths host_port container_name created_at = Returns-bind _ _ (λ accounts.
      Returns-bind _ _ (λ root.
        publish-Live (run_of c sid paths host_port container_name root) dbs created_at accounts))

  on_failure-Live :
      (sid : String) (paths : SessionPaths) (e : Exc) → Returns LiveThen (on_failure c sid paths e)
  unfolding on_failure
  on_failure-Live sid paths e = Returns-bind _ _ (λ _. Returns-bind _ _ (λ _. Returns-raise))

  create-Returns : (ticket : String) (dbs : List DbSpec) → Returns LiveThen (create c ticket dbs)
  unfolding create
  create-Returns ticket dbs = Returns-bind _ _ (λ sid. Returns-bind _ _ (λ now.
      Returns-bind _ _ (λ date_str. Returns-bind _ _ (λ paths. Returns-bind _ _ (λ placeholder.
        Returns-bind _ _ (λ host_port. Returns-bind _ _ (λ container_name.
          Returns-except_base (do_create-Live sid dbs paths host_port container_name now)
            (on_failure-Live sid paths))))))))

  -- If `create` returns and the ids of the table it leaves are unique, then that table has a row with
  -- the response's session id, whose status is `ready` and whose two deadlines are those of the
  -- response, whatever the callables did meanwhile.
  pub create-Live :
      (ticket : String) (dbs : List DbSpec) (w : World E) (made : Created) (w' : World E)
      → create c ticket dbs w ≡ (ok made, w')
      → Distinct (ids w'.table)
      → Live made w'.table
  unfolding LiveThen
  create-Live ticket dbs w made w' h = (create-Returns ticket dbs).gives w made w' h
