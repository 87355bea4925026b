-- ===== src/Service/Create/Failed.antt =====
-- What a create that fails after its reservation raises, and what it leaves in the store.
use mathlib.Core.Option
use sansbox_sql.Base.{
  String, true, some, string_eq, ◌≡◌, ◌≢◌, ◌⊎◌, inl, inr, refl, ◌∙◌, arith, eq_iff,
}
use sansbox_sql.Errors.{
  Exc, ok, err, is_exception, Category, create_session_error, tunnel_error, mysql_ops_error,
  docker_ops_error, value_error, key_error, permission_error, file_not_found, type_error,
  integrity_error, other_error, interrupt,
}
use sansbox_sql.Service.Failure.{classify_failure}
use sansbox_sql.Exec.{except_exception, best_effort, ◌>>=◌, ◌>>◌}
use sansbox_sql.Exec.Effort.{swallowed, swallowed_ok}
use sansbox_sql.Docker.{SessionPaths}
use sansbox_sql.Session.{error, is_valid}
use sansbox_sql.Store
use sansbox_sql.Store.{Table, get, with_status}
use sansbox_sql.Store.Reads.{get-set_status}
use sansbox_sql.Service.{World, store}
use sansbox_sql.Service.Calls.{CreateCallables}
use sansbox_sql.Service.Create.{cleanup_failed_create, reported, on_failure}

module _ {E : Type 0} where
  marked :
      (sid : String) (w : World E)
      → best_effort (store (Store.set_status sid error)) w
        ≡ (ok tt, record w { table = (Store.set_status sid error w.table).1 })
  unfolding best_effort except_exception Store.set_status is_valid
  marked sid w = refl

module _ {E : Type 0} (c : CreateCallables E) where
  -- The cleanup's calls return or fail, and leave the table alone.
  pub record Calm : Type 0 where
    pub down_ends :
        (path : String) (w : World E) (e : Exc)
        → (c.down_session path (some true) w).0 ≡ err e
        → is_exception e ≡ true
    pub down_quiet :
        (path : String) (w : World E) → (c.down_session path (some true) w).1.table ≡ w.table
    pub rmtree_ends : (path : String) (w : World E) → (c.rmtree path w).0 ≡ ok tt
    pub rmtree_quiet : (path : String) (w : World E) → (c.rmtree path w).1.table ≡ w.table

  both :
      (calm : Calm) (paths : SessionPaths) (v : World E)
      → ((c.rmtree paths.session_dir >> c.rmtree paths.tls_dir) v).0 ≡ ok tt
  unfolding ◌>>=◌
  both calm paths v = rw (calm.rmtree_ends paths.session_dir v) (calm.rmtree_ends paths.tls_dir _)

  tidy :
      (calm : Calm) (paths : SessionPaths) (w : World E)
      → (v : World E) × (cleanup_failed_create c paths w ≡ (ok tt, v)) × (v.table ≡ w.table)
  unfolding cleanup_failed_create ◌>>=◌
  tidy calm paths w =
      let v₁ = (c.down_session paths.compose_path (some true) w).1 in
      let v₂ = (c.rmtree paths.session_dir v₁).1 in
      (
        (c.rmtree paths.tls_dir v₂).1,
        rw
            (
              swallowed (c.down_session paths.compose_path (some true)) w
                  (calm.down_ends paths.compose_path w),
              swallowed_ok (c.rmtree paths.session_dir >> c.rmtree paths.tls_dir) v₁
                  (both calm paths v₁),
              calm.rmtree_ends paths.session_dir v₁,
            )
            refl,
        calm.rmtree_quiet paths.tls_dir v₂
            ∙ calm.rmtree_quiet paths.session_dir v₁
            ∙ calm.down_quiet paths.compose_path w,
      )

  -- A `CreateSessionError` is raised again as it is; any other exception becomes one for the session,
  -- with the category and the message of `_classify_failure`.
  pub Told : String → Exc → Exc → Type 0
  Told sid e said =
      ((category : Category) × (sid' : String) × (message : String) × (e
          ≡ create_session_error category sid' message)
        × (said ≡ e))
      ⊎ (((category : Category) (sid' message : String)
            → e ≢ create_session_error category sid' message)
          × (said ≡ create_session_error (classify_failure e).0 sid (classify_failure e).1))

  reported-Told : (sid : String) (e : Exc) → Told sid e (reported c sid e)
  unfolding Told reported
  reported-Told sid (create_session_error category sid' message) =
      inl (category, sid', message, refl, refl)
  reported-Told sid (tunnel_error m) = inr (λ _ _ _ k. cc, refl)
  reported-Told sid (mysql_ops_error m) = inr (λ _ _ _ k. cc, refl)
  reported-Told sid (docker_ops_error m) = inr (λ _ _ _ k. cc, refl)
  reported-Told sid (value_error m) = inr (λ _ _ _ k. cc, refl)
  reported-Told sid (key_error m) = inr (λ _ _ _ k. cc, refl)
  reported-Told sid (permission_error m) = inr (λ _ _ _ k. cc, refl)
  reported-Told sid (file_not_found m) = inr (λ _ _ _ k. cc, refl)
  reported-Told sid (type_error m) = inr (λ _ _ _ k. cc, refl)
  reported-Told sid (integrity_error m) = inr (λ _ _ _ k. cc, refl)
  reported-Told sid (other_error m) = inr (λ _ _ _ k. cc, refl)
  reported-Told sid (interrupt m) = inr (λ _ _ _ k. cc, refl)

  -- Where the cleanup's teardown ends without an interrupt, its removals return, and both leave the
  -- table alone: the handler of a failed `_do_create` raises a `CreateSessionError`, which is the
  -- exception itself if that is one, and else says the session's id with the category and the message
  -- of `_classify_failure`; and the row of the session, if there is one, has the status `error` and is
  -- otherwise unchanged.
  pub on_failure_lem :
      (calm : Calm) (sid : String) (paths : SessionPaths) (e : Exc) (w : World E)
      → (said : Exc) × ((on_failure c sid paths e w).0 ≡ err said)
        × Told sid e said
        × (get sid (on_failure c sid paths e w).1.table
            ≡ Option.map (with_status error) (get sid w.table))
  unfolding on_failure ◌>>=◌ is_valid
  on_failure_lem calm sid paths e w =
      let (v, tidied, same) = tidy calm paths w in
      rw (tidied, marked sid v)
        (
          reported c sid e,
          refl,
          reported-Told sid e,
          get-set_status sid sid error v.table ∙ rw same (ground (arith, eq_iff sid sid)),
        )
