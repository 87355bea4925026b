-- ===== src/Api/Discreet.antt =====
-- What a failed create tells the client.
use sansbox_sql.Base.{String, true, false, some, List, ◌≡◌, refl, sym, ap, ◌∙◌, ℕ}
use sansbox_sql.Errors.{
  Category, Exc, ok, err, mysql_ops_error, dump, create_session_error, other_error, is_exception,
  interrupt,
}
use sansbox_sql.Exec.{Exec, except_base, ◌>>=◌}
use sansbox_sql.Docker.Compose.{succeeded}
use sansbox_sql.Models.Request.{CreateSessionRequest}
use sansbox_sql.Service.{World}
use sansbox_sql.Service.Calls.{Created, CreateCallables}
use sansbox_sql.Service.Create.{create, reported}
use sansbox_sql.Service.Failure.{classify_failure}
use sansbox_sql.Process.{Machine}
use sansbox_sql.Mysql.Clone.{CloneDb, Ended, clone_text, conclude_clone}
use sansbox_sql.Mysql.Clone.Kinds.{conclude_clone-dump}
use sansbox_sql.Api.{
  Problem, Response, problem, category_to_http, public_message, category_text, on_create_error,
  create_body,
}

-- The exception without its text
unfoldable pub without_text : Exc → Exc
without_text (create_session_error category sid message) = create_session_error category sid ""
without_text (interrupt m) = interrupt m
without_text e = other_error ""

module _ {E : Type 0} (c : CreateCallables E) where
  on_create_error-text : (e : Exc) → on_create_error c e ≡ on_create_error c (without_text e)
  unfolding on_create_error without_text is_exception
  on_create_error-text (create_session_error category sid message) = refl
  on_create_error-text (interrupt m) = refl
  on_create_error-text _ = refl

  problem_of :
      (e : Exc) (w : World E)
      → is_exception e ≡ true
      → (status : ℕ) × (p : Problem) × (on_create_error c e w ≡ (ok (problem status p), w))
  unfolding on_create_error is_exception
  problem_of (create_session_error category sid message) w h = (_, _, refl)
  problem_of (interrupt m) w h = absurd cc
  problem_of _ w h = (_, _, refl)

  handled :
      (req : CreateSessionRequest) (w w' : World E) (e : Exc)
      → create c req.ticket req.dbs w ≡ (err e, w')
      → create_body c req w ≡ on_create_error c e w'
  unfolding create_body except_base ◌>>=◌
  handled req w w' e h = rw h refl

  -- Where `create` raises any exception but an interrupt, `create_instance` answers with a JSON
  -- body, and the status and the body are those of the same exception without its text: nothing of
  -- the text reaches the client.
  pub create_body-Discreet :
      (req : CreateSessionRequest) (w w' : World E) (e : Exc)
      → create c req.ticket req.dbs w ≡ (err e, w')
      → is_exception e ≡ true
      → (status : ℕ) × (p : Problem) × (create_body c req w ≡ (ok (problem status p), w'))
        × (on_create_error c (without_text e) w' ≡ (ok (problem status p), w'))
  create_body-Discreet req w w' e h x =
      let (status, p, answer) = problem_of e w' x in
      (
        status,
        p,
        handled req w w' e h ∙ answer,
        sym (ap (λ (f : Exec (World E) (Response Created)). f w') (on_create_error-text e))
            ∙ answer,
      )

  answered :
      (category : Category) (sid message : String) (w : World E)
      → on_create_error c (create_session_error category sid message) w ≡ (
        ok (
            problem (category_to_http category) (record {
              detail = public_message category;
              category = category_text category;
              session_id = some sid;
              hint = some "see server logs for the full error";
            })),
        w,
      )
  unfolding on_create_error
  answered category sid message w = refl

  reported_lem :
      (sid m : String)
      → reported c sid (mysql_ops_error m)
        ≡ create_session_error
            (classify_failure (mysql_ops_error m)).0
            sid
            (classify_failure (mysql_ops_error m)).1
  unfolding reported
  reported_lem sid m = refl

  -- Where the `mysqldump` of a clone ended with another status than 0, the exception that `create`
  -- makes of the clone's error is answered with 502 and "prod dump failed", whatever the two
  -- processes wrote and whatever became of the restore process.
  pub dump_failure-Answered :
      {W : Type 0} (m : Machine W) (clone : CloneDb) (e : Ended) (stderr : List ℕ) (v : W)
      (sid : String) (w : World E)
      → succeeded e.dump_rc ≡ false
      → (message : String) × (conclude_clone m clone e stderr v
          ≡ (err (mysql_ops_error message), v))
        × (on_create_error c (reported c sid (mysql_ops_error message)) w ≡ (
          ok (
              problem 502 (record {
                detail = "prod dump failed";
                category = "dump";
                session_id = some sid;
                hint = some "see server logs for the full error";
              })),
          w,
        ))
  unfolding category_to_http public_message category_text
  dump_failure-Answered m clone e stderr v sid w h =
      let (raised, kind) = conclude_clone-dump m clone e stderr v h in
      (
        clone_text m clone e stderr,
        raised,
        rw (reported_lem sid (clone_text m clone e stderr), kind) (answered dump sid _ w),
      )
