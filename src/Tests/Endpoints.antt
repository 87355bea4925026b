-- ===== src/Tests/Endpoints.antt =====
-- The theorems on the endpoints at a concrete site.
use sansbox_sql.Base.{
  String, ℕ, suc, true, false, none, some, [], ◌∷◌, length, string_eq, nat_eq, ◌≡◌, ◌⊎◌, refl,
}
use sansbox_sql.Errors.{
  ok, err, mysql_ops_error, other_error, create_session_error, ssh, is_exception,
}
use sansbox_sql.Exec.{Exec, pure, raise, except_exception, ◌>>=◌}
use sansbox_sql.Docker.Compose.{exited}
use sansbox_sql.Store.{get, list_all, with_status}
use sansbox_sql.Service.{World}
use sansbox_sql.Service.Calls.{CreateCallables}
use sansbox_sql.Service.Create.{create, reported}
use sansbox_sql.Session.{Session, nuked}
use sansbox_sql.Models.Request.{CreateSessionRequest}
use sansbox_sql.Process.{Machine}
use sansbox_sql.Mysql.Clone.{conclude_clone}
use sansbox_sql.Api.{
  Response, Problem, success, problem, http_exception, Headers, Site, on_create_error, create_body,
  reset_body, delete_body, ticket_body,
}
use sansbox_sql.Api.Gated.{Entered, TurnedAway, protected-Gated}
use sansbox_sql.Api.Discreet.{without_text, create_body-Discreet, dump_failure-Answered}
use sansbox_sql.Api.Outcomes.{
  Reset, Conflict, reset_body-Answers, delete_body-Answers, NotTheirs, Closed, ticket_body-Answers,
}
use sansbox_sql.Api.Operations.{metrics, metrics_text, by_status, Readiness, readyz}
use sansbox_sql.Api.Metrics.{ready_rows, metrics-Fails}
use sansbox_sql.Tests.Calls.{start, callables, create_callables}
use sansbox_sql.Tests.Sessions.{nuke_calm}
use sansbox_sql.Tests.Access.{plain, plain-Sound, live_settings}
use sansbox_sql.Tests.Commands.{machine, clone, broken_pipe, dump_failed, at_start}

abbrev site : Site ℕ
site = record {
  crypto = plain;
  settings = live_settings;
  monotonic = λ w. w.env;
  cache = λ w. record { client = none; url = none; fetched_at = 0 };
  keep = λ cache w. w;
}

abbrev headers : Headers
headers = record { cf_jwt = none; api_key = some "key"; signature = none }

abbrev seven : Exec (World ℕ) (Response ℕ)
seven = pure (success 200 7)

protected-Gated_example : Entered site headers seven start ⊎ TurnedAway site headers seven start
protected-Gated_example = protected-Gated site headers plain-Sound refl seven start

-- The random source of the session id fails.
abbrev no_ids : CreateCallables ℕ
no_ids = record create_callables { uuid4 = raise (create_session_error ssh "s" "10.0.0.1 refused") }

abbrev request : CreateSessionRequest
request = record { ticket = "T-1"; dbs = [] }

refused_ids :
    create no_ids request.ticket request.dbs start
    ≡ (err (create_session_error ssh "s" "10.0.0.1 refused"), start)
unfolding create ◌>>=◌
refused_ids = refl

create_body-Discreet_example :
    (status : ℕ) × (p : Problem) × (create_body no_ids request start
      ≡ (ok (problem status p), start))
    × (on_create_error no_ids (without_text (create_session_error ssh "s" "10.0.0.1 refused")) start
        ≡ (ok (problem status p), start))
unfolding is_exception
create_body-Discreet_example =
    create_body-Discreet no_ids request start start
      (create_session_error ssh "s" "10.0.0.1 refused") refused_ids refl

dump_failure-Answered_example :
    (message : String) × (conclude_clone (machine false) clone broken_pipe [] at_start
      ≡ (err (mysql_ops_error message), at_start))
    × (on_create_error create_callables
          (reported create_callables "new" (mysql_ops_error message))
          start
        ≡ (
          ok (
              problem 502 (record {
                detail = "prod dump failed";
                category = "dump";
                session_id = some "new";
                hint = some "see server logs for the full error";
              })),
          start,
        ))
dump_failure-Answered_example =
    dump_failure-Answered create_callables (machine false) clone broken_pipe [] at_start "new" start
      dump_failed

reset_body-Answers_example :
    ((get "fresh" start.table ≡ none)
      × (reset_body callables "fresh" start ≡ (ok (http_exception 404 "session not found"), start)))
    ⊎ ((r : Session) × (Reset callables "fresh" start 1050 r
          ⊎ Conflict callables "fresh" start 1050 r))
reset_body-Answers_example = reset_body-Answers callables "fresh" start 1050 refl

delete_body-Answers_example :
    ((get "open" start.table ≡ none)
      × (delete_body callables "open" start ≡ (ok (http_exception 404 "session not found"), start)))
    ⊎ ((r : Session) × (get "open" start.table ≡ some r)
        × ((delete_body callables "open" start).0
            ≡ ok (success 200 (record { session_id = "open" })))
        × (get "open" (delete_body callables "open" start).1.table ≡ some (with_status nuked r)))
delete_body-Answers_example = delete_body-Answers callables nuke_calm "open" start

ticket_body-Answers_example :
    (NotTheirs callables "T-1" "old" start
      × (ticket_body callables "T-1" "old" start
          ≡ (ok (http_exception 404 "session not found or does not belong to that ticket"), start)))
    ⊎ ((r : Session) × Closed callables "T-1" "old" start r)
ticket_body-Answers_example = ticket_body-Answers callables nuke_calm "T-1" "old" start

metrics-Fails_example :
    ((ready_rows start.table ≡ 0)
      × (metrics start ≡ (
        ok (metrics_text (length (list_all start.table)) (by_status [] (list_all start.table)) 0),
        start,
      )))
    ⊎ ((n : ℕ) × (ready_rows start.table ≡ suc n)
        × (m : String) × (metrics start ≡ (err (other_error m), start)))
metrics-Fails_example = metrics-Fails start

abbrev api_host : Machine (World ℕ)
api_host = record {
  which = λ name w. (ok (some name), w);
  getenv = λ name w. none;
  run = λ c w. (ok (record { returncode = exited 0; stdout = []; stderr = [] }), w);
  popen = λ p w. (ok 1, w);
  communicate = λ p t w. (ok none, w);
  wait = λ p t w. (ok none, w);
  kill = λ p w. w;
  close_stdout = λ p w. w;
  read_stderr = λ p w. (ok [], w);
  decode = λ bytes. "";
  encode = λ text. ok [];
  monotonic = λ w. w.env;
  sleep = λ n w. w;
}

abbrev answered : Readiness
answered = record {
  status_code = 200;
  status = "ok";
  checks =
      record { name = "sqlite"; passed = true; text = "" }
      ∷ record { name = "docker"; passed = true; text = "27" }
      ∷ record { name = "bin_mysqldump"; passed = true; text = "" }
      ∷ record { name = "bin_mysql"; passed = true; text = "" }
      ∷ record { name = "bin_mysqladmin"; passed = true; text = "" }
      ∷ [];
}

all_there : readyz api_host (λ bytes. ok "27") start ≡ (ok answered, start)
unfolding readyz ◌>>=◌ except_exception
all_there = refl
