-- ===== src/Api.antt =====
-- api/main.py: the endpoints. FastAPI runs the dependencies of an endpoint first, and an
-- `HTTPException` of one is the response; then it validates the parameters, and answers 422 where
-- one is not valid; then it runs the body. An exception that leaves the body is answered with 500.
pub mod Operations
pub mod Metrics
pub mod Readiness
pub mod Gated
pub mod Discreet
pub mod Outcomes
pub mod Wiring
use sansbox_sql.Base.{
  String, ℕ, Bool, Option, none, some, List, length, ltb, leb, if◌then◌else◌, ◌&&◌,
}
use sansbox_sql.Base.Text.{codes}
use sansbox_sql.Errors.{
  Category, validation, ssh, dump, container, restore, grant, port, internal, Exc, Result, ok, err,
  create_session_error, key_error, permission_error, file_not_found, is_exception, exc_text,
}
use sansbox_sql.Exec.{Exec, pure, raise, except_base, ◌>>=◌, ◌>>◌}
use sansbox_sql.Config.{Settings}
use sansbox_sql.Auth.{
  Answer, allowed, refused, crashed, Crypto, AccessIdentity, Cache, enforce_cf_access,
  enforce_api_key, require_webhook_signature,
}
use sansbox_sql.Models.Request.{RawDb, CreateSessionRequest, ticket_ok, create_request}
use sansbox_sql.Service.{World, SessionView, ResetTtl, NukeResult, Callables}
use sansbox_sql.Service
use sansbox_sql.Service.Calls.{CreateCallables, Created}
use sansbox_sql.Service.Create

-- The content of the `JSONResponse` for a failed create
pub record Problem : Type 0 where
  pub detail : String
  pub category : String
  pub session_id : Option String
  pub hint : Option String

-- A response: the endpoint's own, the `JSONResponse` of a failed create, the one of an
-- `HTTPException`, or the one of a request that is not valid.
pub data Response (A : Type 0) : Type 0 where
  success : ℕ → A → Response A
  problem : ℕ → Problem → Response A
  http_exception : ℕ → String → Response A
  unprocessable : Response A

pub record DeleteResponse : Type 0 where
  pub session_id : String

pub record TicketClosedResponse : Type 0 where
  pub ticket : String
  pub session_id : String
  pub status : NukeResult

-- The headers that the dependencies read
pub record Headers : Type 0 where
  pub cf_jwt : Option String
  pub api_key : Option String
  pub signature : Option String

-- What the dependencies use: the settings, and the cache of the signing keys with its clock, in the
-- world
pub record Site (E : Type 0) : Type 1 where
  pub crypto : Crypto
  pub settings : Settings
  pub monotonic : World E → ℕ
  pub cache : World E → Cache crypto
  pub keep : Cache crypto → World E → World E

unfoldable pub category_text : Category → String
category_text validation = "validation"
category_text ssh = "ssh"
category_text dump = "dump"
category_text container = "container"
category_text restore = "restore"
category_text grant = "grant"
category_text port = "port"
category_text internal = "internal"

-- `_CATEGORY_TO_HTTP`
unfoldable pub category_to_http : Category → ℕ
category_to_http validation = 422
category_to_http port = 503
category_to_http ssh = 502
category_to_http dump = 502
category_to_http container = 502
category_to_http restore = 502
category_to_http grant = 502
category_to_http internal = 500

-- `_PUBLIC_MESSAGES.get(category, "internal error")`
unfoldable pub public_message : Category → String
public_message validation = "internal error"
public_message port = "no free sandbox ports; retry later"
public_message ssh = "could not reach the bastion"
public_message dump = "prod dump failed"
public_message container = "container startup failed"
public_message restore = "restore failed"
public_message grant = "applying permissions failed"
public_message internal = "internal error"

-- A dependency's answer: the endpoint goes on, its `HTTPException` is the response, or what it raises
-- leaves the application.
unfoldable pub depends : {W A B : Type 0} → Answer A → Exec W (Response B) → Exec W (Response B)
depends (allowed a) endpoint = endpoint
depends (refused status detail) endpoint = pure (http_exception status detail)
depends (crashed e) endpoint = raise e

-- `PathParam(..., min_length=8)`
unfoldable pub with_session_id : {W B : Type 0} → String → Exec W (Response B) → Exec W (Response B)
with_session_id session_id body =
    if ltb (length (codes session_id)) 8 then pure unprocessable else body

unfoldable pub with_request :
    {W A B : Type 0} → Result A → (A → Exec W (Response B)) → Exec W (Response B)
with_request (err e) body = pure unprocessable
with_request (ok req) body = body req

-- The validation of a `TicketClosedRequest`
unfoldable pub ticket_closed_ok : String → String → Bool
unfolding ticket_ok
ticket_closed_ok ticket session_id = ticket_ok ticket && leb 8 (length (codes session_id))

module _ {E : Type 0} (site : Site E) where
  -- `Depends(auth.enforce_cf_access)`
  unfoldable pub cf_access : Option String → Exec (World E) (Answer (AccessIdentity site.crypto))
  unfolding enforce_cf_access
  cf_access cf_jwt w =
      let (answer, cache') =
        enforce_cf_access site.crypto cf_jwt site.settings (site.monotonic w) (site.cache w) in
      (ok answer, site.keep cache' w)

  -- The dependencies of the endpoints but the webhook
  unfoldable pub protected :
      {A : Type 0} → Headers → Exec (World E) (Response A) → Exec (World E) (Response A)
  unfolding depends
  protected headers endpoint = do
    identity ← cf_access headers.cf_jwt
    depends identity (depends (enforce_api_key site.crypto headers.api_key site.settings) endpoint)

module _ {E : Type 0} (c : CreateCallables E) where
  -- The `except` clauses of `create_instance`
  unfoldable pub on_create_error : Exc → Exec (World E) (Response Created)
  unfolding category_to_http public_message category_text
  on_create_error (create_session_error category sid message) = pure (
      problem (category_to_http category) (record {
        detail = public_message category;
        category = category_text category;
        session_id = some sid;
        hint = some "see server logs for the full error";
      }))
  on_create_error e =
      if is_exception e
      then pure (
          problem 500 (record {
            detail = "internal error";
            category = "internal";
            session_id = none;
            hint = none;
          }))
      else raise e

  unfoldable pub create_body : CreateSessionRequest → Exec (World E) (Response Created)
  unfolding on_create_error
  create_body req =
      except_base (do data' ← Service.Create.create c req.ticket req.dbs; pure (success 201 data'))
        on_create_error

  unfoldable pub create_instance :
      Site E → Headers → String → List RawDb → Exec (World E) (Response Created)
  unfolding create_body with_request
  create_instance site headers ticket raws =
      protected site headers (with_request (create_request ticket raws) create_body)

module _ {E : Type 0} (c : Callables E) where
  found_or_404 : Option SessionView → Exec (World E) (Response SessionView)
  found_or_404 none = pure (http_exception 404 "session not found")
  found_or_404 (some view) = pure (success 200 view)

  unfoldable pub get_session : Site E → Headers → String → Exec (World E) (Response SessionView)
  unfolding with_session_id found_or_404
  get_session site headers session_id =
      protected site headers
        (with_session_id session_id (do view ← Service.view c session_id; found_or_404 view))

  -- `except KeyError: … except PermissionError as exc: …`
  unfoldable pub on_reset_error : Exc → Exec (World E) (Response ResetTtl)
  on_reset_error (key_error k) = pure (http_exception 404 "session not found")
  on_reset_error (permission_error message) = pure (http_exception 409 message)
  on_reset_error e = raise e

  unfoldable pub reset_body : String → Exec (World E) (Response ResetTtl)
  unfolding on_reset_error
  reset_body session_id =
      except_base (do res ← Service.reset_ttl c session_id; pure (success 200 res)) on_reset_error

  unfoldable pub reset_endpoint : Site E → Headers → String → Exec (World E) (Response ResetTtl)
  unfolding with_session_id reset_body
  reset_endpoint site headers session_id =
      protected site headers (with_session_id session_id (reset_body session_id))

  unfoldable pub on_missing : {A : Type 0} → String → Exc → Exec (World E) (Response A)
  on_missing detail (key_error k) = pure (http_exception 404 detail)
  on_missing detail e = raise e

  unfoldable pub delete_body : String → Exec (World E) (Response DeleteResponse)
  unfolding on_missing
  delete_body session_id =
      except_base
        (do Service.nuke c session_id; pure (success 200 (record { session_id = session_id })))
        (on_missing "session not found")

  unfoldable pub delete_session :
      Site E → Headers → String → Exec (World E) (Response DeleteResponse)
  unfolding with_session_id delete_body
  delete_session site headers session_id =
      protected site headers (with_session_id session_id (delete_body session_id))

  unfoldable pub on_ca_error : Exc → Exec (World E) (Response (List ℕ))
  on_ca_error (key_error k) = pure (http_exception 404 "session not found")
  on_ca_error (file_not_found path) = pure (http_exception 410 "tls material missing")
  on_ca_error e = raise e

  unfoldable pub ca_body : String → Exec (World E) (Response (List ℕ))
  unfolding on_ca_error
  ca_body session_id =
      except_base (do pem ← Service.ca_pem c session_id; pure (success 200 pem)) on_ca_error

  unfoldable pub get_ca : Site E → Headers → String → Exec (World E) (Response (List ℕ))
  unfolding with_session_id ca_body
  get_ca site headers session_id =
      protected site headers (with_session_id session_id (ca_body session_id))

  unfoldable pub ticket_body : String → String → Exec (World E) (Response TicketClosedResponse)
  unfolding on_missing
  ticket_body ticket session_id =
      except_base
        (do
          status ← Service.nuke_by_ticket c ticket session_id
          pure (success 200 (record { ticket = ticket; session_id = session_id; status = status })))
        (on_missing "session not found or does not belong to that ticket")

  -- The signature is of the bytes of the body that the request was read from.
  unfoldable pub ticket_closed :
      (site : Site E)
      → site.crypto.Bytes
      → Headers
      → String
      → String
      → Exec (World E) (Response TicketClosedResponse)
  unfolding ticket_body depends ticket_closed_ok
  ticket_closed site body headers ticket session_id =
      depends (require_webhook_signature site.crypto body headers.signature site.settings) (
        if ticket_closed_ok ticket session_id
        then ticket_body ticket session_id
        else pure unprocessable)
