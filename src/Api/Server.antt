-- ===== src/Api/Server.antt =====
-- A request through the application of pulsepay/main.py: `RateLimitMiddleware`, within it
-- `LoggingMiddleware`, within it `RequestTracingMiddleware` (pulsepay/core/middleware.py,
-- pulsepay/observability/tracing.py), and inside the exception handler and the route. The last
-- middleware that is added is the outermost. What a line of the log says of the duration is left
-- out.
use tru_dev_tasks.Prelude.{ℕ, suc, String, Option, none, some, List, [], ◌∷◌, ◌++◌, if◌then◌else◌}
use tru_dev_tasks.Api.Errors.{Response, respond, request_id_from, on_exception}
use tru_dev_tasks.Api.Envelope.{Web, or_empty, Reply}
use tru_dev_tasks.Api.Routes.{handle}
use tru_dev_tasks.Api.Schemas.{Call, is_declared, invalid, error}
use tru_dev_tasks.Exec.{Exec, Result, ok, err}
use tru_dev_tasks.Platform.{Platform, World, with_session}
use tru_dev_tasks.Ratelimit.Middleware as Limiter
use tru_dev_tasks.Ratelimit.Store.{RateLimitStore, Buckets}

-- A request, routed: its path, its headers, and the time on the limiter's clock.
pub record HttpRequest : Type 0 where
  pub call : Call
  pub method : String
  pub path : String
  pub api_key : Option String
  pub request_id : Option String
  pub time : ℕ

-- The line "request_completed".
pub record AccessLine : Type 0 where
  pub method : String
  pub path : String
  pub status_code : ℕ
  pub request_id : Option String

module _ ⦃P : Platform⦄ where
  -- `context` is `_request_id_ctx_var`.
  pub record Server : Type 0 where
    pub world : World
    pub buckets : Buckets
    pub context : Option String
    pub access_log : List AccessLine

  -- How the handler of exceptions goes on, with the id in `request.state` and the header.
  abbrev pub settle_reply : Option String → Option String → Result Reply → Result Response
  settle_reply state header (ok reply) = ok (respond reply.0 reply.1)
  settle_reply state header (err e) = on_exception e (request_id_from state header)

  -- A route runs in a session of its own, which `get_db` opens and closes.
  abbrev pub in_session : Web → HttpRequest → Option String → Exec Server Response
  in_session web request state s =
      let (r, w) = with_session (handle web s.context request.call) s.world in
      (settle_reply state request.request_id r, record s { world = w })

  -- Inside all middlewares: FastAPI answers 422 to arguments that are not as the routes declare
  -- them, and runs the route otherwise.
  unfoldable pub run_route : Web → HttpRequest → Option String → Exec Server Response
  run_route web request state s =
      if is_declared request.call
      then in_session web request state s
      else (ok (respond 422 invalid), s)

  abbrev pub with_header : String → Result Response → Result Response
  with_header id (ok response) = ok (record response { request_id = some id })
  with_header id (err e) = err e

  abbrev pub set_request_id : String → Server → Server
  set_request_id id s = record s { context = some id }

  -- `with new_request_context() as id: body`
  abbrev pub new_request_context : Web → (String → Exec Server Response) → Exec Server Response
  new_request_context web body s =
      let id = web.str_uuid (P.uuid s.world.reads) in
      let (r, s') =
        body id
          (record s { world = record s.world { reads = suc s.world.reads }; context = some id }) in
      (r, record s' { context = s.context })

  -- `RequestTracingMiddleware.dispatch`; `call_next` also gets the id in `request.state`.
  unfoldable pub trace_request : Web → (Option String → Exec Server Response) → Exec Server Response
  trace_request web call_next =
      new_request_context web
        λ id s. let (r, s') = call_next (some id) (set_request_id id s) in (with_header id r, s')

  abbrev pub status_or_500 : Result Response → ℕ
  status_or_500 (ok response) = response.status
  status_or_500 (err e) = 500

  -- `LoggingMiddleware.dispatch`
  unfoldable pub log_request : HttpRequest → Exec Server Response → Exec Server Response
  log_request request call_next s =
      let (r, s') = call_next s in
      let line : AccessLine = record {
        method = request.method;
        path = request.path;
        status_code = status_or_500 r;
        request_id = s'.context;
      } in
      (r, record s' { access_log = s'.access_log ++ line ∷ [] })

  abbrev pub limited : Exec Server Response → Limiter.Response → Exec Server Response
  limited call_next Limiter.next s = call_next s
  limited call_next Limiter.missing_api_key s =
      (ok (respond 401 (error "MISSING_API_KEY" (or_empty s.context))), s)
  limited call_next (Limiter.rate_limit_exceeded milliseconds) s = (
    ok (record {
      status = 429;
      content = error "RATE_LIMIT_EXCEEDED" (or_empty s.context);
      request_id = none;
      retry_after = some milliseconds;
    }),
    s,
  )

  abbrev pub limiter_request : HttpRequest → Limiter.Request
  limiter_request request = record {
    path = request.path;
    api_key = request.api_key;
    time = request.time;
  }

  -- `RateLimitMiddleware.dispatch`, with its answers
  unfoldable pub limit_request :
      RateLimitStore → HttpRequest → Exec Server Response → Exec Server Response
  limit_request store request call_next s =
      let (answer, buckets) = Limiter.dispatch store (limiter_request request) s.buckets in
      limited call_next answer (record s { buckets = buckets })

  -- The application.
  unfoldable pub serve : RateLimitStore → Web → HttpRequest → Exec Server Response
  serve store web request =
      limit_request store request (log_request request (trace_request web (run_route web request)))
