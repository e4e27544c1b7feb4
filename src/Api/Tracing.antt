-- ===== src/Api/Tracing.antt =====
-- What a request leaves behind: the id in its response and the line in the log.
use tru_dev_tasks.Prelude.{
  ℕ, ◌≡◌, ◌≢◌, refl, sym, subst, inl, inr, String, Option, none, some, [], ◌∷◌, ◌++◌, str_eq,
  eq_iff, Bool-cases,
}
use tru_dev_tasks.Api.Errors.{Response, on_exception, answer_error, request_id_from, or_else}
use tru_dev_tasks.Api.Envelope.{Web, envelope, Reply}
use tru_dev_tasks.Api.Routes.{handle}
use tru_dev_tasks.Api.Schemas.{
  Call, create_payment, health, metrics, Body, Content, enveloped, error, measured, is_declared,
}
use tru_dev_tasks.Api.Server.{
  Server, HttpRequest, AccessLine, run_route, trace_request, log_request, limit_request,
  limiter_request, settle_reply, with_header, status_or_500, serve,
}
use tru_dev_tasks.Core.Exceptions.{Exception, error_code, status_code}
use tru_dev_tasks.Exec.{Result, ok, err}
use tru_dev_tasks.Exec.Ensures.{OnOk, Ensures, >>=-Ensures}
use tru_dev_tasks.Observability.Metrics.{compute_metrics}
use tru_dev_tasks.Platform.{Platform}
use tru_dev_tasks.Ratelimit.Middleware as Limiter
use tru_dev_tasks.Ratelimit.Store.{RateLimitStore, Buckets}

-- The content names the request by this id, if it names it.
abbrev pub IsNamed : String → Content → Type 0
IsNamed id (enveloped body i now) = i ≡ id
IsNamed id (error code i) = i ≡ id
IsNamed id _ = Unit

abbrev IsNamedReply : String → ℕ × Content → Type 0
IsNamedReply id reply = IsNamed id reply.1

module _ ⦃P : Platform⦄ where
  envelope-IsNamed :
      (id : String) (status : ℕ) (body : Body)
      → Ensures (IsNamedReply id) (envelope (some id) status body)
  unfolding envelope
  envelope-IsNamed id status body w = refl

  handle-IsNamed :
      (web : Web) (id : String) (call : Call)
      → Ensures (IsNamedReply id) (handle web (some id) call)
  unfolding handle
  handle-IsNamed web id health = λ w. tt
  handle-IsNamed web id metrics =
      >>=-Ensures (IsNamedReply id) compute_metrics (λ m w. (ok (200, measured m), w)) (λ m w. tt)
  handle-IsNamed web id (create_payment payload key) =
      >>=-Ensures (IsNamedReply id) _ _ (λ a. envelope-IsNamed id _ _)
  handle-IsNamed web id call = >>=-Ensures (IsNamedReply id) _ _ (λ a. envelope-IsNamed id _ _)

  module _ (web : Web) (request : HttpRequest) where
    -- The id that `RequestTracingMiddleware` gives a request that finds the server in this state.
    abbrev pub given_id : Server → String
    given_id s = web.str_uuid (P.uuid s.world.reads)

    -- What is said of an answer that bears an id.
    abbrev pub Bears : String → Response → Type 0
    Bears id response = (response.request_id ≡ some id) × IsNamed id response.content

    or_else-filled : (id other : String) → id ≢ "" → or_else (some id) other ≡ id
    or_else-filled id other filled = elim (Bool-cases (str_eq id "")) [
      | inl empty ↦ absurd (filled ((eq_iff id "").0 empty))
      | inr kept ↦ rw kept refl
    ]

    answer_error-IsNamed :
        (e : Exception) (id : String) (code : Option String) (status : Option ℕ)
        → OnOk (λ (r : Response). IsNamed id r.content) (answer_error e id code status)
    answer_error-IsNamed e id none status = tt
    answer_error-IsNamed e id (some code) none = tt
    answer_error-IsNamed e id (some code) (some status) = refl

    settle_reply-IsNamed :
        (id : String) (r : Result Reply)
        → id ≢ ""
        → OnOk (IsNamedReply id) r
        → OnOk
            (λ (r : Response). IsNamed id r.content)
            (settle_reply (some id) request.request_id r)
    unfolding on_exception request_id_from
    settle_reply-IsNamed id (ok reply) filled named = named
    settle_reply-IsNamed id (err e) filled named =
        let same : or_else (some id) (or_else request.request_id "") ≡ id =
          or_else-filled id _ filled in
        subst
          (λ i.
            OnOk (λ (r : Response). IsNamed id r.content)
              (answer_error e i (error_code e) (status_code e)))
          (sym same) (answer_error-IsNamed e id (error_code e) (status_code e))

    run_route-IsNamed :
        (id : String) (s : Server)
        → id ≢ ""
        → s.context ≡ some id
        → OnOk (λ (r : Response). IsNamed id r.content) (run_route web request (some id) s).0
    unfolding run_route
    run_route-IsNamed id s filled inside = elim (Bool-cases (is_declared request.call)) [
      | inl declared ↦
          rw (declared, inside)
            (settle_reply-IsNamed id _ filled (handle-IsNamed web id request.call _))
      | inr undeclared ↦ rw undeclared tt
    ]

    with_header-Bears :
        (id : String) (r : Result Response)
        → OnOk (λ (r : Response). IsNamed id r.content) r
        → OnOk (Bears id) (with_header id r)
    with_header-Bears id (ok response) named = (refl, named)
    with_header-Bears id (err e) named = tt

    trace_request-Bears :
        (s : Server) → OnOk (Bears (given_id s)) (trace_request web (run_route web request) s).0
    unfolding trace_request
    trace_request-Bears s =
        with_header-Bears (given_id s) _
          (run_route-IsNamed (given_id s) _ (web.str_uuid_filled _) refl)

    -- The line that is logged of a request that ends like this.
    abbrev pub line_of : Result Response → Server → AccessLine
    line_of r s = record {
      method = request.method;
      path = request.path;
      status_code = status_or_500 r;
      request_id = s.context;
    }

    -- A request that is let through: its response, if there is one, bears the id that it was
    -- given; one line is logged; and the context is what it was.
    pub record IsTraced (s : Server) (r : Result Response × Server) : Type 0 where
      pub bears : OnOk (Bears (given_id s)) r.0
      pub logged : r.1.access_log ≡ s.access_log ++ line_of r.0 s ∷ []
      pub context : r.1.context ≡ s.context

    trace_request-access_log :
        (s : Server) → (trace_request web (run_route web request) s).1.access_log ≡ s.access_log
    unfolding trace_request run_route
    trace_request-access_log s = elim (Bool-cases (is_declared request.call)) [
      | inl declared ↦ rw declared refl
      | inr undeclared ↦ rw undeclared refl
    ]

    trace_request-context :
        (s : Server) → (trace_request web (run_route web request) s).1.context ≡ s.context
    unfolding trace_request
    trace_request-context s = refl

    log_request-IsTraced :
        (s : Server) (buckets : Buckets)
        → IsTraced s (
            log_request request
              (trace_request web (run_route web request))
              (record s { buckets = buckets }))
    unfolding log_request trace_request
    log_request-IsTraced s buckets = record {
      bears = trace_request-Bears (record s { buckets = buckets });
      logged = rw (trace_request-access_log (record s { buckets = buckets })) refl;
      context = trace_request-context (record s { buckets = buckets });
    }

  -- A request that the limiter lets through, whatever its route and outcome: a response, also that
  -- to an exception of the program, has in `X-Request-ID` the id that the request was given, and
  -- names it in its content, if it names one; one line is logged, with the status of the response
  -- or 500 for another exception, and with the request id of the context outside the request; and
  -- that context is restored.
  pub serve-IsTraced :
      (store : RateLimitStore) (web : Web) (request : HttpRequest) (s : Server)
      → (Limiter.dispatch store (limiter_request request) s.buckets).0 ≡ Limiter.next
      → IsTraced web request s (serve store web request s)
  unfolding serve limit_request
  serve-IsTraced store web request s lets = rw lets (
      log_request-IsTraced web request s
        (Limiter.dispatch store (limiter_request request) s.buckets).1)
