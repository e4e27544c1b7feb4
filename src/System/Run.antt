-- ===== src/System/Run.antt =====
-- The process as a sequence of events: requests, rounds of the worker's two loops, and dead jobs
-- that are queued again. The handlers and the worker run on the same tables as the requests.
use tru_dev_tasks.Prelude.{ℕ, suc, List, [], ◌∷◌, Bool-cases, Option-cases, inl, inr}
use tru_dev_tasks.Api.Envelope.{Web}
use tru_dev_tasks.Api.Routes.{handle}
use tru_dev_tasks.Api.Schemas.{is_declared}
use tru_dev_tasks.Api.Server.{
  Server, HttpRequest, run_route, trace_request, log_request, limit_request, limiter_request,
  limited, serve,
}
use tru_dev_tasks.Exec.{Exec, Result, ok}
use tru_dev_tasks.Jobs.Handlers.{job_handlers}
use tru_dev_tasks.Jobs.Queue.{retry_dead_job}
use tru_dev_tasks.Jobs.Worker.{consume, process, enqueue_due_jobs}
use tru_dev_tasks.Payments.Progress.{AllAdvance-refl}
use tru_dev_tasks.Platform.{Platform, World}
use tru_dev_tasks.Ratelimit.Middleware as Limiter
use tru_dev_tasks.Ratelimit.Store.{RateLimitStore}
use tru_dev_tasks.System.Soundness.{IsSound, IsLater, with_session-IsLater}
use tru_dev_tasks.System.Handlers.{process-IsLater}
use tru_dev_tasks.System.Routes.{handle-KeepsLater}

pub data Event : Type 0 where
  -- an HTTP request
  request : HttpRequest → Event
  -- a round of `_consume_loop` and of `_poll_delayed_jobs_loop`
  work : Event
  poll : Event
  -- `retry_dead_job`
  revive : ℕ → Event

module _ ⦃P : Platform⦄ where
  abbrev pub on_world : {A : Type 0} → Exec World A → Server → Server
  on_world m s = record s { world = (m s.world).1 }

  unfoldable pub perform : RateLimitStore → Web → Event → Server → Server
  perform store web (request r) s = (serve store web r s).1
  perform store web work s = on_world (consume job_handlers) s
  perform store web poll s = on_world enqueue_due_jobs s
  perform store web (revive job_id) s = on_world (retry_dead_job job_id) s

  -- Events one after another.
  unfoldable pub run : RateLimitStore → Web → List Event → Server → Server
  run store web [] s = s
  run store web (e ∷ rest) s = run store web rest (perform store web e s)

  module _ (from : P.payments.State) where
    pub consume-IsLater :
        (w : World) → IsLater from w.committed → IsLater from (consume job_handlers w).1.committed
    unfolding consume
    consume-IsLater w h = by_queue w.dispatch_queue
      where
        by_queue :
            (queue : List ℕ)
            → IsLater from
                (elim queue as (λ _. Result (Unit {0}) × World) [
                  | [] ↦ (ok tt, w)
                  | job_id ∷ rest ↦ process job_handlers job_id (record w { dispatch_queue = rest })
                ]).1.committed
        by_queue [] = h
        by_queue (job_id ∷ rest) =
            process-IsLater from job_id (record w { dispatch_queue = rest }) h

    revive-IsLater :
        (job_id : ℕ) (w : World)
        → IsLater from w.committed
        → IsLater from (retry_dead_job job_id w).1.committed
    unfolding retry_dead_job
    revive-IsLater job_id w h = elim (Option-cases (P.jobs.get w.jobs job_id)) [
      | inl missing ↦ rw missing h
      | inr (job, found) ↦ rw found h
    ]

  module _ (from : P.payments.State) (store : RateLimitStore) (web : Web) where
    traced-IsLater :
        (r : HttpRequest) (s : Server)
        → IsLater from s.world.committed
        → IsLater from (log_request r (trace_request web (run_route web r)) s).1.world.committed
    unfolding log_request trace_request run_route
    traced-IsLater r s h = elim (Bool-cases (is_declared r.call)) [
      | inl declared ↦ rw declared (
          with_session-IsLater from (handle web _ r.call)
            (record s.world { reads = suc s.world.reads }) (handle-KeepsLater from web _ r.call) h)
      | inr undeclared ↦ rw undeclared h
    ]

    pub serve-IsLater :
        (r : HttpRequest) (s : Server)
        → IsLater from s.world.committed
        → IsLater from (serve store web r s).1.world.committed
    unfolding serve limit_request
    serve-IsLater r s h =
        by_answer (Limiter.dispatch store (limiter_request r) s.buckets).0
          (record s { buckets = (Limiter.dispatch store (limiter_request r) s.buckets).1 }) h
      where
        by_answer :
            (answer : Limiter.Response) (s' : Server)
            → IsLater from s'.world.committed
            → IsLater from
                (limited
                  (log_request r (trace_request web (run_route web r)))
                  answer
                  s').1.world.committed
        by_answer Limiter.next s' k = traced-IsLater r s' k
        by_answer Limiter.missing_api_key s' k = k
        by_answer (Limiter.rate_limit_exceeded milliseconds) s' k = k

    perform-IsLater :
        (e : Event) (s : Server)
        → IsLater from s.world.committed
        → IsLater from (perform store web e s).world.committed
    unfolding perform enqueue_due_jobs
    perform-IsLater (request r) s h = serve-IsLater r s h
    perform-IsLater work s h = consume-IsLater from s.world h
    perform-IsLater poll s h = h
    perform-IsLater (revive job_id) s h = revive-IsLater from job_id s.world h

    run-keeps :
        (events : List Event) (s : Server)
        → IsLater from s.world.committed
        → IsLater from (run store web events s).world.committed
    unfolding run
    run-keeps [] s h = h
    run-keeps (e ∷ rest) s h = run-keeps rest (perform store web e s) (perform-IsLater e s h)

  -- From sound tables on, through any sequence of requests, rounds of the worker and of the poller
  -- and dead jobs queued again, whatever fails in it: every payment stays valid, the refunds of
  -- each payment that have not failed stay within its amount, and every payment that was there is
  -- still there, with what was agreed on, its attempts and history only grown, and unchanged if it
  -- was confirmed or failed.
  pub run-IsLater :
      (store : RateLimitStore) (web : Web) (events : List Event) (s : Server)
      → IsSound s.world.committed
      → IsLater s.world.committed.payments (run store web events s).world.committed
  run-IsLater store web events s sound =
      run-keeps s.world.committed.payments store web events s
        (record { sound = sound; advance = AllAdvance-refl s.world.committed.payments })
