-- ===== src/Main/Soundness.antt =====
-- What holds of the committed tables from the start of the application to its end.
use tru_dev_tasks.Prelude.{◌≡◌, List, [], ◌∷◌}
use tru_dev_tasks.Api.Envelope.{Web}
use tru_dev_tasks.Api.Server.{Server, HttpRequest, serve as serve_request}
use tru_dev_tasks.Exec.{Exec}
use tru_dev_tasks.Jobs.Handlers.{job_handlers}
use tru_dev_tasks.Jobs.Tasks.{JobWorker, TaskEvent, elsewhere, run_worker}
use tru_dev_tasks.Main.{App}
use tru_dev_tasks.Platform.{Platform, World}
use tru_dev_tasks.Ratelimit.Store.{RateLimitStore}
use tru_dev_tasks.System.Run.{serve-IsLater}
use tru_dev_tasks.System.Soundness.{IsLater}

module _ ⦃P : Platform⦄ where
  -- A change of the world after which the tables are sound if they were, with the payments `from`
  -- still there.
  abbrev pub Keeps : P.payments.State → (World → World) → Type 0
  Keeps from f = (w : World) → IsLater from w.committed → IsLater from (f w).committed

  -- What the rest of the process does between the turns of the worker's tasks is such a change.
  abbrev pub AllKeep : P.payments.State → List TaskEvent → Type 0
  AllKeep from [] = Unit {0}
  AllKeep from (elsewhere f ∷ rest) = Keeps from f × AllKeep from rest
  AllKeep from (_ ∷ rest) = AllKeep from rest

  -- A request is one.
  pub request-Keeps :
      (from : P.payments.State) (store : RateLimitStore) (web : Web) (r : HttpRequest) (s : Server)
      → Keeps from (λ w. (serve_request store web r (record s { world = w })).1.world)
  request-Keeps from store web r s w h = serve-IsLater from store web r (record s { world = w }) h

  module _ (from : P.payments.State) where
    abbrev Later : JobWorker → Type 0
    Later s = IsLater from s.world.committed

  -- A part of `lifespan`.
  abbrev PartLater : P.payments.State → Exec App (Unit {0}) → Type 0
  PartLater from m = (a : App) → Later from a.worker → Later from (m a).1.worker

  -- While the application serves, the worker runs the program's handlers, and the rest of the
  -- process makes only changes after which the tables are sound.
  unfoldable pub ServesSoundly : P.payments.State → Exec App (Unit {0}) → Type 0
  ServesSoundly from serve =
      (a : App)
      → (events : List TaskEvent) × ((serve a).1.worker ≡ run_worker job_handlers events a.worker)
        × AllKeep from events
