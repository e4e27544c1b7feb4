-- ===== src/Example/System.antt =====
-- The process on a database with one payment: a confirmation, a round of the worker, one of the
-- poller and an attempt to queue a job that is not there.
use tru_dev_tasks.Prelude.{none, some, List, [], ◌∷◌, arith}
use tru_dev_tasks.Api.Schemas.{confirm_payment}
use tru_dev_tasks.Api.Server.{Server, HttpRequest}
use tru_dev_tasks.Example.Api.{web, store}
use tru_dev_tasks.Example.Payments.{with_payment, with_payment-AllValid}
use tru_dev_tasks.Example.Server.{server}
use tru_dev_tasks.Platform.{Platform}
use tru_dev_tasks.Refunds.Conservation.{IsWithin}
use tru_dev_tasks.Refunds.Service.{refunded}
use tru_dev_tasks.System.Soundness.{IsSound, IsLater}
use tru_dev_tasks.System.Run.{Event, request, work, poll, revive, run, run-IsLater}
use tru_dev_tasks.System.Refinement.{Follows, seen, run-Follows}

instance abbrev calm : Platform
calm = server (λ n. 0)

abbrev pub idle : Server
idle = record {
  world = record with_payment { committed = with_payment.working };
  buckets = [];
  context = none;
  access_log = [];
}

abbrev pub ask : HttpRequest
ask = record {
  call = confirm_payment 1 none;
  method = "POST";
  path = "/v1/payments/1/confirm";
  api_key = some "k";
  request_id = none;
  time = 0;
}

abbrev events : List Event
events = request ask ∷ work ∷ poll ∷ revive 7 ∷ []

idle-IsWithin : IsWithin idle.world.committed
unfolding refunded
idle-IsWithin i = omega arith

pub idle-IsSound : IsSound idle.world.committed
idle-IsSound = record { valid = with_payment-AllValid; within = idle-IsWithin }

run-IsLater_example :
    IsLater idle.world.committed.payments (run store web events idle).world.committed
run-IsLater_example = run-IsLater store web events idle idle-IsSound

run-Follows_example :
    Follows
      (seen (calm.payments.get idle.world.committed.payments 1))
      (seen (calm.payments.get (run store web events idle).world.committed.payments 1))
run-Follows_example = run-Follows store web events idle idle-IsSound 1
