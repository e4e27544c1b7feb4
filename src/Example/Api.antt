-- ===== src/Example/Api.antt =====
-- A request to a server on an empty database, for a payment that is not there.
use tru_dev_tasks.Prelude.{String, refl, none, some, []}
use tru_dev_tasks.Api.Envelope.{Web}
use tru_dev_tasks.Api.Schemas.{get_payment}
use tru_dev_tasks.Api.Server.{Server, HttpRequest, serve}
use tru_dev_tasks.Api.Tracing.{IsTraced, serve-IsTraced}
use tru_dev_tasks.Example.Server.{server, fresh}
use tru_dev_tasks.Platform.{Platform}
use tru_dev_tasks.Ratelimit.Middleware.{dispatch, is_blank}
use tru_dev_tasks.Ratelimit.Store.{RateLimitStore, consume, refill}

instance abbrev calm : Platform
calm = server (λ n. 0)

pub id_filled : Path String "id" "" → ⊥
id_filled e = cc

abbrev pub web : Web
web = record {
  upper = λ s. s;
  str_uuid = λ n. "id";
  str_uuid_filled = λ n. id_filled;
  created_at = λ e. 0;
  environment = "test";
}

abbrev pub store : RateLimitStore
store = record { refill_rate = 60; capacity = 120000000000 }

abbrev idle : Server
idle = record { world = fresh (λ n. 0); buckets = []; context = none; access_log = [] }

abbrev ask : HttpRequest
ask = record {
  call = get_payment 1;
  method = "GET";
  path = "/v1/payments/1";
  api_key = some "k";
  request_id = none;
  time = 0;
}

serve-IsTraced_example : IsTraced web ask idle (serve store web ask idle)
unfolding dispatch is_blank consume refill
serve-IsTraced_example = serve-IsTraced store web ask idle refl
