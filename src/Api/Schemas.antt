-- ===== src/Api/Schemas.antt =====
-- What the API takes and answers: the schemas of pulsepay/refunds/schemas.py and
-- pulsepay/webhooks/schemas.py, and what the routers declare of their arguments. The columns that
-- only the database fills, `updated_at` and the `created_at` of webhooks, are left out.
use Prim.Native.String.{[] as end_of_text, ◌∷◌ as ◌∷ₜ◌}
use tru_dev_tasks.Prelude.{
  ℕ, suc, String, Bool, true, ◌&&◌, ◌||◌, Option, none, some, List, ltb, leb, str_eq,
}
use tru_dev_tasks.Jobs.Models.{Payload}
use tru_dev_tasks.Observability.Metrics.{Metrics}
use tru_dev_tasks.Payments.Models.{CreatePaymentRequest, PaymentResponse}
use tru_dev_tasks.Refunds.Models.{Refund, RefundStatus}
use tru_dev_tasks.Webhooks.Models.{WebhookEndpoint, WebhookEvent, WebhookStatus}
use tru_dev_tasks.Webhooks.Service.{RegisterWebhookEndpointRequest}

pub record InitiateRefundRequest : Type 0 where
  pub amount : Option ℕ
  pub reason : Option String

pub record RefundResponse : Type 0 where
  pub id : ℕ
  pub payment_id : ℕ
  pub customer_id : String
  pub amount : ℕ
  pub currency : String
  pub status : RefundStatus
  pub reason : Option String
  pub idempotency_key : String
  pub created_at : ℕ

pub record WebhookEndpointResponse : Type 0 where
  pub id : ℕ
  pub client_id : String
  pub url : String
  pub is_active : Bool

pub record WebhookEventResponse : Type 0 where
  pub id : ℕ
  pub endpoint_id : ℕ
  pub event_type : String
  pub payload : Payload
  pub status : WebhookStatus
  pub attempt_count : ℕ
  pub last_attempt_at : Option ℕ
  pub next_retry_at : Option ℕ

-- `RefundResponse.model_validate(refund)`, and so on
unfoldable pub refund_response : Refund → RefundResponse
refund_response r = record {
  id = r.id;
  payment_id = r.payment_id;
  customer_id = r.customer_id;
  amount = r.amount;
  currency = r.currency;
  status = r.status;
  reason = r.reason;
  idempotency_key = r.idempotency_key;
  created_at = r.created_at;
}

unfoldable pub endpoint_response : WebhookEndpoint → WebhookEndpointResponse
endpoint_response e = record {
  id = e.id;
  client_id = e.client_id;
  url = e.url;
  is_active = e.is_active;
}

unfoldable pub event_response : WebhookEvent → WebhookEventResponse
event_response e = record {
  id = e.id;
  endpoint_id = e.endpoint_id;
  event_type = e.event_type;
  payload = e.payload;
  status = e.status;
  attempt_count = e.attempt_count;
  last_attempt_at = e.last_attempt_at;
  next_retry_at = e.next_retry_at;
}

-- A request as FastAPI hands it over, one constructor for each route: the body, the parameters of
-- the path and the query, and the `Idempotency-Key`.
pub data Call : Type 0 where
  create_payment : CreatePaymentRequest → String → Call
  confirm_payment : ℕ → Option String → Call
  get_payment : ℕ → Call
  -- page, limit, customer and status
  list_payments : ℕ → ℕ → Option String → Option String → Call
  initiate_refund : ℕ → InitiateRefundRequest → String → Call
  list_refunds : ℕ → Call
  list_webhook_events : ℕ → ℕ → Option String → Call
  get_webhook_event : ℕ → Call
  register_webhook_endpoint : RegisterWebhookEndpointRequest → Call
  deactivate_webhook_endpoint : ℕ → Call
  health : Call
  metrics : Call

-- The "data" of an answer.
pub data Body : Type 0 where
  payment : PaymentResponse → Body
  -- `PaginatedPaymentsResponse`: items, page, limit and total
  payments : List PaymentResponse → ℕ → ℕ → ℕ → Body
  refund : RefundResponse → Body
  refunds : List RefundResponse → Body
  event : WebhookEventResponse → Body
  events : List WebhookEventResponse → ℕ → ℕ → ℕ → Body
  endpoint : WebhookEndpointResponse → Body

pub data Content : Type 0 where
  -- `_envelope`: data, request id and timestamp
  enveloped : Body → String → ℕ → Content
  -- {"error": ...}: code and request id
  error : String → String → Content
  -- FastAPI's answer to arguments that do not meet what is declared of them
  invalid : Content
  -- the answer of `health`, and of `metrics`
  healthy : String → Content
  measured : Metrics → Content

abbrev pub text_length : String → ℕ
text_length end_of_text = 0
text_length (c ∷ₜ rest) = suc (text_length rest)

-- `min_length` and `max_length`
abbrev pub has_length : ℕ → ℕ → String → Bool
has_length least most value = leb least (text_length value) && leb (text_length value) most

abbrev pub is_absent_or : (String → Bool) → Option String → Bool
is_absent_or test none = true
is_absent_or test (some value) = test value

-- `Query(default=1, ge=1)` and `Query(default=20, ge=1, le=100)`
abbrev pub is_page : ℕ → ℕ → Bool
is_page page limit = leb 1 page && (leb 1 limit && leb limit 100)

abbrev pub is_payment_status : String → Bool
is_payment_status s =
    str_eq s "pending" || (str_eq s "processing" || (str_eq s "success" || str_eq s "failed"))

abbrev pub is_event_status : String → Bool
is_event_status s =
    str_eq s "queued" || (str_eq s "delivered" || (str_eq s "failed" || str_eq s "dead"))

abbrev pub is_positive : Option ℕ → Bool
is_positive none = true
is_positive (some amount) = ltb 0 amount

-- What the schemas and the routers declare of the arguments. That a body parses, and that the URL
-- of an endpoint is one, is pydantic's to say.
unfoldable pub is_declared : Call → Bool
is_declared (create_payment payload key) =
    (has_length 1 128 payload.customer_id && ltb 0 payload.amount.coefficient)
    && (has_length 3 3 payload.currency && has_length 1 255 key)
is_declared (list_payments page limit customer status) =
    is_page page limit && is_absent_or is_payment_status status
is_declared (initiate_refund payment_id payload key) =
    is_positive payload.amount
    && (is_absent_or (has_length 0 512) payload.reason && has_length 1 255 key)
is_declared (list_webhook_events page limit status) =
    is_page page limit && is_absent_or is_event_status status
is_declared (register_webhook_endpoint payload) =
    has_length 1 128 payload.client_id && has_length 1 255 payload.signing_secret
is_declared _ = true
