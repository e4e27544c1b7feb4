-- ===== src/Webhooks/Frame.antt =====
-- What the dispatch of an event leaves alone: the payments and the refunds.
use tru_dev_tasks.Prelude.{◌≡◌, ◌⊎◌, String, List, [], ◌∷◌, select, str_eq, ◌&&◌, arith}
use tru_dev_tasks.Jobs.Models.{Payload}
use tru_dev_tasks.Jobs.Frame.{enqueue_job-SameSessions}
use tru_dev_tasks.Platform.{Platform, World}
use tru_dev_tasks.Webhooks.Models.{WebhookEndpoint}
use tru_dev_tasks.Webhooks.Dispatcher.{dispatch_one, dispatch_each, dispatch}

module _ ⦃P : Platform⦄ where
  pub record SameMoney (w w' : World) : Type 0 where
    pub committed : w'.committed ≡ w.committed
    pub payments : w'.working.payments ≡ w.working.payments
    pub refunds : w'.working.refunds ≡ w.working.refunds

  dispatch_one-SameMoney :
      (event_type : String) (payload : Payload) (endpoint : WebhookEndpoint) (w : World)
      → SameMoney w (dispatch_one event_type payload endpoint w).1
  unfolding dispatch_one
  dispatch_one-SameMoney event_type payload endpoint w = grind (arith, enqueue_job-SameSessions)

  pub dispatch_each-SameMoney :
      (event_type : String) (payload : Payload) (endpoints : List WebhookEndpoint) (w : World)
      → SameMoney w (dispatch_each event_type payload endpoints w).1
  unfolding dispatch_each
  dispatch_each-SameMoney event_type payload [] w = ground arith
  dispatch_each-SameMoney event_type payload (endpoint ∷ rest) w = ground (
    arith,
    dispatch_one-SameMoney event_type payload endpoint w,
    dispatch_each-SameMoney event_type payload rest (dispatch_one event_type payload endpoint w).1,
  )

  -- A dispatch commits what it saw of the payments and the refunds, or nothing.
  pub dispatch-ends :
      (event_type : String) (payload : Payload) (customer_id : String) (w : World)
      → ((dispatch event_type payload customer_id w).1.committed ≡ w.committed)
        ⊎ (((dispatch event_type payload customer_id w).1.committed.payments ≡ w.working.payments)
            × ((dispatch event_type payload customer_id w).1.committed.refunds ≡ w.working.refunds))
  unfolding dispatch
  dispatch-ends event_type payload customer_id w = ground (
    arith,
    dispatch_each-SameMoney event_type payload
        (select (λ e. str_eq e.client_id customer_id && e.is_active)
          (P.webhook_endpoints.rows w.working.webhook_endpoints))
        w,
  )
