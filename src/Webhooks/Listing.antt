-- ===== src/Webhooks/Listing.antt =====
-- pulsepay/webhooks/service.py: `list_events`. The database fills the column that orders the list:
-- it is an argument.
use tru_dev_tasks.Prelude.{
  ℕ, ◌*◌, ◌-◌, String, Bool, true, Option, none, some, List, length, select, min, str_eq,
}
use tru_dev_tasks.Database.Listing.{slice, order_desc}
use tru_dev_tasks.Exec.{Exec, pure, gets, ◌>>=◌}
use tru_dev_tasks.Platform.{Platform, World}
use tru_dev_tasks.Webhooks.Models.{WebhookEvent, WebhookStatus, queued, delivered, failed, dead}

-- The text of a status.
abbrev pub event_status_text : WebhookStatus → String
event_status_text queued = "queued"
event_status_text delivered = "delivered"
event_status_text failed = "failed"
event_status_text dead = "dead"

abbrev pub is_wanted : Option String → WebhookEvent → Bool
is_wanted none e = true
is_wanted (some status) e = str_eq (event_status_text e.status) status

module _ ⦃P : Platform⦄ (created_at : WebhookEvent → ℕ) where
  unfoldable pub list_events : ℕ → ℕ → Option String → Exec World (List WebhookEvent × ℕ)
  list_events page limit status = do
    rows ← gets (λ w. select (is_wanted status) (P.webhook_events.rows w.working.webhook_events))
    let effective_limit = min limit 100
    let offset = (page - 1) * effective_limit
    pure (slice offset effective_limit (order_desc created_at rows), length rows)
