-- ===== src/Example/Observability.antt =====
-- The metrics of a database with one payment, and a line of the log.
use tru_dev_tasks.Prelude.{◌≡◌, refl, none, some, ◌||◌, [], ◌∷◌, if◌then◌else◌}
use tru_dev_tasks.Example.Payments.{with_payment, with_payment-AllValid}
use tru_dev_tasks.Example.Server.{server}
use tru_dev_tasks.Observability.Logging.{
  text, object, is_among, own_keys, reserved_keys, starts_underscored, own_value, last_of, format,
  format-get,
}
use tru_dev_tasks.Observability.Metrics.{
  Metrics, HasRates, percentage, rate_pct, compute_metrics, compute_metrics-rates,
}
use tru_dev_tasks.Payments.Service.{new_payment}
use tru_dev_tasks.Platform.{Platform}
use tru_dev_tasks.Prelude.Dict.{get}

instance abbrev calm : Platform
calm = server (λ n. 0)

abbrev measures : Metrics
measures = record {
  total_payments = 1;
  successful_payments = 0;
  failed_payments = 0;
  success_rate_pct = percentage 0 1;
  failure_rate_pct = percentage 0 1;
  avg_processing_time = record { confirmed = 0; created = 0; count = 0 };
  active_jobs = 0;
  dead_jobs = 0;
}

compute_metrics-rates_example : HasRates measures
unfolding compute_metrics rate_pct new_payment
compute_metrics-rates_example =
    compute_metrics-rates with_payment measures with_payment-AllValid refl

format-get_example :
    get "request_id"
      (format "now" "INFO" none "done" (("request_id", text "r") ∷ ("path", object "/") ∷ []))
    ≡ (if is_among "request_id" own_keys
        then some (own_value "request_id" "now" "INFO" none "done")
        else if is_among "request_id" reserved_keys || starts_underscored "request_id"
        then none
        else last_of "request_id" (("request_id", text "r") ∷ ("path", object "/") ∷ []) none)
format-get_example =
    format-get "request_id" "now" "INFO" none "done"
      (("request_id", text "r") ∷ ("path", object "/") ∷ [])
