-- ===== src/Observability/Metrics.antt =====
-- pulsepay/observability/metrics.py: `MetricsService.compute_metrics`. A percentage and an average
-- are kept as their operands: the floats that the program divides them into are left out.
use mathlib.Core.List.{Memᴰ}
use tru_dev_tasks.Prelude.{
  ℕ, suc, ◌+◌, ◌≤◌, ◌≡◌, ◌≢◌, refl, ap, subst, ◌∙◌, Bool, true, false, ◌&&◌, Option, none, some,
  List, [], ◌∷◌, length, select, sum_of, ltb, ltb→lt, if◌then◌else◌, arith, Bool-cases, inl, inr,
}
use tru_dev_tasks.Exec.{Exec, ok, pure, gets, ◌>>=◌, ok_injective}
use tru_dev_tasks.Jobs.Models.{JobStatus, queued, running}
use tru_dev_tasks.Jobs.Listing.{is_dead}
use tru_dev_tasks.Payments.Models.{Payment, PaymentStatus}
use tru_dev_tasks.Payments.Lifecycle.{IsValid, AllValid}
use tru_dev_tasks.Platform.{Platform, World}
use tru_dev_tasks.Refunds.Service.{is_success}

abbrev pub is_failed_payment : PaymentStatus → Bool
is_failed_payment PaymentStatus.failed = true
is_failed_payment _ = false

-- `Job.status.in_([JOB_STATUS_QUEUED, JOB_STATUS_RUNNING])`
abbrev pub is_active_job : JobStatus → Bool
is_active_job queued = true
is_active_job running = true
is_active_job _ = false

abbrev pub is_some : Option ℕ → Bool
is_some none = false
is_some (some t) = true

-- The filter of the average, and the two columns whose difference it averages.
abbrev pub is_timed : Payment → Bool
is_timed p = is_success p.status && is_some p.confirmed_at

abbrev pub time_or_zero : Option ℕ → ℕ
time_or_zero none = 0
time_or_zero (some t) = t

pub data Rate : Type 0 where
  -- 0.0
  none_paid : Rate
  -- float(n) / float(total) * 100.0
  percentage : ℕ → ℕ → Rate

-- `(float(n) / float(total) * 100.0) if total > 0 else 0.0`
unfoldable pub rate_pct : ℕ → ℕ → Rate
rate_pct n total = if ltb 0 total then percentage n total else none_paid

-- The average of `confirmed - created` over `count` payments, in microseconds; 0 over none.
pub record Average : Type 0 where
  pub confirmed : ℕ
  pub created : ℕ
  pub count : ℕ

pub record Metrics : Type 0 where
  pub total_payments : ℕ
  pub successful_payments : ℕ
  pub failed_payments : ℕ
  pub success_rate_pct : Rate
  pub failure_rate_pct : Rate
  pub avg_processing_time : Average
  pub active_jobs : ℕ
  pub dead_jobs : ℕ

module _ ⦃P : Platform⦄ where
  -- The rows that its six queries find; no other session commits between two of them.
  unfoldable pub compute_metrics : Exec World Metrics
  compute_metrics = do
    all ← gets (λ w. P.payments.rows w.working.payments)
    successful ← gets (λ w. select (λ p. is_success p.status) (P.payments.rows w.working.payments))
    failed ←
        gets (λ w. select (λ p. is_failed_payment p.status) (P.payments.rows w.working.payments))
    timed ← gets (λ w. select is_timed (P.payments.rows w.working.payments))
    active ← gets (λ w. select (λ j. is_active_job j.status) (P.jobs.rows w.jobs))
    dead ← gets (λ w. select (λ j. is_dead j.status) (P.jobs.rows w.jobs))
    let total_payments = length all
    let successful_payments = length successful
    let failed_payments = length failed
    pure (record {
      total_payments = total_payments;
      successful_payments = successful_payments;
      failed_payments = failed_payments;
      success_rate_pct = rate_pct successful_payments total_payments;
      failure_rate_pct = rate_pct failed_payments total_payments;
      avg_processing_time = record {
        confirmed = sum_of (λ p. time_or_zero p.confirmed_at) timed;
        created = sum_of (λ p. p.created_at) timed;
        count = length timed;
      };
      active_jobs = length active;
      dead_jobs = length dead;
    })

  outcomes_bound :
      (rows : List Payment)
      → length (select (λ p. is_success p.status) rows)
          + length (select (λ p. is_failed_payment p.status) rows)
        ≤ length rows
  outcomes_bound [] = omega arith
  outcomes_bound (p ∷ rows) = by_status p.status (outcomes_bound rows)
    where
      by_status :
          (s : PaymentStatus)
          → length (select (λ p. is_success p.status) rows)
              + length (select (λ p. is_failed_payment p.status) rows)
            ≤ length rows
          → length (
                if is_success s
                then p ∷ select (λ p. is_success p.status) rows
                else select (λ p. is_success p.status) rows)
              + length (
                  if is_failed_payment s
                  then p ∷ select (λ p. is_failed_payment p.status) rows
                  else select (λ p. is_failed_payment p.status) rows)
            ≤ length (p ∷ rows)
      by_status PaymentStatus.pending h = omega arith
      by_status PaymentStatus.processing h = omega arith
      by_status PaymentStatus.success h = omega arith
      by_status PaymentStatus.failed h = omega arith

  timed_is_success : (p : Payment) → IsValid p → is_timed p ≡ is_success p.status
  timed_is_success p v = elim (Bool-cases (is_success p.status)) [
    | inl success ↦
        rw success (has_time p.confirmed_at (v.confirmed (success_of p.status success)).0)
    | inr other ↦ rw other refl
  ]
    where
      success_of : (s : PaymentStatus) → is_success s ≡ true → s ≡ PaymentStatus.success
      success_of s h = ground arith

      has_time : (o : Option ℕ) → o ≢ none → is_some o ≡ true
      has_time none h = absurd (h refl)
      has_time (some t) h = refl

  timed_all :
      (rows : List Payment)
      → ((p : Payment) → Memᴰ p rows → IsValid p)
      → length (select is_timed rows) ≡ length (select (λ p. is_success p.status) rows)
  timed_all [] h = refl
  timed_all (p ∷ rows) h =
      ap (λ c. length (if c then p ∷ select is_timed rows else select is_timed rows))
        (timed_is_success p (h p (Memᴰ.head refl)))
      ∙ by_test (is_success p.status) (timed_all rows (λ q m. h q (Memᴰ.tail m)))
    where
      by_test :
          (c : Bool)
          → length (select is_timed rows) ≡ length (select (λ p. is_success p.status) rows)
          → length (if c then p ∷ select is_timed rows else select is_timed rows)
            ≡ length (
                if c
                then p ∷ select (λ p. is_success p.status) rows
                else select (λ p. is_success p.status) rows)
      by_test true e = ap suc e
      by_test false e = e

  -- A rate divides a number by another only if that is not zero.
  abbrev pub Divides : Rate → ℕ → ℕ → Type 0
  Divides none_paid n total = total ≡ 0
  Divides (percentage k t) n total = (k ≡ n) × (t ≡ total) × (1 ≤ t)

  pub record HasRates (m : Metrics) : Type 0 where
    pub success : Divides m.success_rate_pct m.successful_payments m.total_payments
    pub failure : Divides m.failure_rate_pct m.failed_payments m.total_payments
    pub outcomes : m.successful_payments + m.failed_payments ≤ m.total_payments
    pub average : m.avg_processing_time.count ≡ m.successful_payments

  ltb-zero : (t : ℕ) → ltb 0 t ≡ false → t ≡ 0
  ltb-zero t e = ground arith

  rate_pct-Divides : (n t : ℕ) → Divides (rate_pct n t) n t
  unfolding rate_pct
  rate_pct-Divides n t = elim (Bool-cases (ltb 0 t)) [
    | inl paid ↦ rw paid (refl, refl, ltb→lt 0 t paid)
    | inr unpaid ↦ rw unpaid (ltb-zero t unpaid)
  ]

  -- If every payment is valid and nothing is committed between the queries, each rate divides the
  -- number of its payments by that of all, and never by zero; the successful and the failed
  -- payments are together no more than all; and the average is over all successful payments.
  pub compute_metrics-rates :
      (w : World) (m : Metrics)
      → AllValid w.working.payments
      → (compute_metrics w).0 ≡ ok m
      → HasRates m
  unfolding compute_metrics
  compute_metrics-rates w m valid e = subst HasRates (ok_injective e) (record {
    success = rate_pct-Divides _ _;
    failure = rate_pct-Divides _ _;
    outcomes = outcomes_bound (P.payments.rows w.working.payments);
    average =
        timed_all (P.payments.rows w.working.payments)
          (λ p present. valid p.id p (P.payments.rows_get present));
  })
