-- ===== src/Example/Limiter.antt =====
-- The limiter's theorems at a limit of 60 requests a minute and a burst of 2.
use mathlib.Core.Path.{◌≡◌}
use tru_dev_tasks.Prelude.{
  some-injective, ◌+◌, ◌*◌, ◌-◌, ℕ, ◌≤◌, refl, subst, str_eq, Bool-cases, inl, inr, some, List, [],
  ◌∷◌, arith,
}
use tru_dev_tasks.Prelude.Round.{half_even}
use tru_dev_tasks.Ratelimit.Store.{
  units, TokenBucket, RateLimitStore, Buckets, init, refill, consume,
}
use tru_dev_tasks.Ratelimit.Bounds.{IsBucket, IsValid}
use tru_dev_tasks.Ratelimit.Window.{IsOrdered}
use tru_dev_tasks.Ratelimit.Middleware.{Request, next, is_blank, retry_after, dispatch}
use tru_dev_tasks.Ratelimit.Retry.{retry_after-next}
use tru_dev_tasks.Ratelimit.Served.{limited, served, served_bound}

abbrev store : RateLimitStore
store = record { refill_rate = 60; capacity = 120000000000 }

-- At this rate the floats are exact.
abbrev exact_burst : ℕ → ℕ → ℕ
exact_burst per_minute burst_limit = burst_limit * units

store-made : init exact_burst 60 2 ≡ some store
unfolding init
store-made = refl

empty-IsValid : IsValid store 0 []
empty-IsValid key b e = cc

abbrev empty_bucket : TokenBucket
empty_bucket = record { tokens = 0; last_refill = 0; capacity = 120000000000; refill_rate = 60 }

-- After two requests at once the bucket is empty, and a third is told to wait a second.
abbrev emptied : Buckets
emptied = ("k", empty_bucket) ∷ []

emptied-IsValid : IsValid store 0 emptied
emptied-IsValid key b e = elim (Bool-cases (str_eq "k" key)) [
  | inl same ↦
      let is : empty_bucket ≡ b = some-injective (rw same at e) in
      subst (IsBucket store 0) is (record {
        capacity = refl;
        refill_rate = refl;
        tokens = omega arith;
        last_refill = omega arith;
      })
  | inr other ↦ cc (rw other at e)
]

abbrev first : Request
first = record { path = "/v1/payments"; api_key = some "k"; time = 0 }

abbrev second : Request
second = record { path = "/v1/payments"; api_key = some "k"; time = 1001000000 }

retry_after-next_example : (dispatch store second (dispatch store first emptied).1).0 ≡ next
unfolding dispatch consume refill retry_after half_even is_blank
retry_after-next_example =
    retry_after-next store first second "k" 1000 emptied emptied-IsValid (omega arith) (omega arith)
      refl refl refl (omega arith)

abbrev requests : List Request
requests =
    record { path = "/v1/payments"; api_key = some "k"; time = 0 }
    ∷ record { path = "/health"; api_key = some "k"; time = 1 }
    ∷ record { path = "/v1/payments"; api_key = some "j"; time = 2 }
    ∷ record { path = "/v1/payments"; api_key = some "k"; time = 3 }
    ∷ record { path = "/v1/payments"; api_key = some "k"; time = 4 }
    ∷ record { path = "/v1/payments"; api_key = some " "; time = 5 }
    ∷ []

requests-IsOrdered : IsOrdered 0 (limited requests) 1000000000
unfolding limited is_blank
requests-IsOrdered = (omega arith, (omega arith, (omega arith, (omega arith, omega arith))))

served_bound_example : served store "k" requests [] * units ≤ 2 * units + (1000000000 - 0) * 60
served_bound_example =
    served_bound store "k" exact_burst 60 2 0 1000000000 requests [] store-made empty-IsValid
      requests-IsOrdered
