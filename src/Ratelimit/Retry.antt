-- ===== src/Ratelimit/Retry.antt =====
-- When the middleware lets a client through again that it has told to retry later.
use native.Mathlib.Nat.{mul-le-mul_right, mul_assoc, mul_comm}
use tru_dev_tasks.Prelude.{
  ℕ, ◌+◌, ◌*◌, ◌-◌, ◌≤◌, ◌<◌, ◌≡◌, refl, sym, ap, subst, ◌∙◌, String, some, arith,
}
use tru_dev_tasks.Prelude.Round.{half_even, half_even-le}
use tru_dev_tasks.Ratelimit.Store.{
  units, RateLimitStore, Buckets, Answer, granted, refused, consume,
}
use tru_dev_tasks.Ratelimit.Bounds.{IsValid}
use tru_dev_tasks.Ratelimit.Window.{missing_refilled-granted}
use tru_dev_tasks.Ratelimit.Middleware.{
  Request, Response, next, rate_limit_exceeded, retry_after, answer_response, limit, dispatch,
}
use tru_dev_tasks.Ratelimit.Served.{limited_key, dispatch-limited}

module _ (store : RateLimitStore) where
  told :
      (answer : Answer) (ms : ℕ)
      → answer_response store answer ≡ rate_limit_exceeded ms
      → (missing : ℕ) × (answer ≡ refused missing) × (retry_after store missing ≡ ms)
  told granted ms e = cc e
  told (refused missing) ms e = (missing, refl, cc e)

  -- What is missing is refilled in the time told and a millisecond.
  told_enough :
      (missing wait : ℕ)
      → 0 < store.refill_rate
      → (retry_after store missing + 1) * 1000000 ≤ wait
      → missing ≤ wait * store.refill_rate
  unfolding retry_after
  told_enough missing wait refills waited =
      let ms = half_even missing (1000000 * store.refill_rate) in
      let enough : missing ≤ 1000000 * store.refill_rate * (ms + 1) =
        half_even-le missing (1000000 * store.refill_rate) (omega (arith, refills)) in
      let longer : (ms + 1) * 1000000 * store.refill_rate ≤ wait * store.refill_rate =
        mul-le-mul_right store.refill_rate waited in
      omega (
        arith,
        enough,
        longer,
        mul_comm (1000000 * store.refill_rate) (ms + 1),
        mul_assoc (ms + 1) 1000000 store.refill_rate,
      )

  -- If the buckets are valid, the store refills and a full bucket holds a token, a client whose
  -- request is refused with a Retry-After and asks again when the milliseconds it was told and one
  -- more have passed is let through, if nobody has asked in between: the one makes up for the
  -- rounding of what it is told.
  pub retry_after-next :
      (first second : Request) (key : String) (ms : ℕ) (buckets : Buckets)
      → IsValid store first.time buckets
      → 0 < store.refill_rate
      → units ≤ store.capacity
      → limited_key first ≡ some key
      → limited_key second ≡ some key
      → (dispatch store first buckets).0 ≡ rate_limit_exceeded ms
      → (ms + 1) * 1000000 ≤ second.time - first.time
      → (dispatch store second (dispatch store first buckets).1).0 ≡ next
  retry_after-next first second key ms buckets valid refills holds asks again refusal waited =
      let at_first = dispatch-limited store first key buckets asks in
      let (missing, is, ms_is) =
        told (consume store key units first.time buckets).0 ms
          (ap (λ (r : Response × Buckets). r.0) (sym at_first) ∙ refusal) in
      let enough =
        told_enough missing (second.time - first.time) refills
          (subst (λ m. (m + 1) * 1000000 ≤ second.time - first.time) (sym ms_is) waited) in
      let answered =
        missing_refilled-granted store key units first.time second.time missing buckets valid holds
          is enough in
      rw at_first (
        ap (λ (r : Response × Buckets). r.0)
          (dispatch-limited store second key (limit store key first.time buckets).1 again)
        ∙ ap (answer_response store) answered)
