-- ===== src/Ratelimit/Served.antt =====
-- How many requests of one client the middleware lets through in a window of time.
use native.Mathlib.Nat.{add-mul}
use tru_dev_tasks.Prelude.{
  some-injective, ℕ, ◌+◌, ◌*◌, ◌-◌, ◌≤◌, ◌≡◌, refl, ap, ap₂, ◌∙◌, String, Bool, true, false, ◌&&◌,
  Option, none, some, List, [], ◌∷◌, leb, str_eq, if◌then◌else◌, Bool-cases, Option-cases, inl, inr,
  arith,
}
use tru_dev_tasks.Ratelimit.Store.{
  units, RateLimitStore, Buckets, Answer, granted, refused, init, consume,
}
use tru_dev_tasks.Ratelimit.Bounds.{IsValid, charged}
use tru_dev_tasks.Ratelimit.Window.{Trace, IsOrdered, granted_units, granted_units_bound}
use tru_dev_tasks.Ratelimit.Middleware.{
  Request, Response, next, is_blank, is_exempt, answer_response, limit, with_key, dispatch,
}

abbrev non_blank : Option String → Option String
non_blank none = none
non_blank (some key) = if is_blank key then none else some key

-- The key under which a request is limited, if it is.
abbrev pub limited_key : Request → Option String
limited_key r = if is_exempt r.path then none else non_blank r.api_key

abbrev is_key : String → Option String → Bool
is_key key none = false
is_key key (some k) = str_eq k key

abbrev is_next : Response → Bool
is_next next = true
is_next _ = false

abbrev timed : Option String → ℕ → Trace → Trace
timed none now rest = rest
timed (some k) now rest = (k, now) ∷ rest

-- The requests that are limited.
unfoldable pub limited : List Request → Trace
limited [] = []
limited (r ∷ rest) = timed (limited_key r) r.time (limited rest)

module _ (store : RateLimitStore) where
  -- The limited requests of `key` that are let through.
  unfoldable pub served : String → List Request → Buckets → ℕ
  served key [] buckets = 0
  served key (r ∷ rest) buckets =
      let (response, buckets') = dispatch store r buckets in
      (if is_key key (limited_key r) && is_next response then 1 else 0) + served key rest buckets'

  with_key-free :
      (o : Option String) (now : ℕ) (buckets : Buckets)
      → non_blank o ≡ none
      → (with_key store o now buckets).1 ≡ buckets
  with_key-free none now buckets e = refl
  with_key-free (some k) now buckets e = elim (Bool-cases (is_blank k)) [
    | inl blank ↦ rw blank refl
    | inr full ↦ cc (rw full at e)
  ]

  with_key-limited :
      (o : Option String) (key : String) (now : ℕ) (buckets : Buckets)
      → non_blank o ≡ some key
      → with_key store o now buckets ≡ limit store key now buckets
  with_key-limited none key now buckets e = cc
  with_key-limited (some k) key now buckets e = elim (Bool-cases (is_blank k)) [
    | inl blank ↦ cc (rw blank at e)
    | inr full ↦ rw full (ap (λ j. limit store j now buckets) (some-injective (rw full at e)))
  ]

  one_served :
      (mine : Bool) (answer : Answer)
      → (if mine && is_next (answer_response store answer) then 1 else 0) * units
        ≡ (if mine then charged store answer units else 0)
  one_served true granted = refl
  one_served true (refused missing) = refl
  one_served false answer = refl

  dispatch-free :
      (r : Request) (buckets : Buckets)
      → limited_key r ≡ none
      → (dispatch store r buckets).1 ≡ buckets
  unfolding dispatch
  dispatch-free r buckets e = elim (Bool-cases (is_exempt r.path)) [
    | inl exempt ↦ rw exempt refl
    | inr bound ↦ rw bound (with_key-free r.api_key r.time buckets (rw bound at e))
  ]

  pub dispatch-limited :
      (r : Request) (key : String) (buckets : Buckets)
      → limited_key r ≡ some key
      → dispatch store r buckets ≡ limit store key r.time buckets
  unfolding dispatch
  dispatch-limited r key buckets e = elim (Bool-cases (is_exempt r.path)) [
    | inl exempt ↦ cc (rw exempt at e)
    | inr bound ↦ rw bound (with_key-limited r.api_key key r.time buckets (rw bound at e))
  ]

  served-units :
      (key : String) (requests : List Request) (buckets : Buckets)
      → served key requests buckets * units
        ≡ granted_units store key units (limited requests) buckets
  unfolding served limited granted_units
  served-units key [] buckets = omega arith
  served-units key (r ∷ rest) buckets = elim (Option-cases (limited_key r)) [
    | inl free ↦
        rw (free, dispatch-free r buckets free) (omega (arith, served-units key rest buckets))
    | inr (k, bound) ↦
        rw (bound, dispatch-limited r k buckets bound)
          (add-mul _ _ units
            ∙ ap₂ (λ x y. x + y)
                (one_served (str_eq k key) (consume store k units r.time buckets).0)
                (served-units key rest (consume store k units r.time buckets).1))
  ]

  -- With `per_minute` tokens a minute and a burst limit of `burst_limit`, however the floats of the
  -- capacity round, if the buckets are valid at the start and the clock does not run backwards, the
  -- middleware lets through at most the burst limit, so rounded, of the limited requests of one
  -- client and what the rate refills over the window of time, whatever the requests and the other
  -- clients' are.
  pub served_bound :
      (key : String) (rounded_burst : ℕ → ℕ → ℕ) (per_minute burst_limit start end : ℕ)
      (requests : List Request) (buckets : Buckets)
      → init rounded_burst per_minute burst_limit ≡ some store
      → IsValid store start buckets
      → IsOrdered start (limited requests) end
      → served key requests buckets * units
        ≤ rounded_burst per_minute burst_limit + (end - start) * per_minute
  unfolding init
  served_bound key rounded_burst per_minute burst_limit start end requests buckets made h ordered =
      elim (Bool-cases (leb per_minute 0)) [
        | inl zero_rate ↦ cc (rw zero_rate at made)
        | inr rate ↦
            let is : record {
              refill_rate = per_minute;
              capacity = rounded_burst per_minute burst_limit;
            }
                ≡ store =
              some-injective (rw rate at made) in
            let bound =
              granted_units_bound store key units start end (limited requests) buckets h ordered in
            let total = served-units key requests buckets in
            omega (
              arith,
              bound,
              total,
              ap (λ (s : RateLimitStore). s.capacity) is,
              ap (λ (s : RateLimitStore). (end - start) * s.refill_rate) is,
            )
      ]
