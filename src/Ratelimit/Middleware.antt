-- ===== src/Ratelimit/Middleware.antt =====
-- pulsepay/ratelimit/middleware.py: `RateLimitMiddleware.dispatch`. The texts of the two error
-- bodies are left out: each is a constructor of its own.
use Prim.Native.Char.{Char, code}
use Prim.Native.String.{[] as end_of_text, ◌∷◌ as ◌∷ₜ◌}
use tru_dev_tasks.Prelude.{
  ℕ, String, Bool, true, ◌&&◌, ◌||◌, ◌*◌, Option, none, some, leb, ◌==◌, str_eq, if◌then◌else◌,
}
use tru_dev_tasks.Prelude.Round.{half_even}
use tru_dev_tasks.Ratelimit.Store.{
  units, RateLimitStore, Buckets, Answer, granted, refused, consume,
}

-- `str.strip` on a header, whose characters are those of Latin-1.
abbrev is_space : Char → Bool
is_space c =
    let n = code c in
    (leb 9 n && leb n 13) || ((leb 28 n && leb n 32) || ((n == 133) || (n == 160)))

-- `not api_key.strip()`
unfoldable pub is_blank : String → Bool
is_blank end_of_text = true
is_blank (c ∷ₜ rest) = is_space c && is_blank rest

pub data Response : Type 0 where
  -- what `call_next` answers
  next : Response
  -- 401, MISSING_API_KEY
  missing_api_key : Response
  -- 429, RATE_LIMIT_EXCEEDED, and the `Retry-After` in milliseconds
  rate_limit_exceeded : ℕ → Response

pub record Request : Type 0 where
  pub path : String
  pub api_key : Option String
  pub time : ℕ

-- `request.url.path in {"/health", "/v1/metrics"}`
abbrev pub is_exempt : String → Bool
is_exempt path = str_eq path "/health" || str_eq path "/v1/metrics"

module _ (store : RateLimitStore) where
  -- f"{retry_after_seconds:.3f}", of the missing units over the units of a millisecond
  unfoldable pub retry_after : ℕ → ℕ
  retry_after missing = half_even missing (1000000 * store.refill_rate)

  abbrev pub answer_response : Answer → Response
  answer_response granted = next
  answer_response (refused missing) = rate_limit_exceeded (retry_after missing)

  abbrev pub limit : String → ℕ → Buckets → Response × Buckets
  limit key now buckets =
      let (answer, buckets') = consume store key units now buckets in
      (answer_response answer, buckets')

  abbrev pub with_key : Option String → ℕ → Buckets → Response × Buckets
  with_key none now buckets = (missing_api_key, buckets)
  with_key (some key) now buckets =
      if is_blank key then (missing_api_key, buckets) else limit key now buckets

  -- `dispatch`
  unfoldable pub dispatch : Request → Buckets → Response × Buckets
  dispatch request buckets =
      if is_exempt request.path
      then (next, buckets)
      else with_key request.api_key request.time buckets
