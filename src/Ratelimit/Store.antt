-- ===== src/Ratelimit/Store.antt =====
-- pulsepay/ratelimit/store.py. The clock counts nanoseconds. Tokens are counted in units of
-- 1 / 60000000000 token: at a rate of `r` tokens per minute, each nanosecond refills `r` units,
-- so a refill is not rounded where the program's floats are.
use tru_dev_tasks.Prelude.{ℕ, ◌+◌, ◌*◌, ◌-◌, String, Option, none, some, min, leb, if◌then◌else◌}
use tru_dev_tasks.Prelude.Dict.{Dict, get, put}

-- The units of a token: nanoseconds per minute.
abbrev pub units : ℕ
units = 60000000000

pub record TokenBucket : Type 0 where
  pub tokens : ℕ
  pub last_refill : ℕ
  pub capacity : ℕ
  pub refill_rate : ℕ

pub record RateLimitStore : Type 0 where
  pub refill_rate : ℕ
  pub capacity : ℕ

-- `_buckets`
abbrev pub Buckets : Type 0
Buckets = Dict TokenBucket

-- `RateLimitStore.__init__`: at a rate of 0 the division raises. The capacity is the rate times
-- the burst over the rate, computed with floats: `rounded_burst` is what it comes to, in units. At
-- a rate of 100 a minute and a burst of 20 it is the burst, at 17 a minute and a burst of 1 a
-- little less.
unfoldable pub init : (ℕ → ℕ → ℕ) → ℕ → ℕ → Option RateLimitStore
init rounded_burst per_minute burst_limit =
    if leb per_minute 0
    then none
    else some (record { refill_rate = per_minute; capacity = rounded_burst per_minute burst_limit })

-- The answer of `consume`; `refused missing` stands for `(False, missing / refill_rate)`.
pub data Answer : Type 0 where
  granted : Answer
  refused : ℕ → Answer

module _ (store : RateLimitStore) where
  -- The bucket that `consume` begins with.
  abbrev pub bucket_of : Option TokenBucket → ℕ → TokenBucket
  bucket_of (some bucket) now = bucket
  bucket_of none now = record {
    tokens = store.capacity;
    last_refill = now;
    capacity = store.capacity;
    refill_rate = store.refill_rate;
  }

  -- Its refill.
  unfoldable pub refill : TokenBucket → ℕ → TokenBucket
  refill bucket now =
      let elapsed : ℕ = now - bucket.last_refill in
      record bucket {
        tokens = min bucket.capacity (bucket.tokens + elapsed * bucket.refill_rate);
        last_refill = now;
      }

  -- `consume`, at what `monotonic` returns, for `cost` units
  unfoldable pub consume : String → ℕ → ℕ → Buckets → Answer × Buckets
  consume api_key cost now buckets =
      let bucket = refill (bucket_of (get api_key buckets) now) now in
      if leb cost bucket.tokens
      then (granted, put api_key (record bucket { tokens = bucket.tokens - cost }) buckets)
      else (refused (cost - bucket.tokens), put api_key bucket buckets)
