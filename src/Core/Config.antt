-- ===== src/Core/Config.antt =====
-- pulsepay/core/config.py, and the test of the database's URL in pulsepay/core/database.py.
-- Reading .env and the environment and parsing texts as numbers is pydantic: an `Environ` is what
-- it hands over.
use text.Mathlib.Text.{starts_with}
use tru_dev_tasks.Prelude.{
  ℕ, ◌≡◌, ◌≤◌, arith, refl, subst, some-injective, String, Bool, false, Option, none, some, leb,
  str_eq, if◌then◌else◌,
}
use tru_dev_tasks.Core.Exceptions.{value_error}
use tru_dev_tasks.Exec.{Result, ok, err}
use tru_dev_tasks.Ratelimit.Store.{RateLimitStore, init}

pub data ℤ : Type 0 where
  pos negsuc : ℕ → ℤ

-- The value of each field, if it is given.
pub record Environ : Type 0 where
  pub database_url : Option String
  pub secret_key : Option String
  pub environment : Option String
  pub api_rate_limit_per_minute : Option ℤ
  pub api_burst_limit_per_second : Option ℤ
  pub webhook_signing_secret : Option String
  pub max_payment_retry_attempts : Option ℤ
  pub seed_on_startup : Option Bool
  pub db_pool_size : Option ℤ
  pub db_max_overflow : Option ℤ
  pub db_pool_timeout_seconds : Option ℤ
  pub db_pool_recycle_seconds : Option ℤ

pub data Environment : Type 0 where
  development staging production : Environment

pub record Settings : Type 0 where
  pub database_url : String
  pub secret_key : String
  pub environment : Environment
  pub api_rate_limit_per_minute : ℕ
  pub api_burst_limit_per_second : ℕ
  pub webhook_signing_secret : String
  pub max_payment_retry_attempts : ℕ
  pub seed_on_startup : Bool
  pub db_pool_size : ℕ
  pub db_max_overflow : ℕ
  pub db_pool_timeout_seconds : ℕ
  pub db_pool_recycle_seconds : ℕ

-- `int = Field(default=default, ge=bound)`
unfoldable pub int_field : ℕ → ℕ → Option ℤ → Option ℕ
int_field default bound none = some default
int_field default bound (some (pos n)) = if leb bound n then some n else none
int_field default bound (some (negsuc n)) = none

-- `Literal["development", "staging", "production"] = "development"`
unfoldable pub environment_field : Option String → Option Environment
environment_field none = some development
environment_field (some s) =
    if str_eq s "development"
    then some development
    else if str_eq s "staging"
    then some staging
    else if str_eq s "production"
    then some production
    else none

unfoldable pub bool_field : Bool → Option Bool → Bool
bool_field default none = default
bool_field default (some b) = b

infixl 5 ◌>>=◌
abbrev ◌>>=◌ {ℓ κ} : {A : Type ℓ} {B : Type κ} → Option A → (A → Option B) → Option B
◌>>=◌ none f = none
◌>>=◌ (some a) f = f a

-- `Settings()`; `none` is a validation error
unfoldable pub settings : Environ → Option Settings
settings e = do
  database_url ← e.database_url
  secret_key ← e.secret_key
  environment ← environment_field e.environment
  api_rate_limit_per_minute ← int_field 100 1 e.api_rate_limit_per_minute
  api_burst_limit_per_second ← int_field 20 1 e.api_burst_limit_per_second
  webhook_signing_secret ← e.webhook_signing_secret
  max_payment_retry_attempts ← int_field 3 1 e.max_payment_retry_attempts
  db_pool_size ← int_field 10 1 e.db_pool_size
  db_max_overflow ← int_field 20 0 e.db_max_overflow
  db_pool_timeout_seconds ← int_field 30 1 e.db_pool_timeout_seconds
  db_pool_recycle_seconds ← int_field 1800 1 e.db_pool_recycle_seconds
  some (record {
    database_url = database_url;
    secret_key = secret_key;
    environment = environment;
    api_rate_limit_per_minute = api_rate_limit_per_minute;
    api_burst_limit_per_second = api_burst_limit_per_second;
    webhook_signing_secret = webhook_signing_secret;
    max_payment_retry_attempts = max_payment_retry_attempts;
    seed_on_startup = bool_field false e.seed_on_startup;
    db_pool_size = db_pool_size;
    db_max_overflow = db_max_overflow;
    db_pool_timeout_seconds = db_pool_timeout_seconds;
    db_pool_recycle_seconds = db_pool_recycle_seconds;
  })

-- `_database_url`
unfoldable pub database_url : Settings → Result String
database_url s =
    if starts_with s.database_url "postgresql+asyncpg://"
    then ok s.database_url
    else err value_error

-- A number that a field lets through is at least its bound, if the default is.
int_field_bound :
    (default bound : ℕ) (given : Option ℤ) {n : ℕ}
    → bound ≤ default
    → int_field default bound given ≡ some n
    → bound ≤ n
unfolding int_field
int_field_bound default bound none h e = ground arith
int_field_bound default bound (some (pos n)) h e = ground arith
int_field_bound default bound (some (negsuc n)) h e = cc e

>>=-some {ℓ κ} :
    {A : Type ℓ} {B : Type κ} (o : Option A) (f : A → Option B) {b : B}
    → (o >>= f) ≡ some b
    → (a : A) × (o ≡ some a) × (f a ≡ some b)
>>=-some none f e = cc e
>>=-some (some a) f e = (a, refl, e)

-- A limiter's store that refills.
abbrev pub IsLimiter : Option RateLimitStore → Type 0
IsLimiter made = (store : RateLimitStore) × (made ≡ some store) × (1 ≤ store.refill_rate)

init-IsLimiter :
    (rounded_burst : ℕ → ℕ → ℕ) (rate burst : ℕ)
    → 1 ≤ rate
    → IsLimiter (init rounded_burst rate burst)
unfolding init
init-IsLimiter rounded_burst rate burst r =
    (record { refill_rate = rate; capacity = rounded_burst rate burst }, ground arith, r)

pub record IsUsable (s : Settings) : Type 0 where
  pub attempts : 1 ≤ s.max_payment_retry_attempts
  pub pool : 1 ≤ s.db_pool_size
  pub pool_timeout : 1 ≤ s.db_pool_timeout_seconds
  pub pool_recycle : 1 ≤ s.db_pool_recycle_seconds
  pub burst : 1 ≤ s.api_burst_limit_per_second
  pub limiter :
      (rounded_burst : ℕ → ℕ → ℕ)
      → IsLimiter (init rounded_burst s.api_rate_limit_per_minute s.api_burst_limit_per_second)

-- If the settings are accepted, a payment may make at least one attempt, the limiter's store is
-- made without a division by zero and refills, however the floats of its capacity round, the burst
-- is at least one, the pool of connections holds one, and its two times are not zero.
pub settings-IsUsable : (e : Environ) {s : Settings} → settings e ≡ some s → IsUsable s
unfolding settings
settings-IsUsable e h =
    let (_, _, h₁) = >>=-some e.database_url _ h in
    let (_, _, h₂) = >>=-some e.secret_key _ h₁ in
    let (_, _, h₃) = >>=-some (environment_field e.environment) _ h₂ in
    let (rate, rate_is, h₄) = >>=-some (int_field 100 1 e.api_rate_limit_per_minute) _ h₃ in
    let (burst, burst_is, h₅) = >>=-some (int_field 20 1 e.api_burst_limit_per_second) _ h₄ in
    let (_, _, h₆) = >>=-some e.webhook_signing_secret _ h₅ in
    let (attempts, attempts_is, h₇) = >>=-some (int_field 3 1 e.max_payment_retry_attempts) _ h₆ in
    let (pool, pool_is, h₈) = >>=-some (int_field 10 1 e.db_pool_size) _ h₇ in
    let (_, _, h₉) = >>=-some (int_field 20 0 e.db_max_overflow) _ h₈ in
    let (_, timeout_is, h₁₀) = >>=-some (int_field 30 1 e.db_pool_timeout_seconds) _ h₉ in
    let (_, recycle_is, made) = >>=-some (int_field 1800 1 e.db_pool_recycle_seconds) _ h₁₀ in
    subst IsUsable (some-injective made) (record {
      attempts = int_field_bound 3 1 e.max_payment_retry_attempts (omega arith) attempts_is;
      pool = int_field_bound 10 1 e.db_pool_size (omega arith) pool_is;
      pool_timeout = int_field_bound 30 1 e.db_pool_timeout_seconds (omega arith) timeout_is;
      pool_recycle = int_field_bound 1800 1 e.db_pool_recycle_seconds (omega arith) recycle_is;
      burst = int_field_bound 20 1 e.api_burst_limit_per_second (omega arith) burst_is;
      limiter = λ rounded_burst.
          init-IsLimiter rounded_burst rate burst
            (int_field_bound 100 1 e.api_rate_limit_per_minute (omega arith) rate_is);
    })
