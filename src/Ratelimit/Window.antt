-- ===== src/Ratelimit/Window.antt =====
-- Sequences of requests to the limiter: what a client draws in a window of time, and when it is
-- granted tokens again after a refusal.
use tru_dev_tasks.Prelude.{
  ℕ, ◌+◌, ◌*◌, ◌-◌, ◌≤◌, ◌≡◌, refl, sym, ap, if_intro, subst, String, true, some, List, [], ◌∷◌,
  leb, str_eq, eq_iff, if◌then◌else◌, Bool-cases, inl, inr, arith,
}
use tru_dev_tasks.Ratelimit.Store.{
  RateLimitStore, Buckets, Answer, granted, refused, bucket_of, refill, consume,
}
use tru_dev_tasks.Prelude.Dict.{get, get-put_self}
use tru_dev_tasks.Ratelimit.Bounds.{
  IsBucket, IsValid, level, charged, consume-IsValid, consume-level, consume-get_ne, refill-later,
  IsBucket-later, refilled-IsBucket, elapsed_split,
}

-- Requests, each with its key and the clock at its time.
abbrev pub Trace : Type 0
Trace = List (String × ℕ)

-- The clock never runs backwards from `start` over the requests to `end`.
abbrev pub IsOrdered : ℕ → Trace → ℕ → Type 0
IsOrdered start [] end = start ≤ end
IsOrdered start ((k, now) ∷ rest) end = (start ≤ now) × IsOrdered now rest end

le→leb : (a b : ℕ) → a ≤ b → leb a b ≡ true
le→leb a b h = ground arith

refused-injective : (m n : ℕ) → Path Answer (refused m) (refused n) → m ≡ n
refused-injective m n e = cc

module _ (store : RateLimitStore) where
  -- The units that `key` is granted over a sequence of requests for `cost` units each.
  unfoldable pub granted_units : String → ℕ → Trace → Buckets → ℕ
  granted_units key cost [] buckets = 0
  granted_units key cost ((k, now) ∷ rest) buckets =
      let (answer, buckets') = consume store k cost now buckets in
      (if str_eq k key then charged store answer cost else 0) + granted_units key cost rest buckets'

  IsValid-later :
      {now later : ℕ} (buckets : Buckets)
      → now ≤ later
      → IsValid store now buckets
      → IsValid store later buckets
  IsValid-later buckets le h key b e = IsBucket-later store le (h key b e)

  ordered_end : (start end : ℕ) (trace : Trace) → IsOrdered start trace end → start ≤ end
  ordered_end start end [] le = le
  ordered_end start end ((k, now) ∷ rest) (le, more) =
      omega (arith, le, ordered_end now end rest more)

  level_step :
      (key k : String) (cost now : ℕ) (buckets : Buckets)
      → IsValid store now buckets
      → (if str_eq k key then charged store (consume store k cost now buckets).0 cost else 0)
          + level store key now (consume store k cost now buckets).1
        ≡ level store key now buckets
  level_step key k cost now buckets h = elim (Bool-cases (str_eq k key)) [
    | inl same ↦ rw same (
        subst
          (λ j.
            charged store (consume store j cost now buckets).0 cost
              + level store key now (consume store j cost now buckets).1
            ≡ level store key now buckets)
          (sym ((eq_iff k key).0 same)) (consume-level store key cost now buckets h))
    | inr other ↦ rw other (
        omega (
          arith,
          ap (λ o. (refill store (bucket_of store o now) now).tokens)
              (consume-get_ne store k key cost now buckets
                (λ p. cc ((eq_iff k key).1 (sym p), other))),
        ))
  ]

  granted_from_level :
      (key : String) (cost start end : ℕ) (trace : Trace) (buckets : Buckets)
      → IsValid store start buckets
      → IsOrdered start trace end
      → granted_units key cost trace buckets
        ≤ level store key start buckets + (end - start) * store.refill_rate
  unfolding granted_units
  granted_from_level key cost start end [] buckets h ordered = omega arith
  granted_from_level key cost start end ((k, now) ∷ rest) buckets h (le, ordered) =
      let valid = IsValid-later buckets le h in
      let more =
        granted_from_level key cost now end rest (consume store k cost now buckets).1
          (consume-IsValid store k cost now buckets valid) ordered in
      let step = level_step key k cost now buckets valid in
      let later = refill-later store (get key buckets) start now (h key) le in
      let split =
        elapsed_split start now end store.refill_rate le (ordered_end now end rest ordered) in
      omega (arith, more, step, later, split)

  -- If the buckets are valid at the start and the clock does not run backwards, then however the
  -- requests of a window of time are ordered among clients, one client is granted at most the
  -- capacity of its bucket and what the rate refills over the window.
  pub granted_units_bound :
      (key : String) (cost start end : ℕ) (trace : Trace) (buckets : Buckets)
      → IsValid store start buckets
      → IsOrdered start trace end
      → granted_units key cost trace buckets ≤ store.capacity + (end - start) * store.refill_rate
  granted_units_bound key cost start end trace buckets h ordered =
      let full = refilled-IsBucket store key start buckets h in
      omega (
        arith,
        granted_from_level key cost start end trace buckets h ordered,
        full.tokens,
        full.capacity,
      )

  waited-enough :
      (key : String) (cost now later missing : ℕ) (buckets : Buckets)
      → IsBucket store now (refill store (bucket_of store (get key buckets) now) now)
      → cost ≤ store.capacity
      → cost ≤ missing + level store key now buckets
      → missing ≤ (later - now) * store.refill_rate
      → cost
        ≤ (refill store (refill store (bucket_of store (get key buckets) now) now) later).tokens
  unfolding refill
  waited-enough key cost now later missing buckets full small short waited =
      omega
        (arith, full.capacity, small, short, waited, ap (λ r. (later - now) * r) full.refill_rate)

  enough-granted :
      (key : String) (cost now : ℕ) (buckets : Buckets)
      → cost ≤ level store key now buckets
      → (consume store key cost now buckets).0 ≡ granted
  unfolding consume
  enough-granted key cost now buckets le =
      if_intro (λ (r : Answer × Buckets). r.0 ≡ granted) (leb cost (level store key now buckets))
        (λ _. refl) (λ short. cc (short, le→leb cost (level store key now buckets) le))

  refused-inv :
      (key : String) (cost now missing : ℕ) (buckets : Buckets)
      → (consume store key cost now buckets).0 ≡ refused missing
      → (get key (consume store key cost now buckets).1
          ≡ some (refill store (bucket_of store (get key buckets) now) now))
        × (cost ≤ missing + level store key now buckets)
  unfolding consume
  refused-inv key cost now missing buckets refusal =
      elim (Bool-cases (leb cost (level store key now buckets))) [
        | inl enough ↦ cc (rw enough at refusal)
        | inr short ↦ rw short (
          get-put_self key _ buckets,
          omega (arith, refused-injective _ missing (rw short at refusal)),
        )
      ]

  pub missing_refilled-granted :
      (key : String) (cost now later missing : ℕ) (buckets : Buckets)
      → IsValid store now buckets
      → cost ≤ store.capacity
      → (consume store key cost now buckets).0 ≡ refused missing
      → missing ≤ (later - now) * store.refill_rate
      → (consume store key cost later (consume store key cost now buckets).1).0 ≡ granted
  missing_refilled-granted key cost now later missing buckets h small refusal waited =
      let (kept, short) = refused-inv key cost now missing buckets refusal in
      let full = refilled-IsBucket store key now buckets h in
      enough-granted key cost later _ (
        subst (λ o. cost ≤ (refill store (bucket_of store o later) later).tokens) (sym kept)
          (waited-enough key cost now later missing buckets full small short waited))
