-- ===== src/Ratelimit/Bounds.antt =====
-- What a client can draw from the limiter, and what it gets back by waiting.
use native.Mathlib.Nat.{zero-mul, add-mul}
use tru_dev_tasks.Prelude.{
  some-injective, ℕ, ◌+◌, ◌*◌, ◌-◌, ◌≤◌, ◌≡◌, ◌≢◌, refl, sym, ap, subst, ◌∙◌, String, true, Option,
  none, some, leb, str_eq, eq_iff, Bool-cases, inl, inr, arith,
}
use tru_dev_tasks.Ratelimit.Store.{
  TokenBucket, RateLimitStore, Buckets, Answer, granted, refused, bucket_of, refill, consume,
}
use tru_dev_tasks.Prelude.Dict.{get, put, get-put_self, get-put_ne}

none_refilled : (now last r : ℕ) → last ≡ now → (now - last) * r ≡ 0
none_refilled now last r e = ap (λ d. d * r) (omega (arith, e)) ∙ zero-mul r

pub elapsed_split :
    (last now later r : ℕ)
    → last ≤ now
    → now ≤ later
    → (later - last) * r ≡ (now - last) * r + (later - now) * r
elapsed_split last now later r a b =
    ap (λ d. d * r) (omega arith) ∙ add-mul (now - last) (later - now) r

pub leb→le : (a b : ℕ) → leb a b ≡ true → a ≤ b
leb→le a b e = ground arith

module _ (store : RateLimitStore) where
  -- A bucket that `store` made, last refilled at `now` or before.
  pub record IsBucket (now : ℕ) (b : TokenBucket) : Type 0 where
    pub capacity : b.capacity ≡ store.capacity
    pub refill_rate : b.refill_rate ≡ store.refill_rate
    pub tokens : b.tokens ≤ b.capacity
    pub last_refill : b.last_refill ≤ now

  abbrev pub IsValid : ℕ → Buckets → Type 0
  IsValid now buckets = (key : String) (b : TokenBucket) → get key buckets ≡ some b → IsBucket now b

  -- What `key` has at `now`.
  abbrev pub level : String → ℕ → Buckets → ℕ
  level key now buckets = (refill store (bucket_of store (get key buckets) now) now).tokens

  refill-IsBucket : (now : ℕ) (b : TokenBucket) → IsBucket now b → IsBucket now (refill store b now)
  unfolding refill
  refill-IsBucket now b h = record {
    capacity = h.capacity;
    refill_rate = h.refill_rate;
    tokens = omega arith;
    last_refill = omega arith;
  }

  pub bucket_of-IsBucket :
      (o : Option TokenBucket) (now : ℕ)
      → ((b : TokenBucket) → o ≡ some b → IsBucket now b)
      → IsBucket now (bucket_of store o now)
  bucket_of-IsBucket none now h = record {
    capacity = refl;
    refill_rate = refl;
    tokens = omega arith;
    last_refill = omega arith;
  }
  bucket_of-IsBucket (some b) now h = h b refl

  put-IsValid :
      (now : ℕ) (key : String) (b : TokenBucket) (buckets : Buckets)
      → IsBucket now b
      → IsValid now buckets
      → IsValid now (put key b buckets)
  put-IsValid now key b buckets h before j c e = elim (Bool-cases (str_eq j key)) [
    | inl same ↦
        let b_is : b ≡ c = some-injective (
          sym (get-put_self key b buckets)
          ∙ subst (λ k. get k (put key b buckets) ≡ some c) ((eq_iff j key).0 same) e) in
        subst (IsBucket now) b_is h
    | inr other ↦
        before j c (sym (get-put_ne j key b buckets (λ p. cc ((eq_iff j key).1 p, other))) ∙ e)
  ]

  pub IsBucket-later :
      {now later : ℕ} {b : TokenBucket} → now ≤ later → IsBucket now b → IsBucket later b
  IsBucket-later le h = record {
    capacity = h.capacity;
    refill_rate = h.refill_rate;
    tokens = h.tokens;
    last_refill = omega (arith, h.last_refill);
  }

  pub refilled-IsBucket :
      (key : String) (now : ℕ) (buckets : Buckets)
      → IsValid now buckets
      → IsBucket now (refill store (bucket_of store (get key buckets) now) now)
  refilled-IsBucket key now buckets h =
      refill-IsBucket now _ (bucket_of-IsBucket (get key buckets) now (h key))

  -- If every bucket has the store's capacity and rate, at most its capacity in it, and was
  -- refilled no later than now, this holds after `consume` too, whatever it answers.
  pub consume-IsValid :
      (key : String) (cost now : ℕ) (buckets : Buckets)
      → IsValid now buckets
      → IsValid now (consume store key cost now buckets).1
  unfolding consume
  consume-IsValid key cost now buckets h =
      let full = refilled-IsBucket key now buckets h in
      elim (Bool-cases (leb cost (level key now buckets))) [
        | inl enough ↦ rw enough (
            put-IsValid now key _ buckets
              (record {
                capacity = full.capacity;
                refill_rate = full.refill_rate;
                tokens = omega (arith, full.tokens);
                last_refill = full.last_refill;
              })
              h)
        | inr short ↦ rw short (put-IsValid now key _ buckets full h)
      ]

  abbrev pub charged : Answer → ℕ → ℕ
  charged granted cost = cost
  charged (refused missing) cost = 0

  level-put :
      (key : String) (now : ℕ) (b : TokenBucket) (buckets : Buckets)
      → b.last_refill ≡ now
      → b.tokens ≤ b.capacity
      → level key now (put key b buckets) ≡ b.tokens
  unfolding refill
  level-put key now b buckets last fits =
      rw (get-put_self key b buckets)
        (omega (arith, last, fits, none_refilled now b.last_refill b.refill_rate last))

  pub refill-last : (b : TokenBucket) (now : ℕ) → (refill store b now).last_refill ≡ now
  unfolding refill
  refill-last b now = refl

  pub consume-level :
      (key : String) (cost now : ℕ) (buckets : Buckets)
      → IsValid now buckets
      → charged (consume store key cost now buckets).0 cost
          + level key now (consume store key cost now buckets).1
        ≡ level key now buckets
  unfolding consume
  consume-level key cost now buckets h =
      let full = refilled-IsBucket key now buckets h in
      elim (Bool-cases (leb cost (level key now buckets))) [
        | inl enough ↦ rw enough (
            omega (
              arith,
              leb→le cost (level key now buckets) enough,
              level-put key now
                  (record (refill store (bucket_of store (get key buckets) now) now) {
                    tokens = level key now buckets - cost;
                  })
                  buckets (refill-last _ now) (omega (arith, full.tokens)),
            ))
        | inr short ↦ rw short (
            omega (
              arith,
              level-put key now (refill store (bucket_of store (get key buckets) now) now) buckets
                  (refill-last _ now) full.tokens,
            ))
      ]

  -- A request of one client leaves the others' buckets as they are.
  pub consume-get_ne :
      (key other : String) (cost now : ℕ) (buckets : Buckets)
      → other ≢ key
      → get other (consume store key cost now buckets).1 ≡ get other buckets
  unfolding consume
  consume-get_ne key other cost now buckets apart =
      elim (Bool-cases (leb cost (level key now buckets))) [
        | inl enough ↦ rw enough (get-put_ne other key _ buckets apart)
        | inr short ↦ rw short (get-put_ne other key _ buckets apart)
      ]

  pub refill-later :
      (o : Option TokenBucket) (now later : ℕ)
      → ((b : TokenBucket) → o ≡ some b → IsBucket now b)
      → now ≤ later
      → (refill store (bucket_of store o later) later).tokens
        ≤ (refill store (bucket_of store o now) now).tokens + (later - now) * store.refill_rate
  unfolding refill
  refill-later none now later h le = omega (
    arith,
    none_refilled now now store.refill_rate refl,
    none_refilled later later store.refill_rate refl,
  )
  refill-later (some b) now later h le =
      let is = h b refl in
      let split = elapsed_split b.last_refill now later b.refill_rate is.last_refill le in
      let rate : (later - now) * b.refill_rate ≡ (later - now) * store.refill_rate =
        ap (λ r. (later - now) * r) is.refill_rate in
      omega (arith, split, rate)
