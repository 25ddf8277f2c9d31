-- ===== src/RateLimit/Bucket.antt =====
-- How much the bucket lets through over any run of requests, and why its expiry is harmless.
use ocr_serving.Base.{
  ℕ, ◌+◌, ◌-◌, ◌*◌, ◌<◌, ◌≤◌, ◌≡◌, ap, refl, Option, none, some, List, [], ◌∷◌, arith,
  if◌then◌else◌,
}
use ocr_serving.RateLimit.{BucketState, take_tokens, bucket, expiry_ms}
use ocr_serving.RateLimit.Retry.{ceil_div-mul, ceil_le}

-- Requests in the order in which Redis runs the script: the caller's clock and the cost.
abbrev pub Requests : Type 0
Requests = List (ℕ × ℕ)

-- The caller's clock does not run backwards.
abbrev pub InOrder : ℕ → Requests → Type 0
InOrder t [] = Unit
InOrder t ((now, cost) ∷ reqs) = (t ≤ now) × InOrder now reqs

abbrev pub last_time : ℕ → Requests → ℕ
last_time t [] = t
last_time t ((now, cost) ∷ reqs) = last_time now reqs

-- The tokens that a run of requests was granted.
pub granted : ℕ → ℕ → Option BucketState → Requests → ℕ
granted rate burst state [] = 0
granted rate burst state ((now, cost) ∷ reqs) =
    let (reply, next) = bucket rate burst now cost state in
    (if reply.allowed then cost else 0) + granted rate burst (some next) reqs

module _ (rate burst : ℕ) where
  bucket_step :
      (now cost : ℕ) (b : BucketState)
      → let (reply, next) = bucket rate burst now cost (some b) in
        ((if reply.allowed then cost * 1000 else 0) + next.tokens ≤ b.tokens + (now - b.ts) * rate)
        × (next.ts ≡ now)
        × (next.tokens ≤ burst * 1000)
  unfolding bucket
  bucket_step now cost b = ground arith

  -- The waits of two neighbouring spans add up.
  spans_add : (t n l : ℕ) → t ≤ n → n ≤ l → (n - t) * rate + (l - n) * rate ≡ (l - t) * rate
  spans_add t n l h k = grind arith

  granted_from :
      (b : BucketState) (t : ℕ) (reqs : Requests)
      → b.ts ≡ t
      → InOrder t reqs
      → (granted rate burst (some b) reqs * 1000 ≤ b.tokens + (last_time t reqs - t) * rate)
        × (t ≤ last_time t reqs)
  unfolding granted
  granted_from b t [] e h = (omega arith, omega arith)
  granted_from b t ((now, cost) ∷ reqs) e h =
      let (reply, next) = bucket rate burst now cost (some b) in
      let step = bucket_step now cost b in
      let rest = granted_from next now reqs step.1 h.1 in
      let sums = spans_add t now (last_time now reqs) h.0 rest.1 in (grind arith, omega arith)

  -- Over any run of requests whose clock does not run backwards, what is granted is at most the
  -- burst plus the rate times the time between the first request and the last, whatever the
  -- requests cost: from a fresh key, in thousandths of a token.
  pub granted_bound :
      (now cost : ℕ) (reqs : Requests)
      → InOrder now reqs
      → granted rate burst none ((now, cost) ∷ reqs) * 1000
        ≤ burst * 1000 + (last_time now reqs - now) * rate
  unfolding granted bucket
  granted_bound now cost reqs h =
      (granted_from (record { tokens = burst * 1000; ts = now }) now ((now, cost) ∷ reqs) refl
        (omega arith, h)).0

  wait_fills :
      (now : ℕ) (b : BucketState)
      → 0 < rate
      → b.ts + expiry_ms rate burst ≤ now
      → burst * 1000 ≤ (now - b.ts) * rate
  unfolding expiry_ms
  wait_fills now b pos late =
      ceil_le (burst * 1000) rate (now - b.ts) (ceil_div-mul (burst * 1000) rate pos) (omega arith)

  -- A key that has expired would have been full again: after `expiry_ms` the script answers as on
  -- a fresh key.
  pub expiry_harmless :
      (now cost : ℕ) (b : BucketState)
      → 0 < rate
      → b.ts + expiry_ms rate burst ≤ now
      → bucket rate burst now cost (some b) ≡ bucket rate burst now cost none
  unfolding bucket
  expiry_harmless now cost b pos late =
      ap (take_tokens rate now cost) (ground (arith, wait_fills now b pos late))
