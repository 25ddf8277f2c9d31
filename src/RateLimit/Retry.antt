-- ===== src/RateLimit/Retry.antt =====
-- `retry_after` is the exact wait.
use ocr_serving.Base.{
  ℕ, ◌+◌, ◌-◌, ◌*◌, ◌<◌, ◌≤◌, ◌≡◌, true, false, some, arith, leb, leb→le, Option, Bool-cases, inl,
  inr, refl,
}
use ocr_serving.RateLimit.{BucketState, stored, refilled, ceil_div, take_tokens, bucket}

-- `ceil_div a b` is the least `n` with `a ≤ n * b`.
pub ceil_div-mul : (a b : ℕ) → 0 < b → a ≤ ceil_div a b * b
ceil_div-mul a b h = grind arith

ceil_div_least : (a b n : ℕ) → 0 < b → n < ceil_div a b → n * b < a
ceil_div_least a b n h k = grind arith

le→leb : (a b : ℕ) → a ≤ b → leb a b ≡ true
le→leb a b h = ground arith

lt→leb : (a b : ℕ) → a < b → leb b a ≡ false
lt→leb a b h = ground arith

pub ceil_le : (a b d : ℕ) → a ≤ ceil_div a b * b → ceil_div a b ≤ d → a ≤ d * b
ceil_le a b d h k = grind arith

ceil_div_iff : (a b d : ℕ) → 0 < b → leb a (d * b) ≡ leb (ceil_div a b) d
ceil_div_iff a b d h = elim (Bool-cases (leb (ceil_div a b) d)) [
  | inl fits ↦ rw fits (le→leb a (d * b) (ceil_le a b d (ceil_div-mul a b h) (leb→le _ _ fits)))
  | inr short ↦ rw short (lt→leb (d * b) a (ceil_div_least a b d h (ground arith)))
]

after_wait :
    (rate burst now cost d t : ℕ)
    → 0 < rate
    → cost ≤ burst
    → leb (cost * 1000) t ≡ false
    → (bucket rate burst (now + d) cost (some (record { tokens = t; ts = now }))).0.allowed
      ≡ leb (ceil_div (cost * 1000 - t) rate) d
unfolding bucket
after_wait rate burst now cost d t pos fits short =
    ground (arith, ceil_div_iff (cost * 1000 - t) rate d pos)

refused_reply :
    (rate now cost t : ℕ)
    → (take_tokens rate now cost t).0.allowed ≡ false
    → (leb (cost * 1000) t ≡ false)
      × ((take_tokens rate now cost t).0.retry_after ≡ ceil_div (cost * 1000 - t) rate)
      × ((take_tokens rate now cost t).1 ≡ record { tokens = t; ts = now })
unfolding take_tokens
refused_reply rate now cost t h = elim (Bool-cases (leb (cost * 1000) t)) [
  | inl enough ↦ absurd (refused (rw enough at h))
  | inr short ↦ rw short (refl, refl, refl)
]
  where
    refused : true ≡ false → ⊥
    refused e = cc

-- A refused request is let through at the first millisecond at which `retry_after` has passed and
-- at none before, if nothing else draws on the bucket; the cost must not exceed the burst.
pub retry_exact :
    (rate burst now cost d : ℕ) (state : Option BucketState)
    → 0 < rate
    → cost ≤ burst
    → (bucket rate burst now cost state).0.allowed ≡ false
    → (bucket rate burst (now + d) cost (some (bucket rate burst now cost state).1)).0.allowed
      ≡ leb (bucket rate burst now cost state).0.retry_after d
unfolding bucket
retry_exact rate burst now cost d state pos fits refused =
    let t = refilled rate burst now (stored burst now state) in
    let r = refused_reply rate now cost t refused in
    rw (r.2, r.1) (after_wait rate burst now cost d t pos fits r.0)
