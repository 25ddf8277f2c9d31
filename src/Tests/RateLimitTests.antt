-- ===== src/Tests/RateLimitTests.antt =====
-- The token bucket on small numbers: a rate of two tokens a second and a burst of three.
use ocr_serving.Base.{◌≡◌, ◌≤◌, ◌+◌, ◌*◌, ◌-◌, none, some, [], ◌∷◌, arith}
use ocr_serving.RateLimit.{BucketState, bucket, expiry_ms}
use ocr_serving.RateLimit.Bucket.{Requests, last_time, granted, granted_bound, expiry_harmless}

abbrev calls : Requests
calls = (1200, 2) ∷ (1300, 1) ∷ (2500, 2) ∷ []

granted_bound_example :
    granted 2 3 none ((1000, 1) ∷ calls) * 1000 ≤ 3 * 1000 + (last_time 1000 calls - 1000) * 2
granted_bound_example =
    granted_bound 2 3 1000 1 calls (omega arith, (omega arith, (omega arith, tt)))

abbrev drained : BucketState
drained = record { tokens = 500; ts = 1000 }

expiry_harmless_example : bucket 2 3 3600 1 (some drained) ≡ bucket 2 3 3600 1 none
unfolding expiry_ms
expiry_harmless_example = expiry_harmless 2 3 3600 1 drained (omega arith) (omega arith)
