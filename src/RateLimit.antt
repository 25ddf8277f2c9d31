-- ===== src/RateLimit.antt =====
-- common/ratelimit.py: the token bucket (the Lua script of `_BUCKET_LUA`) and the daily page quota.
-- Tokens are counted in thousandths, for a rate of whole tokens a second, so that the script's
-- fractions are exact; times are milliseconds.
pub mod Bucket
pub mod Retry
use ocr_serving.Base.{
  ℕ, ◌+◌, ◌-◌, ◌*◌, ◌/◌, min, max, Bool, true, false, Option, none, some, if◌then◌else◌, ltb, leb,
  ◌==◌, List, [], ◌∷◌,
}
use ocr_serving.Base.Text.{Text, codes}

-- The fields `tokens` and `ts` of the key's hash.
pub record BucketState : Type 0 where
  pub tokens : ℕ
  pub ts : ℕ

pub record Reply : Type 0 where
  pub allowed : Bool
  pub tokens : ℕ
  pub retry_after : ℕ

-- `tokens = tonumber(state[1])`, or a full bucket when the key is not there.
abbrev pub stored : ℕ → ℕ → Option BucketState → BucketState
stored burst now none = record { tokens = burst * 1000; ts = now }
stored burst now (some b) = b

-- The refill: `math.min(burst, tokens + elapsed * rate)`.
unfoldable pub refilled : ℕ → ℕ → ℕ → BucketState → ℕ
refilled rate burst now b = min (burst * 1000) (b.tokens + (now - b.ts) * rate)

-- `math.ceil(((cost - tokens) / rate) * 1000)`, in thousandths of a token.
abbrev pub ceil_div : ℕ → ℕ → ℕ
ceil_div a b = (a + (b - 1)) / b

unfoldable pub take_tokens : ℕ → ℕ → ℕ → ℕ → Reply × BucketState
take_tokens rate now cost tokens =
    if leb (cost * 1000) tokens
    then (
      record { allowed = true; tokens = (tokens - cost * 1000) / 1000; retry_after = 0 },
      record { tokens = tokens - cost * 1000; ts = now },
    )
    else (
      record {
        allowed = false;
        tokens = tokens / 1000;
        retry_after = ceil_div (cost * 1000 - tokens) rate;
      },
      record { tokens = tokens; ts = now },
    )

-- The script, from the key's hash to the reply and the new hash.
unfoldable pub bucket : ℕ → ℕ → ℕ → ℕ → Option BucketState → Reply × BucketState
unfolding refilled take_tokens
bucket rate burst now cost state =
    take_tokens rate now cost (refilled rate burst now (stored burst now state))

-- `PEXPIRE`: how long the hash lives after a call.
unfoldable pub expiry_ms : ℕ → ℕ → ℕ
expiry_ms rate burst = ceil_div (burst * 1000) rate + 1000

pub record LimitDecision : Type 0 where
  pub allowed : Bool
  pub remaining : ℕ
  pub retry_after_ms : ℕ
  pub reason : Text

abbrev pub let_through : LimitDecision
let_through = record { allowed = true; remaining = 0; retry_after_ms = 0; reason = [] }

-- `RateLimiter.check`: `none` is the exception of a script call that did not reach Redis. The
-- wait stays in milliseconds: the rounding to hundredths of a second is left out.
unfoldable pub check : ℕ → Option Reply → LimitDecision
check rate reply = if rate == 0 then let_through else elim reply [
  | none ↦ let_through
  | some r ↦ record {
    allowed = r.allowed;
    remaining = r.tokens;
    retry_after_ms = r.retry_after;
    reason = if r.allowed then [] else codes "rate_limit";
  }
]

-- `PageQuota.check`; `used` is the counter of the day, 0 when Redis does not answer.
unfoldable pub quota_check : ℕ → ℕ → ℕ → LimitDecision
quota_check limit used pages =
    if limit == 0
    then let_through
    else if ltb limit (used + pages)
    then record {
      allowed = false;
      remaining = limit - used;
      retry_after_ms = 0;
      reason = codes "quota";
    }
    else record {
      allowed = true;
      remaining = limit - used - pages;
      retry_after_ms = 0;
      reason = [];
    }

-- `PageQuota.consume` when Redis answers: the new counter of the day, and the returned value.
unfoldable pub quota_consume : ℕ → ℕ → ℕ → ℕ × ℕ
quota_consume limit used pages =
    if (limit == 0)
    then (used, 0)
    else if (pages == 0)
    then (used, 0)
    else (used + pages, used + pages)
