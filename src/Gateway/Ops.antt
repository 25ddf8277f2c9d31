-- ===== src/Gateway/Ops.antt =====
-- gateway/main.py: the error reply, liveness and readiness, and the gauges of the queue; and the
-- masked key of gateway/auth.py.
use ocr_serving.Base.{ℕ, Bool, Option, none, some, ◌++◌, take, length, if◌then◌else◌, ltb, leb}
use ocr_serving.Base.Text.{Text, codes}
use ocr_serving.Effects.{Result, ok, err}
use ocr_serving.Queue.{Stats}
use ocr_serving.Gateway.{Principal, slug}

-- `Principal.masked`
unfoldable pub masked : Principal → Text
masked p = if ltb 4 (length p.api_key) then take 4 p.api_key ++ codes "***" else codes "***"

pub record ErrorResponse : Type 0 where
  pub error : Text
  pub detail : Text
  pub request_id : Option Text

-- `http_error`: the reply to an HTTPException, with its status code.
unfoldable pub http_error : Option Text → ℕ → Text → ErrorResponse × ℕ
unfolding slug
http_error request_id code detail = (
  record {
    error = if leb 500 code then codes "HTTPException" else slug code;
    detail = detail;
    request_id = request_id;
  },
  code,
)

-- `validation_error`; `errors` is the JSON of the errors.
unfoldable pub validation_error : Option Text → Text → ErrorResponse × ℕ
validation_error request_id errors = (
  record { error = codes "validation_error"; detail = take 1000 errors; request_id = request_id },
  422,
)

pub record Checks : Type 0 where
  pub redis : Text
  pub engine : Text
  pub postgres : Text

pub record HealthResponse : Type 0 where
  pub status : Text
  pub version : Text
  pub checks : Option Checks

unfoldable pub healthz : Text → HealthResponse
healthz version = record { status = codes "ok"; version = version; checks = none }

abbrev up_or_down : Bool → Text
up_or_down b = if b then codes "ok" else codes "down"

-- `readyz`: Redis decides, the engine and PostgreSQL are reported only.
unfoldable pub readyz : Text → Bool → Bool → Bool → Bool → HealthResponse × ℕ
readyz version postgres_enabled redis_ok engine_ok db_ok = (
  record {
    status = if redis_ok then codes "ok" else codes "degraded";
    version = version;
    checks = some (record {
      redis = up_or_down redis_ok;
      engine = up_or_down engine_ok;
      postgres =
          if db_ok then codes "ok" else if postgres_enabled then codes "down" else codes "disabled";
    });
  },
  if redis_ok then 200 else 503,
)

-- The gauges after a scrape of `/metrics`: a failure to read them leaves them as they were.
unfoldable pub metrics : Result Stats → Stats → Stats
metrics (ok found) gauges = found
metrics (err e) gauges = gauges
