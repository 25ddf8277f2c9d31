-- ===== src/Gateway/Middleware.antt =====
-- gateway/middleware.py: `RequestContextMiddleware.dispatch`. The rest of the application is the
-- parameter `call_next`, which is handed the request id that its log lines carry.
use ocr_serving.Base.{
  ℕ, ◌≡◌, refl, Bool, ◌||◌, Option, none, some, List, [], ◌∷◌, if◌then◌else◌, Bool-cases, inl, inr,
}
use ocr_serving.Base.Text.{Text, codes, text_eq, text_or, decimal}
use ocr_serving.Base.Dict.{Dict, lookup, insert, lookup-insert}
use ocr_serving.Effects.{Result, ok, err}
use ocr_serving.Gateway.Ops.{ErrorResponse}

pub record HttpRequest : Type 0 where
  pub method : Text
  pub path : Text
  -- the pattern of the route that was found, if one was
  pub route : Option Text
  -- `X-Request-ID`, empty when it is missing
  pub request_id : Text

-- What is sent back: the body of the route, or the one that is written here.
pub data Reply : Type 0 where
  routed : Text → Reply
  internal_error : ErrorResponse → Reply

pub record Response : Type 0 where
  pub status_code : ℕ
  pub headers : Dict Text
  pub body : Reply

-- `request_id_var`, the series of HTTP_REQUESTS and HTTP_SECONDS, and the lines of the access log:
-- the level, the path and the request id.
pub record Observed : Type 0 where
  pub request_id_var : Option Text
  pub counted : List (Text × Text × Text)
  pub timed : List (Text × Text × ℕ)
  pub lines : List (Text × Text × Option Text)

-- `route_template`
abbrev path_or : Option Text → Text
path_or none = codes "unmatched"
path_or (some path) = text_or path (codes "unmatched")

abbrev pub route_template : HttpRequest → Text
route_template request = path_or request.route

-- `QUIET_PATHS`
unfoldable pub is_quiet : Text → Bool
unfolding text_eq
is_quiet path =
    text_eq path (codes "/metrics")
    || text_eq path (codes "/healthz")
    || text_eq path (codes "/readyz")

abbrev pub x_request_id : Text
x_request_id = codes "x-request-id"

-- The request and its time are counted under the status.
abbrev count_request : HttpRequest → Text → ℕ → Observed → Observed
count_request request status elapsed seen = record seen {
  counted = (request.method, route_template request, status) ∷ seen.counted;
  timed = (request.method, route_template request, elapsed) ∷ seen.timed;
}

abbrev log_line : Text → HttpRequest → Observed → Observed
log_line level request seen = record seen {
  lines = (level, request.path, seen.request_id_var) ∷ seen.lines;
}

abbrev failure : Text → Response
failure request_id = record {
  status_code = 500;
  headers = (x_request_id, request_id) ∷ [];
  body = internal_error (record {
    error = codes "internal_error";
    detail = codes "unexpected server error";
    request_id = some request_id;
  });
}

-- The request, by what `call_next` did; `outer` is the context variable before it.
unfoldable pub finish :
    HttpRequest → Text → ℕ → Option Text → Result Response → Observed → Response × Observed
unfolding is_quiet
finish request request_id elapsed outer (err e) seen = (
  failure request_id,
  record (log_line (codes "error") request (count_request request (codes "500") elapsed seen)) {
    request_id_var = outer;
  },
)
finish request request_id elapsed outer (ok response) seen =
    let counted = count_request request (decimal response.status_code) elapsed seen in
    (
      record response { headers = insert x_request_id request_id response.headers },
      record (if is_quiet request.path then counted else log_line (codes "info") request counted) {
        request_id_var = outer;
      },
    )

-- `dispatch`; `fresh` is `uuid.uuid4().hex[:16]`.
unfoldable pub dispatch :
    (Text → Observed → Result Response × Observed)
    → Text
    → ℕ
    → HttpRequest
    → Observed
    → Response × Observed
unfolding finish
dispatch call_next fresh elapsed request seen =
    let request_id = text_or request.request_id fresh in
    let (answer, seen') = call_next request_id (record seen { request_id_var = some request_id }) in
    finish request request_id elapsed seen.request_id_var answer seen'

-- The status that the route gave, or 500 where it raised.
abbrev pub status_of : Result Response → ℕ
status_of (ok response) = response.status_code
status_of (err e) = 500

finish_lem :
    (request : HttpRequest) (request_id : Text) (elapsed : ℕ) (outer : Option Text)
    (answer : Result Response) (seen : Observed)
    → let (response, after) = finish request request_id elapsed outer answer seen in
      (lookup x_request_id response.headers ≡ some request_id)
      × (response.status_code ≡ status_of answer)
      × (after.counted
          ≡ (request.method, route_template request, decimal (status_of answer)) ∷ seen.counted)
      × (after.request_id_var ≡ outer)
unfolding finish lookup text_eq decimal
finish_lem request request_id elapsed outer (err e) seen = (refl, refl, refl, refl)
finish_lem request request_id elapsed outer (ok response) seen =
    elim (Bool-cases (is_quiet request.path)) [
      | inl quiet ↦ rw quiet (tagged, refl, refl, refl)
      | inr loud ↦ rw loud (tagged, refl, refl, refl)
    ]
  where
    tagged : lookup x_request_id (insert x_request_id request_id response.headers) ≡ some request_id
    tagged = lookup-insert x_request_id x_request_id request_id response.headers

-- Whether the routes answer or raise: the response has the caller's request id, or a fresh one where
-- the caller gave none, in its header; the id and no other was in force while the routes ran, and
-- afterwards the one from before is; the status is the routes', or 500 where they raised; and the
-- request is counted once, under its method, its route and that status.
pub dispatch_traced :
    (call_next : Text → Observed → Result Response × Observed) (fresh : Text) (elapsed : ℕ)
    (request : HttpRequest) (seen : Observed)
    → let id = text_or request.request_id fresh in
      let (answer, inner) = call_next id (record seen { request_id_var = some id }) in
      let (response, after) = dispatch call_next fresh elapsed request seen in
      (lookup x_request_id response.headers ≡ some id)
      × (response.status_code ≡ status_of answer)
      × (after.counted
          ≡ (request.method, route_template request, decimal (status_of answer)) ∷ inner.counted)
      × (after.request_id_var ≡ seen.request_id_var)
unfolding dispatch
dispatch_traced call_next fresh elapsed request seen =
    let id = text_or request.request_id fresh in
    let (answer, inner) = call_next id (record seen { request_id_var = some id }) in
    finish_lem request id elapsed seen.request_id_var answer inner
