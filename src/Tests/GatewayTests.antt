-- ===== src/Tests/GatewayTests.antt =====
-- The gateway around its routes, and the list of recent jobs, at small inputs.
use ocr_serving.Base.{
  ℕ, ◌≡◌, refl, Bool, true, false, Option, none, some, List, [], ◌∷◌, ◌++◌, All, arith,
}
use ocr_serving.Base.Text.{Text, codes, text_or, decimal}
use ocr_serving.Base.Dict.{Dict, lookup}
use ocr_serving.Config.{Settings, default_settings, api_key_map}
use ocr_serving.Effects.{Result, ok, Env, World}
use ocr_serving.Gateway.{Principal}
use ocr_serving.Gateway.Middleware.{
  HttpRequest, Response, routed, Observed, x_request_id, route_template, status_of, dispatch,
  dispatch_traced,
}
use ocr_serving.Gateway.Recent.{recent_jobs_own}
use ocr_serving.Database.{Database, Tables, JobRow, Request}

abbrev request : HttpRequest
request = record {
  method = codes "GET";
  path = codes "/v1/jobs";
  route = some (codes "/v1/jobs");
  request_id = codes "abc";
}

-- A route that notes the id that it sees.
abbrev route : Text → Observed → Result Response × Observed
route id seen = (
  ok (record { status_code = 200; headers = []; body = routed (codes "[]") }),
  record seen { lines = (codes "info", codes "route", seen.request_id_var) ∷ seen.lines },
)

abbrev quiet : Observed
quiet = record { request_id_var = none; counted = []; timed = []; lines = [] }

dispatch_traced_example :
    let id = text_or request.request_id (codes "fresh") in
    let (answer, inner) = route id (record quiet { request_id_var = some id }) in
    let (response, after) = dispatch route (codes "fresh") 3 request quiet in
    (lookup x_request_id response.headers ≡ some id)
    × (response.status_code ≡ status_of answer)
    × (after.counted
        ≡ (request.method, route_template request, decimal (status_of answer)) ∷ inner.counted)
    × (after.request_id_var ≡ quiet.request_id_var)
dispatch_traced_example = dispatch_traced route (codes "fresh") 3 request quiet

abbrev row_of : Text → JobRow
row_of tenant = record {
  tenant = tenant;
  filename = codes "a.pdf";
  status = codes "completed";
  page_count = 1;
  ocr_pages = 1;
  chars = 2;
  model = codes "m";
  engine = codes "e";
  attempts = 1;
  error = none;
  full_text = codes "ab";
  artifacts = codes "{}";
  created_at = none;
  started_at = none;
  completed_at = none;
  process_s = none;
}

abbrev tables : Tables
tables = record {
  jobs = (codes "j1", row_of (codes "acme")) ∷ (codes "j2", row_of (codes "bolt")) ∷ [];
  pages = [];
}

abbrev listening : Database
listening = record { enabled = true; pool = true }

abbrev earlier : Text → Text → Bool
earlier a b = true

abbrev accepting : Request → Bool
accepting r = false

abbrev silent : Env (Unit {0})
silent = record {
  unit_call = λ c s. (ok tt, s);
  text_call = λ c s. (ok [], s);
  nat_call = λ c s. (ok 0, s);
  bool_call = λ c s. (ok false, s);
  optional_call = λ c s. (ok none, s);
  dict_call = λ c s. (ok [], s);
  entries_call = λ c s. (ok [], s);
  fromisoformat = λ t. some t;
}

abbrev still : World (Unit {0})
still = record { state = tt; log = []; inflight = [] }

recent_jobs_own_example :
    All {A = Text × JobRow}
      (λ e. e.1.tenant ≡ codes "bolt")
      ((codes "j2", row_of (codes "bolt")) ∷ [])
unfolding ocr_serving.Gateway.require_api_key api_key_map ocr_serving.Base.Dict.insert
    ocr_serving.Config.partition_on ocr_serving.Gateway.Recent.recent_jobs
    ocr_serving.Base.Sort.sort_by
recent_jobs_own_example =
    recent_jobs_own silent default_settings (codes "k1:acme,k2:bolt") (codes "k2") [] still
      (record { api_key = codes "k2"; tenant = codes "bolt" }) earlier accepting listening tables 25
      ((codes "j2", row_of (codes "bolt")) ∷ []) refl refl
