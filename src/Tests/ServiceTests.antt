-- ===== src/Tests/ServiceTests.antt =====
-- The worker and the gateway against a small Redis: what it answers is fixed by the type of the call.
use ocr_serving.Base.{
  ℕ, suc, ◌≡◌, refl, ◌≤◌, ◌<◌, Bool, true, false, Option, none, some, List, [], ◌∷◌, ◌++◌,
  if◌then◌else◌, arith,
}
use ocr_serving.Base.Text.{Text, codes, text_eq}
use ocr_serving.Base.Dict.{Dict, lookup}
use ocr_serving.Schemas.{OcrResult, PageResult}
use ocr_serving.Config.{Settings, default_settings, job_key}
use ocr_serving.Documents.{Document}
use ocr_serving.Postprocess.Normalize.{Unicode}
use ocr_serving.Storage.{StoredBlob}
use ocr_serving.Effects.{
  Error, unreadable, http, other, Result, ok, err, Call, Env, Exec, World, pure, perform,
  error_text, named_error,
}
use ocr_serving.Effects
use ocr_serving.Queue.{QueuedJob}
use ocr_serving.Worker.Process.{run_job, process}
use ocr_serving.Worker.Outcome.{retry_calls, run_job_retries}
use ocr_serving.Worker.Failure.{leaving, failure_calls, run_job_rejects, run_job_gives_up}
use ocr_serving.Gateway.{receive}
use ocr_serving.Gateway.Jobs.{cancel, artifact}
use ocr_serving.Gateway.Tenancy.{foreign_job}
use ocr_serving.Gateway.Intake.{receive_deletes}

abbrev State : Type 0
State = Unit {0}

-- Redis with these answers for a hash and for a counter.
abbrev service : Result (Dict Text) → ℕ → Env State
service hash count = record {
  unit_call = λ c s. (ok tt, s);
  text_call = λ c s. (ok (codes "t"), s);
  nat_call = λ c s. (ok count, s);
  bool_call = λ c s. (ok false, s);
  optional_call = λ c s. (ok none, s);
  dict_call = λ c s. (hash, s);
  entries_call = λ c s. (ok [], s);
  fromisoformat = λ t. some t;
}

abbrev settings : Settings
settings = record default_settings {
  queue_stream = codes "q";
  queue_group = codes "g";
  event_ttl_s = 10;
  quota_pages_per_day = 5;
  postgres_enabled = false;
}

abbrev unicode : Unicode
unicode = record { nfkc = λ t. t; is_word = λ c. true; is_alpha = λ c. true }

abbrev to_json : OcrResult → Text
to_json r = r.full_text

abbrev elapsed : Text → Text → Option ℕ
elapsed a b = some 0

abbrev no_pages : Text → Document → Exec State (List PageResult)
no_pages job_id document = pure []

abbrev job : QueuedJob
job = record { entry_id = codes "1-0"; job_id = codes "j1"; deliveries = 1; fields = [] }

abbrev idle : World State
idle = record { state = tt; log = []; inflight = [] }

-- Redis does not answer for the hash of the job.
abbrev down : Error
down = other (codes "ConnectionError") (codes "no answer")

abbrev looked : World State
looked = record {
  state = tt;
  log = Effects.hgetall (job_key (codes "j1")) ∷ [];
  inflight = (codes "1-0", codes "j1") ∷ [];
}

run_job_retries_example :
    (run_job (service (err down) 1) settings unicode to_json elapsed no_pages job idle).1.log
    ≡ retry_calls (service (err down) 1) settings job (named_error down) (codes "t") ++ looked.log
unfolding process perform ocr_serving.Base.Dict.insert
run_job_retries_example =
    run_job_retries (service (err down) 1) settings unicode to_json elapsed no_pages job idle down
      looked 1 tt (codes "t") tt tt refl refl (omega arith) refl

run_job_gives_up_example :
    (clock ts : Text) × (run_job
        (service (err down) 3)
        settings
        unicode
        to_json
        elapsed
        no_pages
        job
        idle).1.log
      ≡ leaving (service (err down) 3) settings job (named_error down) false
        ++ (failure_calls (service (err down) 3) settings job (named_error down) clock ts
            ++ (Effects.hincrby (job_key (codes "j1")) (codes "attempts") 0 ∷ looked.log))
unfolding process run_job perform ocr_serving.Base.Dict.insert
run_job_gives_up_example =
    run_job_gives_up (service (err down) 3) settings unicode to_json elapsed no_pages job idle down
      looked 3 tt tt refl refl (omega arith) refl

abbrev expired : Error
expired = unreadable (codes "job state missing (expired?)")

run_job_rejects_example :
    (clock ts : Text) × (run_job
        (service (ok []) 1)
        settings
        unicode
        to_json
        elapsed
        no_pages
        job
        idle).1.log
      ≡ leaving (service (ok []) 1) settings job (error_text expired) true
        ++ (failure_calls (service (ok []) 1) settings job (error_text expired) clock ts
            ++ (Effects.hincrby (job_key (codes "j1")) (codes "attempts") 0 ∷ looked.log))
unfolding process run_job perform ocr_serving.Base.Dict.insert
run_job_rejects_example =
    run_job_rejects (service (ok []) 1) settings unicode to_json elapsed no_pages job idle
      (error_text expired) looked 1 tt refl refl refl

abbrev done_job : Dict Text
done_job = (codes "status", codes "completed") ∷ (codes "tenant", codes "acme") ∷ []

-- The gateway.
abbrev asked : World State
asked = record { state = tt; log = Effects.hgetall (job_key (codes "j1")) ∷ []; inflight = [] }

acme_rival : ¬ (codes "acme" ≡ codes "rival")
acme_rival e = cc

foreign_job_example :
    (cancel (service (ok done_job) 1) settings (codes "j1") (codes "rival") idle
      ≡ (err (http 404 (codes "unknown job")), asked))
    × (artifact
          (service (ok done_job) 1)
          settings
          (codes "j1")
          (codes "rival")
          (codes "pdf_path")
          idle
        ≡ (err (http 404 (codes "unknown job")), asked))
unfolding lookup text_eq
foreign_job_example =
    foreign_job (service (ok done_job) 1) settings (codes "j1") (codes "rival") (codes "pdf_path")
      done_job idle tt refl acme_rival

abbrev no_text : StoredBlob
no_text = record { key = codes "j1.png"; path = codes "u/j1.png"; size = 0; sha256 = []; head = [] }

abbrev blobs : Call → State → Result (Option StoredBlob) × State
blobs c s = (ok (some no_text), s)

receive_deletes_example :
    (l : List Call) × ((receive
        (service (ok []) 1)
        settings
        blobs
        (codes "acme")
        (codes "j1")
        (codes ".png")
        idle).1.log
      ≡ Effects.delete_blob (codes "j1.png") ∷ l)
unfolding receive perform
receive_deletes_example =
    receive_deletes (service (ok []) 1) settings blobs (codes "acme") (codes "j1") (codes ".png")
      no_text idle tt (http 400 (codes "empty upload")) refl refl
