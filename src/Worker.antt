-- ===== src/Worker.antt =====
-- workers/cpu_worker.py: the life of a job in the worker, from delivery to acknowledgement. Logging
-- and Prometheus counters are left out.
pub mod Outcome
pub mod Process
pub mod Quiet
pub mod Owed
pub mod Unsettled
pub mod Redelivery
pub mod Failure
use ocr_serving.Base.{
  ℕ, suc, ◌*◌, ◌-◌, Bool, true, false, Option, none, some, List, [], ◌∷◌, ◌++◌, map, length, ◌&&◌,
  ◌||◌, not, if◌then◌else◌, leb, ltb, ◌==◌,
}
use ocr_serving.Base.Text.{Text, codes, text_eq, decimal, nonempty}
use ocr_serving.Base.Dict.{Dict, lookup, insert, erase}
use ocr_serving.Base.Sort.{sort_by}
use ocr_serving.Base.Strip.{strip}
use ocr_serving.Schemas.{
  JobStatus, processing, completed, failed, status_value, EventType, job_started, progress,
  job_complete, job_failed, job_cancelled, StreamEvent, PageResult, Artifacts, JobTimings,
  OcrResult, ocr_pages,
}
use ocr_serving.Schemas
use ocr_serving.Config.{Settings, job_key, results_dir, artifacts_dir}
use ocr_serving.Effects.{
  Error, unreadable, cancelled, Result, ok, err, Env, Exec, World, pure, raise, catch, perform,
  error_text, ◌>>=◌, ◌>>◌,
}
use ocr_serving.Effects
use ocr_serving.Events.{
  publish, set_status, update_job, expire_events, get_job, is_cancelled, get_default, get_or,
}
use ocr_serving.Documents.{Document, open_document}
use ocr_serving.Postprocess.{merge_pages, to_markdown}
use ocr_serving.Postprocess.Normalize.{Unicode}
use ocr_serving.Queue.{QueuedJob, ack, dead_letter}

-- `StreamEvent(type=…, job_id=…, data=…)`, with the time of its creation.
unfoldable pub job_event : EventType → Text → Text → Text → StreamEvent
job_event kind job_id content ts = record {
  kind = kind;
  job_id = job_id;
  page = none;
  content = content;
  seq = 0;
  ts = ts;
  id = none;
}

-- `meta.get("status") in {COMPLETED, CANCELLED}`
unfoldable pub is_finished : Dict Text → Bool
unfolding text_eq
is_finished meta = elim (lookup (codes "status") meta) [
  | none ↦ false
  | some v ↦ text_eq v (status_value completed) || text_eq v (status_value Schemas.cancelled)
]

abbrev pub is_nil {ℓ} : {A : Type ℓ} → List A → Bool
is_nil [] = true
is_nil (x ∷ xs) = false

-- `pages.sort(key=lambda p: p.index)`
abbrev pub by_index : PageResult → PageResult → Bool
by_index p q = leb p.index q.index

abbrev pub written_artifacts : Option Text → Option Text → Option Text → Artifacts
written_artifacts json_path markdown_path pdf_path = record {
  json_path = json_path;
  markdown_path = markdown_path;
  pdf_path = pdf_path;
}

-- `meta.get("created_at")`, where it is not empty.
abbrev pub non_blank : Option Text → Option Text
non_blank none = none
non_blank (some []) = none
non_blank (some (c ∷ t)) = some (c ∷ t)

abbrev pub created : Dict Text → Option Text
created meta = non_blank (lookup (codes "created_at") meta)

abbrev pub timings : Option Text → Text → Text → Option ℕ → ℕ → JobTimings
timings queued_at started_at completed_at queue_wait process_s = record {
  queued_at = queued_at;
  started_at = some started_at;
  completed_at = some completed_at;
  queue_wait_s = queue_wait;
  process_s = some process_s;
}

-- The `OCRResult(…)` of `_process`.
unfoldable pub job_result :
    Text → Text → Text → List PageResult → Text → Text → Text → ℕ → JobTimings → OcrResult
job_result job_id filename tenant pages full_text model engine attempts times = record {
  job_id = job_id;
  status = completed;
  filename = filename;
  tenant = tenant;
  page_count = length pages;
  pages = pages;
  full_text = full_text;
  error = none;
  model = model;
  engine = engine;
  attempts = attempts;
  timings = times;
  artifacts = record { json_path = none; markdown_path = none; pdf_path = none };
}

-- `int(await hincrby(…, 0) or 1)`
abbrev pub attempts_or_one : ℕ → ℕ
attempts_or_one n = if n == 0 then 1 else n

module _ {S : Type 0} (env : Env S) (s : Settings) where
  -- `publish` of an event of the whole job.
  unfoldable pub announce : EventType → Text → Text → Exec S Text
  unfolding publish job_event
  announce kind job_id content = do
    ts ← perform env.text_call Effects.now
    publish env s (job_event kind job_id content ts)

  unfoldable pub mark_cancelled : Text → Exec S (Unit {0})
  unfolding set_status announce expire_events
  mark_cancelled job_id = do
    set_status env s job_id Schemas.cancelled []
    announce job_cancelled job_id []
    expire_events env s job_id

  -- The body of the `if` of `_fail`.
  unfoldable pub give_up : QueuedJob → Text → Bool → Exec S (Unit {0})
  unfolding set_status announce expire_events ack dead_letter
  give_up job error permanent = do
    set_status env s job.job_id failed ((codes "error", some error) ∷ [])
    announce job_failed job.job_id error
    expire_events env s job.job_id
    if permanent then ack env s job.entry_id else dead_letter env s job error

  -- `_fail` past the count of the attempts.
  unfoldable pub settle_failure : QueuedJob → Text → Bool → ℕ → Exec S (Unit {0})
  unfolding give_up announce
  settle_failure job error permanent attempts =
      if permanent || leb s.max_attempts attempts
      then give_up job error permanent
      else (do announce progress job.job_id (codes "retrying after error: " ++ error); pure tt)

  unfoldable pub fail : QueuedJob → Text → Bool → Exec S (Unit {0})
  unfolding settle_failure
  fail job error permanent = do
    attempts ← perform env.nat_call (Effects.hincrby (job_key job.job_id) (codes "attempts") 0)
    settle_failure job error permanent (attempts_or_one attempts)

  -- `_write_artifacts`: the Markdown, the searchable PDF if it can be built, and last the JSON.
  -- `to_json` is pydantic's `model_dump_json`.
  module _ (to_json : OcrResult → Text) where
    abbrev in_results : Text → Text → Text
    in_results dir name = dir ++ (codes "/" ++ name)

    -- The searchable PDF; a failure to build it costs the artifact only.
    unfoldable pub write_pdf : OcrResult → Text → List Text → Exec S (Option Text)
    unfolding strip
    write_pdf result source page_texts =
        let pdf_path = in_results (artifacts_dir s) (result.job_id ++ codes ".pdf") in
        if s.searchable_pdf && nonempty (strip result.full_text)
        then catch
            (perform env.unit_call (Effects.searchable_pdf source page_texts pdf_path)
              >> pure (some pdf_path))
            (λ e. pure none)
        else pure none

    unfoldable pub write_artifacts : OcrResult → Text → List Text → Exec S Artifacts
    unfolding write_pdf to_markdown
    write_artifacts result source page_texts = do
      let json_path = in_results (results_dir s) (result.job_id ++ codes ".json")
      let md_path = in_results (artifacts_dir s) (result.job_id ++ codes ".md")
      perform env.unit_call
          (Effects.write_file md_path (to_markdown result.job_id result.filename page_texts))
      pdf ← write_pdf result source page_texts
      let artifacts = written_artifacts (some json_path) (some md_path) pdf
      perform env.unit_call
          (Effects.write_file json_path (to_json (record result { artifacts = artifacts })))
      pure artifacts
