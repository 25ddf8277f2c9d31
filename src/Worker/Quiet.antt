-- ===== src/Worker/Quiet.antt =====
-- `_process` and the queue: what holds of the world and is kept by every request that cannot end an
-- entry of the queue.
use ocr_serving.Base.{ℕ, ◌≡◌, refl, Bool, true, false, not, Option, none, some, List, [], ◌∷◌}
use ocr_serving.Base.Text.{Text, starts_with}
use ocr_serving.Base.Dict.{Dict}
use ocr_serving.Schemas.{JobStatus, EventType, PageResult, OcrResult}
use ocr_serving.Config.{Settings, job_key, events_stream}
use ocr_serving.Documents.{Document, open_document, open_pdf}
use ocr_serving.Postprocess.Normalize.{Unicode}
use ocr_serving.Effects.{Env, Exec, World, Call, Result, pure, perform}
use ocr_serving.Effects
use ocr_serving.Effects.Logs.{Keeps, Keeps-pure, Keeps-raise, log_rules}
use ocr_serving.Events.{
  publish, set_status, update, send_fields, update_job, expire_events, get_job, is_cancelled,
}
use ocr_serving.Queue.{QueuedJob}
use ocr_serving.Queue.Backend.{is_apart}
use ocr_serving.Worker.{announce, mark_cancelled, write_pdf, write_artifacts}
use ocr_serving.Worker.Process.{
  save_result, consume_quota, complete, check_source, check_read, check_created, process_live,
  process_found, process,
}

-- XACK and XDEL take an entry from the queue; so may a request that replaces, trims or expires a key,
-- unless the key is one of a job or of a quota.
abbrev pub settles : Call → Bool
settles (Effects.xack stream group id) = true
settles (Effects.xdel stream id) = true
settles (Effects.xadd stream fields (some n)) = not (is_apart stream)
settles (Effects.setex key n v) = not (is_apart key)
settles (Effects.expire key n) = not (is_apart key)
settles (Effects.hset_expire key fields n) = not (is_apart key)
settles (Effects.incrby_expire key n m) = not (is_apart key)
settles c = false

-- Every request that cannot end an entry keeps `P` true of the world.
pub record Quiet {S : Type 0} (env : Env S) (P : World S → Type 0) : Type 0 where
  pub unit : (c : Call) → settles c ≡ false → Keeps P (perform env.unit_call c)
  pub text : (c : Call) → settles c ≡ false → Keeps P (perform env.text_call c)
  pub nat : (c : Call) → settles c ≡ false → Keeps P (perform env.nat_call c)
  pub bool : (c : Call) → settles c ≡ false → Keeps P (perform env.bool_call c)
  pub optional : (c : Call) → settles c ≡ false → Keeps P (perform env.optional_call c)
  pub dict : (c : Call) → settles c ≡ false → Keeps P (perform env.dict_call c)

module _ {S : Type 0} (env : Env S) (s : Settings) {P : World S → Type 0} (q : Quiet env P) where
  pub unit-Keeps : (c : Call) → settles c ≡ false → Keeps P (perform env.unit_call c)
  unit-Keeps c e = q.unit c e

  pub text-Keeps : (c : Call) → settles c ≡ false → Keeps P (perform env.text_call c)
  text-Keeps c e = q.text c e

  pub nat-Keeps : (c : Call) → settles c ≡ false → Keeps P (perform env.nat_call c)
  nat-Keeps c e = q.nat c e

  bool-Keeps : (c : Call) → settles c ≡ false → Keeps P (perform env.bool_call c)
  bool-Keeps c e = q.bool c e

  optional-Keeps : (c : Call) → settles c ≡ false → Keeps P (perform env.optional_call c)
  optional-Keeps c e = q.optional c e

  dict-Keeps : (c : Call) → settles c ≡ false → Keeps P (perform env.dict_call c)
  dict-Keeps c e = q.dict c e

  ruleset quiet = (unit-Keeps, text-Keeps, nat-Keeps, bool-Keeps, optional-Keeps, dict-Keeps)

  pub set_status-Keeps :
      (job_id : Text) (status : JobStatus) (fields : List (Text × Option Text))
      → Keeps P (set_status env s job_id status fields)
  unfolding set_status is_apart starts_with job_key
  set_status-Keeps job_id status fields = search (log_rules, quiet)

  pub announce-Keeps :
      (kind : EventType) (job_id content : Text) → Keeps P (announce env s kind job_id content)
  unfolding announce publish is_apart starts_with events_stream
  announce-Keeps kind job_id content = search (log_rules, quiet)

  ruleset sent = (set_status-Keeps, announce-Keeps)

  mark_cancelled-Keeps : (job_id : Text) → Keeps P (mark_cancelled env s job_id)
  unfolding mark_cancelled expire_events is_apart starts_with events_stream
  mark_cancelled-Keeps job_id = search (log_rules, sent, quiet)

  send_fields-Keeps :
      (job_id : Text) (fields : Dict Text) → Keeps P (send_fields env s job_id fields)
  unfolding send_fields
  send_fields-Keeps job_id [] = Keeps-pure tt
  send_fields-Keeps job_id (f ∷ fs) = unit-Keeps _ refl

  update_job-Keeps :
      (job_id : Text) (fields : List (Text × Option Text))
      → Keeps P (update_job env s job_id fields)
  unfolding update_job
  update_job-Keeps job_id fields = send_fields-Keeps job_id (update [] fields)

  write_pdf-Keeps :
      (to_json : OcrResult → Text) (result : OcrResult) (source : Text) (page_texts : List Text)
      → Keeps P (write_pdf env s to_json result source page_texts)
  unfolding write_pdf
  write_pdf-Keeps to_json result source page_texts = search (log_rules, quiet)

  write_artifacts-Keeps :
      (to_json : OcrResult → Text) (result : OcrResult) (source : Text) (page_texts : List Text)
      → Keeps P (write_artifacts env s to_json result source page_texts)
  unfolding write_artifacts
  write_artifacts-Keeps to_json result source page_texts =
      search (log_rules, quiet, write_pdf-Keeps) depth 12

  save_result-Keeps : (result : OcrResult) → Keeps P (save_result env s result)
  unfolding save_result
  save_result-Keeps result = search (log_rules, quiet)

  consume_quota-Keeps : (tenant : Text) (pages : ℕ) → Keeps P (consume_quota env s tenant pages)
  unfolding consume_quota is_apart starts_with
  consume_quota-Keeps tenant pages = search (log_rules, quiet)

  check_source-Keeps : (path : Option Text) → Keeps P (check_source env s path)
  unfolding check_source
  check_source-Keeps none = Keeps-raise _
  check_source-Keeps (some source) = search (log_rules, quiet)

  open_document-Keeps : (max_pages : ℕ) (path : Text) → Keeps P (open_document env max_pages path)
  unfolding open_document open_pdf
  open_document-Keeps max_pages path = search (log_rules, quiet)

  ruleset written = (write_artifacts-Keeps, save_result-Keeps, consume_quota-Keeps, sent, quiet)

  module _ (u : Unicode) (to_json : OcrResult → Text) (elapsed : Text → Text → Option ℕ)
      (process_pages : Text → Document → Exec S (List PageResult)) (job : QueuedJob) where
    check_read-Keeps :
        (time : Text) (t : Option ℕ)
        → Keeps P (check_read env s u to_json elapsed process_pages time t)
    unfolding check_read
    check_read-Keeps time none = Keeps-raise _
    check_read-Keeps time (some n) = Keeps-pure tt

    check_created-Keeps :
        (t : Option Text) (started_at : Text)
        → Keeps P (check_created env s u to_json elapsed process_pages t started_at)
    unfolding check_created
    check_created-Keeps none started_at = Keeps-pure tt
    check_created-Keeps (some t) started_at = check_read-Keeps t (elapsed t started_at)

    complete-Keeps :
        (meta : Dict Text) (source : Text) (attempts : ℕ) (started_at : Text) (process_s : ℕ)
        (pages : List PageResult)
        → Keeps P (
            complete env s u to_json elapsed process_pages job meta source attempts started_at
              process_s pages)
    unfolding complete expire_events is_apart starts_with events_stream job_key
    complete-Keeps meta source attempts started_at process_s pages =
        search (log_rules, written, check_created-Keeps) depth 20

    module _
        (pages_keep : (job_id : Text) (document : Document)
          → Keeps P (process_pages job_id document)) where
      process_live-Keeps :
          (meta : Dict Text) → Keeps P (process_live env s u to_json elapsed process_pages job meta)
      unfolding process_live
      process_live-Keeps meta =
          search
            (
              log_rules, sent, quiet, check_source-Keeps, open_document-Keeps, update_job-Keeps,
              pages_keep, complete-Keeps,
            )
            depth 24

      process_found-Keeps :
          (meta : Dict Text)
          → Keeps P (process_found env s u to_json elapsed process_pages job meta)
      unfolding process_found is_cancelled
      process_found-Keeps meta =
          search (log_rules, quiet, mark_cancelled-Keeps, process_live-Keeps) depth 10

      -- However `_process` ends, `P` is kept: it sends no XACK and no XDEL, where the pages' processing
      -- keeps `P`.
      pub process-Keeps : Keeps P (process env s u to_json elapsed process_pages job)
      unfolding process get_job
      process-Keeps = search (log_rules, quiet, process_found-Keeps)
