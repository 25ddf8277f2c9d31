-- ===== src/Worker/Process.antt =====
-- workers/cpu_worker.py: `_process` and `_run_job`.
use ocr_serving.Base.{
  ℕ, ◌-◌, true, false, Option, none, some, List, [], ◌∷◌, ◌++◌, map, ◌||◌, if◌then◌else◌, ◌==◌,
}
use ocr_serving.Base.Text.{Text, codes, decimal}
use ocr_serving.Base.Dict.{Dict, lookup, insert, erase}
use ocr_serving.Base.Sort.{sort_by}
use ocr_serving.Schemas.{
  processing, completed, job_started, job_complete, PageResult, OcrResult, ocr_pages,
}
use ocr_serving.Config.{Settings, job_key}
use ocr_serving.Effects.{
  Error, unreadable, cancelled, Result, ok, err, Env, Exec, World, pure, raise, catch, perform,
  named_error, ◌>>=◌, ◌>>◌,
}
use ocr_serving.Effects
use ocr_serving.Events.{set_status, update_job, expire_events, get_job, is_cancelled, get_default}
use ocr_serving.Documents.{Document, open_document}
use ocr_serving.Postprocess.{merge_pages}
use ocr_serving.Postprocess.Normalize.{Unicode}
use ocr_serving.Queue.{QueuedJob, ack}
use ocr_serving.Worker.{
  is_nil, is_finished, by_index, created, timings, job_result, announce, mark_cancelled, fail,
  write_artifacts,
}

module _ {S : Type 0} (env : Env S) (s : Settings) where
  -- `Database.save_result`: off when PostgreSQL is off, and a failed write is only logged.
  unfoldable pub save_result : OcrResult → Exec S (Unit {0})
  save_result result =
      if s.postgres_enabled
      then catch (perform env.unit_call (Effects.save_job result.job_id)) (λ e. pure tt)
      else pure tt

  -- `PageQuota.consume`: the pages are charged, or the failure is only logged.
  unfoldable pub consume_quota : Text → ℕ → Exec S ℕ
  consume_quota tenant pages =
      if (s.quota_pages_per_day == 0) || (pages == 0)
      then pure 0
      else catch
          (do
            day ← perform env.text_call Effects.today
            perform env.nat_call (
                Effects.incrby_expire (codes "quota:" ++ (tenant ++ (codes ":" ++ day))) pages
                  172800))
          (λ e. pure 0)

  -- The upload must exist.
  unfoldable pub check_source : Option Text → Exec S Text
  check_source none = raise (Error.other (codes "KeyError") (codes "'path'"))
  check_source (some source) = do
    there ← perform env.bool_call (Effects.path_exists source)
    if there then pure source else raise (unreadable (codes "upload missing at " ++ source))

  -- `meta["path"]`, a KeyError if it is not there.
  abbrev pub find_source : Dict Text → Exec S Text
  find_source meta = check_source (lookup (codes "path") meta)

  module _ (u : Unicode) (to_json : OcrResult → Text) (elapsed : Text → Text → Option ℕ)
      (process_pages : Text → Document → Exec S (List PageResult)) where
    -- Seconds from the creation of the job to its start, if the time can be read.
    abbrev queue_wait : Option Text → Text → Option ℕ
    queue_wait none started_at = none
    queue_wait (some enqueued) started_at = elapsed enqueued started_at

    -- `datetime.fromisoformat(meta["created_at"])` raises on a time that cannot be read.
    unfoldable pub check_read : Text → Option ℕ → Exec S (Unit {0})
    check_read time none = raise (
        Error.other (codes "ValueError")
          (codes "Invalid isoformat string: '" ++ (time ++ codes "'")))
    check_read time (some n) = pure tt

    unfoldable pub check_created : Option Text → Text → Exec S (Unit {0})
    unfolding check_read
    check_created none started_at = pure tt
    check_created (some enqueued) started_at = check_read enqueued (elapsed enqueued started_at)

    -- `_process` from the finished pages on: the result, its artifacts, the records, and the events.
    unfoldable pub complete :
        QueuedJob → Dict Text → Text → ℕ → Text → ℕ → List PageResult → Exec S (Unit {0})
    unfolding check_created write_artifacts save_result consume_quota set_status announce
        expire_events ocr_pages
    complete job meta source attempts started_at process_s unsorted = do
      let pages = sort_by by_index unsorted
      let page_texts = map (λ p. p.text) pages
      check_created (created meta) started_at
      completed_at ← perform env.text_call Effects.now
      let result =
          job_result job.job_id (get_default (codes "filename") meta [])
            (get_default (codes "tenant") meta (codes "default")) pages (merge_pages u page_texts)
            s.model_id s.engine_base_url attempts
            (timings (created meta) started_at completed_at (queue_wait (created meta) started_at)
              process_s)
      artifacts ← write_artifacts env s to_json result source page_texts
      save_result (record result { artifacts = artifacts })
      consume_quota result.tenant (ocr_pages result)
      set_status env s job.job_id completed (
          (codes "result_path", artifacts.json_path)
          ∷ (codes "pdf_path", artifacts.pdf_path)
          ∷ (codes "markdown_path", artifacts.markdown_path)
          ∷ (codes "page_count", some (decimal result.page_count))
          ∷ (codes "completed_at", some completed_at)
          ∷ [])
      announce env s job_complete job.job_id (decimal result.page_count)
      expire_events env s job.job_id

    -- `_process` on a job that is neither finished nor cancelled.
    unfoldable pub process_live : QueuedJob → Dict Text → Exec S (Unit {0})
    unfolding set_status announce check_source open_document update_job complete
    process_live job meta = do
      attempts ← perform env.nat_call (Effects.hincrby (job_key job.job_id) (codes "attempts") 1)
      started_at ← perform env.text_call Effects.now
      set_status env s job.job_id processing (
          (codes "started_at", some started_at)
          ∷ (codes "attempts", some (decimal attempts))
          ∷ (codes "pages_done", some (decimal 0))
          ∷ [])
      announce env s job_started job.job_id []
      source ← find_source meta
      document ← open_document env s.max_pages source
      update_job env s job.job_id ((codes "page_count", some (decimal document.pages)) ∷ [])
      t0 ← perform env.nat_call Effects.perf_counter
      pages ← process_pages job.job_id document
      t1 ← perform env.nat_call Effects.perf_counter
      complete job meta source attempts started_at (t1 - t0) pages

    -- `_process` past the state of the job.
    unfoldable pub process_found : QueuedJob → Dict Text → Exec S (Unit {0})
    unfolding process_live mark_cancelled is_finished is_cancelled
    process_found job meta =
        if is_nil meta
        then raise (unreadable (codes "job state missing (expired?)"))
        else if is_finished meta
        then pure tt
        else do
          stop ← is_cancelled env s job.job_id
          if stop then mark_cancelled env s job.job_id >> raise cancelled else process_live job meta

    unfoldable pub process : QueuedJob → Exec S (Unit {0})
    unfolding get_job process_found
    process job = do meta ← get_job env s job.job_id; process_found job meta

    -- The `except` clauses of `_run_job`.
    unfoldable pub handle_error : QueuedJob → Error → Exec S (Unit {0})
    unfolding fail ack
    handle_error job (unreadable text) = fail env s job text true
    handle_error job cancelled = ack env s job.entry_id
    handle_error job e = fail env s job (named_error e) false

    -- The `try` of `_run_job`.
    unfoldable pub attempt : QueuedJob → Exec S (Unit {0})
    unfolding process handle_error ack
    attempt job = catch (process job >> ack env s job.entry_id) (handle_error job)

    -- `_run_job`: the entry is in flight during the attempt, and is taken out however that ends.
    unfoldable pub run_job : QueuedJob → Exec S (Unit {0})
    unfolding attempt
    run_job job w =
        let (r, w') =
          attempt job (record w { inflight = insert job.entry_id job.job_id w.inflight }) in
        (r, record w' { inflight = erase job.entry_id w'.inflight })
