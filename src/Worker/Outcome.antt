-- ===== src/Worker/Outcome.antt =====
-- What `_run_job` does to the queue entry, by how `_process` ended.
use ocr_serving.Base.{
  ℕ, ◌≡◌, refl, ap, false, Option, none, some, List, [], ◌∷◌, ◌++◌, ◌∙◌, ◌<◌, leb, leb→le, arith,
  Bool-cases, inl, inr,
}
use ocr_serving.Base.Text.{Text, codes, text_eq_refl}
use ocr_serving.Base.Dict.{lookup, insert, lookup-erase}
use ocr_serving.Schemas.{progress, PageResult, OcrResult}
use ocr_serving.Config.{Settings, job_key, events_stream}
use ocr_serving.Documents.{Document}
use ocr_serving.Postprocess.Normalize.{Unicode}
use ocr_serving.Effects.{
  Error, unreadable, cancelled, response, http, other, Result, ok, err, Env, Exec, World, Call,
  perform, named_error, ◌>>◌,
}
use ocr_serving.Effects
use ocr_serving.Effects.Logs.{continue-pure-log}
use ocr_serving.Events.{event_fields}
use ocr_serving.Queue.{QueuedJob, ack}
use ocr_serving.Worker.{fail, settle_failure, attempts_or_one, job_event}
use ocr_serving.Worker.Process.{run_job, attempt, process, handle_error}

-- What `_run_job` treats as transient: every exception but `UnreadableDocument` and `JobCancelled`.
abbrev pub IsTransient : Error → Type 0
IsTransient (unreadable text) = ⊥
IsTransient cancelled = ⊥
IsTransient e = Unit

module _ {S : Type 0} (env : Env S) (s : Settings) (job : QueuedJob) where
  -- The calls of a retry, the latest first.
  abbrev pub retry_calls : Text → Text → List Call
  retry_calls error ts =
      Effects.xadd (events_stream job.job_id)
        (event_fields (job_event progress job.job_id (codes "retrying after error: " ++ error) ts))
        (some s.event_stream_maxlen)
      ∷ Effects.now
      ∷ Effects.hincrby (job_key job.job_id) (codes "attempts") 0
      ∷ []

  settle_retries :
      (w : World S) (error : Text) (n : ℕ) (ts : Text) (s₃ : S)
      → attempts_or_one n < s.max_attempts
      → env.text_call Effects.now w.state ≡ (ok ts, s₃)
      → (settle_failure env s job error false (attempts_or_one n) w).1.log
        ≡ Effects.xadd
            (events_stream job.job_id)
            (event_fields
              (job_event progress job.job_id (codes "retrying after error: " ++ error) ts))
            (some s.event_stream_maxlen)
          ∷ Effects.now
          ∷ w.log
  unfolding settle_failure perform
  settle_retries w error n ts s₃ spare clock =
      elim (Bool-cases (leb s.max_attempts (attempts_or_one n))) [
        | inl spent ↦ absurd (omega (arith, leb→le s.max_attempts (attempts_or_one n) spent))
        | inr left ↦ rw left (rw clock (continue-pure-log _ tt _))
      ]

  fail_retries :
      (w : World S) (error : Text) (n : ℕ) (s₂ : S) (ts : Text) (s₃ : S)
      → env.nat_call (Effects.hincrby (job_key job.job_id) (codes "attempts") 0) w.state
        ≡ (ok n, s₂)
      → attempts_or_one n < s.max_attempts
      → env.text_call Effects.now s₂ ≡ (ok ts, s₃)
      → (fail env s job error false w).1.log ≡ retry_calls error ts ++ w.log
  unfolding fail perform
  fail_retries w error n s₂ ts s₃ counted spare clock =
      rw counted (settle_retries _ error n ts s₃ spare clock)

module _ {S : Type 0} (env : Env S) (s : Settings) (u : Unicode) (to_json : OcrResult → Text)
    (elapsed : Text → Text → Option ℕ) (process_pages : Text → Document → Exec S (List PageResult))
    (job : QueuedJob) where
  -- The world in which the attempt runs.
  abbrev pub in_flight : World S → World S
  in_flight w = record w { inflight = insert job.entry_id job.job_id w.inflight }

  -- Where `_process` raised a transient error, Redis answers the count of the attempts, attempts are
  -- left and the clock can be read, all that the worker sends past `_process` is the reading of the
  -- count and a PROGRESS event that tells of the retry and the error.
  pub run_job_retries :
      (w : World S) (e : Error) (w₁ : World S) (n : ℕ) (s₂ : S) (ts : Text) (s₃ : S)
      → IsTransient e
      → process env s u to_json elapsed process_pages job (in_flight w) ≡ (err e, w₁)
      → env.nat_call (Effects.hincrby (job_key job.job_id) (codes "attempts") 0) w₁.state
        ≡ (ok n, s₂)
      → attempts_or_one n < s.max_attempts
      → env.text_call Effects.now s₂ ≡ (ok ts, s₃)
      → (run_job env s u to_json elapsed process_pages job w).1.log
        ≡ retry_calls env s job (named_error e) ts ++ w₁.log
  unfolding run_job attempt handle_error
  run_job_retries w e w₁ n s₂ ts s₃ transient failed counted spare clock =
      ap
        (λ x.
          (Effects.handled x.0 (handle_error env s u to_json elapsed process_pages job) x.1).1.log)
        stopped
      ∙ handled_transient e transient
    where
      stopped :
          (process env s u to_json elapsed process_pages job >> ack env s job.entry_id)
            (in_flight w)
          ≡ (err e, w₁)
      stopped = ap (λ x. Effects.continue x.0 (λ a. ack env s job.entry_id) x.1) failed

      handled_transient :
          (e : Error)
          → IsTransient e
          → (handle_error env s u to_json elapsed process_pages job e w₁).1.log
            ≡ retry_calls env s job (named_error e) ts ++ w₁.log
      handled_transient (unreadable text) transient = absurd transient
      handled_transient cancelled transient = absurd transient
      handled_transient (response name text) transient =
          fail_retries env s job w₁ (named_error (response name text)) n s₂ ts s₃ counted spare
            clock
      handled_transient (http code text) transient =
          fail_retries env s job w₁ (named_error (http code text)) n s₂ ts s₃ counted spare clock
      handled_transient (other name text) transient =
          fail_retries env s job w₁ (named_error (other name text)) n s₂ ts s₃ counted spare clock

  -- However an attempt ends, its entry is not in flight afterwards: the next reclaim may take it.
  pub run_job_leaves :
      (w : World S)
      → lookup job.entry_id (run_job env s u to_json elapsed process_pages job w).1.inflight ≡ none
  unfolding run_job
  run_job_leaves w = lookup-erase job.entry_id job.entry_id _ ∙ rw (text_eq_refl job.entry_id)

  -- A job that `_process` finished is acknowledged and deleted from the stream, once each and behind
  -- all that `_process` did.
  pub run_job_settles :
      (w w₁ : World S) (s₂ : S)
      → process env s u to_json elapsed process_pages job (in_flight w) ≡ (ok tt, w₁)
      → env.unit_call (Effects.xack s.queue_stream s.queue_group job.entry_id) w₁.state
        ≡ (ok tt, s₂)
      → (env.unit_call (Effects.xdel s.queue_stream job.entry_id) s₂).0 ≡ ok tt
      → (run_job env s u to_json elapsed process_pages job w).1.log
        ≡ Effects.xdel s.queue_stream job.entry_id
          ∷ Effects.xack s.queue_stream s.queue_group job.entry_id
          ∷ w₁.log
  unfolding run_job attempt ack perform
  run_job_settles w w₁ s₂ finished acked deleted = rw finished (rw acked (rw deleted refl))
