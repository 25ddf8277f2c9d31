-- ===== src/Worker/Redelivery.antt =====
-- At-least-once delivery: a job whose attempt failed for a transient reason keeps its queue entry.
use ocr_serving.Base.{ℕ, ◌≡◌, refl, Option, List, ◌<◌, sym, subst}
use ocr_serving.Base.Text.{Text, codes}
use ocr_serving.Schemas.{PageResult, OcrResult}
use ocr_serving.Config.{Settings, job_key}
use ocr_serving.Documents.{Document}
use ocr_serving.Postprocess.Normalize.{Unicode}
use ocr_serving.Effects.{Error, Result, ok, err, Env, Exec, World, error_text}
use ocr_serving.Effects
use ocr_serving.Effects.Logs.{Preserves}
use ocr_serving.Queue.{QueuedJob}
use ocr_serving.Worker.{attempts_or_one}
use ocr_serving.Worker.Process.{run_job, process}
use ocr_serving.Worker.Outcome.{IsTransient, in_flight, run_job_retries}
use ocr_serving.Worker.Unsettled.{Unsettled, process-Unsettled}

module _ {S : Type 0} (env : Env S) (s : Settings) (u : Unicode) (to_json : OcrResult → Text)
    (elapsed : Text → Text → Option ℕ) (process_pages : Text → Document → Exec S (List PageResult))
    (job : QueuedJob)
    (pages_keep : (job_id : Text) (document : Document)
      → Preserves Unsettled (process_pages job_id document)) where
  -- Let the processing of the pages send neither XACK nor XDEL. Where `_process` raised a transient
  -- error, Redis answers the count of the attempts, attempts are left and the clock can be read, the
  -- whole of `_run_job` has sent neither either, if none had been sent before.
  pub run_job_redelivers :
      (w : World S) (e : Error) (w₁ : World S) (n : ℕ) (s₂ : S) (ts : Text) (s₃ : S)
      → Unsettled w.log
      → IsTransient e
      → process env s u to_json elapsed process_pages job
          (in_flight env s u to_json elapsed process_pages job w)
        ≡ (err e, w₁)
      → env.nat_call (Effects.hincrby (job_key job.job_id) (codes "attempts") 0) w₁.state
        ≡ (ok n, s₂)
      → attempts_or_one n < s.max_attempts
      → env.text_call Effects.now s₂ ≡ (ok ts, s₃)
      → Unsettled (run_job env s u to_json elapsed process_pages job w).1.log
  unfolding ocr_serving.Queue.Backend.is_apart ocr_serving.Config.events_stream
  run_job_redelivers w e w₁ n s₂ ts s₃ before transient stopped counted spare clock =
      subst Unsettled
        (sym (
          run_job_retries env s u to_json elapsed process_pages job w e w₁ n s₂ ts s₃ transient
            stopped counted spare clock))
        (refl, (refl, (refl, kept)))
    where
      kept : Unsettled w₁.log
      kept =
          subst (λ x. Unsettled x.1.log) stopped
            ((process-Unsettled env s u to_json elapsed process_pages job pages_keep).at _ before)
