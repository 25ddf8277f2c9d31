-- ===== src/Worker/Unsettled.antt =====
-- The calls of `_process`: none takes the job's entry from the stream.
use ocr_serving.Base.{ℕ, ◌≡◌, Option, List, false, All}
use ocr_serving.Base.Text.{Text}
use ocr_serving.Schemas.{PageResult, OcrResult}
use ocr_serving.Config.{Settings}
use ocr_serving.Documents.{Document}
use ocr_serving.Postprocess.Normalize.{Unicode}
use ocr_serving.Effects.{Env, Exec, Call}
use ocr_serving.Effects.Logs.{Preserves, Preserves-perform}
use ocr_serving.Queue.{QueuedJob}
use ocr_serving.Worker.Process.{process}
use ocr_serving.Worker.Quiet.{settles, Quiet, process-Keeps}

abbrev pub Unsettled : List Call → Type 0
Unsettled l = All (λ c. settles c ≡ false) l

module _ {S : Type 0} (env : Env S) (s : Settings) where
  Unsettled-Quiet : Quiet env (λ w. Unsettled w.log)
  Unsettled-Quiet = record {
    unit = λ c e. Preserves-perform env.unit_call c (λ l h. (e, h));
    text = λ c e. Preserves-perform env.text_call c (λ l h. (e, h));
    nat = λ c e. Preserves-perform env.nat_call c (λ l h. (e, h));
    bool = λ c e. Preserves-perform env.bool_call c (λ l h. (e, h));
    optional = λ c e. Preserves-perform env.optional_call c (λ l h. (e, h));
    dict = λ c e. Preserves-perform env.dict_call c (λ l h. (e, h));
  }

  module _ (u : Unicode) (to_json : OcrResult → Text) (elapsed : Text → Text → Option ℕ)
      (process_pages : Text → Document → Exec S (List PageResult)) (job : QueuedJob) where
    -- However `_process` ends, it has sent no XACK and no XDEL, where the pages' processing sends none.
    pub process-Unsettled :
        ((job_id : Text) (document : Document)
          → Preserves Unsettled (process_pages job_id document))
        → Preserves Unsettled (process env s u to_json elapsed process_pages job)
    process-Unsettled pages_keep =
        process-Keeps env s Unsettled-Quiet u to_json elapsed process_pages job pages_keep
