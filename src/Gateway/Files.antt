-- ===== src/Gateway/Files.antt =====
-- gateway/main.py: the artifacts as they are sent, and the upload as it is read.
use ocr_serving.Base.{[], Option, none, some, ◌++◌}
use ocr_serving.Base.Text.{Text, codes}
use ocr_serving.Config.{Settings}
use ocr_serving.Effects.{other, Env, Exec, pure, raise, perform, ◌>>=◌}
use ocr_serving.Effects
use ocr_serving.Gateway.Jobs.{artifact}

-- A file that is sent: its path, its type and its name.
pub record FileResponse : Type 0 where
  pub path : Text
  pub media_type : Text
  pub filename : Text

module _ {S : Type 0} (env : Env S) (s : Settings) where
  -- `json.loads(…).get("full_text", "")`: the member, or empty; `none` is the exception.
  unfoldable pub sent_text : Option Text → Exec S Text
  sent_text none = raise (other (codes "JSONDecodeError") [])
  sent_text (some full_text) = pure full_text

  unfoldable pub text_artifact : (Text → Option Text) → Text → Text → Exec S Text
  unfolding artifact sent_text
  text_artifact full_text job_id tenant = do
    path ← artifact env s job_id tenant (codes "result_path")
    content ← perform env.text_call (Effects.read_file path)
    sent_text (full_text content)

  unfoldable pub markdown_artifact : Text → Text → Exec S Text
  unfolding artifact
  markdown_artifact job_id tenant = do
    path ← artifact env s job_id tenant (codes "markdown_path")
    perform env.text_call (Effects.read_file path)

  unfoldable pub pdf_artifact : Text → Text → Exec S FileResponse
  unfolding artifact
  pdf_artifact job_id tenant = do
    path ← artifact env s job_id tenant (codes "pdf_path")
    pure (record {
      path = path;
      media_type = codes "application/pdf";
      filename = job_id ++ codes ".pdf";
    })
