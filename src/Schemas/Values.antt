-- ===== src/Schemas/Values.antt =====
-- The wire values of the enums: reading is the inverse of writing.
use ocr_serving.Base.{◌≡◌, refl, some, ◌↔◌, arith, ap, ◌∙◌}
use ocr_serving.Base.Text.{Text, codes, text_eq_iff}
use ocr_serving.Schemas.{
  JobStatus, queued, processing, completed, failed, cancelled, status_value, job_status, EventType,
  job_started, page_started, token, page_complete, progress, job_complete, job_failed,
  job_cancelled, event_value, event_type, PageSource, ocr, native, duplicate, blank, source_value,
  page_source,
}

pub job_status-value : (s : JobStatus) → job_status (status_value s) ≡ some s
unfolding job_status status_value
job_status-value queued = refl
job_status-value processing = refl
job_status-value completed = refl
job_status-value failed = refl
job_status-value cancelled = refl

value-job_status : (t : Text) (s : JobStatus) → job_status t ≡ some s → t ≡ status_value s
unfolding job_status status_value
value-job_status t s h = ground (
  arith,
  text_eq_iff t (codes "queued"),
  text_eq_iff t (codes "processing"),
  text_eq_iff t (codes "completed"),
  text_eq_iff t (codes "failed"),
  text_eq_iff t (codes "cancelled"),
)

-- A text is read as a status exactly when it is that status's value.
pub job_status_iff : (t : Text) (s : JobStatus) → (job_status t ≡ some s) ↔ (t ≡ status_value s)
job_status_iff t s = (value-job_status t s, λ e. ap job_status e ∙ job_status-value s)

pub event_type-value : (e : EventType) → event_type (event_value e) ≡ some e
unfolding event_type event_value
event_type-value job_started = refl
event_type-value page_started = refl
event_type-value token = refl
event_type-value page_complete = refl
event_type-value progress = refl
event_type-value job_complete = refl
event_type-value job_failed = refl
event_type-value job_cancelled = refl

pub page_source-value : (s : PageSource) → page_source (source_value s) ≡ some s
unfolding page_source source_value
page_source-value ocr = refl
page_source-value native = refl
page_source-value duplicate = refl
page_source-value blank = refl
