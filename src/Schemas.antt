-- ===== src/Schemas.antt =====
-- common/schemas.py: the enums and the models that gateway, worker and clients exchange. Times are
-- whole milliseconds or ISO texts; scores, angles and coordinates are whole numbers.
pub mod Values
use ocr_serving.Base.{ℕ, suc, Bool, true, false, Option, none, some, List, [], ◌∷◌, if◌then◌else◌}
use ocr_serving.Base.Text.{Text, codes, text_eq}

pub data JobStatus : Type 0 where
  queued processing completed failed cancelled : JobStatus

unfoldable pub status_value : JobStatus → Text
status_value queued = codes "queued"
status_value processing = codes "processing"
status_value completed = codes "completed"
status_value failed = codes "failed"
status_value cancelled = codes "cancelled"

-- `JobStatus(text)`; the ValueError is `none`.
unfoldable pub job_status : Text → Option JobStatus
unfolding text_eq
job_status s =
    if text_eq s (codes "queued")
    then some queued
    else if text_eq s (codes "processing")
    then some processing
    else if text_eq s (codes "completed")
    then some completed
    else if text_eq s (codes "failed")
    then some failed
    else if text_eq s (codes "cancelled")
    then some cancelled
    else none

-- `JobStatus.terminal`
unfoldable pub status_terminal : JobStatus → Bool
status_terminal queued = false
status_terminal processing = false
status_terminal completed = true
status_terminal failed = true
status_terminal cancelled = true

pub data EventType : Type 0 where
  job_started page_started token page_complete progress job_complete job_failed job_cancelled :
      EventType

unfoldable pub event_value : EventType → Text
event_value job_started = codes "job_started"
event_value page_started = codes "page_started"
event_value token = codes "token"
event_value page_complete = codes "page_complete"
event_value progress = codes "progress"
event_value job_complete = codes "job_complete"
event_value job_failed = codes "job_failed"
event_value job_cancelled = codes "job_cancelled"

-- `EventType(text)`; the ValueError is `none`.
unfoldable pub event_type : Text → Option EventType
unfolding text_eq
event_type s =
    if text_eq s (codes "job_started")
    then some job_started
    else if text_eq s (codes "page_started")
    then some page_started
    else if text_eq s (codes "token")
    then some token
    else if text_eq s (codes "page_complete")
    then some page_complete
    else if text_eq s (codes "progress")
    then some progress
    else if text_eq s (codes "job_complete")
    then some job_complete
    else if text_eq s (codes "job_failed")
    then some job_failed
    else if text_eq s (codes "job_cancelled")
    then some job_cancelled
    else none

-- `EventType.terminal`
unfoldable pub event_terminal : EventType → Bool
event_terminal job_complete = true
event_terminal job_failed = true
event_terminal job_cancelled = true
event_terminal _ = false

pub data PageSource : Type 0 where
  ocr native duplicate blank : PageSource

unfoldable pub source_value : PageSource → Text
source_value ocr = codes "ocr"
source_value native = codes "native"
source_value duplicate = codes "duplicate"
source_value blank = codes "blank"

-- `PageSource(text)`; the ValueError is `none`.
unfoldable pub page_source : Text → Option PageSource
unfolding text_eq
page_source s =
    if text_eq s (codes "ocr")
    then some ocr
    else if text_eq s (codes "native")
    then some native
    else if text_eq s (codes "duplicate")
    then some duplicate
    else if text_eq s (codes "blank")
    then some blank
    else none

-- `PageResult.skipped`
unfoldable pub skipped : PageSource → Bool
skipped blank = true
skipped duplicate = true
skipped _ = false

pub record Region : Type 0 where
  pub x0 : ℕ
  pub y0 : ℕ
  pub x1 : ℕ
  pub y1 : ℕ
  pub cls : Text
  pub order : ℕ
  pub score : ℕ

pub record PageResult : Type 0 where
  pub index : ℕ
  pub text : Text
  pub source : PageSource
  pub regions : ℕ
  pub chars : ℕ
  pub duration_ms : ℕ
  pub ttft_s : Option ℕ
  pub tokens : ℕ
  pub dpi : ℕ
  pub width : ℕ
  pub height : ℕ
  pub skew_deg : ℕ
  pub duplicate_of : Option ℕ
  pub error : Option Text

pub record Artifacts : Type 0 where
  pub json_path : Option Text
  pub markdown_path : Option Text
  pub pdf_path : Option Text

pub record JobTimings : Type 0 where
  pub queued_at : Option Text
  pub started_at : Option Text
  pub completed_at : Option Text
  pub queue_wait_s : Option ℕ
  pub process_s : Option ℕ

pub record OcrResult : Type 0 where
  pub job_id : Text
  pub status : JobStatus
  pub filename : Text
  pub tenant : Text
  pub page_count : ℕ
  pub pages : List PageResult
  pub full_text : Text
  pub error : Option Text
  pub model : Text
  pub engine : Text
  pub attempts : ℕ
  pub timings : JobTimings
  pub artifacts : Artifacts

-- `p.source is PageSource.OCR`
abbrev pub is_ocr : PageSource → Bool
is_ocr ocr = true
is_ocr _ = false

count_ocr : List PageResult → ℕ
count_ocr [] = 0
count_ocr (p ∷ ps) = let rest = count_ocr ps in if is_ocr p.source then suc rest else rest

-- `OCRResult.ocr_pages`
unfoldable pub ocr_pages : OcrResult → ℕ
unfolding count_ocr
ocr_pages r = count_ocr r.pages

pub record StreamEvent : Type 0 where
  pub kind : EventType
  pub job_id : Text
  pub page : Option ℕ
  pub content : Text
  pub seq : ℕ
  pub ts : Text
  pub id : Option Text

pub record JobAccepted : Type 0 where
  pub job_id : Text
  pub status : JobStatus
  pub stream_url : Text
  pub ws_url : Text
  pub result_url : Text

pub record JobState : Type 0 where
  pub job_id : Text
  pub status : JobStatus
  pub filename : Text
  pub tenant : Text
  pub attempts : ℕ
  pub pages_done : ℕ
  pub page_count : ℕ
  pub error : Option Text
  pub created_at : Option Text
  pub updated_at : Option Text
