-- ===== src/Database.antt =====
-- common/db.py: `Database`. The tables are lists of rows, a job's row under its primary key; each SQL
-- statement of the code is the function on the tables that PostgreSQL documents for it. JSON, the
-- order of time stamps and which requests the server refuses are parameters.
pub mod Rows
pub mod RoundTrip
pub mod Atomic
pub mod Recent
use ocr_serving.Base.{
  ℕ, Bool, true, false, ◌&&◌, ◌||◌, not, Option, none, some, List, [], ◌∷◌, ◌++◌, map, take, length,
  if◌then◌else◌, ◌==◌, leb,
}
use ocr_serving.Base.Text.{Text, codes, text_eq, nonempty, text_or}
use ocr_serving.Base.Dict.{Dict, lookup, insert}
use ocr_serving.Base.Sort.{sort_by}
use ocr_serving.Schemas.{
  PageResult, OcrResult, Artifacts, JobTimings, status_value, job_status, source_value, page_source,
  ocr_pages, JobStatus, PageSource,
}
use ocr_serving.Effects.{Result, ok, err, other}

-- A row of `jobs`, less its key.
pub record JobRow : Type 0 where
  pub tenant : Text
  pub filename : Text
  pub status : Text
  pub page_count : ℕ
  pub ocr_pages : ℕ
  pub chars : ℕ
  pub model : Text
  pub engine : Text
  pub attempts : ℕ
  pub error : Option Text
  pub full_text : Text
  pub artifacts : Text
  pub created_at : Option Text
  pub started_at : Option Text
  pub completed_at : Option Text
  pub process_s : Option ℕ

-- A row of `pages`, with its key `(job_id, idx)`.
pub record PageRow : Type 0 where
  pub job_id : Text
  pub idx : ℕ
  pub source : Text
  pub regions : ℕ
  pub chars : ℕ
  pub tokens : ℕ
  pub duration_ms : ℕ
  pub ttft_s : Option ℕ
  pub text : Text

pub record Tables : Type 0 where
  pub jobs : Dict JobRow
  pub pages : List PageRow

-- `self.enabled`, and whether `self.pool` is there.
pub record Database : Type 0 where
  pub enabled : Bool
  pub pool : Bool

-- `not self.enabled or self.pool is None`, denied.
abbrev pub is_on : Database → Bool
is_on db = db.enabled && db.pool

-- What `connect` meets: the import fails, the pool or the schema raises, or all is well.
pub data Server : Type 0 where
  no_driver unreachable reachable : Server

connected : Server → Database → Bool × Database
connected no_driver db = (false, record db { enabled = false })
connected unreachable db = (false, record { enabled = false; pool = false })
connected reachable db = (true, record db { pool = true })

-- `connect`: what it returns, and the object after it.
unfoldable pub connect : Server → Database → Bool × Database
unfolding connected
connect server db = if db.enabled then connected server db else (false, db)

-- `close`
unfoldable pub close : Database → Database
close db = record db { pool = false }

-- `healthy`: `SELECT 1` gives a number, or raises.
unfoldable pub healthy : Option ℕ → Database → Bool
healthy none db = false
healthy (some n) db = is_on db && (n == 1)

-- `ON CONFLICT (job_id) DO UPDATE SET …`: the other columns stay.
unfoldable pub update_row : JobRow → JobRow → JobRow
update_row old excluded = record old {
  status = excluded.status;
  page_count = excluded.page_count;
  ocr_pages = excluded.ocr_pages;
  chars = excluded.chars;
  attempts = excluded.attempts;
  error = excluded.error;
  full_text = excluded.full_text;
  artifacts = excluded.artifacts;
  completed_at = excluded.completed_at;
  process_s = excluded.process_s;
}

abbrev pub merged : Option JobRow → JobRow → JobRow
merged none row = row
merged (some old) row = update_row old row

-- `INSERT INTO jobs … ON CONFLICT …`
unfoldable pub upsert_job : Text → JobRow → Dict JobRow → Dict JobRow
upsert_job job_id row jobs = insert job_id (merged (lookup job_id jobs) row) jobs

-- `DELETE FROM pages WHERE job_id = $1`
unfoldable pub delete_pages : Text → List PageRow → List PageRow
delete_pages job_id [] = []
delete_pages job_id (p ∷ ps) =
    let rest = delete_pages job_id ps in if text_eq p.job_id job_id then rest else p ∷ rest

abbrev pub same_key : PageRow → PageRow → Bool
same_key p q = text_eq p.job_id q.job_id && (p.idx == q.idx)

unfoldable pub has_key : PageRow → List PageRow → Bool
has_key p [] = false
has_key p (q ∷ qs) = same_key p q || has_key p qs

-- `INSERT INTO pages` for each row; a primary key that is there already is an error.
unfoldable pub insert_pages : List PageRow → List PageRow → Option (List PageRow)
unfolding has_key
insert_pages [] pages = some pages
insert_pages (p ∷ ps) pages =
    let rest = insert_pages ps (pages ++ p ∷ []) in if has_key p pages then none else rest

-- `SELECT * FROM pages WHERE job_id = $1`
unfoldable pub pages_of : Text → List PageRow → List PageRow
pages_of job_id [] = []
pages_of job_id (p ∷ ps) =
    let rest = pages_of job_id ps in if text_eq p.job_id job_id then p ∷ rest else rest

abbrev pub by_idx : PageRow → PageRow → Bool
by_idx p q = leb p.idx q.idx

-- The row of a page.
abbrev pub page_row : Text → PageResult → PageRow
page_row job_id p = record {
  job_id = job_id;
  idx = p.index;
  source = source_value p.source;
  regions = p.regions;
  chars = p.chars;
  tokens = p.tokens;
  duration_ms = p.duration_ms;
  ttft_s = p.ttft_s;
  text = p.text;
}

-- `PageResult(index=r["idx"], …)`: the fields that no column holds have their defaults, and a source
-- that is none of the enum's is a ValidationError.
abbrev page_with : PageRow → Option PageSource → Result PageResult
page_with r none = err (other (codes "ValidationError") [])
page_with r (some source) = ok (record {
  index = r.idx;
  text = r.text;
  source = source;
  regions = r.regions;
  chars = r.chars;
  duration_ms = r.duration_ms;
  ttft_s = r.ttft_s;
  tokens = r.tokens;
  dpi = 0;
  width = 0;
  height = 0;
  skew_deg = 0;
  duplicate_of = none;
  error = none;
})

abbrev pub page_result : PageRow → Result PageResult
page_result r = page_with r (page_source r.source)

abbrev add_page : Result PageResult → Result (List PageResult) → Result (List PageResult)
add_page (ok p) (ok ps) = ok (p ∷ ps)
add_page (ok p) (err e) = err e
add_page (err e) rest = err e

unfoldable pub page_results : List PageRow → Result (List PageResult)
page_results [] = ok []
page_results (r ∷ rs) = add_page (page_result r) (page_results rs)

-- What the server may refuse: the connection, a statement, or the commit.
pub data Request : Type 0 where
  acquire upsert remove add commit select_job select_pages select_recent : Request

-- The values `$2` to `$17`.
abbrev pub job_row : (Artifacts → Text) → OcrResult → JobRow
job_row dumps r = record {
  tenant = r.tenant;
  filename = r.filename;
  status = status_value r.status;
  page_count = r.page_count;
  ocr_pages = ocr_pages r;
  chars = length r.full_text;
  model = r.model;
  engine = r.engine;
  attempts = r.attempts;
  error = r.error;
  full_text = r.full_text;
  artifacts = dumps r.artifacts;
  created_at = r.timings.queued_at;
  started_at = r.timings.started_at;
  completed_at = r.timings.completed_at;
  process_s = r.timings.process_s;
}

module _ (refused : Request → Bool) where
  -- The pages of a result that has some are replaced; `none` is an exception.
  unfoldable pub write_pages : Text → List PageResult → List PageRow → Option (List PageRow)
  write_pages job_id [] pages = some pages
  write_pages job_id (p ∷ ps) pages =
      if refused remove || refused add
      then none
      else insert_pages (map (page_row job_id) (p ∷ ps)) (delete_pages job_id pages)

  module _ (dumps : Artifacts → Text) where
    abbrev end_transaction : OcrResult → Tables → Option (List PageRow) → Option Tables
    end_transaction r t none = none
    end_transaction r t (some pages) =
        if refused commit
        then none
        else some (record { jobs = upsert_job r.job_id (job_row dumps r) t.jobs; pages = pages })

    -- The transaction: the tables when it commits, or `none` when an exception rolls it back.
    unfoldable pub transaction : OcrResult → Tables → Option Tables
    unfolding write_pages
    transaction r t =
        if refused acquire || refused upsert
        then none
        else end_transaction r t (write_pages r.job_id r.pages t.pages)

    abbrev committed : Option Tables → Tables → Tables
    committed none t = t
    committed (some t') t = t'

    -- `save_result`: an exception is only logged.
    unfoldable pub save_result : Database → OcrResult → Tables → Tables
    unfolding transaction
    save_result db r t = if is_on db then committed (transaction r t) t else t

  module _ (loads : Text → Option Artifacts) where
    -- `OCRResult(…)` of a row, with the pages read.
    abbrev pub result_with :
        Text
        → JobRow
        → Option JobStatus
        → Option Artifacts
        → Result (List PageResult)
        → Result (Option OcrResult)
    result_with job_id row none artifacts pages = err (other (codes "ValueError") [])
    result_with job_id row (some status) none pages = err (other (codes "JSONDecodeError") [])
    result_with job_id row (some status) (some artifacts) (err e) = err e
    result_with job_id row (some status) (some artifacts) (ok pages) = ok (
        some (record {
          job_id = job_id;
          status = status;
          filename = row.filename;
          tenant = row.tenant;
          page_count = row.page_count;
          pages = pages;
          full_text = row.full_text;
          error = row.error;
          model = row.model;
          engine = row.engine;
          attempts = row.attempts;
          timings = record {
            queued_at = row.created_at;
            started_at = row.started_at;
            completed_at = row.completed_at;
            queue_wait_s = none;
            process_s = row.process_s;
          };
          artifacts = artifacts;
        }))

    abbrev found : Text → List PageRow → Option JobRow → Result (Option OcrResult)
    found job_id pages none = ok none
    found job_id pages (some row) =
        if refused select_pages
        then ok none
        else result_with job_id row (job_status row.status)
            (loads (text_or row.artifacts (codes "{}")))
            (page_results (sort_by by_idx (pages_of job_id pages)))

    -- `get_result`: an exception of the reads is only logged; one of the conversion is raised.
    unfoldable pub get_result : Database → Text → Tables → Result (Option OcrResult)
    get_result db job_id t =
        if not (is_on db) || refused acquire || refused select_job
        then ok none
        else found job_id t.pages (lookup job_id t.jobs)

-- `WHERE tenant = $2`
unfoldable pub of_tenant : Text → Dict JobRow → Dict JobRow
of_tenant tenant [] = []
of_tenant tenant ((j, row) ∷ jobs) =
    let rest = of_tenant tenant jobs in if text_eq row.tenant tenant then (j, row) ∷ rest else rest

-- `if tenant`: no tenant, or an empty one, selects every job.
unfoldable pub selected : Option Text → Dict JobRow → Dict JobRow
unfolding of_tenant
selected none jobs = jobs
selected (some []) jobs = jobs
selected (some (c ∷ tenant)) jobs = of_tenant (c ∷ tenant) jobs

module _ (later : Text → Text → Bool) where
  -- `DESC NULLS LAST`
  abbrev pub nulls_last : Option Text → Option Text → Bool
  nulls_last (some r) (some s) = later r s
  nulls_last (some r) none = true
  nulls_last none none = true
  nulls_last none (some s) = false

  -- `ORDER BY created_at`
  abbrev pub by_created : Text × JobRow → Text × JobRow → Bool
  by_created (j, a) (k, b) = nulls_last a.created_at b.created_at

  module _ (refused : Request → Bool) where
    -- `recent`
    unfoldable pub recent : Database → Option Text → ℕ → Tables → Dict JobRow
    unfolding selected
    recent db tenant limit t =
        if not (is_on db) || refused acquire || refused select_recent
        then []
        else take limit (sort_by by_created (selected tenant t.jobs))
