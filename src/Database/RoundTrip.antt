-- ===== src/Database/RoundTrip.antt =====
-- What `get_result` reads is what `save_result` wrote, and what the tables do not hold.
use ocr_serving.Base.{◌≡◌, refl, Bool, true, false, none, some, Option, List, [], ◌∷◌, map, ◌++◌}
use ocr_serving.Base.Text.{Text, codes, text_eq_refl, text_or, nonempty}
use ocr_serving.Base.Dict.{lookup, lookup-insert}
use ocr_serving.Base.Sort.{sort_by}
use ocr_serving.Effects.{ok}
use ocr_serving.Schemas.{job_status, PageResult, OcrResult, Artifacts}
use ocr_serving.Schemas.Values.{job_status-value}
use ocr_serving.Worker.{by_index, is_nil}
use ocr_serving.Database.{
  JobRow, PageRow, Tables, Database, is_on, Request, update_row, merged, upsert_job, delete_pages,
  pages_of, by_idx, page_row, page_results, job_row, write_pages, transaction, save_result,
  get_result, result_with,
}
use ocr_serving.Database.Rows.{
  AreDistinct, recorded_page, insert_pages_new, pages_of-append, pages_of-delete_pages,
  pages_of-page_row, page_row-fresh, sort_by-page_row, page_results-page_row,
}

-- The result as the tables hold it: pages by index, without what no column holds, and without the
-- queue wait.
abbrev pub recorded : OcrResult → OcrResult
recorded r = record r {
  pages = map recorded_page (sort_by by_index r.pages);
  timings = record r.timings { queue_wait_s = none };
}

-- The columns that `ON CONFLICT` does not update stay those of the row that is there.
abbrev pub under : Option JobRow → OcrResult → OcrResult
under none r = r
under (some old) r = record r {
  tenant = old.tenant;
  filename = old.filename;
  model = old.model;
  engine = old.engine;
  timings = record r.timings { queued_at = old.created_at; started_at = old.started_at };
}

-- Nothing is refused.
abbrev pub serves : Request → Bool
serves request = false

write_pages_lem :
    (id : Text) (ps : List PageResult) (pages : List PageRow)
    → is_nil ps ≡ false
    → AreDistinct (map (page_row id) ps)
    → write_pages serves id ps pages ≡ some (delete_pages id pages ++ map (page_row id) ps)
unfolding write_pages
write_pages_lem id [] pages some_page distinct = cc
write_pages_lem id (p ∷ ps) pages some_page distinct =
    insert_pages_new (map (page_row id) (p ∷ ps)) (delete_pages id pages) distinct
      (page_row-fresh id (p ∷ ps) pages)

pages_of-write_pages :
    (id : Text) (ps : List PageResult) (pages : List PageRow)
    → pages_of id (delete_pages id pages ++ map (page_row id) ps) ≡ map (page_row id) ps
pages_of-write_pages id ps pages =
    rw (pages_of-append id (delete_pages id pages) (map (page_row id) ps))
      (rw (pages_of-delete_pages id id pages, pages_of-page_row id id ps, text_eq_refl id) refl)

module _ (dumps : Artifacts → Text) (loads : Text → Option Artifacts)
    (is_text : (a : Artifacts) → nonempty (dumps a) ≡ true)
    (inverse : (a : Artifacts) → loads (dumps a) ≡ some a) where
  loads_or : (t : Text) → nonempty t ≡ true → loads (text_or t (codes "{}")) ≡ loads t
  loads_or [] h = cc
  loads_or (c ∷ t) h = refl

  -- The tables after a transaction that went well.
  saved : OcrResult → Tables → Tables
  saved r t = record {
    jobs = upsert_job r.job_id (job_row dumps r) t.jobs;
    pages = delete_pages r.job_id t.pages ++ map (page_row r.job_id) r.pages;
  }

  save_result_lem :
      (db : Database) (r : OcrResult) (t : Tables)
      → is_on db ≡ true
      → is_nil r.pages ≡ false
      → AreDistinct (map (page_row r.job_id) r.pages)
      → save_result serves dumps db r t ≡ saved r t
  unfolding save_result transaction saved
  save_result_lem db r t on some_page distinct =
      rw on (rw (write_pages_lem r.job_id r.pages t.pages some_page distinct) refl)

  lookup-saved :
      (r : OcrResult) (t : Tables)
      → lookup r.job_id (saved r t).jobs ≡ some (merged (lookup r.job_id t.jobs) (job_row dumps r))
  unfolding saved upsert_job
  lookup-saved r t =
      rw
        (lookup-insert r.job_id r.job_id (merged (lookup r.job_id t.jobs) (job_row dumps r)) t.jobs)
        (rw (text_eq_refl r.job_id) refl)

  pages-saved :
      (r : OcrResult) (t : Tables)
      → page_results (sort_by by_idx (pages_of r.job_id (saved r t).pages))
        ≡ ok (map recorded_page (sort_by by_index r.pages))
  unfolding saved
  pages-saved r t = rw (pages_of-write_pages r.job_id r.pages t.pages) (
      rw (sort_by-page_row r.job_id r.pages)
        (page_results-page_row r.job_id (sort_by by_index r.pages)))

  read_back :
      (r : OcrResult) (old : Option JobRow)
      → result_with serves loads r.job_id
          (merged old (job_row dumps r))
          (job_status (merged old (job_row dumps r)).status)
          (loads (text_or (merged old (job_row dumps r)).artifacts (codes "{}")))
          (ok (map recorded_page (sort_by by_index r.pages)))
        ≡ ok (some (under old (recorded r)))
  unfolding update_row
  read_back r none =
      rw (job_status-value r.status)
        (rw (loads_or (dumps r.artifacts) (is_text r.artifacts)) (rw (inverse r.artifacts) refl))
  read_back r (some old) =
      rw (job_status-value r.status)
        (rw (loads_or (dumps r.artifacts) (is_text r.artifacts)) (rw (inverse r.artifacts) refl))

  -- On a server that refuses nothing, and with `json.loads` inverse to `json.dumps` on artifacts, a
  -- saved result that has pages, with an index of its own each, is read back as it was, whatever the
  -- tables held before: its pages by index, less their resolution, size, skew, original and error,
  -- less the queue wait, and, where the job had a row already, with that row's tenant, file name,
  -- model, engine, and times of creation and start.
  pub get_result-save_result :
      (db : Database) (r : OcrResult) (t : Tables)
      → is_on db ≡ true
      → is_nil r.pages ≡ false
      → AreDistinct (map (page_row r.job_id) r.pages)
      → get_result serves loads db r.job_id (save_result serves dumps db r t)
        ≡ ok (some (under (lookup r.job_id t.jobs) (recorded r)))
  unfolding get_result
  get_result-save_result db r t on some_page distinct =
      rw (save_result_lem db r t on some_page distinct) (
        rw on (rw (lookup-saved r t) (rw (pages-saved r t) (read_back r (lookup r.job_id t.jobs)))))
