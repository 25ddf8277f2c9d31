-- ===== src/Pages/Pool.antt =====
-- `_process_pages`: the tasks of `handle`, which run at once over the variables that they share, up to
-- the gathering of the last. Where a task stands is a `Stage`; a `Move` is what one task does between
-- two points at which others may run. Cancellation and a renderer that raises are left out.
use ocr_serving.Base.{
  ℕ, suc, ◌+◌, ◌<◌, ◌≤◌, ◌≡◌, Bool, true, false, Option, none, some, List, [], ◌∷◌, ◌++◌,
}
use ocr_serving.Base.Text.{Text}
use ocr_serving.Base.Dict.{Dict, lookup, insert}
use ocr_serving.Base.Families.{put, weigh}
use ocr_serving.Schemas.{PageResult}
use ocr_serving.Config.{Settings}
use ocr_serving.Postprocess.Normalize.{Unicode}
use ocr_serving.Pages.{
  Prepared, Reading, native_result, blank_result, duplicate_result, ocr_result, shared_text,
}

-- Where the task of a page stands: not created; created and before `page_sem`; in `_process_page`
-- before its result is known, with the page's future not yet made; with the future in `dedupe` and
-- PAGE_STARTED not yet sent; with the engine; at `await original`; with its result in `pages` and its
-- events not yet sent; returned; raised.
pub data Stage : Type 0 where
  unborn queued preparing opened reading : Stage
  copying : ℕ → Stage
  announcing finished failed : Stage

-- `page_sem` is held.
abbrev pub inside : Stage → ℕ
inside preparing = 1
inside opened = 1
inside reading = 1
inside (copying j) = 1
inside _ = 0

-- The task is in `tasks`.
abbrev pub alive : Stage → ℕ
alive unborn = 0
alive finished = 0
alive failed = 0
alive _ = 1

-- A page of the document: its text layer, or its image as `_prepare_page` leaves it.
pub data Source : Type 0 where
  text_layer : ℕ → ℕ → Text → Source
  image : ℕ → Prepared → Source

-- `dedupe`, by the number of the page whose future it is; the results of the futures; `pages`.
pub record Board : Type 0 where
  pub dedupe : Dict ℕ
  pub shared : ℕ → Option Text
  pub pages : List PageResult

abbrev pub add_page : PageResult → Board → Board
add_page p b = record b { pages = b.pages ++ p ∷ [] }

abbrev pub resolve : ℕ → Text → Board → Board
resolve i t b = record b { shared = put b.shared i (some t) }

-- `dedupe[digest] = shared`, if duplicates are looked for.
abbrev pub register : Bool → Text → ℕ → Board → Board
register true digest i b = record b { dedupe = insert digest i b.dedupe }
register false digest i b = b

-- `dedupe.get(digest) if self.s.deduplicate_pages else None`
abbrev pub original_of : Bool → Text → Board → Option ℕ
original_of true digest b = lookup digest b.dedupe
original_of false digest b = none

-- The number of pages, and the pages.
pub record Job : Type 0 where
  pub count : ℕ
  pub source : ℕ → Source

module _ (s : Settings) (u : Unicode) (job : Job) where
  pub data Move (i : ℕ) (b : Board) : Stage → Board → Stage → Type 0 where
    -- an exception before the future is made: decoding, the detector, a publish
    prepare_fails : Move i b preparing b failed
    has_text :
        {w h : ℕ} {t : Text} (ms : ℕ)
        → job.source i ≡ text_layer w h t
        → Move i b preparing (add_page (native_result u i w h t ms) b) announcing
    is_blank :
        {dpi : ℕ} {p : Prepared} (ms : ℕ)
        → job.source i ≡ image dpi p
        → p.is_blank ≡ true
        → Move i b preparing (add_page (blank_result u i dpi p ms) b) announcing
    is_copy :
        {dpi j : ℕ} {p : Prepared}
        → job.source i ≡ image dpi p
        → p.is_blank ≡ false
        → original_of s.deduplicate_pages p.digest b ≡ some j
        → Move i b preparing b (copying j)
    is_new :
        {dpi : ℕ} {p : Prepared}
        → job.source i ≡ image dpi p
        → p.is_blank ≡ false
        → original_of s.deduplicate_pages p.digest b ≡ none
        → Move i b preparing (register s.deduplicate_pages p.digest i b) opened
    -- PAGE_STARTED is published, or its publish raises
    starts : Move i b opened b reading
    start_fails : Move i b opened b failed
    reads :
        {dpi : ℕ} {p : Prepared} (r : Reading) (ms : ℕ)
        → job.source i ≡ image dpi p
        → Move i b reading
            (add_page (ocr_result u i dpi p r ms) (resolve i (shared_text u r) b))
            announcing
    -- an exception of `run_region`: the `finally` shares what was read
    read_fails : (r : Reading) → Move i b reading (resolve i (shared_text u r) b) failed
    -- the flush of the `finally` raises: the future stays unset
    flush_fails : Move i b reading b failed
    copies :
        {dpi j : ℕ} {p : Prepared} {t : Text} (ms : ℕ)
        → job.source i ≡ image dpi p
        → b.shared j ≡ some t
        → Move i b (copying j) (add_page (duplicate_result u i dpi p j t ms) b) announcing
    announces : Move i b announcing b finished
    announce_fails : Move i b announcing b failed

  pub record Pool : Type 0 where
    pub board : Board
    pub stage : ℕ → Stage
    pub spawned : ℕ
    -- the tasks that `gather` was called with
    pub gathered : Option (ℕ → Stage)

  unfoldable pub start : Pool
  start = record {
    board = record { dedupe = []; shared = λ i. none; pages = [] };
    stage = λ i. unborn;
    spawned = 0;
    gathered = none;
  }

  -- `len(tasks)`, and the holders of `page_sem`.
  abbrev pub tasks : Pool → ℕ
  tasks a = weigh alive job.count a.stage

  abbrev pub holders : Pool → ℕ
  holders a = weigh inside job.count a.stage

  pub data Step (a : Pool) : Pool → Type 0 where
    spawn :
        a.spawned < job.count
        → tasks a ≤ s.page_concurrency + s.worker_prefetch
        → Step a (record a { stage = put a.stage a.spawned queued; spawned = suc a.spawned })
    enter :
        (i : ℕ)
        → i < job.count
        → a.stage i ≡ queued
        → holders a < s.page_concurrency
        → Step a (record a { stage = put a.stage i preparing })
    move :
        (i : ℕ) {b : Board} {st : Stage}
        → i < job.count
        → Move i a.board (a.stage i) b st
        → Step a (record a { board = b; stage = put a.stage i st })
    gather :
        a.spawned ≡ job.count
        → tasks a ≤ s.page_concurrency + s.worker_prefetch
        → a.gathered ≡ none
        → Step a (record a { gathered = some a.stage })

  pub data Reach : Pool → Type 0 where
    here : Reach start
    next : {a b : Pool} → Reach a → Step a b → Reach b

  -- Every task has ended, behind the call of `gather`.
  pub record IsOver (a : Pool) : Type 0 where
    pub called : (at : ℕ → Stage) × (a.gathered ≡ some at)
    pub none_alive : tasks a ≡ 0
