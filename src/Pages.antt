-- ===== src/Pages.antt =====
-- workers/cpu_worker.py: `_prepare_page` and the work of `_process_page` on one page: what it reads
-- and the `PageResult` that it makes of it. The pool of pages that runs them is the child Pool. Image
-- processing (to_bgr, prepare, is_blank, page_hash) answers through `Prepared`; floats are counted in
-- thousandths; metrics and logging are left out.
pub mod Pool
pub mod Regions
pub mod Bounds
pub mod Progress
pub mod Results
pub mod Faithful
pub mod Copies
pub mod Once
pub mod Made
pub mod Waiting
pub mod Stuck
pub mod Orphans
use ocr_serving.Base.{
  ℕ, zero, suc, ◌+◌, ◌*◌, min, Bool, true, false, Option, none, some, List, [], ◌∷◌, ◌++◌, map,
  length, take, if◌then◌else◌, ◌==◌,
}
use ocr_serving.Base.Text.{Text, codes, nonempty}
use ocr_serving.Schemas.{Region, PageResult, ocr, native, duplicate, blank}
use ocr_serving.Config.{Settings}
use ocr_serving.Layout.{detect, tile}
use ocr_serving.Engine.{StreamStats}
use ocr_serving.Postprocess.{stitch_regions, filter_degenerate, join}
use ocr_serving.Postprocess.Normalize.{Unicode, normalize_text}

-- `RenderedPage`; the image of a page without a text layer has the type `I`.
pub record RenderedPage (I : Type 0) : Type 0 where
  pub index : ℕ
  pub png : Option I
  pub dpi : ℕ
  pub width : ℕ
  pub height : ℕ
  pub native_text : Option Text

-- What `_prepare_page`, `is_blank` and `page_hash` find on an image.
pub record Prepared : Type 0 where
  pub width : ℕ
  pub height : ℕ
  pub skew : ℕ
  pub is_blank : Bool
  pub digest : Text
  pub regions : List Region

-- `_prepare_page` behind `prepare`, which gave an image of this size: `found` is the answer of the
-- detector's session. `none` is a loop of `tile` that does not end.
unfoldable pub prepare_page :
    Settings → ℕ → ℕ → Option (Option (List Region)) → Option (List Region)
unfolding detect tile
prepare_page s w h found = tile s.tile_max_height s.tile_overlap (detect w h found)

-- What the tasks of `run_region` have gathered: the variables of `_process_page` that they share.
pub record Reading : Type 0 where
  pub texts : List Text
  pub ttfts : List ℕ
  pub tokens : ℕ
  pub errors : List Text

abbrev pub empty_texts : ℕ → List Text
empty_texts zero = []
empty_texts (suc n) = [] ∷ empty_texts n

-- `[""] * len(regions)` and the empty lists.
abbrev pub no_reading : ℕ → Reading
no_reading n = record { texts = empty_texts n; ttfts = []; tokens = 0; errors = [] }

-- `texts[position] = text`
unfoldable pub set_text : ℕ → Text → List Text → List Text
set_text p t [] = []
set_text zero t (x ∷ xs) = t ∷ xs
set_text (suc p) t (x ∷ xs) = x ∷ set_text p t xs

abbrev pub read_text : ℕ → StreamStats → Reading → Reading
read_text position stats r = record r {
  texts = set_text position stats.text r.texts;
  tokens = r.tokens + stats.completion_tokens;
  ttfts = if stats.ttft_s == 0 then r.ttfts else r.ttfts ++ stats.ttft_s ∷ [];
}

-- `if stats.error`: an empty error is none.
abbrev pub take_error : Option Text → ℕ → StreamStats → Reading → Reading
take_error none position stats r = read_text position stats r
take_error (some []) position stats r = read_text position stats r
take_error (some (c ∷ e)) position stats r = record r { errors = r.errors ++ (c ∷ e) ∷ [] }

-- `run_region` behind the request to the engine.
unfoldable pub run_region : ℕ × StreamStats → Reading → Reading
unfolding set_text
run_region (position, stats) r = take_error stats.error position stats r

-- The regions, in the order in which their requests end.
unfoldable pub run_regions : List (ℕ × StreamStats) → Reading → Reading
unfolding run_region
run_regions [] r = r
run_regions (x ∷ xs) r = run_regions xs (run_region x r)

-- `min(ttfts) if ttfts else None`
unfoldable pub least : List ℕ → Option ℕ
least [] = none
least (t ∷ ts) = elim (least ts) [ none ↦ some t | some m ↦ some (min t m) ]

-- `text or None`
abbrev pub text_or_none : Text → Option Text
text_or_none [] = none
text_or_none (c ∷ t) = some (c ∷ t)

module _ (u : Unicode) where
  -- The result of a page that has a text layer.
  unfoldable pub native_result : ℕ → ℕ → ℕ → Text → ℕ → PageResult
  native_result index width height native_text duration_ms =
      let text = normalize_text u native_text in
      record {
        index = index;
        text = text;
        source = native;
        regions = 0;
        chars = length text;
        duration_ms = duration_ms;
        ttft_s = none;
        tokens = 0;
        dpi = 0;
        width = width;
        height = height;
        skew_deg = 0;
        duplicate_of = none;
        error = none;
      }

  unfoldable pub blank_result : ℕ → ℕ → Prepared → ℕ → PageResult
  blank_result index dpi p duration_ms = record {
    index = index;
    text = [];
    source = blank;
    regions = 0;
    chars = 0;
    duration_ms = duration_ms;
    ttft_s = none;
    tokens = 0;
    dpi = dpi;
    width = p.width;
    height = p.height;
    skew_deg = p.skew;
    duplicate_of = none;
    error = none;
  }

  -- The result of a duplicate: `text` is what the future of the page `original` holds.
  unfoldable pub duplicate_result : ℕ → ℕ → Prepared → ℕ → Text → ℕ → PageResult
  duplicate_result index dpi p original text duration_ms = record {
    index = index;
    text = text;
    source = duplicate;
    regions = 0;
    chars = length text;
    duration_ms = duration_ms;
    ttft_s = none;
    tokens = 0;
    dpi = dpi;
    width = p.width;
    height = p.height;
    skew_deg = p.skew;
    duplicate_of = some original;
    error = none;
  }

  -- What the future of a page is set to.
  unfoldable pub shared_text : Reading → Text
  unfolding stitch_regions
  shared_text r = stitch_regions u r.texts true

  -- The result of a page that the engine read.
  unfoldable pub ocr_result : ℕ → ℕ → Prepared → Reading → ℕ → PageResult
  unfolding shared_text filter_degenerate
  ocr_result index dpi p r duration_ms =
      let text = (filter_degenerate (shared_text r)).0 in
      record {
        index = index;
        text = text;
        source = ocr;
        regions = length p.regions;
        chars = length text;
        duration_ms = duration_ms;
        ttft_s = least r.ttfts;
        tokens = r.tokens;
        dpi = dpi;
        width = p.width;
        height = p.height;
        skew_deg = p.skew;
        duplicate_of = none;
        error = text_or_none (take 500 (join (codes "; ") r.errors));
      }
