-- ===== src/Tests/DatabaseTests.antt =====
-- The tables of PostgreSQL, on a few small jobs.
use ocr_serving.Base.{
  ℕ, ◌≡◌, refl, ◌⊎◌, Bool, true, false, Option, none, some, [], ◌∷◌, map, length, arith, ◌+◌, ◌-◌,
  ◌==◌, if◌then◌else◌,
}
use ocr_serving.Base.Text.{Text, codes, text_eq, nonempty}
use ocr_serving.Base.Dict.{lookup}
use ocr_serving.Schemas.{PageResult, OcrResult, Artifacts, PageSource, ocr, native, completed}
use ocr_serving.Effects.{ok}
use ocr_serving.Database.{Database, Tables, Request, add, page_row, save_result, get_result}
use ocr_serving.Database.Rows.{AreDistinct}
use ocr_serving.Database.RoundTrip.{recorded, under, serves, get_result-save_result}
use ocr_serving.Database.Atomic.{AgreeOn, save_result_atomic}

abbrev page : ℕ → PageSource → Text → PageResult
page index source text = record {
  index = index;
  text = text;
  source = source;
  regions = 1;
  chars = length text;
  duration_ms = 12;
  ttft_s = none;
  tokens = 3;
  dpi = 150;
  width = 800;
  height = 600;
  skew_deg = 1;
  duplicate_of = none;
  error = none;
}

abbrev no_artifacts : Artifacts
no_artifacts = record { json_path = none; markdown_path = none; pdf_path = none }

abbrev two_pages : OcrResult
two_pages = record {
  job_id = codes "j1";
  status = completed;
  filename = codes "a.pdf";
  tenant = codes "acme";
  page_count = 2;
  pages = page 1 ocr (codes "b") ∷ page 0 native (codes "a") ∷ [];
  full_text = codes "ab";
  error = none;
  model = codes "m";
  engine = codes "e";
  attempts = 2;
  timings = record {
    queued_at = some (codes "t1");
    started_at = some (codes "t2");
    completed_at = some (codes "t3");
    queue_wait_s = some 4;
    process_s = some 9;
  };
  artifacts = no_artifacts;
}

-- In place of JSON: the codes of each path, moved out of the way of a 1 that ends it; 0 is no path.
put : Text → Text → Text
put [] rest = 1 ∷ rest
put (c ∷ path) rest = (c + 2) ∷ put path rest

encode : Option Text → Text → Text
encode none rest = 0 ∷ rest
encode (some path) rest = 1 ∷ put path rest

dumps : Artifacts → Text
dumps a = encode a.json_path (encode a.markdown_path (encode a.pdf_path []))

read_path : Text → Text × Text
read_path [] = ([], [])
read_path (c ∷ s) =
    let (path, rest) = read_path s in if c == 1 then ([], s) else ((c - 2) ∷ path, rest)

decode : Text → Option Text × Text
decode [] = (none, [])
decode (mark ∷ s) =
    let (path, rest) = read_path s in if mark == 0 then (none, s) else (some path, rest)

loads : Text → Option Artifacts
loads t =
    let (json, t1) = decode t in
    let (markdown, t2) = decode t1 in
    let (searchable, t3) = decode t2 in
    some (record { json_path = json; markdown_path = markdown; pdf_path = searchable })

read_path-put : (path rest : Text) → ◌≡◌ {A = Text × Text} (read_path (put path rest)) (path, rest)
unfolding read_path put
read_path-put [] rest = refl
read_path-put (c ∷ path) rest = ground (arith, read_path-put path rest)

decode-encode :
    (path : Option Text) (rest : Text)
    → ◌≡◌ {A = Option Text × Text} (decode (encode path rest)) (path, rest)
unfolding decode encode
decode-encode none rest = refl
decode-encode (some path) rest = rw (read_path-put path rest) refl

loads-dumps : (a : Artifacts) → loads (dumps a) ≡ some a
unfolding loads dumps
loads-dumps a = rw (decode-encode a.json_path (encode a.markdown_path (encode a.pdf_path []))) (
    rw (decode-encode a.markdown_path (encode a.pdf_path []))
      (rw (decode-encode a.pdf_path []) refl))

encode-nonempty : (path : Option Text) (rest : Text) → nonempty (encode path rest) ≡ true
unfolding encode
encode-nonempty none rest = refl
encode-nonempty (some path) rest = refl

dumps-nonempty : (a : Artifacts) → nonempty (dumps a) ≡ true
unfolding dumps
dumps-nonempty a = encode-nonempty a.json_path (encode a.markdown_path (encode a.pdf_path []))

abbrev on : Database
on = record { enabled = true; pool = true }

-- The first attempt's row and page are there.
abbrev before : Tables
before =
    save_result serves dumps on
      (record two_pages { attempts = 1; pages = page 0 ocr [] ∷ []; tenant = codes "old" })
      (record { jobs = []; pages = [] })

distinct : AreDistinct (map (page_row (codes "j1")) two_pages.pages)
unfolding text_eq
distinct = ((refl, tt), (tt, tt))

get_result-save_result_example :
    get_result serves loads on (codes "j1") (save_result serves dumps on two_pages before)
    ≡ ok (some (under (lookup (codes "j1") before.jobs) (recorded two_pages)))
get_result-save_result_example =
    get_result-save_result dumps loads dumps-nonempty loads-dumps on two_pages before refl refl
      distinct

abbrev no_adds : Request → Bool
no_adds add = true
no_adds _ = false

save_result_atomic_example :
    ((save_result no_adds dumps on two_pages before ≡ before)
      ⊎ (save_result no_adds dumps on two_pages before
          ≡ save_result serves dumps on two_pages before))
    × ((j : Text)
        → text_eq two_pages.job_id j ≡ false
        → AgreeOn j before (save_result no_adds dumps on two_pages before))
save_result_atomic_example = save_result_atomic dumps no_adds on two_pages before
