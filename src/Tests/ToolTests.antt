-- ===== src/Tests/ToolTests.antt =====
-- The preparation of a page, the benchmark's workers and its report, a log record and the
-- retention loop, at small inputs.
use ocr_serving.Base.{
  List, ℕ, ◌+◌, ◌*◌, ◌≤◌, ◌≡◌, refl, ◌⊎◌, true, false, [], ◌∷◌, ◌++◌, arith, length, Bool, ◌||◌,
  some, none, Bool-cases, inl, inr,
}
use ocr_serving.Base.Text.{Text, codes, text_eq, text_eq_iff}
use ocr_serving.Base.Dict.{Dict, lookup}
use ocr_serving.Benchmarks.Report.{begin_mark, end_mark, build_block, patch}
use ocr_serving.Benchmarks.Report.Patch.{patch_again}
use ocr_serving.Effects.{other, ok, err}
use ocr_serving.Housekeeping.{Gauges, Round}
use ocr_serving.Logging.{LogRecord, Context, reserved_names, make_record, payload_of}
use ocr_serving.Logging.Safety.{log_safe}
use mathlib.Core.List.{Perm}
use ocr_serving.Preprocess.{isqrt, no_angle, Cv, pixels, Options, prepare}
use ocr_serving.Preprocess.Budget.{prepare-pixels}
use ocr_serving.Benchmarks.{Level, Step, Reach, here, then_step, takes, collects, returns}
use ocr_serving.Benchmarks.Requests.{upto, run_level_once}

-- An image is its height and its width.
abbrev sizes : Cv (ℕ × ℕ)
sizes = record {
  height = λ img. img.0;
  width = λ img. img.1;
  resize = λ img w h. (h, w);
  estimate_skew = λ img max_angle. record { negative = true; size = 1 };
  rotate = λ img angle. img;
  clahe = λ img. img;
  denoise = λ img. img;
}

abbrev options : Options
options = record {
  max_px = 6;
  do_deskew = true;
  deskew_max_angle = 150;
  do_clahe = true;
  do_denoise = false;
}

prepare-pixels_example :
    (pixels sizes (prepare sizes 3 (4, 6) options).0 ≤ 6)
    × ((prepare sizes 3 (4, 6) options).1 ≡ no_angle)
unfolding isqrt
prepare-pixels_example =
    prepare-pixels sizes (λ img w h. refl) (λ img w h. refl) (λ img. refl) (λ img. refl) 3 (4, 6)
      options refl (omega arith) (omega arith) (omega arith, omega arith) refl

-- One worker and one request.
over : Reach 1 1 2 (record { next = 1; idle = 1; busy = []; collected = 0 ∷ []; returned = 0 })
unfolding ocr_serving.Benchmarks.launched
over = then_step (then_step here (takes 0 refl refl)) (collects 0 [] [] refl)

run_level_once_example :
    let a : Level = record { next = 1; idle = 1; busy = []; collected = 0 ∷ []; returned = 0 } in
    (2 ≤ 2 * 1 + 1)
    × (length a.busy ≤ 1)
    × (((b : Level) × Step 1 1 a b) ⊎ ((a.returned ≡ 1) × Perm a.collected (upto 1)))
run_level_once_example =
    run_level_once 1 1 2
      (record { next = 1; idle = 1; busy = []; collected = 0 ∷ []; returned = 0 }) (omega arith)
      over

-- Logging: `msg` stands for the attributes of a record; the names it refuses are two.
abbrev attribute : Text → Bool
attribute k = text_eq k (codes "msg")

abbrev refuses : Text → Bool
refuses k = text_eq k (codes "msg") || text_eq k (codes "message")

refuses-reserved : (k : Text) → refuses k ≡ true → reserved_names attribute k ≡ true
unfolding reserved_names
refuses-reserved k h = elim (Bool-cases (text_eq k (codes "msg"))) [
  | inl same ↦ rw same refl
  | inr differ ↦ elim (Bool-cases (text_eq k (codes "message"))) [
    | inl same ↦ elim (Bool-cases (text_eq k (codes "asctime"))) [
      | inl first ↦ rw (differ, first) refl
      | inr second ↦ rw (differ, second, same) refl
    ]
    | inr also ↦ cc (h, differ, also)
  ]
]

with_underscore :
    (k name : Text)
    → reserved_names attribute (name ++ codes "_") ≡ false
    → text_eq k name ≡ true
    → reserved_names attribute (k ++ codes "_") ≡ false
with_underscore k name h same = rw ((text_eq_iff k name).0 same) h

underscore-free :
    (k : Text)
    → reserved_names attribute k ≡ true
    → reserved_names attribute (k ++ codes "_") ≡ false
unfolding reserved_names text_eq
underscore-free k h = elim (Bool-cases (text_eq k (codes "msg"))) [
  | inl same ↦ with_underscore k (codes "msg") refl same
  | inr a ↦ elim (Bool-cases (text_eq k (codes "asctime"))) [
    | inl same ↦ with_underscore k (codes "asctime") refl same
    | inr b ↦ elim (Bool-cases (text_eq k (codes "message"))) [
      | inl same ↦ with_underscore k (codes "message") refl same
      | inr c ↦ elim (Bool-cases (text_eq k (codes "taskName"))) [
        | inl same ↦ with_underscore k (codes "taskName") refl same
        | inr d ↦ cc (h, a, b, c, d)
      ]
    ]
  ]
]

abbrev log_record : LogRecord
log_record = record {
  created = codes "now";
  levelname = codes "ERROR";
  name = codes "worker";
  message = codes "page failed";
  exc_info = some (codes "ValueError: empty", codes "Traceback");
  extra = [];
}

abbrev in_job : Context
in_job = record { request_id = none; job_id = some (codes "j1") }

abbrev fields : Dict Text
fields = (codes "msg", codes "other") ∷ (codes "page", codes "3") ∷ (codes "_x", codes "1") ∷ []

log_safe_example :
    (made : LogRecord) × (make_record (reserved_names attribute) refuses log_record fields
      ≡ some made)
    × (lookup (codes "msg") (payload_of (reserved_names attribute) (codes "cpu") in_job made)
        ≡ some (codes "page failed"))
unfolding text_eq
log_safe_example =
    log_safe attribute refuses refuses-reserved underscore-free refl (codes "cpu") in_job log_record
      fields

abbrev first_block : Text
first_block = build_block [] (codes "a") (codes "b") (codes "c") (codes "d")

abbrev document : Text
document = codes "x" ++ (begin_mark ++ (end_mark ++ codes "y"))

abbrev patched : Text
patched = codes "x" ++ (first_block ++ codes "y")

abbrev gap : Text
gap = 10 ∷ 10 ∷ []

abbrev inner : Text
inner =
    begin_mark
    ++ (gap
        ++ (codes "### Serving latency and throughput"
            ++ (gap
                ++ (codes "a"
                    ++ (gap
                        ++ (codes "### Cold start"
                            ++ (gap
                                ++ (codes "b"
                                    ++ (gap
                                        ++ (codes "### Batch inference (Ray Data)"
                                            ++ (gap
                                                ++ (codes "c"
                                                    ++ (gap
                                                        ++ (codes "### Ops overhead"
                                                            ++ (gap
                                                            ++ (codes "d" ++ gap))))))))))))))))

abbrev small_block : Text
small_block = begin_mark ++ end_mark

patch_again_example :
    (patch small_block patched ≡ patch small_block document)
    × ((pre : Text) × (old : Text) × (post : Text) × (document
          ≡ pre ++ (begin_mark ++ (old ++ (end_mark ++ post))))
        × (patched ≡ pre ++ (first_block ++ post)))
unfolding patch build_block
patch_again_example =
    patch_again [] (codes "a") (codes "b") (codes "c") (codes "d") inner small_block document
      patched refl refl

-- A sweep that raises, one that removes three files, and the stop.
abbrev rounds : List Round
rounds =
    record { stopping = false; sweep = err (other (codes "OSError") (codes "disk")) }
    ∷ record {
      stopping = false;
      sweep = ok (record {
        removed = (codes "uploads", 2) ∷ (codes "results", 0) ∷ (codes "artifacts", 1) ∷ [];
        freed_bytes = 9;
        remaining_bytes = 4;
      });
    }
    ∷ record { stopping = true; sweep = err (other (codes "OSError") (codes "disk")) }
    ∷ []

abbrev gauges : Gauges
gauges = record { removed = (codes "uploads", 5) ∷ []; storage_bytes = 0 }
