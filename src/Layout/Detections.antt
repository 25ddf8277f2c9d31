-- ===== src/Layout/Detections.antt =====
-- workers/layout.py: `decode_detections` and the `np.squeeze` in front of it. A value of the output
-- tensor is a whole number of thousandths. Corners are kept in two thousandths of a pixel, since half a
-- width is taken of them; one to the left of the canvas or above it counts as on its edge, to which the
-- source clamps it later. `scale` is a fraction. NMSBoxes of OpenCV is a parameter: it gives indices.
use ocr_serving.Base.{
  ℕ, zero, suc, ◌+◌, ◌-◌, ◌*◌, ◌/◌, min, Bool, Option, none, some, List, [], ◌∷◌, ◌++◌, ◌||◌, ◌&&◌,
  not, map, length, get_elem?, if◌then◌else◌, ltb, leb, ◌==◌,
}
use ocr_serving.Base.Text.{Text, codes, text_eq}
use ocr_serving.Schemas.{Region}

-- `CLASS_NAMES`
abbrev pub class_names : List Text
class_names =
    codes "title"
    ∷ codes "text"
    ∷ codes "abandon"
    ∷ codes "figure"
    ∷ codes "figure_caption"
    ∷ codes "table"
    ∷ codes "table_caption"
    ∷ codes "table_footnote"
    ∷ codes "formula"
    ∷ codes "formula_caption"
    ∷ []

-- `name in SKIP_CLASSES`
unfoldable pub skipped : Text → Bool
unfolding text_eq
skipped name = text_eq name (codes "abandon") || text_eq name (codes "figure")

-- `MIN_REGION_PX`
abbrev pub min_region_px : ℕ
min_region_px = 16

abbrev pub Matrix : Type 0
Matrix = List (List ℕ)

abbrev pub columns : Matrix → ℕ
columns [] = 0
columns (row ∷ rows) = length row

-- What `np.squeeze` leaves of the output without its batch: one row, or one column, is no matrix.
pub data Raw : Type 0 where
  vector : Raw
  matrix : Matrix → Raw

unfoldable pub squeeze : Matrix → Raw
squeeze m = if (length m == 1) || (columns m == 1) then vector else matrix m

abbrev pub entry : List ℕ → ℕ → ℕ
entry row i = elim (get_elem? row i) [ none ↦ 0 | some x ↦ x ]

-- The first `n` columns, as rows.
unfoldable pub transpose_to : ℕ → Matrix → Matrix
transpose_to zero m = []
transpose_to (suc n) m = transpose_to n m ++ map (λ row. entry row n) m ∷ []

pub record Box : Type 0 where
  pub x0 : ℕ
  pub y0 : ℕ
  pub x1 : ℕ
  pub y1 : ℕ
  pub score : ℕ
  pub class_id : ℕ

-- A row of the layout with six columns.
unfoldable pub corner_box : List ℕ → Box
corner_box row = record {
  x0 = 2 * entry row 0;
  y0 = 2 * entry row 1;
  x1 = 2 * entry row 2;
  y1 = 2 * entry row 3;
  score = entry row 4;
  class_id = entry row 5 / 1000;
}

-- `argmax` and `max`: the first of the largest.
unfoldable pub best_class : ℕ → ℕ × ℕ → List ℕ → ℕ × ℕ
best_class i best [] = best
best_class i (j, top) (x ∷ xs) = best_class (suc i) (if ltb top x then (i, x) else (j, top)) xs

-- A row of the layout with a centre, a size and a score for each class.
unfoldable pub centre_box : List ℕ → Box
unfolding best_class
centre_box (cx ∷ cy ∷ bw ∷ bh ∷ s ∷ scores) =
    let (class_id, score) = best_class 1 (0, s) scores in
    record {
      x0 = 2 * cx - bw;
      y0 = 2 * cy - bh;
      x1 = 2 * cx + bw;
      y1 = 2 * cy + bh;
      score = score;
      class_id = class_id;
    }
centre_box row = record { x0 = 0; y0 = 0; x1 = 0; y1 = 0; score = 0; class_id = 0 }

-- `boxes[scores >= score_threshold]`
unfoldable pub confident : ℕ → List Box → List Box
confident threshold [] = []
confident threshold (b ∷ bs) =
    let rest = confident threshold bs in if leb threshold b.score then b ∷ rest else rest

-- `boxes[sel]`
unfoldable pub picked : List Box → List ℕ → List Box
picked bs [] = []
picked bs (i ∷ is) =
    let rest = picked bs is in elim (get_elem? bs i) [ none ↦ rest | some b ↦ b ∷ rest ]

-- The letterbox: the scale as a fraction, and the padding in pixels.
pub record Letterbox : Type 0 where
  pub num : ℕ
  pub den : ℕ
  pub pad_x : ℕ
  pub pad_y : ℕ

-- A corner in the units of `Box`, less the padding, in page pixels: `math.floor` and `math.ceil`.
abbrev pub near : ℕ → ℕ → ℕ → ℕ → ℕ
near num den pad x = (x - 2000 * pad) * den / (2000 * num)

abbrev pub far : ℕ → ℕ → ℕ → ℕ → ℕ
far num den pad x = ((x - 2000 * pad) * den + (2000 * num - 1)) / (2000 * num)

-- `CLASS_NAMES[cls_id] if 0 <= cls_id < len(CLASS_NAMES) else "text"`
unfoldable pub class_name : ℕ → Text
class_name i = elim (get_elem? class_names i) [ none ↦ codes "text" | some name ↦ name ]

-- The body of the loop over the boxes; `none` is `continue`.
unfoldable pub region_of : Letterbox → ℕ → ℕ → Box → Option Region
unfolding skipped class_name
region_of l width height b =
    let x0 = near l.num l.den l.pad_x b.x0 in
    let y0 = near l.num l.den l.pad_y b.y0 in
    let x1 = min (far l.num l.den l.pad_x b.x1) width in
    let y1 = min (far l.num l.den l.pad_y b.y1) height in
    if skipped (class_name b.class_id)
      || (ltb (x1 - x0) min_region_px || ltb (y1 - y0) min_region_px)
    then none
    else some (record {
      x0 = x0;
      y0 = y0;
      x1 = x1;
      y1 = y1;
      cls = class_name b.class_id;
      order = 0;
      score = b.score;
    })

unfoldable pub regions_of : Letterbox → ℕ → ℕ → List Box → List Region
unfolding region_of
regions_of l width height [] = []
regions_of l width height (b ∷ bs) =
    let rest = regions_of l width height bs in
    elim (region_of l width height b) [ none ↦ rest | some r ↦ r ∷ rest ]

module _ (nms : List Box → List ℕ) where
  -- The boxes of a matrix that are confident and kept; one layout has no suppression of its own yet.
  unfoldable pub kept_boxes : ℕ → Matrix → List Box
  unfolding confident picked corner_box centre_box transpose_to
  kept_boxes threshold m =
      if (columns m == 6) && not (length m == 14)
      then confident threshold (map corner_box m)
      else let pred =
          if (length m == 14) || ltb (length m) (columns m)
          then transpose_to (columns m) m
          else m in
        let bs = confident threshold (map centre_box pred) in picked bs (nms bs)

  -- `decode_detections`; the ValueError is `none`.
  unfoldable pub decode_detections : Letterbox → ℕ → ℕ → ℕ → Raw → Option (List Region)
  unfolding kept_boxes regions_of
  decode_detections l width height threshold vector = none
  decode_detections l width height threshold (matrix m) =
      some (regions_of l width height (kept_boxes threshold m))

  -- `_detect_onnx` behind the session's answer.
  unfoldable pub detect_onnx : Letterbox → ℕ → ℕ → ℕ → Matrix → Option (List Region)
  unfolding squeeze decode_detections
  detect_onnx l width height threshold m = decode_detections l width height threshold (squeeze m)
