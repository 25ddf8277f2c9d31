-- ===== src/Layout.antt =====
-- workers/layout.py: reading order by recursive XY-cut, tiling of tall regions, the crop window, and
-- the filter on decoded detections. Coordinates are page pixels, which `decode_detections` clamps to
-- be non-negative; a cut is kept doubled and `min_gap` in hundredths of a pixel.
pub mod Bands
pub mod Reading
pub mod Tiles
pub mod Cropping
pub mod Detections
pub mod Detected
use ocr_serving.Base.{
  ℕ, zero, suc, ◌+◌, ◌-◌, ◌*◌, ◌/◌, min, max, Bool, true, false, Option, none, some, List, [], ◌∷◌,
  ◌++◌, ◌&&◌, ◌||◌, not, map, if◌then◌else◌, ltb, leb, ◌==◌,
}
use ocr_serving.Base.Text.{Text, codes}
use ocr_serving.Base.Sort.{sort_by}
use ocr_serving.Schemas.{Region}

pub data Axis : Type 0 where
  horizontal vertical : Axis

-- `(r.bbox[axis], r.bbox[axis + 2])`
abbrev pub interval : Axis → Region → ℕ × ℕ
interval horizontal r = (r.x0, r.x1)
interval vertical r = (r.y0, r.y1)

-- The order of pairs.
abbrev pub pair_le : ℕ × ℕ → ℕ × ℕ → Bool
pair_le (a, b) (c, d) = ltb a c || ((a == c) && leb b d)

-- A gap's width, and twice its middle.
pub record Gap : Type 0 where
  pub width : ℕ
  pub cut2 : ℕ

-- `best is None or width > best[0]`
abbrev pub better : Option Gap → Gap → Option Gap
better none g = some g
better (some b) g = if ltb b.width g.width then some g else some b

-- The loop of `_widest_gap` over the later intervals.
unfoldable pub gap_loop : ℕ → Option Gap → List (ℕ × ℕ) → Option Gap
gap_loop reach best [] = best
gap_loop reach best ((start, end) ∷ rest) =
    gap_loop (max reach end)
      (if ltb reach start
        then better best (record { width = start - reach; cut2 = reach + start })
        else best)
      rest

-- `intervals[0]` is there: `_xy_cut` asks only about two regions or more.
unfoldable pub gap_of : List (ℕ × ℕ) → Option Gap
gap_of [] = none
gap_of ((start, end) ∷ rest) = gap_loop end none rest

unfoldable pub widest_gap : Axis → List Region → Option Gap
widest_gap axis regions = gap_of (sort_by pair_le (map (interval axis) regions))

-- `key=lambda r: (r.bbox[1], r.bbox[0])`
abbrev pub region_le : Region → Region → Bool
region_le r s = pair_le (r.y0, r.x0) (s.y0, s.x0)

unfoldable pub by_position : List Region → List Region
by_position = sort_by region_le

-- `c[0] and c[0][0] >= min_gap`
abbrev pub wide_enough : ℕ → Option Gap → Option Gap
wide_enough min_gap none = none
wide_enough min_gap (some g) = if leb min_gap (g.width * 100) then some g else none

-- `max(candidates, key=…)`, which takes the first of equals: the vertical band.
abbrev pub choose_cut : Option Gap → Option Gap → Option (Axis × Gap)
choose_cut none none = none
choose_cut (some v) none = some (horizontal, v)
choose_cut none (some h) = some (vertical, h)
choose_cut (some v) (some h) =
    if ltb v.width h.width then some (vertical, h) else some (horizontal, v)

-- The centre of the region lies before the cut.
abbrev pub is_near : Axis → ℕ → Region → Bool
is_near axis cut2 r = let (a, b) = interval axis r in ltb (a + b) cut2

unfoldable pub select : (Region → Bool) → List Region → List Region
select p [] = []
select p (r ∷ rs) = let rest = select p rs in if p r then r ∷ rest else rest

abbrev pub is_empty : List Region → Bool
is_empty [] = true
is_empty (r ∷ rs) = false

-- `len(regions) <= 1`
abbrev pub at_most_one : List Region → Bool
at_most_one [] = true
at_most_one (r ∷ []) = true
at_most_one (r ∷ s ∷ rs) = false

abbrev pub cut_for : ℕ → List Region → Option (Axis × Gap)
cut_for min_gap regions =
    choose_cut (wide_enough min_gap (widest_gap horizontal regions))
      (wide_enough min_gap (widest_gap vertical regions))

-- The two halves of `_xy_cut` past the choice of the cut, given its recursive call.
unfoldable pub split_at :
    (List Region → List Region) → List Region → Option (Axis × Gap) → List Region
split_at recur regions none = by_position regions
split_at recur regions (some (axis, gap)) =
    let near = select (is_near axis gap.cut2) regions in
    let far = select (λ r. not (is_near axis gap.cut2 r)) regions in
    if is_empty near || is_empty far then by_position regions else recur near ++ recur far

-- `_xy_cut`; the first argument is the number of rounds that `depth` leaves, 16 at the outermost call.
unfoldable pub xy_cut : ℕ → ℕ → List Region → List Region
unfolding split_at
xy_cut zero min_gap regions = by_position regions
xy_cut (suc rounds) min_gap regions =
    split_at (xy_cut rounds min_gap) regions
      (if at_most_one regions then none else cut_for min_gap regions)

-- `region.order = i` for each of the list.
unfoldable pub number_from : ℕ → List Region → List Region
number_from i [] = []
number_from i (r ∷ rs) = record r { order = i } ∷ number_from (suc i) rs

-- `min_gap = max(page_width * 0.01, 8)`
unfoldable pub assign_reading_order : ℕ → List Region → List Region
assign_reading_order page_width [] = []
assign_reading_order page_width (r ∷ rs) = number_from 0 (xy_cut 16 (max page_width 800) (r ∷ rs))

-- The step from one tile to the next.
unfoldable pub tile_step : ℕ → ℕ → ℕ
tile_step max_height overlap = max (max_height - overlap) (max_height / 2)

abbrev pub tile_at : Region → ℕ → ℕ → Region
tile_at r top bottom = record r { y0 = top; y1 = bottom }

-- The `while` loop of `tile` on fuel; `none` is a loop that has not ended.
unfoldable pub tile_loop : ℕ → ℕ → ℕ → Region → ℕ → Option (List Region)
tile_loop zero max_height step r top = none
tile_loop (suc fuel) max_height step r top = elim (ltb top r.y1) [
  | false ↦ some []
  | true ↦
      let bottom = min (top + max_height) r.y1 in
      elim (leb r.y1 bottom) [
        | true ↦ some (tile_at r top bottom ∷ [])
        | false ↦ elim (tile_loop fuel max_height step r (top + step)) [
          | none ↦ none
          | some rest ↦ some (tile_at r top bottom ∷ rest)
        ]
      ]
]

-- One round of the outer loop of `tile`; a region's height is enough fuel when the step is positive.
unfoldable pub tile_region : ℕ → ℕ → Region → Option (List Region)
tile_region max_height overlap r =
    if (max_height == 0) || leb (r.y1 - r.y0) max_height
    then some (r ∷ [])
    else tile_loop (suc (r.y1 - r.y0)) max_height (tile_step max_height overlap) r r.y0

unfoldable pub tile_all : ℕ → ℕ → List Region → Option (List Region)
tile_all max_height overlap [] = some []
tile_all max_height overlap (r ∷ rs) = elim (tile_region max_height overlap r) [
  | none ↦ none
  | some tiles ↦ elim (tile_all max_height overlap rs) [
    | none ↦ none
    | some out ↦ some (tiles ++ out)
  ]
]

unfoldable pub tile : ℕ → ℕ → List Region → Option (List Region)
tile max_height overlap regions = elim (tile_all max_height overlap regions) [
  | none ↦ none
  | some out ↦ some (number_from 0 out)
]

-- The window of `crop` in an image of width `w` and height `h`: x0, y0, x1, y1.
pub record Window : Type 0 where
  pub x0 : ℕ
  pub y0 : ℕ
  pub x1 : ℕ
  pub y1 : ℕ

unfoldable pub crop : ℕ → ℕ → Region → ℕ → Window
crop w h r pad =
    let x0 = r.x0 - pad in
    let y0 = r.y0 - pad in
    let x1 = min (r.x1 + pad) w in
    let y1 = min (r.y1 + pad) h in
    if leb x1 x0 || leb y1 y0
    then record { x0 = 0; y0 = 0; x1 = w; y1 = h }
    else record { x0 = x0; y0 = y0; x1 = x1; y1 = y1 }

-- `Region(bbox=(0, 0, w, h), cls="page", order=0)`
unfoldable pub whole_page : ℕ → ℕ → Region
whole_page w h = record { x0 = 0; y0 = 0; x1 = w; y1 = h; cls = codes "page"; order = 0; score = 1 }

-- `LayoutDetector.detect`: `none` is a detector without a session, `some none` a session that raised.
unfoldable pub detect : ℕ → ℕ → Option (Option (List Region)) → List Region
detect w h none = whole_page w h ∷ []
detect w h (some none) = whole_page w h ∷ []
detect w h (some (some [])) = whole_page w h ∷ []
detect w h (some (some (r ∷ rs))) = assign_reading_order w (r ∷ rs)
