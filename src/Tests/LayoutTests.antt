-- ===== src/Tests/LayoutTests.antt =====
-- Regions, tiles and windows on a small page.
use ocr_serving.Base.{
  ℕ, ◌≡◌, refl, ◌≤◌, ◌<◌, ◌+◌, ◌++◌, map, All, Bool, true, false, Option, none, some, List, [], ◌∷◌,
  arith,
}
use ocr_serving.Base.Text.{codes}
use ocr_serving.Schemas.{Region}
use ocr_serving.Layout.{
  Axis, horizontal, Gap, interval, widest_gap, assign_reading_order, xy_cut, cut_for, at_most_one,
  is_near, select, is_empty, tile_region, tile_loop, tile_step, crop,
}
use ocr_serving.Layout.Reading.{Before, Behind, xy_cut_separates}
use ocr_serving.Layout.Tiles.{tile_stalls}
use ocr_serving.Layout.Detections.{Letterbox, Matrix, decode_detections}
use ocr_serving.Layout.Detected.{From, decode_detections-From}

abbrev box : ℕ → ℕ → ℕ → ℕ → Region
box x0 y0 x1 y1 = record {
  x0 = x0;
  y0 = y0;
  x1 = x1;
  y1 = y1;
  cls = codes "text";
  order = 0;
  score = 0;
}

-- Two columns, 100 apart.
abbrev columns : List Region
columns = box 300 10 500 90 ∷ box 0 0 200 40 ∷ box 0 50 200 100 ∷ []

abbrev gutter : Gap
gutter = record { width = 100; cut2 = 500 }

xy_cut_separates_example :
    (near : List Region) × (far : List Region) × (xy_cut 3 20 columns ≡ near ++ far)
    × All (Before horizontal gutter) near
    × All (Behind horizontal gutter) far
unfolding widest_gap select ocr_serving.Layout.gap_of ocr_serving.Base.Sort.sort_by
    ocr_serving.Layout.gap_loop
xy_cut_separates_example =
    xy_cut_separates 2 20 columns horizontal gutter (omega arith, (omega arith, (omega arith, tt)))
      refl refl refl

tile_stalls_example : tile_loop 40 1 (tile_step 1 64) (box 0 0 50 250) 0 ≡ none
tile_stalls_example = tile_stalls 64 40 (box 0 0 50 250) (omega arith) (omega arith)

-- Two detections of the layout with corners, on a page of half the canvas's size.
abbrev output : Matrix
output =
    (100000 ∷ 100000 ∷ 300000 ∷ 200000 ∷ 900 ∷ 1000 ∷ [])
    ∷ (0 ∷ 0 ∷ 8000 ∷ 8000 ∷ 800 ∷ 1000 ∷ [])
    ∷ []

abbrev halved : Letterbox
halved = record { num = 2; den = 1; pad_x = 0; pad_y = 0 }

abbrev title_box : Region
title_box = record {
  x0 = 50;
  y0 = 50;
  x1 = 150;
  y1 = 100;
  cls = codes "text";
  order = 0;
  score = 900;
}

decode_detections-From_example : All (From halved 512 512 (λ b. 300 ≤ b.score)) (title_box ∷ [])
unfolding decode_detections
decode_detections-From_example =
    decode_detections-From (λ bs. []) halved 512 512 300 output (title_box ∷ []) (omega arith) refl
