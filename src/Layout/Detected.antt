-- ===== src/Layout/Detected.antt =====
-- The regions that decoding gives: on the page, large enough, worth reading, and around their boxes.
use native.Mathlib.Nat.{div-mul-le_self, lt-div-mul-add}
use ocr_serving.Base.{
  ℕ, ◌+◌, ◌-◌, ◌*◌, ◌<◌, ◌≤◌, ◌≡◌, ◌⊎◌, inl, inr, refl, sym, subst, min, Bool, true, false, none,
  some, List, [], ◌∷◌, ◌||◌, ◌&&◌, not, map, All, All-get, get_elem?, length, if◌then◌else◌, ltb,
  leb, leb→le, Bool-cases, Option-cases, ◌==◌, arith,
}
use ocr_serving.Schemas.{Region}
use ocr_serving.Layout.{detect, whole_page}
use ocr_serving.Layout.Detections.{
  Box, Letterbox, near, far, min_region_px, skipped, class_name, region_of, regions_of, confident,
  picked, kept_boxes, Matrix, matrix, columns, transpose_to, corner_box, centre_box,
  decode_detections, squeeze, detect_onnx,
}

-- The region `r` is what decoding makes of the box `b`.
pub record IsCut (l : Letterbox) (width height : ℕ) (b : Box) (r : Region) : Type 0 where
  pub wide : r.x0 + min_region_px ≤ r.x1
  pub high : r.y0 + min_region_px ≤ r.y1
  pub within_x : r.x1 ≤ width
  pub within_y : r.y1 ≤ height
  pub readable : skipped r.cls ≡ false
  -- nothing of the box on the page is left out
  pub left_edge : r.x0 * (2000 * l.num) ≤ (b.x0 - 2000 * l.pad_x) * l.den
  pub top_edge : r.y0 * (2000 * l.num) ≤ (b.y0 - 2000 * l.pad_y) * l.den
  pub right_edge : ((b.x1 - 2000 * l.pad_x) * l.den ≤ r.x1 * (2000 * l.num)) ⊎ (r.x1 ≡ width)
  pub bottom_edge : ((b.y1 - 2000 * l.pad_y) * l.den ≤ r.y1 * (2000 * l.num)) ⊎ (r.y1 ≡ height)

far_covers :
    (num den pad x : ℕ) → 0 < num → (x - 2000 * pad) * den ≤ far num den pad x * (2000 * num)
far_covers num den pad x h = omega (
  arith,
  h,
  lt-div-mul-add {a = (x - 2000 * pad) * den + (2000 * num - 1)} {b = 2000 * num}
      (omega (arith, h)),
)

min_left : (q top : ℕ) → q ≤ top → min q top ≡ q
min_left q top h = omega (arith, h)

some_inj : {x y : Region} → some x ≡ some y → x ≡ y
some_inj e = cc

all_inj : {xs ys : List Region} → some xs ≡ some ys → xs ≡ ys
all_inj e = cc

nothing_found : {x : Region} → none ≡ some x → ⊥
nothing_found e = cc

min_covers : (a q k top : ℕ) → a ≤ q * k → (a ≤ min q top * k) ⊎ (min q top ≡ top)
min_covers a q k top h = elim (Bool-cases (leb q top)) [
  | inl small ↦ inl (subst (λ m. a ≤ m * k) (sym (min_left q top (ground arith))) h)
  | inr large ↦ inr (ground arith)
]

or_false : (a b : Bool) → (a || b) ≡ false → (a ≡ false) × (b ≡ false)
or_false true b h = cc
or_false false b h = (refl, h)

large_enough : (x0 x1 : ℕ) → ltb (x1 - x0) min_region_px ≡ false → x0 + min_region_px ≤ x1
large_enough x0 x1 h = ground arith

region_of-IsCut :
    (l : Letterbox) (width height : ℕ) (b : Box) (r : Region)
    → 0 < l.num
    → region_of l width height b ≡ some r
    → IsCut l width height b r
unfolding region_of
region_of-IsCut l width height b r h e = elim (Bool-cases drops) [
  | inl gone ↦ absurd (nothing_found (rw gone at e))
  | inr stays ↦
      let (worth, sizes) = or_false (skipped (class_name b.class_id)) (narrow || low) stays in
      let (wide, high) = or_false narrow low sizes in
      subst (IsCut l width height b) (some_inj (rw stays at e)) (record {
        wide = large_enough _ _ wide;
        high = large_enough _ _ high;
        within_x = omega arith;
        within_y = omega arith;
        readable = worth;
        left_edge = div-mul-le_self _ (2000 * l.num);
        top_edge = div-mul-le_self _ (2000 * l.num);
        right_edge = min_covers _ _ _ width (far_covers l.num l.den l.pad_x b.x1 h);
        bottom_edge = min_covers _ _ _ height (far_covers l.num l.den l.pad_y b.y1 h);
      })
]
  where
    narrow : Bool
    narrow =
        ltb (min (far l.num l.den l.pad_x b.x1) width - near l.num l.den l.pad_x b.x0) min_region_px

    low : Bool
    low =
        ltb (min (far l.num l.den l.pad_y b.y1) height - near l.num l.den l.pad_y b.y0)
          min_region_px

    drops : Bool
    drops = skipped (class_name b.class_id) || (narrow || low)

-- A region is cut from one of the boxes, of which `P` holds.
abbrev pub From : Letterbox → ℕ → ℕ → (Box → Type 0) → Region → Type 0
From l width height P r = (b : Box) × P b × IsCut l width height b r

module _ (l : Letterbox) (width height : ℕ) (scaled : 0 < l.num) where
  regions_of-From :
      (P : Box → Type 0) (bs : List Box)
      → All P bs
      → All (From l width height P) (regions_of l width height bs)
  unfolding regions_of
  regions_of-From P [] h = tt
  regions_of-From P (b ∷ bs) h = elim (Option-cases (region_of l width height b)) [
    | inl gone ↦ rw (All, regions_of, gone) (regions_of-From P bs h.1)
    | inr (r, found) ↦
        rw (All, regions_of, found)
          ((b, h.0, region_of-IsCut l width height b r scaled found), regions_of-From P bs h.1)
  ]

confident-All :
    (threshold : ℕ) (bs : List Box) → All (λ b. threshold ≤ b.score) (confident threshold bs)
unfolding confident
confident-All threshold [] = tt
confident-All threshold (b ∷ bs) = elim (Bool-cases (leb threshold b.score)) [
  | inl sure ↦ rw (All, confident, sure) (leb→le threshold b.score sure, confident-All threshold bs)
  | inr unsure ↦ rw (All, confident, unsure) (confident-All threshold bs)
]

picked-All : (P : Box → Type 0) (bs : List Box) (is : List ℕ) → All P bs → All P (picked bs is)
unfolding picked
picked-All P bs [] h = tt
picked-All P bs (i ∷ is) h = elim (Option-cases (get_elem? bs i)) [
  | inl gone ↦ rw (All, picked, gone) (picked-All P bs is h)
  | inr (b, found) ↦ rw (All, picked, found) (All-get P bs i b h found, picked-All P bs is h)
]

module _ (nms : List Box → List ℕ) where
  kept_boxes-All :
      (threshold : ℕ) (m : Matrix) → All (λ b. threshold ≤ b.score) (kept_boxes nms threshold m)
  unfolding kept_boxes
  kept_boxes-All threshold m = elim (Bool-cases ((columns m == 6) && not (length m == 14))) [
    | inl corners ↦ rw (kept_boxes, corners) (confident-All threshold (map corner_box m))
    | inr centres ↦
        rw (kept_boxes, centres)
          (picked-All _ (confident threshold (map centre_box pred)) _
            (confident-All threshold (map centre_box pred)))
  ]
    where
      pred : Matrix
      pred =
          if (length m == 14) || ltb (length m) (columns m) then transpose_to (columns m) m else m

  -- Each region that decoding gives, of either layout of the model's output and whatever boxes the
  -- suppression picks, is cut from a box at or above the threshold: it lies on the page, is 16 pixels
  -- wide and high at least, is of a class that is read, and leaves out nothing of the box on the page.
  pub decode_detections-From :
      (l : Letterbox) (width height threshold : ℕ) (m : Matrix) (rs : List Region)
      → 0 < l.num
      → decode_detections nms l width height threshold (matrix m) ≡ some rs
      → All (From l width height (λ b. threshold ≤ b.score)) rs
  unfolding decode_detections
  decode_detections-From l width height threshold m rs scaled e = subst (All _) (all_inj e) (
      regions_of-From l width height scaled _ (kept_boxes nms threshold m)
        (kept_boxes-All threshold m))

  -- An output with one detection only, in the layout with six columns, is no matrix behind `squeeze`:
  -- decoding raises, and the page is read whole.
  pub detect_onnx-alone :
      (l : Letterbox) (width height threshold : ℕ) (row : List ℕ)
      → detect width height (some (detect_onnx nms l width height threshold (row ∷ [])))
        ≡ whole_page width height ∷ []
  unfolding detect_onnx detect squeeze decode_detections
  detect_onnx-alone l width height threshold row = refl
