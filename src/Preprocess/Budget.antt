-- ===== src/Preprocess/Budget.antt =====
-- The budget of pixels: when it is kept.
use ocr_serving.Base.{
  ℕ, zero, suc, ◌*◌, ◌/◌, ◌≤◌, ◌<◌, ◌≡◌, refl, true, false, ◌||◌, arith, if◌then◌else◌, ltb, leb,
  ◌==◌, Bool-cases, inl, inr, leb→le, not,
}
use native.Mathlib.Nat.{mul-le-mul_right, div-add-mod'}
use ocr_serving.Preprocess.{
  isqrt, Angle, no_angle, Cv, pixels, scaled, downscale_to_budget, deskew, Options, prepare,
}

isqrt_le : (n : ℕ) → isqrt n * isqrt n ≤ n
unfolding isqrt
isqrt_le zero = omega arith
isqrt_le (suc n) = elim (Bool-cases (leb (suc (isqrt n) * suc (isqrt n)) (suc n))) [
  | inl fits ↦ rw fits (leb→le (suc (isqrt n) * suc (isqrt n)) (suc n) fits)
  | inr large ↦ rw large (omega (arith, isqrt_le n))
]

square_lt : (p m : ℕ) → m < p → m * m < p * p
square_lt p m h = omega (arith, mul-le-mul_right m h, mul-le-mul_right p h)

-- Two sides, each at most the root of its share, stay within the budget.
sides_le : (a b h w m : ℕ) → 0 < h → 0 < w → a * a * h ≤ w * m → b * b * w ≤ h * m → a * b ≤ m
sides_le a b h w m ph pw fa fb = elim (Bool-cases (leb (a * b) m)) [
  | inl fits ↦ leb→le (a * b) m fits
  | inr large ↦
      let over : m < a * b = ground arith in
      let area : 0 < h * w = omega (arith, mul-le-mul_right w ph) in
      absurd (
        omega (
          arith,
          mul-le-mul_right (b * b * w) fa,
          mul-le-mul_right (w * m) fb,
          mul-le-mul_right (h * w) (square_lt (a * b) m over),
          area,
        ))
]

div_le : (n d : ℕ) → n / d * d ≤ n
div_le n d = omega (arith, div-add-mod' n d)

root_le : (a b m : ℕ) → isqrt (a * m / b) * isqrt (a * m / b) * b ≤ a * m
root_le a b m = omega (arith, mul-le-mul_right b (isqrt_le (a * m / b)), div_le (a * m) b)

scaled_root : (m a b : ℕ) → 0 < isqrt (a * m / b) → scaled m a b ≡ isqrt (a * m / b)
unfolding scaled
scaled_root m a b h = omega arith

scaled_le :
    (a b m : ℕ)
    → 0 < b
    → 0 < a
    → 0 < isqrt (a * m / b)
    → 0 < isqrt (b * m / a)
    → scaled m b a * scaled m a b ≤ m
scaled_le a b m pb pa fa fb =
    rw (scaled_root m a b fa, scaled_root m b a fb)
      (sides_le (isqrt (b * m / a)) (isqrt (a * m / b)) a b m pa pb (root_le b a m) (root_le a b m))

module _ {Image : Type 0} (cv : Cv Image)
    (height-resize : (img : Image) (w h : ℕ) → cv.height (cv.resize img w h) ≡ h)
    (width-resize : (img : Image) (w h : ℕ) → cv.width (cv.resize img w h) ≡ w) where
  -- Neither side is rounded up to one pixel.
  abbrev pub IsUnclamped : Image → ℕ → Type 0
  IsUnclamped img m =
      (0 < isqrt (cv.width img * m / cv.height img))
      × (0 < isqrt (cv.height img * m / cv.width img))

  downscale_to_budget_le :
      (img : Image) (max_px : ℕ)
      → (max_px == 0) ≡ false
      → 0 < cv.height img
      → 0 < cv.width img
      → IsUnclamped img max_px
      → pixels cv (downscale_to_budget cv img max_px) ≤ max_px
  unfolding downscale_to_budget
  downscale_to_budget_le img max_px some_budget tall wide (w_full, h_full) =
      let new_w = scaled max_px (cv.width img) (cv.height img) in
      let new_h = scaled max_px (cv.height img) (cv.width img) in
      elim (Bool-cases (leb (pixels cv img) max_px)) [
        | inl small ↦ rw (some_budget, small) (leb→le (pixels cv img) max_px small)
        | inr large ↦
            rw (some_budget, large)
              (rw (height-resize img new_w new_h, width-resize img new_w new_h)
                (scaled_le (cv.width img) (cv.height img) max_px tall wide w_full h_full))
      ]

  -- The filters keep the size.
  module _ (pixels-clahe : (img : Image) → pixels cv (cv.clahe img) ≡ pixels cv img)
      (pixels-denoise : (img : Image) → pixels cv (cv.denoise img) ≡ pixels cv img) where
    filters_le :
        (o : Options) (img : Image) (m : ℕ)
        → pixels cv img ≤ m
        → (let quiet = if o.do_denoise then cv.denoise img else img in
            pixels cv (if o.do_clahe then cv.clahe quiet else quiet) ≤ m)
    filters_le o img m fits = elim (Bool-cases o.do_denoise) [
      | inl on ↦ rw on (rest (cv.denoise img) (rw (pixels-denoise img) fits))
      | inr off ↦ rw off (rest img fits)
    ]
      where
        rest : (i : Image) → pixels cv i ≤ m → pixels cv (if o.do_clahe then cv.clahe i else i) ≤ m
        rest i h = elim (Bool-cases o.do_clahe) [
          | inl on ↦ rw on (rw (pixels-clahe i) h)
          | inr off ↦ rw off h
        ]

    straight_lem :
        (min_angle : ℕ) (small : Image) (o : Options)
        → (not o.do_deskew || ltb (cv.estimate_skew small o.deskew_max_angle).size min_angle) ≡ true
        → ◌≡◌ {A = Image × Angle}
            (if o.do_deskew
              then deskew cv min_angle small o.deskew_max_angle
              else (small, no_angle))
            (small, no_angle)
    unfolding deskew
    straight_lem min_angle small o level = ground arith

    -- A page that is not rotated, since deskewing is off or its tilt is below the threshold, leaves
    -- `prepare` with at most the budget of pixels, unless a side was rounded up to one pixel, and with
    -- a skew of 0. A resize gives the size that it is asked for, and the filters keep it.
    pub prepare-pixels :
        (min_angle : ℕ) (img : Image) (o : Options)
        → (o.max_px == 0) ≡ false
        → 0 < cv.height img
        → 0 < cv.width img
        → IsUnclamped img o.max_px
        → (not o.do_deskew
            || ltb
                (cv.estimate_skew (downscale_to_budget cv img o.max_px) o.deskew_max_angle).size
                min_angle)
          ≡ true
        → (pixels cv (prepare cv min_angle img o).0 ≤ o.max_px)
          × ((prepare cv min_angle img o).1 ≡ no_angle)
    unfolding prepare
    prepare-pixels min_angle img o some_budget tall wide full level =
        let small = downscale_to_budget cv img o.max_px in
        rw (straight_lem min_angle small o level) (
          filters_le o small o.max_px
              (downscale_to_budget_le img o.max_px some_budget tall wide full),
          refl,
        )
