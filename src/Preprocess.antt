-- ===== src/Preprocess.antt =====
-- workers/preprocess.py: the order of the steps and the arithmetic on sizes. An image is OpenCV's;
-- what the code calls of it is a parameter, with the sizes that its calls promise as laws.
pub mod Budget
use ocr_serving.Base.{
  ℕ, zero, suc, ◌+◌, ◌*◌, ◌/◌, max, ◌≡◌, Bool, true, false, ◌||◌, Option, none, some, if◌then◌else◌,
  ltb, leb, ◌==◌,
}

-- The largest number whose square is at most `n`: what `int(x ** 0.5)` is, to the float's precision.
unfoldable pub isqrt : ℕ → ℕ
isqrt zero = 0
isqrt (suc n) = let r = isqrt n in if leb (suc r * suc r) (suc n) then suc r else r

-- An angle in degrees, as its sign and its size.
pub record Angle : Type 0 where
  pub negative : Bool
  pub size : ℕ

abbrev pub no_angle : Angle
no_angle = record { negative = false; size = 0 }

-- What the code calls of OpenCV: the shape, `cv2.resize` to a width and a height, the estimate of the
-- skew, the rotation, and the filters.
pub record Cv (Image : Type 0) : Type 0 where
  pub height : Image → ℕ
  pub width : Image → ℕ
  pub resize : Image → ℕ → ℕ → Image
  pub estimate_skew : Image → ℕ → Angle
  pub rotate : Image → Angle → Image
  pub clahe : Image → Image
  pub denoise : Image → Image

-- `max(int(a * scale), 1)` for the side `a` against the other side `b`, where the scale is the root
-- of `max_px / (a * b)`: `a * scale` is the root of `a * max_px / b`.
unfoldable pub scaled : ℕ → ℕ → ℕ → ℕ
unfolding isqrt
scaled max_px a b = max (isqrt (a * max_px / b)) 1

pub record Options : Type 0 where
  pub max_px : ℕ
  pub do_deskew : Bool
  pub deskew_max_angle : ℕ
  pub do_clahe : Bool
  pub do_denoise : Bool

module _ {Image : Type 0} (cv : Cv Image) where
  abbrev pub pixels : Image → ℕ
  pixels img = cv.height img * cv.width img

  -- `downscale_to_budget`; a budget of 0 or less is `zero`.
  unfoldable pub downscale_to_budget : Image → ℕ → Image
  unfolding scaled
  downscale_to_budget img max_px =
      if (max_px == 0) || leb (pixels img) max_px
      then img
      else cv.resize img (scaled max_px (cv.width img) (cv.height img))
          (scaled max_px (cv.height img) (cv.width img))

  -- `deskew` with its `min_angle`, in the same unit as the angle.
  unfoldable pub deskew : ℕ → Image → ℕ → Image × Angle
  deskew min_angle img max_angle =
      let angle = cv.estimate_skew img max_angle in
      if ltb angle.size min_angle then (img, no_angle) else (cv.rotate img angle, angle)

  -- `prepare`: the filters come behind the rotation, `denoise` before `clahe`.
  unfoldable pub prepare : ℕ → Image → Options → Image × Angle
  unfolding downscale_to_budget deskew
  prepare min_angle img o =
      let small = downscale_to_budget img o.max_px in
      let (straight, skew) =
        if o.do_deskew then deskew min_angle small o.deskew_max_angle else (small, no_angle) in
      let quiet = if o.do_denoise then cv.denoise straight else straight in
      (if o.do_clahe then cv.clahe quiet else quiet, skew)
