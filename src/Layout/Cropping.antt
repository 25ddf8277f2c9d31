-- ===== src/Layout/Cropping.antt =====
-- The crop window lies in the image, and holds the region with its margin.
use ocr_serving.Base.{ℕ, ◌+◌, ◌≤◌, ◌<◌, arith}
use ocr_serving.Schemas.{Region}
use ocr_serving.Layout.{crop}

-- The window is never empty and never leaves the image, whatever the region.
pub crop_inside :
    (w h pad : ℕ) (r : Region)
    → 0 < w
    → 0 < h
    → let c = crop w h r pad in (c.x0 < c.x1) × (c.x1 ≤ w) × (c.y0 < c.y1) × (c.y1 ≤ h)
unfolding crop
crop_inside w h pad r pw ph = ground arith

-- A region within the image is cropped whole, with at most the margin around it.
pub crop_holds :
    (w h pad : ℕ) (r : Region)
    → r.x0 < r.x1
    → r.x1 ≤ w
    → r.y0 < r.y1
    → r.y1 ≤ h
    → let c = crop w h r pad in
      (c.x0 ≤ r.x0)
      × (r.x0 ≤ c.x0 + pad)
      × (r.x1 ≤ c.x1)
      × (c.x1 ≤ r.x1 + pad)
      × (c.y0 ≤ r.y0)
      × (r.y0 ≤ c.y0 + pad)
      × (r.y1 ≤ c.y1)
      × (c.y1 ≤ r.y1 + pad)
unfolding crop
crop_holds w h pad r px wx py hy = ground arith
