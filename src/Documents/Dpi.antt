-- ===== src/Documents/Dpi.antt =====
-- The chosen DPI stays in the configured band.
use ocr_serving.Base.{ℕ, ◌≤◌, ◌≡◌, ◌⊎◌, true, Option, List, arith}
use ocr_serving.Documents.{DpiSettings, dpi_for}

-- A page is rendered at the configured DPI, or, if the choice is adaptive, at one within the band.
pub dpi_for_bounds :
    (d : DpiSettings) (page : Option (ℕ × List ℕ))
    → d.min_dpi ≤ d.max_dpi
    → (dpi_for d page ≡ d.render_dpi)
      ⊎ ((d.adaptive_dpi ≡ true) × (d.min_dpi ≤ dpi_for d page) × (dpi_for d page ≤ d.max_dpi))
unfolding dpi_for
dpi_for_bounds d page band = ground arith
