-- ===== src/Documents.antt =====
-- workers/documents.py: opening a document, the page count for quotas, the choice of DPI, and the
-- clean-up of a native text layer. pymupdf answers through the environment.
pub mod Dpi
pub mod Rendering
use ocr_serving.Base.{
  ℕ, ◌*◌, ◌/◌, min, max, Bool, true, false, Option, none, some, List, [], ◌∷◌, ◌++◌, ◌||◌,
  if◌then◌else◌, ◌==◌, leb, length,
}
use ocr_serving.Base.Text.{Text, codes, text_eq, to_lower, lower_char, nonempty}
use ocr_serving.Base.Strip.{strip}
use ocr_serving.Effects.{
  Error, unreadable, Env, Exec, pure, raise, catch, perform, error_text, ◌>>=◌,
}
use ocr_serving.Effects
use ocr_serving.Postprocess.Normalize.{squeeze_lines}

-- `Path(path).name`: what follows the last `/`.
unfoldable pub file_name : Text → Text → Text
file_name piece [] = piece
file_name piece (c ∷ s) = file_name (if c == b'/' then [] else piece ++ c ∷ []) s

-- The text from the last dot on, given what precedes it; a dot at either end begins no suffix.
unfoldable pub suffix_from : Bool → Text → Text → Text
suffix_from inside best [] = best
suffix_from inside best (c ∷ s) =
    suffix_from true (if c == b'.' then (if inside then c ∷ s else []) else best) s

abbrev proper_suffix : Text → Text
proper_suffix [] = []
proper_suffix (c ∷ []) = []
proper_suffix (c ∷ d ∷ s) = c ∷ d ∷ s

-- `Path(path).suffix.lower()`
unfoldable pub path_suffix : Text → Text
unfolding file_name suffix_from lower_char
path_suffix path = to_lower (proper_suffix (suffix_from false [] (file_name [] path)))

unfoldable pub is_image_suffix : Text → Bool
unfolding text_eq
is_image_suffix s =
    text_eq s (codes ".png")
    || text_eq s (codes ".jpg")
    || text_eq s (codes ".jpeg")
    || text_eq s (codes ".tiff")
    || text_eq s (codes ".tif")
    || text_eq s (codes ".webp")
    || text_eq s (codes ".bmp")

unfoldable pub is_pdf_suffix : Text → Bool
unfolding text_eq
is_pdf_suffix s = text_eq s (codes ".pdf")

pub data DocumentKind : Type 0 where
  pdf image : DocumentKind

pub record Document : Type 0 where
  pub path : Text
  pub kind : DocumentKind
  pub pages : ℕ

-- `_WS.sub(" ", text)`; the flag says that the run of blanks has its blank already.
unfoldable pub squeeze_blanks : Bool → Text → Text
squeeze_blanks after_blank [] = []
squeeze_blanks after_blank (c ∷ s) = elim ((c == 32) || (c == 9)) [
  | false ↦ c ∷ squeeze_blanks false s
  | true ↦ elim after_blank [ true ↦ squeeze_blanks true s | false ↦ 32 ∷ squeeze_blanks true s ]
]

unfoldable pub clean_text : Text → Text
unfolding squeeze_blanks squeeze_lines strip
clean_text text = strip (squeeze_lines 0 (squeeze_blanks false text))

-- The loop of `_dpi_for` over the pixel widths of the embedded images; the page is `width_pt` points
-- wide, and a point is 1 / 72 inch.
unfoldable pub best_dpi : ℕ → ℕ → List ℕ → ℕ
best_dpi width_pt best [] = best
best_dpi width_pt best (pixel_width ∷ widths) =
    best_dpi width_pt (if pixel_width == 0 then best else max best (pixel_width * 72 / width_pt))
      widths

pub record DpiSettings : Type 0 where
  pub render_dpi : ℕ
  pub adaptive_dpi : Bool
  pub min_dpi : ℕ
  pub max_dpi : ℕ

-- `_dpi_for`; `none` stands for page data whose reading raised.
unfoldable pub dpi_for : DpiSettings → Option (ℕ × List ℕ) → ℕ
dpi_for d page =
    if d.adaptive_dpi
    then elim page [
      | none ↦ d.render_dpi
      | some (width_pt, widths) ↦
          let best = best_dpi (if width_pt == 0 then 612 else width_pt) 0 widths in
          if best == 0 then d.render_dpi else max d.min_dpi (min d.max_dpi best)
    ]
    else d.render_dpi

module _ {S : Type 0} (env : Env S) (max_pages : ℕ) where
  abbrev corrupt : Error → Exec S ℕ
  corrupt e = raise (unreadable (codes "corrupt PDF: " ++ error_text e))

  -- `_open_pdf`
  unfoldable pub open_pdf : Text → Exec S Document
  open_pdf path = do
    page_count ← catch (perform env.nat_call (Effects.open_pdf path)) corrupt
    locked ← perform env.bool_call (Effects.needs_pass path)
    if locked
        then raise (unreadable (codes "encrypted PDF: password required"))
        else pure (record { path = path; kind = pdf; pages = min page_count max_pages })

  -- `Document.__init__`
  unfoldable pub open_document : Text → Exec S Document
  unfolding open_pdf is_pdf_suffix is_image_suffix path_suffix
  open_document path =
      if is_pdf_suffix (path_suffix path)
      then open_pdf path
      else if is_image_suffix (path_suffix path)
      then pure (record { path = path; kind = image; pages = 1 })
      else raise (unreadable (codes "unsupported file type " ++ path_suffix path))

  abbrev count_pages : Text → Exec S ℕ
  count_pages path = do
    page_count ← perform env.nat_call (Effects.open_pdf path)
    locked ← perform env.bool_call (Effects.needs_pass path)
    if locked then pure 0 else pure (min page_count max_pages)

  unfoldable pub probe_page_count : Text → Exec S ℕ
  unfolding is_pdf_suffix path_suffix
  probe_page_count path =
      if is_pdf_suffix (path_suffix path) then catch (count_pages path) (λ e. pure 0) else pure 1
