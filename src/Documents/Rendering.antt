-- ===== src/Documents/Rendering.antt =====
-- workers/documents.py: the generator of pages, and the pages that reach the worker through the
-- bounded queue of workers/cpu_worker.py. What pymupdf gives of a page is a parameter.
use ocr_serving.Base.{
  All, subst, ℕ, zero, suc, ◌≤◌, ◌≡◌, refl, ap, sym, Bool, true, false, ◌&&◌, Option, none, some,
  List, [], ◌∷◌, map, arith, length, if◌then◌else◌, leb, ◌⊎◌, inl, inr, Bool-cases,
}
use ocr_serving.Base.Text.{Text}
use ocr_serving.Documents.{clean_text, DpiSettings, dpi_for, DocumentKind, pdf, image}
use ocr_serving.Pages.{RenderedPage}
use ocr_serving.Feed.{Channel, opened, drained, failed, Later}
use ocr_serving.Feed.Order.{Later-complete}

-- What the code reads of a page: its text, its rectangle in points, the widths for the choice of DPI,
-- and its image at a DPI, with the image's size.
pub record PdfPage (I : Type 0) : Type 0 where
  pub text : Text
  pub width : ℕ
  pub height : ℕ
  pub images : Option (ℕ × List ℕ)
  pub pixmap : ℕ → I × ℕ × ℕ

pub record TextSettings : Type 0 where
  pub native_text_enabled : Bool
  pub native_text_min_chars : ℕ
  pub dpi : DpiSettings

module _ {I : Type 0} (s : TextSettings) where
  -- The body of the loop of `_iter_pdf`.
  unfoldable pub render_page : ℕ → PdfPage I → RenderedPage I
  render_page index page =
      let text = clean_text page.text in
      if s.native_text_enabled && leb s.native_text_min_chars (length text)
      then record {
        index = index;
        png = none;
        dpi = 0;
        width = page.width;
        height = page.height;
        native_text = some text;
      }
      else let dpi = dpi_for s.dpi page.images in
        let (png, width, height) = page.pixmap dpi in
        record {
          index = index;
          png = some png;
          dpi = dpi;
          width = width;
          height = height;
          native_text = none;
        }

  -- `yield`, then the rest; the flag says that a page raised.
  abbrev pub yielded : RenderedPage I → List (RenderedPage I) × Bool → List (RenderedPage I) × Bool
  yielded p (ps, broken) = (p ∷ ps, broken)

  abbrev pub rendered :
      ℕ → Option (PdfPage I) → List (RenderedPage I) × Bool → List (RenderedPage I) × Bool
  rendered index none rest = ([], true)
  rendered index (some page) rest = yielded (render_page index page) rest

  -- The loop over `range(self.page_count)`: `left` pages are left, the next is `index`. `load` is
  -- `load_page` with what is read of the page, or `none` where any of it raises.
  unfoldable pub iter_pdf : (ℕ → Option (PdfPage I)) → ℕ → ℕ → List (RenderedPage I) × Bool
  iter_pdf load zero index = ([], false)
  iter_pdf load (suc left) index = rendered index (load index) (iter_pdf load left (suc index))

  -- `_iter_image`; the size is not known yet.
  abbrev pub iter_image : I → List (RenderedPage I) × Bool
  iter_image content = (
    record {
      index = 0;
      png = some content;
      dpi = s.dpi.render_dpi;
      width = 0;
      height = 0;
      native_text = none;
    }
        ∷ [],
    false,
  )

  -- `iter_pages` of a document with so many pages.
  unfoldable pub iter_pages :
      DocumentKind → ℕ → (ℕ → Option (PdfPage I)) → I → List (RenderedPage I) × Bool
  unfolding iter_pdf
  iter_pages image pages load content = iter_image content
  iter_pages pdf pages load content = iter_pdf load pages 0

-- `n` numbers from `k` on.
pub range : ℕ → ℕ → List ℕ
range k zero = []
range k (suc n) = k ∷ range (suc k) n

module _ {I : Type 0} (s : TextSettings) where
  -- A page has its text, long enough, and no image, or it has an image and no text.
  abbrev pub IsPage : RenderedPage I → Type 0
  IsPage p =
      ((t : Text) × (p.native_text ≡ some t)
        × (p.png ≡ none)
        × (s.native_text_min_chars ≤ length t))
      ⊎ ((x : I) × (p.png ≡ some x) × (p.native_text ≡ none))

  render_page-IsPage : (index : ℕ) (page : PdfPage I) → IsPage (render_page s index page)
  unfolding render_page
  render_page-IsPage index page =
      let text = clean_text page.text in
      elim (Bool-cases (s.native_text_enabled && leb s.native_text_min_chars (length text))) [
        | inl long ↦ rw long (inl (text, refl, refl, ground (arith, long)))
        | inr short ↦ rw short (inr ((page.pixmap (dpi_for s.dpi page.images)).0, refl, refl))
      ]

  -- The pages of a generator, numbered from `k`; all of them, or the generator raised.
  abbrev Numbered : ℕ → ℕ → List (RenderedPage I) × Bool → Type 0
  Numbered k n (ps, broken) =
      (map (λ p. p.index) ps ≡ range k (length ps))
      × ((length ps ≡ n) ⊎ (broken ≡ true))
      × All IsPage ps

  number_first :
      (k : ℕ) (page : PdfPage I) (ps : List (RenderedPage I))
      → map (λ p. p.index) ps ≡ range (suc k) (length ps)
      → map (λ p. p.index) (render_page s k page ∷ ps) ≡ range k (suc (length ps))
  unfolding range render_page
  number_first k page ps h = ground (arith, h)

  rendered-Numbered :
      (k n : ℕ) (page : Option (PdfPage I)) (rest : List (RenderedPage I) × Bool)
      → Numbered (suc k) n rest
      → Numbered k (suc n) (rendered s k page rest)
  unfolding range
  rendered-Numbered k n none rest h = (refl, inr refl, tt)
  rendered-Numbered k n (some page) (ps, broken) (indices, whole, shapes) =
      (number_first k page ps indices, one_more whole, (render_page-IsPage k page, shapes))
    where
      one_more : (length ps ≡ n) ⊎ (broken ≡ true) → (suc (length ps) ≡ suc n) ⊎ (broken ≡ true)
      one_more (inl e) = inl (ap suc e)
      one_more (inr e) = inr e

  iter_pdf-Numbered : (load : ℕ → Option (PdfPage I)) (n k : ℕ) → Numbered k n (iter_pdf s load n k)
  unfolding iter_pdf range
  iter_pdf-Numbered load zero k = (refl, inl refl, tt)
  iter_pdf-Numbered load (suc n) k =
      rendered-Numbered k n (load k) (iter_pdf s load n (suc k)) (iter_pdf-Numbered load n (suc k))

  iter_pages-Numbered :
      (kind : DocumentKind) (pages : ℕ) (load : ℕ → Option (PdfPage I)) (content : I)
      → (kind ≡ image → pages ≡ 1)
      → Numbered 0 pages (iter_pages s kind pages load content)
  unfolding iter_pages range
  iter_pages-Numbered image pages load content one =
      (refl, inl (sym (one refl)), (inr (content, refl, refl), tt))
  iter_pages-Numbered pdf pages load content one = iter_pdf-Numbered load pages 0

  -- Once the worker's loop over the pages of a document has met the end or an exception of the
  -- renderer, it has had the pages numbered from 0 on, in order and each once: all of the document's
  -- (an image has one), unless the renderer raised. Each has a native text of the least length and no
  -- image, or an image and no native text.
  pub delivered_pages :
      (prefetch : ℕ) (kind : DocumentKind) (pages : ℕ) (load : ℕ → Option (PdfPage I)) (content : I)
      → (kind ≡ image → pages ≡ 1)
      → (a : Channel (RenderedPage I))
      → (let (rendered_pages, broken) = iter_pages s kind pages load content in
          Later prefetch broken (opened prefetch broken rendered_pages) a)
      → (a.consumer ≡ drained) ⊎ (a.consumer ≡ failed)
      → (map (λ p. p.index) a.got ≡ range 0 (length a.got))
        × ((length a.got ≡ pages) ⊎ ((iter_pages s kind pages load content).1 ≡ true))
        × All IsPage a.got
  delivered_pages prefetch kind pages load content one a later over =
      let (rendered_pages, broken) = iter_pages s kind pages load content in
      subst (λ ps. Numbered 0 pages (ps, broken))
        (sym (Later-complete prefetch broken rendered_pages a later over))
        (iter_pages-Numbered kind pages load content one)
