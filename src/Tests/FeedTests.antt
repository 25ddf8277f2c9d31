-- ===== src/Tests/FeedTests.antt =====
-- A document of two pages through a queue of one.
use ocr_serving.Base.{
  ℕ, ◌≡◌, refl, ◌⊎◌, inl, true, false, Option, none, some, List, [], ◌∷◌, arith, map, length, All,
  if◌then◌else◌, ◌==◌,
}
use ocr_serving.Base.Text.{codes}
use ocr_serving.Documents.{pdf}
use ocr_serving.Documents.Rendering.{
  PdfPage, TextSettings, iter_pages, IsPage, range, delivered_pages,
}
use ocr_serving.Pages.{RenderedPage}
use ocr_serving.Feed.{
  page, done, ended, left, over, drained, closing, Channel, put_page, put_done, finish, get_page,
  get_done, leave, opened, Later, now, after,
}
use ocr_serving.Feed.Leak.{left_forever}

-- Two pages put and taken in turn, up to the end of the document.
module _ {A : Type 0} (p q : A) where
  abbrev first_put : Channel A
  first_put = record (opened 1 false (p ∷ q ∷ [])) { todo = q ∷ []; queue = page p ∷ [] }

  abbrev first_got : Channel A
  first_got = record first_put { queue = []; got = p ∷ [] }

  abbrev second_put : Channel A
  second_put = record first_got { todo = []; queue = page q ∷ [] }

  abbrev second_got : Channel A
  second_got = record second_put { queue = []; got = p ∷ q ∷ [] }

  abbrev all_rendered : Channel A
  all_rendered = record second_got { producer = closing }

  abbrev done_put : Channel A
  done_put = record all_rendered { queue = done ∷ []; producer = ended }

  abbrev all_done : Channel A
  all_done = record done_put { queue = []; consumer = drained }

  run_done : Later 1 false (opened 1 false (p ∷ q ∷ [])) all_done
  unfolding opened
  run_done =
      let start = opened 1 false (p ∷ q ∷ []) in
      let r0 : Later 1 false start first_put =
        after now (put_page p (q ∷ []) refl refl (omega arith)) in
      let r1 : Later 1 false start first_got = after r0 (get_page p [] refl refl) in
      let r2 : Later 1 false start second_put = after r1 (put_page q [] refl refl (omega arith)) in
      let r3 : Later 1 false start second_got = after r2 (get_page q [] refl refl) in
      let r4 : Later 1 false start all_rendered = after r3 (finish refl refl refl) in
      let r5 : Later 1 false start done_put = after r4 (put_done refl (omega arith)) in
      after r5 (get_done [] refl refl)

-- A page with a text layer and one without.
abbrev settings : TextSettings
settings = record {
  native_text_enabled = true;
  native_text_min_chars = 2;
  dpi = record { render_dpi = 150; adaptive_dpi = false; min_dpi = 110; max_dpi = 250 };
}

abbrev load : ℕ → Option (PdfPage ℕ)
load index = some (record {
  text = if index == 0 then codes "abc" else [];
  width = 612;
  height = 792;
  images = none;
  pixmap = λ dpi. (dpi, 10, 20);
})

abbrev page_at : ℕ → RenderedPage ℕ
page_at index = record {
  index = index;
  png = if index == 0 then none else some 150;
  dpi = if index == 0 then 0 else 150;
  width = if index == 0 then 612 else 10;
  height = if index == 0 then 792 else 20;
  native_text = if index == 0 then some (codes "abc") else none;
}

delivered_pages_example :
    let got = page_at 0 ∷ page_at 1 ∷ [] in
    (map (λ p. p.index) got ≡ range 0 (length got))
    × ((length got ≡ 2) ⊎ ((iter_pages settings pdf 2 load 7).1 ≡ true))
    × All (IsPage settings) got
unfolding iter_pages ocr_serving.Documents.Rendering.render_page ocr_serving.Documents.clean_text
    ocr_serving.Documents.dpi_for
delivered_pages_example =
    delivered_pages settings 1 pdf 2 load 7 (λ e. cc) (all_done (page_at 0) (page_at 1))
      (run_done (page_at 0) (page_at 1)) (inl refl)

-- The loop is left at the first of three pages.
abbrev three : List ℕ
three = 1 ∷ 2 ∷ 3 ∷ []

abbrev one_put : Channel ℕ
one_put = record (opened 1 false three) { todo = 2 ∷ 3 ∷ []; queue = page 1 ∷ [] }

abbrev one_got : Channel ℕ
one_got = record one_put { queue = []; got = 1 ∷ [] }

abbrev one_left : Channel ℕ
one_left = record one_got { consumer = left }

run_left : Later 1 false (opened 1 false three) one_left
unfolding opened
run_left =
    let r1 : Later 1 false (opened 1 false three) one_put =
      after now (put_page 1 (2 ∷ 3 ∷ []) refl refl (omega arith)) in
    let r2 : Later 1 false (opened 1 false three) one_got = after r1 (get_page 1 [] refl refl) in
    after r2 (leave refl)

left_forever_example : (one_left.producer ≡ ended → ⊥) × (one_left.consumer ≡ over → ⊥)
unfolding opened
left_forever_example =
    left_forever 1 false three one_left one_left run_left refl refl (omega arith) now
