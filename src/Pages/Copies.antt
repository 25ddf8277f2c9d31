-- ===== src/Pages/Copies.antt =====
-- What a duplicate's text has to do with the text of its original.
use ocr_serving.Base.{ℕ, ◌≡◌, refl, ap, sym, ◌∙◌, true, none, some, All-get, get_elem?, not}
use ocr_serving.Base.Text.{Text}
use ocr_serving.Config.{Settings}
use ocr_serving.Schemas.{PageResult, ocr}
use ocr_serving.Postprocess.{filter_degenerate}
use ocr_serving.Postprocess.Normalize.{Unicode}
use ocr_serving.Pages.{native_result, blank_result, duplicate_result, ocr_result}
use ocr_serving.Pages.Pool.{Board, Job, Pool, Reach}
use ocr_serving.Pages.Made.{false_ne_true, some_injective}
use ocr_serving.Pages.Faithful.{Reach-Faithful}
use ocr_serving.Pages.Results.{readable, IsResult, as_native, as_blank, as_ocr, as_copy}

some_text : {x y : Text} → some x ≡ some y → x ≡ y
some_text e = cc

none_text : {x : Text} → none ≡ some x → ⊥
none_text e = cc

none_number : {j : ℕ} → none ≡ some j → ⊥
none_number e = cc

module _ (s : Settings) (u : Unicode) (job : Job) where
  copy_result :
      (b : Board) (p : PageResult)
      → IsResult u job b p
      → (j : ℕ) → p.duplicate_of ≡ some j
      → b.shared j ≡ some p.text
  unfolding native_result blank_result ocr_result duplicate_result
  copy_result b p (as_native i w h t ms e) j d = absurd (none_number d)
  copy_result b p (as_blank i dpi q ms e z) j d = absurd (none_number d)
  copy_result b p (as_ocr i dpi q r ms e z k) j d = absurd (none_number d)
  copy_result b p (as_copy i dpi o q t ms e z g k n) j d = ap b.shared (sym (some_injective d)) ∙ k

  original_result :
      (b : Board) (q : PageResult)
      → IsResult u job b q
      → (t : Text) → b.shared q.index ≡ some t
      → readable (job.source q.index) ≡ true
      → (q.source ≡ ocr) × (q.text ≡ (filter_degenerate t).0)
  unfolding native_result blank_result ocr_result duplicate_result
  original_result b q (as_native i w h x ms e) t k seen =
      absurd (false_ne_true (sym (ap readable e) ∙ seen))
  original_result b q (as_blank i dpi p ms e z) t k seen =
      absurd (false_ne_true (sym (ap readable e ∙ ap not z) ∙ seen))
  original_result b q (as_ocr i dpi p r ms e z g) t k seen =
      (refl, ap (λ x. (filter_degenerate x).0) (some_text (sym g ∙ k)))
  original_result b q (as_copy i dpi o p x ms e z d g n) t k seen = absurd (none_text (sym n ∙ k))

  -- In every state that the pages can reach, a result that names another as its original names one that
  -- the engine read, and the original's text is the duplicate's behind `filter_degenerate`.
  pub original_filtered :
      (a : Pool s u job) (m n : ℕ) (p q : PageResult)
      → Reach s u job a
      → get_elem? a.board.pages m ≡ some p
      → get_elem? a.board.pages n ≡ some q
      → p.duplicate_of ≡ some q.index
      → (q.source ≡ ocr) × (q.text ≡ (filter_degenerate p.text).0)
  original_filtered a m n p q r at_p at_q d =
      let v = Reach-Faithful s u job r in
      let hp = All-get _ a.board.pages m p v.shown at_p in
      let hq = All-get _ a.board.pages n q v.shown at_q in
      let k = copy_result a.board p hp.0 q.index d in
      original_result a.board q hq.0 p.text k (v.settled q.index p.text k).1

  -- In every state that the pages can reach, whatever the order of their tasks, each result in `pages` is
  -- one that its page may have: the cleaned text layer, nothing for a blank image, the text of its
  -- regions behind the filter, or the text that a page with the same digest shared.
  pub Reach-IsResult :
      (a : Pool s u job) (n : ℕ) (p : PageResult)
      → Reach s u job a
      → get_elem? a.board.pages n ≡ some p
      → IsResult u job a.board p
  Reach-IsResult a n p r at = (All-get _ a.board.pages n p (Reach-Faithful s u job r).shown at).0
