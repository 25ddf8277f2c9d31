-- ===== src/Pages/Results.antt =====
-- The results that the pages leave in `pages`: each is its page's own, whatever the tasks' order.
use ocr_serving.Base.{
  ℕ, ◌≡◌, refl, ap, sym, ◌∙◌, ◌==◌, ==_iff, Bool-cases, inl, inr, ◌⊎◌, Bool, true, false, not,
  Option, none, some,
}
use ocr_serving.Base.Text.{Text, text_eq, text_eq_iff}
use ocr_serving.Base.Dict.{lookup, lookup-insert}
use ocr_serving.Base.Families.{put-other}
use ocr_serving.Config.{Settings}
use ocr_serving.Schemas.{PageResult}
use ocr_serving.Postprocess.Normalize.{Unicode}
use ocr_serving.Pages.{
  Prepared, Reading, native_result, blank_result, duplicate_result, ocr_result, shared_text,
}
use ocr_serving.Pages.Pool.{
  Source, text_layer, image, Stage, opened, reading, copying, announcing, finished, failed, Board,
  register, original_of, Job, Move, prepare_fails, has_text, is_blank, is_copy, is_new, starts,
  start_fails, flush_fails, reads, read_fails, copies, announces, announce_fails,
}
use ocr_serving.Pages.Made.{copied, none_ne_some, register-shared, false_ne_true, some_injective}

-- The task has left `_process_page`.
abbrev pub past : Stage → Bool
past announcing = true
past finished = true
past failed = true
past _ = false

-- The task is beyond the tests for a text layer and for a blank page, and in `_process_page`.
abbrev pub engaged : Stage → Bool
engaged opened = true
engaged reading = true
engaged (copying j) = true
engaged _ = false

-- The page goes to the engine, or is a copy.
abbrev pub readable : Source → Bool
readable (text_layer w h t) = false
readable (image dpi p) = not p.is_blank

abbrev pub digest_of : Source → Option Text
digest_of (text_layer w h t) = none
digest_of (image dpi p) = some p.digest

module _ (u : Unicode) (job : Job) where
  -- The results that the page they name may have.
  pub data IsResult (b : Board) : PageResult → Type 0 where
    as_native :
        (i w h : ℕ) (t : Text) (ms : ℕ)
        → job.source i ≡ text_layer w h t
        → IsResult b (native_result u i w h t ms)
    as_blank :
        (i dpi : ℕ) (p : Prepared) (ms : ℕ)
        → job.source i ≡ image dpi p
        → p.is_blank ≡ true
        → IsResult b (blank_result u i dpi p ms)
    as_ocr :
        (i dpi : ℕ) (p : Prepared) (r : Reading) (ms : ℕ)
        → job.source i ≡ image dpi p
        → p.is_blank ≡ false
        → b.shared i ≡ some (shared_text u r)
        → IsResult b (ocr_result u i dpi p r ms)
    as_copy :
        (i dpi j : ℕ) (p : Prepared) (t : Text) (ms : ℕ)
        → job.source i ≡ image dpi p
        → p.is_blank ≡ false
        → digest_of (job.source j) ≡ some p.digest
        → b.shared j ≡ some t
        → b.shared i ≡ none
        → IsResult b (duplicate_result u i dpi p j t ms)

register-keyed :
    (dedup : Bool) (digest d : Text) (i j : ℕ) (b : Board)
    → lookup d (register dedup digest i b).dedupe ≡ some j
    → (lookup d b.dedupe ≡ some j) ⊎ ((i ≡ j) × (digest ≡ d))
register-keyed false digest d i j b e = inl e
register-keyed true digest d i j b e = elim (Bool-cases (text_eq digest d)) [
  | inl same ↦ inr (
    some_injective (rw same at (sym (lookup-insert digest d i b.dedupe) ∙ e)),
    (text_eq_iff digest d).0 same,
  )
  | inr other ↦ inl (rw other at (sym (lookup-insert digest d i b.dedupe) ∙ e))
]

pub register-pages :
    (dedup : Bool) (digest : Text) (i : ℕ) (b : Board) → (register dedup digest i b).pages ≡ b.pages
register-pages true digest i b = refl
register-pages false digest i b = refl

original-keyed :
    (dedup : Bool) (d : Text) (b : Board) (j : ℕ)
    → original_of dedup d b ≡ some j
    → lookup d b.dedupe ≡ some j
original-keyed true d b j e = e
original-keyed false d b j e = cc

pub not_blank : (blank : Bool) → not blank ≡ true → blank ≡ false
not_blank true h = cc
not_blank false h = refl

module _ (s : Settings) (u : Unicode) (job : Job) where
  pub Move-past :
      {i : ℕ} {b c : Board} {x y : Stage} → Move s u job i b x c y → past x ≡ true → past y ≡ true
  Move-past announces h = refl
  Move-past announce_fails h = refl
  Move-past (copies ms e q) h = refl
  Move-past (reads r ms e) h = refl
  Move-past (read_fails r) h = refl
  Move-past start_fails h = refl
  Move-past flush_fails h = refl
  Move-past prepare_fails h = refl
  Move-past (has_text ms e) h = refl
  Move-past (is_blank ms e q) h = refl
  Move-past (is_copy e q o) h = absurd (false_ne_true h)
  Move-past (is_new e q o) h = absurd (false_ne_true h)
  Move-past starts h = absurd (false_ne_true h)

  -- The future of a page whose task has left is not set again.
  pub Move-fixed :
      {i : ℕ} {b c : Board} {x y : Stage}
      → Move s u job i b x c y
      → (j : ℕ) → (i ≡ j → past x ≡ true)
      → c.shared j ≡ b.shared j
  Move-fixed {i} {b} (is_new {p} e q o) j h =
      ap (λ f. f j) (register-shared s.deduplicate_pages p.digest i b)
  Move-fixed {i} {b} (reads r ms e) j h = put-other b.shared i j _ (λ e. false_ne_true (h e))
  Move-fixed {i} {b} (read_fails r) j h = put-other b.shared i j _ (λ e. false_ne_true (h e))
  Move-fixed _ j h = refl

  pub Move-keyed :
      {i : ℕ} {b c : Board} {x y : Stage}
      → Move s u job i b x c y
      → (d : Text) (j : ℕ) → lookup d c.dedupe ≡ some j
      → (lookup d b.dedupe ≡ some j) ⊎ (digest_of (job.source j) ≡ some d)
  Move-keyed {i} {b} (is_new {p} e q o) d j h =
      elim (register-keyed s.deduplicate_pages p.digest d i j b h) [
        | inl old ↦ inl old
        | inr (self, same) ↦
            inr (ap (λ k. digest_of (job.source k)) (sym self) ∙ (ap digest_of e ∙ ap some same))
      ]
  Move-keyed _ d j h = inl h

  pub Move-twin :
      {i : ℕ} {b c : Board} {x y : Stage}
      → Move s u job i b x c y
      → ((d : Text) (j : ℕ) → lookup d b.dedupe ≡ some j → digest_of (job.source j) ≡ some d)
      → (j : ℕ) → y ≡ copying j
      → digest_of (job.source j) ≡ digest_of (job.source i)
  Move-twin {b} (is_copy {p} e q o) keyed j h =
      keyed p.digest j (original-keyed s.deduplicate_pages p.digest b j (o ∙ ap copied h))
      ∙ sym (ap digest_of e)
  Move-twin _ keyed j h = absurd (none_ne_some (ap copied h))

  pub Move-settled :
      {i : ℕ} {b c : Board} {x y : Stage}
      → Move s u job i b x c y
      → (j : ℕ) (t : Text) → c.shared j ≡ some t
      → (b.shared j ≡ some t) ⊎ ((i ≡ j) × (engaged x ≡ true) × (past y ≡ true))
  Move-settled {i} {b} (is_new {p} e q o) j t h =
      inl (sym (ap (λ f. f j) (register-shared s.deduplicate_pages p.digest i b)) ∙ h)
  Move-settled {i} {b} (reads r ms e) j t h = elim (Bool-cases (i == j)) [
    | inl same ↦ inr ((==_iff i j).0 same, refl, refl)
    | inr other ↦ inl (rw other at h)
  ]
  Move-settled {i} {b} (read_fails r) j t h = elim (Bool-cases (i == j)) [
    | inl same ↦ inr ((==_iff i j).0 same, refl, refl)
    | inr other ↦ inl (rw other at h)
  ]
  Move-settled _ j t h = inl h

  pub Move-busy :
      {i : ℕ} {b c : Board} {x y : Stage}
      → Move s u job i b x c y
      → (engaged x ≡ true → readable (job.source i) ≡ true)
      → engaged y ≡ true
      → readable (job.source i) ≡ true
  Move-busy (is_copy e q o) busy h = ap readable e ∙ ap not q
  Move-busy (is_new e q o) busy h = ap readable e ∙ ap not q
  Move-busy starts busy h = busy refl
  Move-busy _ busy h = absurd (false_ne_true h)
