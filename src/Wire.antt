-- ===== src/Wire.antt =====
-- The lines of a response: what the clients rely on of httpx's `aiter_lines`, which documents itself
-- as `str.splitlines` on the text of the body.
use ocr_serving.Base.{
  ◌≡◌, refl, ap, ◌∙◌, Bool, true, false, ◌||◌, List, [], ◌∷◌, ◌++◌, arith, append_assoc, append-nil,
  sym, ℕ,
}
use ocr_serving.Base.Text.{Text}
use ocr_serving.Base.Strip.{is_line_end, lines_from, split_lines}

unfoldable pub has_line_end : Text → Bool
has_line_end [] = false
has_line_end (c ∷ s) = is_line_end c || has_line_end s

-- A body of no text has no line; a line without a line end in it ends at the next "\n".
pub record IsLines (lines : Text → List Text) : Type 0 where
  pub lines-nil : lines [] ≡ []
  pub lines-append :
      (l rest : Text) → has_line_end l ≡ false → lines (l ++ 10 ∷ rest) ≡ l ∷ lines rest

lines_from-newline :
    (piece rest : Text) (begun : Bool)
    → lines_from false piece begun (10 ∷ rest) ≡ piece ∷ split_lines rest
unfolding lines_from split_lines is_line_end
lines_from-newline piece rest true = refl
lines_from-newline piece rest false = refl

lines_from-step :
    (piece s : Text) (c : ℕ) (begun : Bool)
    → is_line_end c ≡ false
    → lines_from false piece begun (c ∷ s) ≡ lines_from false (piece ++ c ∷ []) true s
unfolding lines_from
lines_from-step piece s c true h = rw (h, lines_from) refl
lines_from-step piece s c false h = rw (h, lines_from) refl

lines_from-append :
    (piece l rest : Text) (begun : Bool)
    → has_line_end l ≡ false
    → lines_from false piece begun (l ++ 10 ∷ rest) ≡ (piece ++ l) ∷ split_lines rest
unfolding has_line_end
lines_from-append piece [] rest begun h =
    lines_from-newline piece rest begun ∙ ap (λ x. x ∷ split_lines rest) (sym (append-nil piece))
lines_from-append piece (c ∷ l) rest begun h =
    lines_from-step piece (l ++ 10 ∷ rest) c begun (ground arith)
    ∙ (lines_from-append (piece ++ c ∷ []) l rest true (ground arith)
        ∙ ap (λ x. x ∷ split_lines rest) (append_assoc piece (c ∷ []) l))

-- `str.splitlines` is such a function.
pub split_lines-IsLines : IsLines split_lines
unfolding split_lines lines_from
split_lines-IsLines = record {
  lines-nil = refl;
  lines-append = λ l rest h. lines_from-append [] l rest false h;
}
