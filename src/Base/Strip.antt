-- ===== src/Base/Strip.antt =====
-- Python's white space, and `str.strip`, `lstrip`, `rstrip` and `splitlines`.
use ocr_serving.Base.Text.{Text}
use ocr_serving.Base.Tests.{leb, ◌==◌, if◌then◌else◌}
use Prim.Native.Nat.{ℕ}
use mathlib.Core.Bool.{Bool, true, false, ◌&&◌, ◌||◌}
use mathlib.Core.List.{List, [], ◌∷◌, ◌++◌}

-- `str.isspace` on one character.
unfoldable pub is_space : ℕ → Bool
is_space c =
    (leb 9 c && leb c 13)
    || (leb 28 c && leb c 32)
    || (c == 0x85)
    || (c == 0xa0)
    || (c == 0x1680)
    || (leb 0x2000 c && leb c 0x200a)
    || (c == 0x2028)
    || (c == 0x2029)
    || (c == 0x202f)
    || (c == 0x205f)
    || (c == 0x3000)

unfoldable pub lstrip : Text → Text
lstrip [] = []
lstrip (c ∷ s) = let rest = lstrip s in if is_space c then rest else c ∷ s

-- `rstrip`: a space stays only if something after it stays.
abbrev pub keep_before : ℕ → Text → Text
keep_before c [] = if is_space c then [] else c ∷ []
keep_before c (d ∷ s) = c ∷ d ∷ s

unfoldable pub rstrip : Text → Text
rstrip [] = []
rstrip (c ∷ s) = keep_before c (rstrip s)

unfoldable pub strip : Text → Text
unfolding lstrip rstrip is_space
strip s = rstrip (lstrip s)

-- The line ends of `str.splitlines`, but for "\r\n".
unfoldable pub is_line_end : ℕ → Bool
is_line_end c =
    (leb 10 c && leb c 13)
    || (leb 28 c && leb c 30)
    || (c == 0x85)
    || (c == 0x2028)
    || (c == 0x2029)

-- `piece` is the line so far, and `open` says whether it has begun; `after_cr` that the last line
-- ended in a "\r", whose "\n" belongs to it.
unfoldable pub lines_from : Bool → Text → Bool → Text → List Text
unfolding is_line_end
lines_from after_cr piece false [] = []
lines_from after_cr piece true [] = piece ∷ []
lines_from after_cr piece begun (c ∷ s) = elim (after_cr && (c == 10)) [
  | true ↦ lines_from false [] false s
  | false ↦ elim (is_line_end c) [
    | true ↦ piece ∷ lines_from (c == 13) [] false s
    | false ↦ lines_from false (piece ++ c ∷ []) true s
  ]
]

unfoldable pub split_lines : Text → List Text
unfolding lines_from
split_lines s = lines_from false [] false s
