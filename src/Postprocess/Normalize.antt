-- ===== src/Postprocess/Normalize.antt =====
-- `normalize_text`: the code fence, NFKC, ligatures, line ends, hyphenation and white space.
use ocr_serving.Base.{
  ℕ, suc, Bool, true, false, Option, none, some, [], ◌∷◌, ◌++◌, ◌&&◌, ◌||◌, if◌then◌else◌, ltb,
  ◌==◌,
}
use ocr_serving.Base.Text.{Text, codes}
use ocr_serving.Base.Strip.{is_space, lstrip, strip}

pub record Unicode : Type 0 where
  pub nfkc : Text → Text
  pub is_word : ℕ → Bool
  pub is_alpha : ℕ → Bool

-- The rest of a text behind a prefix.
unfoldable pub strip_prefix : Text → Text → Option Text
strip_prefix [] s = some s
strip_prefix (p ∷ ps) [] = none
strip_prefix (p ∷ ps) (c ∷ s) = if c == p then strip_prefix ps s else none

abbrev or_text : Option Text → Text → Text
or_text none d = d
or_text (some s) d = s

-- `(?:markdown|md|text)?`
unfoldable pub skip_tag : Text → Text
unfolding strip_prefix
skip_tag s = elim (strip_prefix (codes "markdown") s) [
  | some r ↦ r
  | none ↦ elim (strip_prefix (codes "md") s) [
    | some r ↦ r
    | none ↦ or_text (strip_prefix (codes "text") s) s
  ]
]

-- `\s*\n`: what follows the last line end of the leading white space.
unfoldable pub after_newline : Option Text → Text → Option Text
unfolding is_space
after_newline best [] = best
after_newline best (c ∷ s) =
    let more = after_newline (if c == 10 then some s else best) s in
    if is_space c then more else best

unfoldable pub all_space : Text → Bool
unfolding is_space
all_space [] = true
all_space (c ∷ s) = is_space c && all_space s

abbrev skip_newline : Text → Text
skip_newline [] = []
skip_newline (c ∷ s) = if c == 10 then s else c ∷ s

-- Whether "\n?```\s*$" matches here.
unfoldable pub closes : Text → Bool
unfolding strip_prefix all_space
closes s = elim (strip_prefix (codes "```") (skip_newline s)) [
  | none ↦ false
  | some r ↦ all_space r
]

-- `(.*?)`: the shortest text before the closing fence.
unfoldable pub fenced : Text → Option Text
unfolding closes
fenced [] = none
fenced (c ∷ s) =
    let rest = fenced s in
    if closes (c ∷ s) then some [] else elim rest [ none ↦ none | some g ↦ some (c ∷ g) ]

-- `_FENCE.match(text)`: the group, if it matches.
unfoldable pub fence_match : Text → Option Text
unfolding strip_prefix skip_tag after_newline fenced lstrip is_space
fence_match text = elim (strip_prefix (codes "```") (lstrip text)) [
  | none ↦ none
  | some r ↦ elim (after_newline none (skip_tag r)) [ none ↦ none | some body ↦ fenced body ]
]

-- The five replacements of `_LIGATURES`.
unfoldable pub replace_ligatures : Text → Text
replace_ligatures [] = []
replace_ligatures (c ∷ s) =
    let rest = replace_ligatures s in
    if c == 0xfb00
    then codes "ff" ++ rest
    else if c == 0xfb01
    then codes "fi" ++ rest
    else if c == 0xfb02
    then codes "fl" ++ rest
    else if c == 0xfb03
    then codes "ffi" ++ rest
    else if c == 0xfb04
    then codes "ffl" ++ rest
    else c ∷ rest

-- `.replace("\r\n", "\n").replace("\r", "\n")`
unfoldable pub unix_lines : Bool → Text → Text
unix_lines after_cr [] = []
unix_lines after_cr (c ∷ s) = elim (c == 13) [
  | true ↦ 10 ∷ unix_lines true s
  | false ↦ elim (after_cr && (c == 10)) [
    | true ↦ unix_lines false s
    | false ↦ c ∷ unix_lines false s
  ]
]

-- `_HYPHEN_BREAK.sub(r"\1\2", text)`, from the left, matches not overlapping.
unfoldable pub join_hyphens : (ℕ → Bool) → Text → Text
join_hyphens is_word (a ∷ b ∷ c ∷ d ∷ s) =
    elim (is_word a && (b == b'-') && (c == 10) && is_word d) [
      | true ↦ a ∷ d ∷ join_hyphens is_word s
      | false ↦ a ∷ join_hyphens is_word (b ∷ c ∷ d ∷ s)
    ]
join_hyphens is_word s = s

abbrev pub at_line_end : Text → Bool
at_line_end [] = true
at_line_end (c ∷ s) = c == 10

-- `_TRAILING_WS.sub("", text)`: blanks and tabs that only such follow up to the line's end.
unfoldable pub trim_lines : Text → Text
trim_lines [] = []
trim_lines (c ∷ s) =
    let rest = trim_lines s in
    if ((c == 32) || (c == 9)) && at_line_end rest then rest else c ∷ rest

-- `_BLANK_LINES.sub("\n\n", text)`; the number counts the line ends just before.
unfoldable pub squeeze_lines : ℕ → Text → Text
squeeze_lines n [] = []
squeeze_lines n (c ∷ s) = elim (c == 10) [
  | false ↦ c ∷ squeeze_lines 0 s
  | true ↦ elim (ltb n 2) [ true ↦ c ∷ squeeze_lines (suc n) s | false ↦ squeeze_lines n s ]
]

unfoldable pub normalize_text : Unicode → Text → Text
unfolding fence_match replace_ligatures unix_lines join_hyphens trim_lines squeeze_lines strip
normalize_text u [] = []
normalize_text u (c ∷ s) =
    let text = or_text (fence_match (c ∷ s)) (c ∷ s) in
    strip (
      squeeze_lines 0
        (trim_lines (join_hyphens u.is_word (unix_lines false (replace_ligatures (u.nfkc text))))))
