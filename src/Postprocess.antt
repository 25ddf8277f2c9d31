-- ===== src/Postprocess.antt =====
-- workers/postprocess.py: text normalisation, the degeneration filter, and stitching. `Unicode` has
-- what the code takes from Python's Unicode tables.
pub mod Normalize
pub mod Degenerate
pub mod Overlap
use ocr_serving.Base.{
  ℕ, zero, suc, ◌+◌, ◌-◌, ◌*◌, ◌≤◌, Bool, true, false, Option, none, some, List, [], ◌∷◌, ◌++◌,
  ◌&&◌, ◌||◌, not, map, length, take, drop, min, if◌then◌else◌, ltb, leb, ◌==◌,
}
use ocr_serving.Base.Text.{Text, codes, text_eq, text_or, decimal, nonempty}
use ocr_serving.Base.Strip.{strip, lstrip, split_lines}
use ocr_serving.Base.Dict.{Dict, lookup, insert}
use ocr_serving.Postprocess.Normalize.{Unicode, normalize_text}

-- The lines that count for the ratio: stripped, and longer than three characters.
unfoldable pub long_lines : List Text → List Text
unfolding strip
long_lines [] = []
long_lines (ln ∷ lns) =
    let rest = long_lines lns in if ltb 3 (length (strip ln)) then strip ln ∷ rest else rest

-- The loop of `repetition_ratio`: `i` is the line's number, `seen` its last occurrence.
unfoldable pub count_repeats : ℕ → ℕ → Dict ℕ → List Text → ℕ
count_repeats window i seen [] = 0
count_repeats window i seen (line ∷ lines) =
    let rest = count_repeats window (suc i) (insert line i seen) lines in
    elim (lookup line seen) [
      | none ↦ rest
      | some prev ↦ if leb (i - prev) window then suc rest else rest
    ]

-- `repetition_ratio`, as a numerator and a denominator.
unfoldable pub repetition_ratio : ℕ → Text → ℕ × ℕ
unfolding split_lines long_lines count_repeats
repetition_ratio window text =
    let lines = long_lines (split_lines text) in
    if ltb (length lines) 6 then (0, 1) else (count_repeats window 0 [] lines, length lines)

unfoldable pub is_member : Text → List Text → Bool
is_member k [] = false
is_member k (j ∷ seen) = text_eq j k || is_member k seen

-- The loop of `filter_degenerate`: it stops at the first line, longer than three characters, that was
-- seen before.
unfoldable pub keep_lines : List Text → List Text → List Text
unfolding strip
keep_lines seen [] = []
keep_lines seen (line ∷ lines) =
    let key = strip line in
    let rest = keep_lines (if nonempty key then key ∷ seen else seen) lines in
    if nonempty key && is_member key seen && ltb 3 (length key) then [] else line ∷ rest

-- `sep.join(parts)`
unfoldable pub join : Text → List Text → Text
join sep [] = []
join sep (p ∷ []) = p
join sep (p ∷ q ∷ ps) = p ++ (sep ++ join sep (q ∷ ps))

abbrev pub newline : Text
newline = 10 ∷ []

abbrev pub blank_line : Text
blank_line = 10 ∷ 10 ∷ []

-- `filter_degenerate` at the threshold 1 / 2.
unfoldable pub filter_degenerate : Text → Text × Bool
filter_degenerate text =
    let (repeats, lines) = repetition_ratio 30 text in
    if ltb (repeats * 2) lines
    then (text, false)
    else (strip (join newline (keep_lines [] (split_lines text))), true)

-- `a[-size:]` for a positive size.
abbrev pub suffix : ℕ → Text → Text
suffix size a = drop (length a - size) a

-- The loop of `_overlap_len`, from `size` down to 21.
unfoldable pub overlap_from : ℕ → Text → Text → ℕ
overlap_from zero a b = 0
overlap_from (suc size) a b = elim (ltb 20 (suc size)) [
  | false ↦ 0
  | true ↦ elim (text_eq (suffix (suc size) a) (take (suc size) b)) [
    | true ↦ suc size
    | false ↦ overlap_from size a b
  ]
]

unfoldable pub overlap_len : Text → Text → ℕ
overlap_len a b =
    let a_tail = suffix 400 a in overlap_from (min (length a_tail) (length b)) a_tail b

module _ (u : Unicode) where
  -- `[normalize_text(t) for t in texts if t and t.strip()]`
  unfoldable pub parts_of : List Text → List Text
  parts_of [] = []
  parts_of (t ∷ ts) =
      let rest = parts_of ts in if nonempty (strip t) then normalize_text u t ∷ rest else rest

  unfoldable pub stitch_step : Bool → Text → Text → Text
  stitch_step dedupe_overlap out part =
      let overlap = if dedupe_overlap then overlap_len out part else 0 in
      if overlap == 0
      then out ++ (blank_line ++ part)
      else out ++ (blank_line ++ lstrip (drop overlap part))

  unfoldable pub stitch_loop : Bool → Text → List Text → Text
  stitch_loop dedupe_overlap out [] = out
  stitch_loop dedupe_overlap out (part ∷ parts) =
      stitch_loop dedupe_overlap (stitch_step dedupe_overlap out part) parts

  abbrev stitch_parts : Bool → List Text → Text
  stitch_parts dedupe_overlap [] = []
  stitch_parts dedupe_overlap (p ∷ ps) = strip (stitch_loop dedupe_overlap p ps)

  unfoldable pub stitch_regions : List Text → Bool → Text
  stitch_regions texts dedupe_overlap = stitch_parts dedupe_overlap (parts_of texts)

  -- `merged.endswith("-") and text[:1].isalpha()`
  abbrev ends_with_hyphen : Text → Bool
  ends_with_hyphen merged = text_eq (suffix 1 merged) (codes "-")

  abbrev starts_alpha : Text → Bool
  starts_alpha [] = false
  starts_alpha (c ∷ s) = u.is_alpha c

  unfoldable pub merge_step : Text → Text → Text
  merge_step merged text =
      if ends_with_hyphen merged && starts_alpha text
      then take (length merged - 1) merged ++ text
      else merged ++ (blank_line ++ text)

  unfoldable pub merge_loop : Text → List Text → Text
  merge_loop merged [] = merged
  merge_loop merged (text ∷ texts) = merge_loop (merge_step merged text) texts

  -- `[t.strip() for t in page_texts if t and t.strip()]`
  unfoldable pub kept_pages : List Text → List Text
  kept_pages [] = []
  kept_pages (t ∷ ts) =
      let rest = kept_pages ts in if nonempty (strip t) then strip t ∷ rest else rest

  abbrev merge_kept : List Text → Text
  merge_kept [] = []
  merge_kept (t ∷ ts) = strip (merge_loop t ts)

  unfoldable pub merge_pages : List Text → Text
  merge_pages page_texts = merge_kept (kept_pages page_texts)

-- The page anchors and texts of `to_markdown`, pages with no text left out.
unfoldable pub markdown_pages : ℕ → List Text → List Text
markdown_pages i [] = []
markdown_pages i (text ∷ texts) =
    let rest = markdown_pages (suc i) texts in
    if nonempty (strip text)
    then (codes "<!-- page " ++ (decimal (suc i) ++ (codes " -->" ++ (blank_line ++ strip text))))
      ∷ rest
    else rest

unfoldable pub to_markdown : Text → Text → List Text → Text
to_markdown job_id filename page_texts =
    codes "# "
    ++ (text_or filename job_id
        ++ (blank_line ++ (join blank_line (markdown_pages 0 page_texts) ++ newline)))
