-- ===== src/Benchmarks/Report.antt =====
-- benchmarks/report.py: the block of tables and its place in a document. The tables' own texts, which
-- print the measured numbers, are parameters.
pub mod Split
pub mod Patch
use ocr_serving.Base.{
  ℕ, Bool, true, false, ◌&&◌, ◌||◌, not, Option, none, some, List, [], ◌∷◌, ◌++◌, map, drop, length,
  if◌then◌else◌,
}
use ocr_serving.Base.Text.{Text, codes, text_eq, starts_with, nonempty}
use ocr_serving.Base.Sort.{sort_by}

-- `BEGIN` and `END`
abbrev pub begin_mark : Text
begin_mark = codes "<!-- BENCH:BEGIN -->"

abbrev pub end_mark : Text
end_mark = codes "<!-- BENCH:END -->"

abbrev pub before_char : ℕ → Option (Text × Text) → Option (Text × Text)
before_char c none = none
before_char c (some (pre, post)) = some (c ∷ pre, post)

-- `text.split(sep, 1)` around the first `sep`; `none` where `sep in text` is false.
unfoldable pub split_once : Text → Text → Option (Text × Text)
unfolding starts_with
split_once sep [] = if starts_with [] sep then some ([], []) else none
split_once sep (c ∷ s) =
    let rest = split_once sep s in
    if starts_with (c ∷ s) sep then some ([], drop (length sep) (c ∷ s)) else before_char c rest

-- `sep.join(parts)`
unfoldable pub join : Text → List Text → Text
join sep [] = []
join sep (t ∷ []) = t
join sep (t ∷ u ∷ ts) = t ++ (sep ++ join sep (u ∷ ts))

-- `cell`: `none` is a missing measurement.
abbrev pub cell : Option Text → Text
cell none = 0x2014 ∷ []
cell (some value) = value

abbrev rule : List Text → Text
rule [] = []
rule (h ∷ header) = codes "---|" ++ rule header

-- `table`
unfoldable pub table : List (List (Option Text)) → List Text → Text
unfolding join
table rows header = join (10 ∷ []) (
    (codes "| " ++ (join (codes " | ") header ++ codes " |"))
    ∷ (codes "|" ++ rule header)
    ∷ map (λ row. codes "| " ++ (join (codes " | ") (map cell row) ++ codes " |")) rows)

abbrev pub blank_line : Text
blank_line = 10 ∷ 10 ∷ []

unfoldable pub kept : List Text → List Text
kept [] = []
kept (t ∷ ts) = let rest = kept ts in if nonempty t then t ∷ rest else rest

-- `build_block`, from the headline and the four tables.
unfoldable pub build_block : Text → Text → Text → Text → Text → Text
unfolding join kept
build_block headline serving coldstart batch ops = join blank_line (
    kept (
      begin_mark
      ∷ headline
      ∷ (codes "### Serving latency and throughput" ++ (blank_line ++ serving))
      ∷ (codes "### Cold start" ++ (blank_line ++ coldstart))
      ∷ (codes "### Batch inference (Ray Data)" ++ (blank_line ++ batch))
      ∷ (codes "### Ops overhead" ++ (blank_line ++ ops))
      ∷ end_mark
      ∷ []))

-- What `main` does with the target: the text that it writes, nothing but printing, or the ValueError
-- of an end mark that stands before the begin mark only.
pub data Patched : Type 0 where
  written : Text → Patched
  printed raised : Patched

abbrev around : Text → Text → Option (Text × Text) → Patched
around pre block none = raised
around pre block (some (old, post)) = written (pre ++ (block ++ post))

abbrev between : Text → Option (Text × Text) → Option (Text × Text) → Patched
between block none ends = printed
between block (some (pre, rest)) none = printed
between block (some (pre, rest)) (some ends) = around pre block (split_once end_mark rest)

-- `main` on the text of a target that exists.
unfoldable pub patch : Text → Text → Patched
unfolding split_once
patch block text = between block (split_once begin_mark text) (split_once end_mark text)
