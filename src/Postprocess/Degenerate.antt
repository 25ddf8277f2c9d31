-- ===== src/Postprocess/Degenerate.antt =====
-- The degeneration filter keeps a prefix without repeated lines, and stops only at a repetition.
use mathlib.Core.Bool.{false≢true}
use ocr_serving.Base.{
  ◌<◌, ◌≡◌, ◌≢◌, refl, ap, sym, ◌∙◌, subst, ◌⊎◌, inl, inr, Bool, true, false, List, [], ◌∷◌, ◌++◌,
  ◌&&◌, All, map, length, arith, Bool-cases, ltb, if◌then◌else◌,
}
use ocr_serving.Base.Text.{Text, text_eq_refl, nonempty}
use ocr_serving.Base.Strip.{strip}
use ocr_serving.Postprocess.{is_member, keep_lines}

-- No line of more than three characters comes twice, up to the white space around it.
abbrev pub NoRepeat : List Text → Type 0
NoRepeat [] = Unit
NoRepeat (l ∷ ls) = (3 < length (strip l) → All (λ m. strip m ≢ strip l) ls) × NoRepeat ls

-- One step of the loop, on the stripped line.
abbrev repeats : Text → List Text → Bool
repeats key seen = nonempty key && is_member key seen && ltb 3 (length key)

long-repeats :
    (k : Text) (seen : List Text) → is_member k seen ≡ true → 3 < length k → repeats k seen ≡ true
long-repeats [] seen m long = absurd (omega arith)
long-repeats (c ∷ k) seen m long = ground arith

fresh-ne :
    (k key : Text) (seen : List Text)
    → is_member k seen ≡ true
    → 3 < length k
    → repeats key seen ≡ false
    → key ≢ k
fresh-ne k key seen m long fresh same =
    false≢true (sym fresh ∙ ap (λ (t : Text). repeats t seen) same ∙ long-repeats k seen m long)

-- What the loop has seen after one more line.
abbrev see : Text → List Text → List Text
see key seen = if nonempty key then key ∷ seen else seen

member_see :
    (k key : Text) (seen : List Text) → is_member k seen ≡ true → is_member k (see key seen) ≡ true
unfolding is_member
member_see k key seen h = ground arith

member_see_self :
    (key : Text) (seen : List Text) → 3 < length key → is_member key (see key seen) ≡ true
unfolding is_member
member_see_self [] seen h = absurd (omega arith)
member_see_self (c ∷ key) seen h = rw (text_eq_refl (c ∷ key))

keep_stops :
    (seen : List Text) (l : Text) (ls : List Text)
    → repeats (strip l) seen ≡ true
    → keep_lines seen (l ∷ ls) ≡ []
unfolding keep_lines
keep_stops seen l ls h = rw h

keep_goes_on :
    (seen : List Text) (l : Text) (ls : List Text)
    → repeats (strip l) seen ≡ false
    → keep_lines seen (l ∷ ls) ≡ l ∷ keep_lines (see (strip l) seen) ls
unfolding keep_lines
keep_goes_on seen l ls h = rw h

keep_lines-fresh :
    (k : Text) (seen ls : List Text)
    → is_member k seen ≡ true
    → 3 < length k
    → All (λ m. strip m ≢ k) (keep_lines seen ls)
keep_lines-fresh k seen [] m long = unfold keep_lines in tt
keep_lines-fresh k seen (l ∷ ls) m long = elim (Bool-cases (repeats (strip l) seen)) [
  | inl stop ↦ rw (keep_stops seen l ls stop) tt
  | inr fresh ↦ rw (keep_goes_on seen l ls fresh) (
    fresh-ne k (strip l) seen m long fresh,
    keep_lines-fresh k (see (strip l) seen) ls (member_see k (strip l) seen m) long,
  )
]

keep_lines-NoRepeat : (seen ls : List Text) → NoRepeat (keep_lines seen ls)
keep_lines-NoRepeat seen [] = unfold keep_lines in tt
keep_lines-NoRepeat seen (l ∷ ls) = elim (Bool-cases (repeats (strip l) seen)) [
  | inl stop ↦ rw (keep_stops seen l ls stop) tt
  | inr fresh ↦ rw (keep_goes_on seen l ls fresh) (
    λ long.
        keep_lines-fresh (strip l) (see (strip l) seen) ls (member_see_self (strip l) seen long)
          long,
    keep_lines-NoRepeat (see (strip l) seen) ls,
  )
]

-- All lines were kept, or the lines go on behind those that were kept with one that repeats a line
-- of `seen` or of the kept ones.
abbrev StopsAt : List Text → List Text → List Text → Type 0
StopsAt seen kept ls =
    (kept ≡ ls)
    ⊎ ((l : Text) × (rest : List Text) × (ls ≡ kept ++ l ∷ rest)
        × (3 < length (strip l))
        × ((is_member (strip l) seen ≡ true) ⊎ (is_member (strip l) (map strip kept) ≡ true)))

repeats_parts :
    (k : Text) (seen : List Text)
    → repeats k seen ≡ true
    → (3 < length k) × (is_member k seen ≡ true)
repeats_parts k seen h = ground arith

StopsAt-cons :
    (seen kept : List Text) (l : Text) (ls : List Text)
    → StopsAt (see (strip l) seen) kept ls
    → StopsAt seen (l ∷ kept) (l ∷ ls)
StopsAt-cons seen kept l ls (inl all) = inl (ap (λ t. l ∷ t) all)
StopsAt-cons seen kept l ls (inr (m, rest, e, long, where_seen)) =
    inr (m, rest, ap (λ t. l ∷ t) e, long, moved where_seen)
  where
    moved :
        (is_member (strip m) (see (strip l) seen) ≡ true)
          ⊎ (is_member (strip m) (map strip kept) ≡ true)
        → (is_member (strip m) seen ≡ true) ⊎ (is_member (strip m) (map strip (l ∷ kept)) ≡ true)
    moved h = unfold is_member in ground arith

keep_lines-StopsAt : (seen ls : List Text) → StopsAt seen (keep_lines seen ls) ls
keep_lines-StopsAt seen [] = inl (unfold keep_lines in refl)
keep_lines-StopsAt seen (l ∷ ls) = elim (Bool-cases (repeats (strip l) seen)) [
  | inl stop ↦
      subst (λ kept. StopsAt seen kept (l ∷ ls)) (sym (keep_stops seen l ls stop))
        (inr (
          l,
          ls,
          refl,
          (repeats_parts (strip l) seen stop).0,
          inl (repeats_parts (strip l) seen stop).1,
        ))
  | inr fresh ↦
      subst (λ kept. StopsAt seen kept (l ∷ ls)) (sym (keep_goes_on seen l ls fresh))
        (StopsAt-cons seen (keep_lines (see (strip l) seen) ls) l ls
          (keep_lines-StopsAt (see (strip l) seen) ls))
]

-- The lines that the degeneration filter keeps hold no repetition; they are all lines, or are
-- followed by a line of more than three characters that is, stripped, one of them.
pub keep_lines_exact :
    (ls : List Text)
    → NoRepeat (keep_lines [] ls)
      × ((keep_lines [] ls ≡ ls)
          ⊎ ((l : Text) × (rest : List Text) × (ls ≡ keep_lines [] ls ++ l ∷ rest)
              × (3 < length (strip l))
              × (is_member (strip l) (map strip (keep_lines [] ls)) ≡ true)))
keep_lines_exact ls = (keep_lines-NoRepeat [] ls, outcome (keep_lines-StopsAt [] ls))
  where
    outcome :
        StopsAt [] (keep_lines [] ls) ls
        → (keep_lines [] ls ≡ ls)
          ⊎ ((l : Text) × (rest : List Text) × (ls ≡ keep_lines [] ls ++ l ∷ rest)
              × (3 < length (strip l))
              × (is_member (strip l) (map strip (keep_lines [] ls)) ≡ true))
    outcome (inl all) = inl all
    outcome (inr (l, rest, e, long, inl none_seen)) =
        absurd (false≢true (unfold is_member in none_seen))
    outcome (inr (l, rest, e, long, inr again)) = inr (l, rest, e, long, again)
