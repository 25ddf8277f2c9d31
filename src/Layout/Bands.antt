-- ===== src/Layout/Bands.antt =====
-- The band that `_widest_gap` returns is empty: no region crosses it.
use ocr_serving.Base.{
  ℕ, ◌+◌, ◌-◌, ◌*◌, ◌≤◌, ◌<◌, max, ◌≡◌, ◌⊎◌, inl, inr, true, false, Option, none, some, List, [],
  ◌∷◌, map, All, arith, Bool-cases, ltb, if◌then◌else◌,
}
use ocr_serving.Base.Sort.{sort_by, InSorted, sort_by-InSorted, All-sort_by}
use ocr_serving.Schemas.{Region}
use ocr_serving.Layout.{Axis, interval, pair_le, Gap, better, gap_loop, gap_of, widest_gap}

-- The interval ends before the band, or begins after it; in doubled coordinates, as `cut2` is.
abbrev pub Clear : Gap → ℕ × ℕ → Type 0
Clear g (start, end) = (2 * end + g.width ≤ g.cut2) ⊎ (g.cut2 + g.width ≤ 2 * start)

abbrev BestClear : Option Gap → List (ℕ × ℕ) → Type 0
BestClear none l = Unit
BestClear (some g) l = (0 < g.width) × All (Clear g) l

abbrev EndsBy : ℕ → List (ℕ × ℕ) → Type 0
EndsBy reach l = All (λ p. p.1 ≤ reach) l

abbrev StartsFrom : ℕ → List (ℕ × ℕ) → Type 0
StartsFrom start l = All (λ p. start ≤ p.0) l

-- The intervals are in the order of their starts.
abbrev Ascending : List (ℕ × ℕ) → Type 0
Ascending [] = Unit
Ascending (p ∷ l) = StartsFrom p.0 l × Ascending l

EndsBy-mono : (a b : ℕ) (l : List (ℕ × ℕ)) → a ≤ b → EndsBy a l → EndsBy b l
EndsBy-mono a b [] h e = tt
EndsBy-mono a b (p ∷ l) h e = (omega arith, EndsBy-mono a b l h e.1)

module _ (reach start : ℕ) (apart : reach < start) where
  abbrev band : Gap
  band = record { width = start - reach; cut2 = reach + start }

  before_band : (l : List (ℕ × ℕ)) → EndsBy reach l → All (Clear band) l
  before_band [] h = tt
  before_band (p ∷ l) h = (inl (omega arith), before_band l h.1)

  after_band : (l : List (ℕ × ℕ)) → StartsFrom start l → All (Clear band) l
  after_band [] h = tt
  after_band (p ∷ l) h = (inr (omega arith), after_band l h.1)

better-clear :
    (best : Option Gap) (g : Gap) (l : List (ℕ × ℕ))
    → BestClear best l
    → BestClear (some g) l
    → BestClear (better best g) l
better-clear none g l b h = h
better-clear (some c) g l b h = elim (Bool-cases (ltb c.width g.width)) [
  | inl wider ↦ rw wider h
  | inr narrower ↦ rw narrower b
]

-- The best gap after one more interval is still clear of all intervals.
next_best :
    (reach start : ℕ) (best : Option Gap) (l : List (ℕ × ℕ))
    → BestClear best l
    → (reach < start → BestClear (some (record { width = start - reach; cut2 = reach + start })) l)
    → BestClear
        (if ltb reach start
          then better best (record { width = start - reach; cut2 = reach + start })
          else best)
        l
next_best reach start best l b h = elim (Bool-cases (ltb reach start)) [
  | inl apart ↦ rw apart (better-clear best _ l b (h (ground arith)))
  | inr close ↦ rw close b
]

BestClear-cons :
    (best : Option Gap) (p : ℕ × ℕ) (seen rest : List (ℕ × ℕ))
    → BestClear best seen
    → BestClear best (p ∷ rest)
    → BestClear best (p ∷ seen)
BestClear-cons none p seen rest s r = tt
BestClear-cons (some g) p seen rest s r = (s.0, (r.1.0, s.1))

BestClear-tail :
    (best : Option Gap) (p : ℕ × ℕ) (rest : List (ℕ × ℕ))
    → BestClear best (p ∷ rest)
    → BestClear best rest
BestClear-tail none p rest r = tt
BestClear-tail (some g) p rest r = (r.0, r.1.1)

gap_loop-clear :
    (reach : ℕ) (best : Option Gap) (seen rest : List (ℕ × ℕ))
    → EndsBy reach seen
    → Ascending rest
    → BestClear best seen
    → BestClear best rest
    → BestClear (gap_loop reach best rest) seen × BestClear (gap_loop reach best rest) rest
unfolding gap_loop
gap_loop-clear reach best seen [] e a s r = (s, r)
gap_loop-clear reach best seen ((start, end) ∷ rest) e a s r =
    let best' =
      if ltb reach start
      then better best (record { width = start - reach; cut2 = reach + start })
      else best in
    let p : ℕ × ℕ = (start, end) in
    let before =
      next_best reach start best seen s
        (λ apart. (omega arith, before_band reach start apart seen e)) in
    let after = next_best reach start best ((start, end) ∷ rest) r (λ apart.
      (omega arith, after_band reach start apart ((start, end) ∷ rest) (omega arith, a.0))) in
    let ih =
      gap_loop-clear (max reach end) best' (p ∷ seen) rest
        (omega arith, EndsBy-mono reach (max reach end) seen (omega arith) e) a.1
        (BestClear-cons best' p seen rest before after) (BestClear-tail best' p rest after) in
    let result = gap_loop (max reach end) best' rest in
    (BestClear-tail result p seen ih.0, BestClear-cons result p rest seen ih.1 ih.0)

pair_le_total : (p q : ℕ × ℕ) → pair_le p q ≡ false → pair_le q p ≡ true
pair_le_total (a, b) (c, d) h = ground arith

pair_le_trans : (p q r : ℕ × ℕ) → pair_le p q ≡ true → pair_le q r ≡ true → pair_le p r ≡ true
pair_le_trans (a, b) (c, d) (e, f) h k = ground arith

StartsFrom-All : (p : ℕ × ℕ) (l : List (ℕ × ℕ)) → All (λ q. pair_le p q ≡ true) l → StartsFrom p.0 l
StartsFrom-All p [] h = tt
StartsFrom-All p (q ∷ l) h = (first p q h.0, StartsFrom-All p l h.1)
  where
    first : (p q : ℕ × ℕ) → pair_le p q ≡ true → p.0 ≤ q.0
    first (a, b) (c, d) k = ground arith

InSorted-Ascending : (l : List (ℕ × ℕ)) → InSorted pair_le l → Ascending l
InSorted-Ascending [] h = tt
InSorted-Ascending (p ∷ l) h = (StartsFrom-All p l h.0, InSorted-Ascending l h.1)

gap_of-clear : (l : List (ℕ × ℕ)) → Ascending l → BestClear (gap_of l) l
unfolding gap_of
gap_of-clear [] a = tt
gap_of-clear ((start, end) ∷ rest) a =
    let ih = gap_loop-clear end none ((start, end) ∷ []) rest (omega arith, tt) a.1 tt tt in
    BestClear-cons (gap_loop end none rest) (start, end) rest [] ih.1 ih.0

All-map :
    (axis : Axis) (g : Gap) (rs : List Region)
    → All (Clear g) (map (interval axis) rs)
    → All (λ r. Clear g (interval axis r)) rs
All-map axis g [] h = tt
All-map axis g (r ∷ rs) h = (h.0, All-map axis g rs h.1)

-- The band that `_widest_gap` finds is not empty, and every region lies wholly before it or wholly
-- behind it.
pub widest_gap-Clear :
    (axis : Axis) (rs : List Region) (g : Gap)
    → widest_gap axis rs ≡ some g
    → (0 < g.width) × All (λ r. Clear g (interval axis r)) rs
unfolding widest_gap
widest_gap-Clear axis rs g found =
    let l = map (interval axis) rs in
    let clear : BestClear (some g) (sort_by pair_le l) = rw found at (
      gap_of-clear (sort_by pair_le l) (
        InSorted-Ascending (sort_by pair_le l)
          (sort_by-InSorted pair_le pair_le_total pair_le_trans l))) in
    (clear.0, All-map axis g rs (All-sort_by pair_le (Clear g) l clear.1))
