-- ===== src/Layout/Reading.antt =====
-- The reading order loses and invents no region, and respects the empty band that it cuts at.
use mathlib.Core.List.{Perm, perm_middle}
use mathlib.Core.List.Perm
use ocr_serving.Base.{
  ℕ, zero, suc, ◌+◌, ◌*◌, ◌≤◌, ◌<◌, ◌≡◌, refl, ap, sym, ◌∙◌, inl, inr, Bool, true, false, Option,
  none, some, List, [], ◌∷◌, ◌++◌, ◌||◌, not, map, All, All-append, arith, Bool-cases, length,
  if◌then◌else◌,
}
use ocr_serving.Base.Sort.{sort_by-perm, sort_by-All}
use ocr_serving.Schemas.{Region}
use ocr_serving.Layout.{
  Axis, interval, widest_gap, Gap, by_position, region_le, is_near, select, split_at, is_empty,
  at_most_one, cut_for, xy_cut, number_from, assign_reading_order,
}
use ocr_serving.Layout.Bands.{Clear, widest_gap-Clear}

select-perm :
    (p : Region → Bool) (rs : List Region) → Perm (select p rs ++ select (λ r. not (p r)) rs) rs
unfolding select
select-perm p [] = Perm.refl []
select-perm p (r ∷ rs) = elim (Bool-cases (p r)) [
  | inl near ↦ rw near (Perm.cons r (select-perm p rs))
  | inr far ↦ rw far (
      Perm.trans (perm_middle (select p rs) (select (λ r. not (p r)) rs))
        (Perm.cons r (select-perm p rs)))
]

by_position-perm : (rs : List Region) → Perm (by_position rs) rs
unfolding by_position
by_position-perm rs = sort_by-perm region_le rs

split_at-perm :
    (recur : List Region → List Region)
    → ((rs : List Region) → Perm (recur rs) rs)
    → (rs : List Region) (o : Option (Axis × Gap)) → Perm (split_at recur rs o) rs
unfolding split_at
split_at-perm recur h rs none = by_position-perm rs
split_at-perm recur h rs (some (axis, gap)) =
    let near = select (is_near axis gap.cut2) rs in
    let far = select (λ r. not (is_near axis gap.cut2 r)) rs in
    elim (Bool-cases (is_empty near || is_empty far)) [
      | inl degenerate ↦ rw degenerate (by_position-perm rs)
      | inr cut ↦
          rw cut
            (Perm.trans (Perm.append (h near) (h far)) (select-perm (is_near axis gap.cut2) rs))
    ]

xy_cut-perm : (rounds min_gap : ℕ) (rs : List Region) → Perm (xy_cut rounds min_gap rs) rs
unfolding xy_cut
xy_cut-perm zero min_gap rs = by_position-perm rs
xy_cut-perm (suc rounds) min_gap rs =
    split_at-perm (xy_cut rounds min_gap) (xy_cut-perm rounds min_gap) rs
      (if at_most_one rs then none else cut_for min_gap rs)

-- A region without its place in the order.
abbrev pub unplaced : Region → Region
unplaced r = record r { order = 0 }

unplaced-number_from :
    (i : ℕ) (rs : List Region) → map unplaced (number_from i rs) ≡ map unplaced rs
unfolding number_from
unplaced-number_from i [] = refl
unplaced-number_from i (r ∷ rs) = ap (λ l. unplaced r ∷ l) (unplaced-number_from (suc i) rs)

-- `i, i + 1, …`, as many as the list is long.
abbrev pub places : ℕ → List Region → List ℕ
places i [] = []
places i (r ∷ rs) = i ∷ places (suc i) rs

number_from-places :
    (i : ℕ) (rs : List Region) → map (λ r. r.order) (number_from i rs) ≡ places i rs
unfolding number_from
number_from-places i [] = refl
number_from-places i (r ∷ rs) = ap (λ l. i ∷ l) (number_from-places (suc i) rs)

places_of_perm : (i : ℕ) (rs ss : List Region) → length rs ≡ length ss → places i rs ≡ places i ss
places_of_perm i [] [] h = refl
places_of_perm i [] (s ∷ ss) h = absurd (omega arith)
places_of_perm i (r ∷ rs) [] h = absurd (omega arith)
places_of_perm i (r ∷ rs) (s ∷ ss) h = ap (λ l. i ∷ l) (places_of_perm (suc i) rs ss (omega arith))

length-number_from : (i : ℕ) (rs : List Region) → length (number_from i rs) ≡ length rs
unfolding number_from
length-number_from i [] = refl
length-number_from i (r ∷ rs) = ap suc (length-number_from (suc i) rs)

-- The reading order is a permutation of the regions, each unchanged but for its `order`, and the
-- orders of the result are 0, 1, 2, … in sequence.
pub reading_order-perm :
    (page_width : ℕ) (rs : List Region)
    → Perm (map unplaced (assign_reading_order page_width rs)) (map unplaced rs)
      × (map (λ r. r.order) (assign_reading_order page_width rs)
          ≡ places 0 (assign_reading_order page_width rs))
unfolding assign_reading_order
reading_order-perm page_width [] = (Perm.refl [], refl)
reading_order-perm page_width (r ∷ rs) =
    let cut = xy_cut 16 (Prim.Native.Nat.max page_width 800) (r ∷ rs) in
    (
      rw (unplaced-number_from 0 cut)
          (Perm.map unplaced (xy_cut-perm 16 (Prim.Native.Nat.max page_width 800) (r ∷ rs))),
      number_from-places 0 cut
          ∙ places_of_perm 0 cut (number_from 0 cut) (sym (length-number_from 0 cut)),
    )

-- Every predicate that holds of all regions holds of all that the cut returns.
module _ (P : Region → Type 0) where
  select-All : (p : Region → Bool) (rs : List Region) → All P rs → All P (select p rs)
  unfolding select
  select-All p [] h = tt
  select-All p (r ∷ rs) h = elim (Bool-cases (p r)) [
    | inl taken ↦ rw taken (h.0, select-All p rs h.1)
    | inr left ↦ rw left (select-All p rs h.1)
  ]

  split_at-All :
      (recur : List Region → List Region)
      → ((rs : List Region) → All P rs → All P (recur rs))
      → (rs : List Region) (o : Option (Axis × Gap)) → All P rs
      → All P (split_at recur rs o)
  unfolding split_at by_position
  split_at-All recur h rs none a = sort_by-All region_le P rs a
  split_at-All recur h rs (some (axis, gap)) a =
      let near = select (is_near axis gap.cut2) rs in
      let far = select (λ r. not (is_near axis gap.cut2 r)) rs in
      elim (Bool-cases (is_empty near || is_empty far)) [
        | inl degenerate ↦ rw degenerate (sort_by-All region_le P rs a)
        | inr cut ↦ rw cut (
            All-append P (recur near) (recur far) (h near (select-All (is_near axis gap.cut2) rs a))
              (h far (select-All (λ r. not (is_near axis gap.cut2 r)) rs a)))
      ]

  xy_cut-All : (rounds min_gap : ℕ) (rs : List Region) → All P rs → All P (xy_cut rounds min_gap rs)
  unfolding xy_cut
  xy_cut-All zero min_gap rs a = unfold by_position in sort_by-All region_le P rs a
  xy_cut-All (suc rounds) min_gap rs a =
      split_at-All (xy_cut rounds min_gap) (xy_cut-All rounds min_gap) rs
        (if at_most_one rs then none else cut_for min_gap rs) a

-- The corners of a box are in order.
abbrev pub IsBox : Region → Type 0
IsBox r = (r.x0 ≤ r.x1) × (r.y0 ≤ r.y1)

-- The region ends before the band, or begins behind it.
abbrev pub Before : Axis → Gap → Region → Type 0
Before axis g r = 2 * (interval axis r).1 + g.width ≤ g.cut2

abbrev pub Behind : Axis → Gap → Region → Type 0
Behind axis g r = g.cut2 + g.width ≤ 2 * (interval axis r).0

module _ (axis : Axis) (g : Gap) (wide : 0 < g.width) where
  interval_order : (r : Region) → IsBox r → (interval axis r).0 ≤ (interval axis r).1
  interval_order r b = ground arith

  near-Before :
      (r : Region)
      → IsBox r
      → Clear g (interval axis r)
      → is_near axis g.cut2 r ≡ true
      → Before axis g r
  near-Before r b c h = ground (arith, interval_order r b)

  far-Behind :
      (r : Region)
      → IsBox r
      → Clear g (interval axis r)
      → is_near axis g.cut2 r ≡ false
      → Behind axis g r
  far-Behind r b c h = ground (arith, interval_order r b)

  select-Before :
      (rs : List Region)
      → All IsBox rs
      → All (λ r. Clear g (interval axis r)) rs
      → All (Before axis g) (select (is_near axis g.cut2) rs)
  unfolding select
  select-Before [] b c = tt
  select-Before (r ∷ rs) b c = elim (Bool-cases (is_near axis g.cut2 r)) [
    | inl near ↦ rw near (near-Before r b.0 c.0 near, select-Before rs b.1 c.1)
    | inr far ↦ rw far (select-Before rs b.1 c.1)
  ]

  select-Behind :
      (rs : List Region)
      → All IsBox rs
      → All (λ r. Clear g (interval axis r)) rs
      → All (Behind axis g) (select (λ r. not (is_near axis g.cut2 r)) rs)
  unfolding select
  select-Behind [] b c = tt
  select-Behind (r ∷ rs) b c = elim (Bool-cases (is_near axis g.cut2 r)) [
    | inl near ↦ rw near (select-Behind rs b.1 c.1)
    | inr far ↦ rw far (far-Behind r b.0 c.0 far, select-Behind rs b.1 c.1)
  ]

cut_for-widest :
    (min_gap : ℕ) (rs : List Region) (axis : Axis) (g : Gap)
    → cut_for min_gap rs ≡ some (axis, g)
    → widest_gap axis rs ≡ some g
cut_for-widest min_gap rs axis g h = ground arith

-- When `_xy_cut` finds a band to cut at and both sides of it hold a region, its result is one list
-- followed by another: every region of the first ends before the band, and every region of the
-- second begins behind it. So a left column is read whole before the right one, and a band of the
-- page before the next.
pub xy_cut_separates :
    (rounds min_gap : ℕ) (rs : List Region) (axis : Axis) (g : Gap)
    → All IsBox rs
    → at_most_one rs ≡ false
    → cut_for min_gap rs ≡ some (axis, g)
    → (is_empty (select (is_near axis g.cut2) rs)
        || is_empty (select (λ r. not (is_near axis g.cut2 r)) rs))
      ≡ false
    → (near : List Region) × (far : List Region) × (xy_cut (suc rounds) min_gap rs ≡ near ++ far)
      × All (Before axis g) near
      × All (Behind axis g) far
unfolding xy_cut split_at
xy_cut_separates rounds min_gap rs axis g boxes many cut both =
    let clear = widest_gap-Clear axis rs g (cut_for-widest min_gap rs axis g cut) in
    (
      xy_cut rounds min_gap (select (is_near axis g.cut2) rs),
      xy_cut rounds min_gap (select (λ r. not (is_near axis g.cut2 r)) rs),
      rw (many, cut) (rw both),
      xy_cut-All (Before axis g) rounds min_gap _ (select-Before axis g clear.0 rs boxes clear.1),
      xy_cut-All (Behind axis g) rounds min_gap _ (select-Behind axis g clear.0 rs boxes clear.1),
    )
