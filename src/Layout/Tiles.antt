-- ===== src/Layout/Tiles.antt =====
-- Tiling: it ends, the tiles cover the region and fit the encoder, and neighbours overlap.
use ocr_serving.Base.{
  ℕ, zero, suc, ◌+◌, ◌-◌, ◌≤◌, ◌<◌, ◌≡◌, refl, ap, ◌∙◌, ◌⊎◌, inl, inr, none, some, List, [], ◌∷◌,
  arith, Bool-cases, ltb→lt, ltb, leb,
}
use ocr_serving.Schemas.{Region}
use ocr_serving.Layout.{tile_step, tile_at, tile_loop, tile_region}

-- A run of tiles from `top` down to the end of the region: the first begins at `top`, each is at most
-- `max_height` high and not empty, the next begins `step` further down, within the tile above or
-- right at its end, and the last ends where the region ends.
pub data Tiles (max_height step : ℕ) (r : Region) : ℕ → List Region → Type 0 where
  last :
      {top : ℕ}
      → top < r.y1
      → r.y1 ≤ top + max_height
      → Tiles max_height step r top (tile_at r top r.y1 ∷ [])
  more :
      {top : ℕ} {rest : List Region}
      → top + max_height < r.y1
      → top < top + step
      → top + step ≤ top + max_height
      → Tiles max_height step r (top + step) rest
      → Tiles max_height step r top (tile_at r top (top + max_height) ∷ rest)

step_pos : (max_height overlap : ℕ) → 2 ≤ max_height → 0 < tile_step max_height overlap
unfolding tile_step
step_pos max_height overlap h = omega arith

step-le : (max_height overlap : ℕ) → tile_step max_height overlap ≤ max_height
unfolding tile_step
step-le max_height overlap = omega arith

module _ (max_height step : ℕ) (r : Region) (forward : 0 < step) (close : step ≤ max_height) where
  loop_ends :
      (fuel top : ℕ)
      → top < r.y1
      → r.y1 ≤ top + max_height
      → tile_loop (suc fuel) max_height step r top ≡ some (tile_at r top r.y1 ∷ [])
  unfolding tile_loop
  loop_ends fuel top inside fits = ground arith

  loop_goes_on :
      (fuel top : ℕ) (rest : List Region)
      → top + max_height < r.y1
      → tile_loop fuel max_height step r (top + step) ≡ some rest
      → tile_loop (suc fuel) max_height step r top ≡ some (tile_at r top (top + max_height) ∷ rest)
  unfolding tile_loop
  loop_goes_on fuel top rest short h = ground arith

  tile_loop-Tiles :
      (fuel top : ℕ)
      → top < r.y1
      → r.y1 - top < fuel
      → (out : List Region) × (tile_loop fuel max_height step r top ≡ some out)
        × Tiles max_height step r top out
  tile_loop-Tiles zero top inside enough = elim enough [ ]
  tile_loop-Tiles (suc fuel) top inside enough = elim (Bool-cases (leb r.y1 (top + max_height))) [
    | inl ends ↦ (
      tile_at r top r.y1 ∷ [],
      loop_ends fuel top inside (ground arith),
      last inside (ground arith),
    )
    | inr goes_on ↦
        let ih = tile_loop-Tiles fuel (top + step) (ground arith) (omega arith) in
        (
          tile_at r top (top + max_height) ∷ ih.0,
          loop_goes_on fuel top ih.0 (ground arith) ih.1,
          more (ground arith) (omega arith) (omega arith) ih.2,
        )
  ]

-- A region that is too tall is cut, for every budget of two pixels or more and every overlap: the
-- loop ends, and the tiles run down the whole region, none of them empty or above the budget, each
-- starting within or right at the end of the one above it.
pub tile_region-Tiles :
    (max_height overlap : ℕ) (r : Region)
    → 2 ≤ max_height
    → max_height < r.y1 - r.y0
    → (out : List Region) × (tile_region max_height overlap r ≡ some out)
      × Tiles max_height (tile_step max_height overlap) r r.y0 out
unfolding tile_region
tile_region-Tiles max_height overlap r two tall =
    let found =
      tile_loop-Tiles max_height (tile_step max_height overlap) r (step_pos max_height overlap two)
        (step-le max_height overlap) (suc (r.y1 - r.y0)) r.y0 (omega arith) (omega arith) in
    (found.0, too_tall found.0 found.1, found.2)
  where
    too_tall :
        (out : List Region)
        → tile_loop (suc (r.y1 - r.y0)) max_height (tile_step max_height overlap) r r.y0 ≡ some out
        → tile_region max_height overlap r ≡ some out
    too_tall out h = ground arith

-- Every row of the region lies in one of its tiles.
pub HasRow : ℕ → List Region → Type 0
HasRow y [] = ⊥
HasRow y (t ∷ ts) = ((t.y0 ≤ y) × (y < t.y1)) ⊎ HasRow y ts

Tiles-HasRow :
    {max_height step : ℕ} {r : Region} {top : ℕ} {ts : List Region} (y : ℕ)
    → Tiles max_height step r top ts
    → top ≤ y
    → y < r.y1
    → HasRow y ts
unfolding HasRow
Tiles-HasRow y (last inside fits) from to = inl (from, to)
Tiles-HasRow {max_height} {top = top} y (more short forward close t) from to =
    elim (Bool-cases (ltb y (top + max_height))) [
      | inl here ↦ inl (from, ltb→lt y (top + max_height) here)
      | inr below ↦ inr (Tiles-HasRow y t (ground arith) to)
    ]

-- Tiling loses no row: each row of a region lies in one of the tiles that it is cut into, or in the
-- region itself where that is short enough.
pub tile_region-HasRow :
    (max_height overlap y : ℕ) (r : Region)
    → 2 ≤ max_height
    → r.y0 ≤ y
    → y < r.y1
    → (out : List Region) × (tile_region max_height overlap r ≡ some out) × HasRow y out
tile_region-HasRow max_height overlap y r two from to =
    elim (Bool-cases (leb (r.y1 - r.y0) max_height)) [
      | inl short ↦
          (r ∷ [], (unfold tile_region in ground arith), (unfold HasRow in inl (from, to)))
      | inr tall ↦
          let t = tile_region-Tiles max_height overlap r two (ground arith) in
          (t.0, t.1, Tiles-HasRow y t.2 from to)
    ]

one_round :
    (fuel step : ℕ) (r : Region)
    → r.y0 + 1 < r.y1
    → tile_loop fuel 1 step r (r.y0 + step) ≡ none
    → tile_loop (suc fuel) 1 step r r.y0 ≡ none
unfolding tile_loop
one_round fuel step r tall h = ground arith

loop_stuck :
    (fuel step : ℕ) (r : Region)
    → r.y0 + 1 < r.y1
    → step ≡ 0
    → tile_loop fuel 1 step r r.y0 ≡ none
    → tile_loop (suc fuel) 1 step r r.y0 ≡ none
loop_stuck fuel step r tall e h =
    one_round fuel step r tall (ap (λ (k : ℕ). tile_loop fuel 1 step r k) (omega arith) ∙ h)

-- With a budget of one pixel and any overlap the step is 0: on a region of two rows or more the loop
-- of `tile` never ends, however long it runs.
pub tile_stalls :
    (overlap fuel : ℕ) (r : Region)
    → 0 < overlap
    → r.y0 + 1 < r.y1
    → tile_loop fuel 1 (tile_step 1 overlap) r r.y0 ≡ none
tile_stalls overlap zero r some_overlap tall = unfold tile_loop in refl
tile_stalls overlap (suc fuel) r some_overlap tall =
    loop_stuck fuel (tile_step 1 overlap) r tall (unfold tile_step in omega arith)
      (tile_stalls overlap fuel r some_overlap tall)
