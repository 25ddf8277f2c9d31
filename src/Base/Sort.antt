-- ===== src/Base/Sort.antt =====
-- Python's `sorted(…, key=…)`: a stable insertion sort by a test `le` on the elements.
use Prim.Native.Nat.{suc}
use mathlib.Core.Bool.{Bool, true, false}
use mathlib.Core.Path.{◌≡◌, refl, ap, ◌∙◌}
use mathlib.Core.Logic.{inl, inr}
use mathlib.Core.List.{List, [], ◌∷◌, Perm}
use mathlib.Core.List.Perm
use ocr_serving.Base.Tests.{if◌then◌else◌, Bool-cases}
use ocr_serving.Base.Lists.{All, length}

module _ {ℓ} {A : Type ℓ} (le : A → A → Bool) where
  unfoldable pub insert_sorted : A → List A → List A
  insert_sorted x [] = x ∷ []
  insert_sorted x (y ∷ ys) = if le x y then x ∷ y ∷ ys else y ∷ insert_sorted x ys

  unfoldable pub sort_by : List A → List A
  unfolding insert_sorted
  sort_by [] = []
  sort_by (x ∷ xs) = insert_sorted x (sort_by xs)

  insert_sorted-perm : (x : A) (xs : List A) → Perm (insert_sorted x xs) (x ∷ xs)
  unfolding insert_sorted
  insert_sorted-perm x [] = Perm.refl (x ∷ [])
  insert_sorted-perm x (y ∷ ys) = elim (Bool-cases (le x y)) [
    | inl first ↦ rw first (Perm.refl (x ∷ y ∷ ys))
    | inr later ↦ rw later (Perm.trans (Perm.cons y (insert_sorted-perm x ys)) (Perm.swap x y ys))
  ]

  pub sort_by-perm : (xs : List A) → Perm (sort_by xs) xs
  unfolding sort_by
  sort_by-perm [] = Perm.refl []
  sort_by-perm (x ∷ xs) =
      Perm.trans (insert_sorted-perm x (sort_by xs)) (Perm.cons x (sort_by-perm xs))

  length-insert_sorted : (x : A) (xs : List A) → length (insert_sorted x xs) ≡ suc (length xs)
  unfolding insert_sorted
  length-insert_sorted x [] = refl
  length-insert_sorted x (y ∷ ys) = elim (Bool-cases (le x y)) [
    | inl first ↦ rw first refl
    | inr later ↦ rw later (ap suc (length-insert_sorted x ys))
  ]

  pub length-sort_by : (xs : List A) → length (sort_by xs) ≡ length xs
  unfolding sort_by
  length-sort_by [] = refl
  length-sort_by (x ∷ xs) = length-insert_sorted x (sort_by xs) ∙ ap suc (length-sort_by xs)

  -- Each element is at most every later one.
  abbrev pub InSorted : List A → Type ℓ
  InSorted [] = Unit
  InSorted (x ∷ xs) = All (λ y. le x y ≡ true) xs × InSorted xs

  module _ {κ} (P : A → Type κ) where
    insert_sorted-All : (x : A) (xs : List A) → P x → All P xs → All P (insert_sorted x xs)
    unfolding insert_sorted
    insert_sorted-All x [] px h = (px, tt)
    insert_sorted-All x (y ∷ ys) px h = elim (Bool-cases (le x y)) [
      | inl first ↦ rw first (px, h)
      | inr later ↦ rw later (h.0, insert_sorted-All x ys px h.1)
    ]

    pub sort_by-All : (xs : List A) → All P xs → All P (sort_by xs)
    unfolding sort_by
    sort_by-All [] h = tt
    sort_by-All (x ∷ xs) h = insert_sorted-All x (sort_by xs) h.0 (sort_by-All xs h.1)

    All-insert_sorted : (x : A) (xs : List A) → All P (insert_sorted x xs) → P x × All P xs
    unfolding insert_sorted
    All-insert_sorted x [] h = h
    All-insert_sorted x (y ∷ ys) h = elim (Bool-cases (le x y)) [
      | inl first ↦ (rw first at h)
      | inr later ↦
          let k : All P (y ∷ insert_sorted x ys) = rw later at h in
          let rest = All-insert_sorted x ys k.1 in (rest.0, (k.0, rest.1))
    ]

    pub All-sort_by : (xs : List A) → All P (sort_by xs) → All P xs
    unfolding sort_by
    All-sort_by [] h = tt
    All-sort_by (x ∷ xs) h =
        let split = All-insert_sorted x (sort_by xs) h in (split.0, All-sort_by xs split.1)

  module _ (total : (x y : A) → le x y ≡ false → le y x ≡ true)
      (trans : (x y z : A) → le x y ≡ true → le y z ≡ true → le x z ≡ true) where
    weaken :
        (x y : A) (ys : List A)
        → le x y ≡ true
        → All (λ z. le y z ≡ true) ys
        → All (λ z. le x z ≡ true) ys
    weaken x y [] h a = tt
    weaken x y (z ∷ zs) h a = (trans x y z h a.0, weaken x y zs h a.1)

    insert_sorted-InSorted : (x : A) (xs : List A) → InSorted xs → InSorted (insert_sorted x xs)
    unfolding insert_sorted
    insert_sorted-InSorted x [] h = (tt, tt)
    insert_sorted-InSorted x (y ∷ ys) h = elim (Bool-cases (le x y)) [
      | inl first ↦ rw first ((first, weaken x y ys first h.0), h)
      | inr later ↦ rw later (
        insert_sorted-All (λ z. le y z ≡ true) x ys (total x y later) h.0,
        insert_sorted-InSorted x ys h.1,
      )
    ]

    pub sort_by-InSorted : (xs : List A) → InSorted (sort_by xs)
    unfolding sort_by
    sort_by-InSorted [] = tt
    sort_by-InSorted (x ∷ xs) = insert_sorted-InSorted x (sort_by xs) (sort_by-InSorted xs)
