-- ===== src/Base/Families.antt =====
-- Families indexed by a number: change at one index, and sums over the first `n`.
use Prim.Native.Nat.{ℕ, zero, suc, ◌+◌, ◌≤◌, ◌<◌}
use mathlib.Core.Path.{◌≡◌, refl, subst}
use mathlib.Core.Logic.{inl, inr}
use native.Mathlib.Omega.{arith}
use ocr_serving.Base.Tests.{if◌then◌else◌, ◌==◌, ==_iff, Bool-cases}

abbrev pub put {ℓ} : {A : Type ℓ} → (ℕ → A) → ℕ → A → ℕ → A
put f i a j = if i == j then a else f j

module _ {ℓ} {A : Type ℓ} where
  pub put-same : (f : ℕ → A) (i : ℕ) (a : A) → put f i a i ≡ a
  put-same f i a = ground arith

  pub put-other : (f : ℕ → A) (i j : ℕ) (a : A) → (i ≡ j → ⊥) → put f i a j ≡ f j
  put-other f i j a h = ground arith

-- A predicate on the members and their indices, behind a change of one.
pub put-pred {ℓ κ} :
    {A : Type ℓ} (P : ℕ → A → Type κ) (f : ℕ → A) (i : ℕ) (a : A)
    → P i a
    → (j : ℕ) → P j (f j)
    → P j (put f i a j)
put-pred P f i a h j k = elim (Bool-cases (i == j)) [
  | inl same ↦ rw same (subst (λ n. P n a) ((==_iff i j).0 same) h)
  | inr other ↦ rw other k
]

module _ {ℓ} {A : Type ℓ} (w : A → ℕ) where
  -- The weights of the first `n` members.
  unfoldable pub weigh : ℕ → (ℕ → A) → ℕ
  weigh zero f = 0
  weigh (suc n) f = weigh n f + w (f n)

  weigh-put_above : (n : ℕ) (f : ℕ → A) (i : ℕ) (a : A) → n ≤ i → weigh n (put f i a) ≡ weigh n f
  unfolding weigh
  weigh-put_above zero f i a h = refl
  weigh-put_above (suc n) f i a h = ground (arith, weigh-put_above n f i a)

  pub weigh-put :
      (n : ℕ) (f : ℕ → A) (i : ℕ) (a : A) → i < n → weigh n (put f i a) + w (f i) ≡ weigh n f + w a
  unfolding weigh
  weigh-put zero f i a h = absurd (omega arith)
  weigh-put (suc n) f i a h = elim (Bool-cases (i == n)) [
    | inl last ↦ ground (arith, weigh-put_above n f i a)
    | inr below ↦ ground (arith, weigh-put n f i a)
  ]

  -- A weight that is not 0 stands at some index.
  pub weigh-index : (n : ℕ) (f : ℕ → A) → 0 < weigh n f → (i : ℕ) × (i < n) × (0 < w (f i))
  unfolding weigh
  weigh-index zero f h = absurd (omega arith)
  weigh-index (suc n) f h = elim (Bool-cases (w (f n) == 0)) [
    | inl none ↦ let (i, lt, p) = weigh-index n f (ground arith) in (i, omega arith, p)
    | inr some ↦ (n, omega arith, ground arith)
  ]

  pub weigh-zero : (n : ℕ) (f : ℕ → A) → ((i : ℕ) → i < n → w (f i) ≡ 0) → weigh n f ≡ 0
  unfolding weigh
  weigh-zero zero f h = refl
  weigh-zero (suc n) f h =
      omega (arith, h n (omega arith), weigh-zero n f (λ i lt. h i (omega arith)))

  pub weigh-ge : (n : ℕ) (f : ℕ → A) (i : ℕ) → i < n → w (f i) ≤ weigh n f
  unfolding weigh
  weigh-ge zero f i h = absurd (omega arith)
  weigh-ge (suc n) f i h = elim (Bool-cases (i == n)) [
    | inl last ↦ ground arith
    | inr below ↦ ground (arith, weigh-ge n f i)
  ]
