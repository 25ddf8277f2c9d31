-- ===== src/Config/Values.antt =====
-- common/config.py: `cors_origin_list` and the validator of `log_level`.
use ocr_serving.Base.{
  ◌≡◌, refl, Bool, true, ◌||◌, Option, none, some, List, [], ◌∷◌, if◌then◌else◌, Bool-cases, inl,
  inr, All, arith,
}
use ocr_serving.Base.Text.{Text, codes, text_eq, nonempty}
use ocr_serving.Base.Strip.{strip}
use ocr_serving.Config.{split_on}

-- The comprehension over the pieces.
unfoldable pub stripped : List Text → List Text
stripped [] = []
stripped (o ∷ origins) =
    let rest = stripped origins in if nonempty (strip o) then strip o ∷ rest else rest

-- `Settings.cors_origin_list`
unfoldable pub cors_origin_list : Text → List Text
unfolding stripped split_on
cors_origin_list origins = stripped (split_on b',' [] origins)

unfoldable pub is_level : Text → Bool
unfolding text_eq
is_level v =
    text_eq v (codes "DEBUG")
    || text_eq v (codes "INFO")
    || text_eq v (codes "WARNING")
    || text_eq v (codes "ERROR")
    || text_eq v (codes "CRITICAL")

-- `Settings._upper`, a ValueError is `none`; `upper` is Python's `str.upper`.
unfoldable pub checked_level : (Text → Text) → Text → Option Text
checked_level upper v = let u = upper v in if is_level u then some u else none

-- No allowed origin is empty.
stripped-All : (pieces : List Text) → All (λ o. nonempty o ≡ true) (stripped pieces)
unfolding stripped
stripped-All [] = tt
stripped-All (o ∷ pieces) = elim (Bool-cases (nonempty (strip o))) [
  | inl full ↦ rw full (full, stripped-All pieces)
  | inr empty ↦ rw empty (stripped-All pieces)
]

pub origins-All : (origins : Text) → All (λ o. nonempty o ≡ true) (cors_origin_list origins)
unfolding cors_origin_list
origins-All origins = stripped-All (split_on b',' [] origins)

level_of : (t u : Text) → (if is_level t then some t else none) ≡ some u → is_level u ≡ true
level_of t u h = elim (Bool-cases (is_level t)) [
  | inl level ↦ ground (arith, h, level)
  | inr unknown ↦ ground (arith, h, unknown)
]

-- A level that the validator returns is one of the five, and the validator returns it again where
-- upper-casing it changes nothing.
pub checked_level-again :
    (upper : Text → Text) (v u : Text)
    → checked_level upper v ≡ some u
    → upper u ≡ u
    → (is_level u ≡ true) × (checked_level upper u ≡ some u)
unfolding checked_level
checked_level-again upper v u h again =
    let level = level_of (upper v) u h in (level, rw (again, level) refl)
