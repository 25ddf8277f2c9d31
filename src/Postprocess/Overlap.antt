-- ===== src/Postprocess/Overlap.antt =====
-- The tile stitcher drops the longest overlap that it looks for.
use ocr_serving.Base.{
  ℕ, zero, suc, ◌≤◌, ◌<◌, ◌≡◌, refl, sym, subst, ◌↔◌, ◌⊎◌, ◌==◌, ==_iff, inl, inr, Bool, true,
  false, take, length, min, arith, Bool-cases, ltb,
}
use ocr_serving.Base.Text.{Text, text_eq, text_eq_iff}
use ocr_serving.Postprocess.{suffix, overlap_from, overlap_len}

-- The last `n` characters of `a` are the first `n` of `b`.
abbrev pub Overlaps : ℕ → Text → Text → Type 0
Overlaps n a b = suffix n a ≡ take n b

module _ (size : ℕ) (a b : Text) where
  from_short : ltb 20 (suc size) ≡ false → overlap_from (suc size) a b ≡ 0
  unfolding overlap_from
  from_short h = ground arith

  from_same :
      ltb 20 (suc size) ≡ true
      → text_eq (suffix (suc size) a) (take (suc size) b) ≡ true
      → overlap_from (suc size) a b ≡ suc size
  unfolding overlap_from
  from_same h e = ground arith

  from_different :
      ltb 20 (suc size) ≡ true
      → text_eq (suffix (suc size) a) (take (suc size) b) ≡ false
      → overlap_from (suc size) a b ≡ overlap_from size a b
  unfolding overlap_from
  from_different h e = ground arith

  abbrev same_here : Bool
  same_here = text_eq (suffix (suc size) a) (take (suc size) b)

  same_here_iff : (same_here ≡ true) ↔ Overlaps (suc size) a b
  same_here_iff = text_eq_iff (suffix (suc size) a) (take (suc size) b)

-- What `overlap_from` may return.
abbrev Found : Text → Text → ℕ → Type 0
Found a b n = (n ≡ 0) ⊎ ((20 < n) × Overlaps n a b)

overlap_from-Found : (size : ℕ) (a b : Text) → Found a b (overlap_from size a b)
overlap_from-Found zero a b = inl (unfold overlap_from in refl)
overlap_from-Found (suc size) a b = elim (Bool-cases (ltb 20 (suc size))) [
  | inr short ↦ inl (from_short size a b short)
  | inl long ↦ elim (Bool-cases (same_here size a b)) [
    | inl same ↦
        subst (Found a b) (sym (from_same size a b long same))
          (inr (ground arith, (same_here_iff size a b).0 same))
    | inr different ↦
        subst (Found a b) (sym (from_different size a b long different))
          (overlap_from-Found size a b)
  ]
]

overlap_from_longest :
    (size n : ℕ) (a b : Text) → 20 < n → n ≤ size → Overlaps n a b → n ≤ overlap_from size a b
overlap_from_longest zero n a b long fits over = omega arith
overlap_from_longest (suc size) n a b long fits over = elim (Bool-cases (same_here size a b)) [
  | inl same ↦ omega (arith, from_same size a b (ground arith) same)
  | inr different ↦ omega (
    arith,
    from_different size a b (ground arith) different,
    overlap_from_longest size n a b long (smaller different) over,
  )
]
  where
    smaller : same_here size a b ≡ false → n ≤ size
    smaller different = elim (Bool-cases (n == suc size)) [
      | inl e ↦
          absurd (clash (subst (λ k. Overlaps k a b) ((==_iff n (suc size)).0 e) over) different)
      | inr ne ↦ ground arith
    ]
      where
        clash : Overlaps (suc size) a b → same_here size a b ≡ false → ⊥
        clash o d = cc ((same_here_iff size a b).1 o)

-- What `_overlap_len` returns is 0, or an overlap of more than 20 characters between the last 400 of
-- `a` and the start of `b`.
pub overlap_len_found :
    (a b : Text)
    → (overlap_len a b ≡ 0) ⊎ ((20 < overlap_len a b) × Overlaps (overlap_len a b) (suffix 400 a) b)
unfolding overlap_len
overlap_len_found a b = overlap_from-Found (min (length (suffix 400 a)) (length b)) (suffix 400 a) b

-- No overlap of more than 20 characters between the last 400 of `a` and the start of `b` is longer
-- than what `_overlap_len` returns.
pub overlap_len_longest :
    (a b : Text) (n : ℕ)
    → 20 < n
    → n ≤ length (suffix 400 a)
    → n ≤ length b
    → Overlaps n (suffix 400 a) b
    → n ≤ overlap_len a b
unfolding overlap_len
overlap_len_longest a b n long ft fb over =
    overlap_from_longest (min (length (suffix 400 a)) (length b)) n (suffix 400 a) b long
      (omega arith) over
