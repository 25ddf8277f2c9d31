-- ===== src/Benchmarks/Report/Split.antt =====
-- Cutting a text around the first separator, and what the cut depends on.
use ocr_serving.Base.{
  ℕ, ◌≤◌, ◌≡◌, refl, ap, sym, ◌∙◌, subst, length-append, true, false, ◌&&◌, Option, none, some, [],
  ◌∷◌, ◌++◌, arith, length, drop, append_assoc, Bool-cases, inl, inr, ◌==◌,
}
use ocr_serving.Base.Text.{Text, starts_with, starts_with-append}
use ocr_serving.Benchmarks.Report.{before_char, split_once}

-- Whether `p` starts a text shows within its first characters.
starts_with-longer :
    (u p s t : Text) → length p ≤ length u → starts_with (u ++ s) p ≡ starts_with (u ++ t) p
unfolding starts_with
starts_with-longer u [] s t h = refl
starts_with-longer [] (c ∷ p) s t h = absurd (omega (arith, h))
starts_with-longer (d ∷ u) (c ∷ p) s t h =
    ap (λ b. (d == c) && b) (starts_with-longer u p s t (omega (arith, h)))

drop-append : (p s : Text) → drop (length p) (p ++ s) ≡ s
drop-append [] s = refl
drop-append (c ∷ p) s = drop-append p s

starts_with-drop : (s p : Text) → starts_with s p ≡ true → s ≡ p ++ drop (length p) s
unfolding starts_with
starts_with-drop s [] h = refl
starts_with-drop [] (c ∷ p) h = cc
starts_with-drop (d ∷ s) (c ∷ p) h = ground (arith, starts_with-drop s p)

pub some_pair :
    {a b c d : Text}
    → ◌≡◌ {A = Option (Text × Text)} (some (a, b)) (some (c, d))
    → (a ≡ c) × (b ≡ d)
some_pair e = (cc, cc)

before_some :
    (c : ℕ) (found : Option (Text × Text)) (pre post : Text)
    → before_char c found ≡ some (pre, post)
    → (pre' : Text) × (pre ≡ c ∷ pre') × (found ≡ some (pre', post))
before_some c none pre post h = absurd (none_found h)
  where
    none_found : {x : Text × Text} → ◌≡◌ {A = Option (Text × Text)} none (some x) → ⊥
    none_found e = cc
before_some c (some (pre', post')) pre post h =
    let (first, second) = some_pair h in (pre', sym first, ap (λ (t : Text). some (pre', t)) second)

module _ (x : ℕ) (sep : Text) where
  split_here :
      (c : ℕ) (s : Text)
      → starts_with (c ∷ s) (x ∷ sep) ≡ true
      → split_once (x ∷ sep) (c ∷ s) ≡ some ([], drop (length sep) s)
  unfolding split_once
  split_here c s starts = rw (starts, split_once) refl

  split_later :
      (c : ℕ) (s : Text)
      → starts_with (c ∷ s) (x ∷ sep) ≡ false
      → split_once (x ∷ sep) (c ∷ s) ≡ before_char c (split_once (x ∷ sep) s)
  unfolding split_once
  split_later c s goes_on = rw (goes_on, split_once) refl

  -- What is cut at a separator is what stands around it.
  pub split_once-text :
      (s pre post : Text) → split_once (x ∷ sep) s ≡ some (pre, post) → s ≡ pre ++ (x ∷ sep ++ post)
  unfolding starts_with split_once
  split_once-text [] pre post h = cc
  split_once-text (c ∷ s) pre post h = elim (Bool-cases (starts_with (c ∷ s) (x ∷ sep))) [
    | inl starts ↦
        let (first, second) = some_pair (sym (split_here c s starts) ∙ h) in
        starts_with-drop (c ∷ s) (x ∷ sep) starts
        ∙ (ap (λ t. x ∷ (sep ++ t)) second ∙ ap (λ t. t ++ (x ∷ sep ++ post)) first)
    | inr goes_on ↦
        let (pre', e, later) =
          before_some c (split_once (x ∷ sep) s) pre post (sym (split_later c s goes_on) ∙ h) in
        ap (λ t. c ∷ t) (split_once-text s pre' post later)
        ∙ ap (λ t. t ++ (x ∷ sep ++ post)) (sym e)
  ]

  same_start :
      (c : ℕ) (s pre post post' : Text)
      → s ≡ pre ++ (x ∷ sep ++ post)
      → starts_with (c ∷ s) (x ∷ sep) ≡ starts_with (c ∷ (pre ++ (x ∷ sep ++ post'))) (x ∷ sep)
  same_start c s pre post post' e =
      ap (λ t. starts_with (c ∷ t) (x ∷ sep)) (e ∙ sym (append_assoc pre (x ∷ sep) post))
      ∙ (starts_with-longer (c ∷ (pre ++ x ∷ sep)) (x ∷ sep) post post'
            (omega (arith, length-append pre (x ∷ sep)))
          ∙ ap (λ t. starts_with (c ∷ t) (x ∷ sep)) (append_assoc pre (x ∷ sep) post'))

  -- The cut does not depend on what follows the separator.
  pub split_once-replace :
      (s pre post post' : Text)
      → split_once (x ∷ sep) s ≡ some (pre, post)
      → split_once (x ∷ sep) (pre ++ (x ∷ sep ++ post')) ≡ some (pre, post')
  unfolding starts_with split_once
  split_once-replace [] pre post post' h = cc
  split_once-replace (c ∷ s) pre post post' h = elim (Bool-cases (starts_with (c ∷ s) (x ∷ sep))) [
    | inl starts ↦
        let (first, second) = some_pair (sym (split_here c s starts) ∙ h) in
        subst (λ (t : Text). split_once (x ∷ sep) (t ++ (x ∷ sep ++ post')) ≡ some (t, post')) first
          (split_here x (sep ++ post') (starts_with-append (x ∷ sep) post')
            ∙ ap (λ (t : Text). some ([], t)) (drop-append sep post'))
    | inr goes_on ↦
        let (pre', e, later) =
          before_some c (split_once (x ∷ sep) s) pre post (sym (split_later c s goes_on) ∙ h) in
        subst (λ (t : Text). split_once (x ∷ sep) (t ++ (x ∷ sep ++ post')) ≡ some (t, post'))
          (sym e)
          (split_later c (pre' ++ (x ∷ sep ++ post'))
              (sym (same_start c s pre' post post' (split_once-text s pre' post later)) ∙ goes_on)
            ∙ ap (before_char c) (split_once-replace s pre' post post' later))
  ]

  -- A text that has the separator somewhere is cut.
  pub split_once-found :
      (u v : Text) → (cut : Text × Text) × (split_once (x ∷ sep) (u ++ (x ∷ sep ++ v)) ≡ some cut)
  split_once-found [] v =
      (([], drop (length sep) (sep ++ v)), split_here x (sep ++ v) (starts_with-append (x ∷ sep) v))
  split_once-found (c ∷ u) v =
      elim (Bool-cases (starts_with (c ∷ (u ++ (x ∷ sep ++ v))) (x ∷ sep))) [
        | inl starts ↦ (
          ([], drop (length sep) (u ++ (x ∷ sep ++ v))),
          split_here c (u ++ (x ∷ sep ++ v)) starts,
        )
        | inr goes_on ↦
            let ((pre, post), e) = split_once-found u v in
            ((c ∷ pre, post), split_later c (u ++ (x ∷ sep ++ v)) goes_on ∙ ap (before_char c) e)
      ]
