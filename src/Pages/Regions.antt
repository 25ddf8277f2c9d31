-- ===== src/Pages/Regions.antt =====
-- The requests for the regions of a page end in any order: the page's text and its tokens are the same.
use mathlib.Core.List.{Permᴰ}
use mathlib.Core.List.Permᴰ.{nil, cons, swap, trans}
use ocr_serving.Base.{
  ℕ, zero, suc, ◌+◌, ◌≡◌, ◌≢◌, refl, ap, sym, subst, ◌∙◌, true, Option, none, some, List, [], ◌∷◌,
  All, arith,
}
use ocr_serving.Base.Text.{Text}
use ocr_serving.Engine.{StreamStats}
use ocr_serving.Postprocess.{stitch_regions}
use ocr_serving.Postprocess.Normalize.{Unicode}
use ocr_serving.Pages.{Reading, set_text, take_error, run_region, run_regions, shared_text}

-- No two requests are for one position.
abbrev pub Apart : List (ℕ × StreamStats) → Type 0
Apart [] = Unit
Apart ((p, stats) ∷ xs) = All (λ y. p ≢ y.0) xs × Apart xs

All-Perm {ℓ κ} : {A : Type ℓ} (P : A → Type κ) {xs ys : List A} → Permᴰ xs ys → All P xs → All P ys
All-Perm P nil h = h
All-Perm P (cons e d) h = (subst P e h.0, All-Perm P d h.1)
All-Perm P (swap e f) h = (subst P f h.1.0, (subst P e h.0, h.1.1))
All-Perm P (trans d e) h = All-Perm P e (All-Perm P d h)

Apart-Perm : {xs ys : List (ℕ × StreamStats)} → Permᴰ xs ys → Apart xs → Apart ys
Apart-Perm nil h = h
Apart-Perm (cons {l₂ = ys} e d) h =
    (subst (λ x. All (λ y. x.0 ≢ y.0) ys) e (All-Perm _ d h.0), Apart-Perm d h.1)
Apart-Perm (swap {l} e f) h = (
  (
    λ q. h.0.0 (ap (λ x. x.0) e ∙ (sym q ∙ sym (ap (λ x. x.0) f))),
    subst (λ x. All (λ y. x.0 ≢ y.0) l) f h.1.0,
  ),
  (subst (λ x. All (λ y. x.0 ≢ y.0) l) e h.0.1, h.1.1),
)
Apart-Perm (trans d e) h = Apart-Perm e (Apart-Perm d h)

set_text-swap :
    (p q : ℕ) (s t : Text) (xs : List Text)
    → p ≢ q
    → set_text p s (set_text q t xs) ≡ set_text q t (set_text p s xs)
unfolding set_text
set_text-swap p q s t [] h = refl
set_text-swap zero zero s t (x ∷ xs) h = absurd (h refl)
set_text-swap zero (suc q) s t (x ∷ xs) h = refl
set_text-swap (suc p) zero s t (x ∷ xs) h = refl
set_text-swap (suc p) (suc q) s t (x ∷ xs) h =
    ap (λ ys. x ∷ ys) (set_text-swap p q s t xs (λ e. h (ap suc e)))

-- What a request does to the texts and the tokens, by its error.
abbrev marked : Option Text → ℕ → Text → List Text → List Text
marked none p t xs = set_text p t xs
marked (some []) p t xs = set_text p t xs
marked (some (c ∷ e)) p t xs = xs

abbrev spent : Option Text → ℕ → ℕ
spent none n = n
spent (some []) n = n
spent (some (c ∷ e)) n = 0

take_error-texts :
    (e : Option Text) (p : ℕ) (stats : StreamStats) (r : Reading)
    → ((take_error e p stats r).texts ≡ marked e p stats.text r.texts)
      × ((take_error e p stats r).tokens ≡ r.tokens + spent e stats.completion_tokens)
take_error-texts none p stats r = (refl, refl)
take_error-texts (some []) p stats r = (refl, refl)
take_error-texts (some (c ∷ e)) p stats r = (refl, omega arith)

run_region-texts :
    (x : ℕ × StreamStats) (r : Reading)
    → ((run_region x r).texts ≡ marked x.1.error x.0 x.1.text r.texts)
      × ((run_region x r).tokens ≡ r.tokens + spent x.1.error x.1.completion_tokens)
unfolding run_region
run_region-texts (p, stats) r = take_error-texts stats.error p stats r

marked-swap :
    (e f : Option Text) (p q : ℕ) (s t : Text) (xs : List Text)
    → p ≢ q
    → marked e p s (marked f q t xs) ≡ marked f q t (marked e p s xs)
marked-swap none none p q s t xs h = set_text-swap p q s t xs h
marked-swap none (some []) p q s t xs h = set_text-swap p q s t xs h
marked-swap (some []) none p q s t xs h = set_text-swap p q s t xs h
marked-swap (some []) (some []) p q s t xs h = set_text-swap p q s t xs h
marked-swap (some (c ∷ e)) f p q s t xs h = refl
marked-swap e (some (c ∷ f)) p q s t xs h = refl

-- Two readings with the same texts and tokens; the errors and the times may differ in order.
abbrev Same : Reading → Reading → Type 0
Same r o = (r.texts ≡ o.texts) × (r.tokens ≡ o.tokens)

run_region-Same :
    (x : ℕ × StreamStats) (r o : Reading) → Same r o → Same (run_region x r) (run_region x o)
run_region-Same x r o h = (
  rw ((run_region-texts x r).0, (run_region-texts x o).0, h.0) refl,
  omega (arith, (run_region-texts x r).1, (run_region-texts x o).1, h.1),
)

run_region-swap :
    (x y : ℕ × StreamStats) (r : Reading)
    → x.0 ≢ y.0
    → Same (run_region y (run_region x r)) (run_region x (run_region y r))
run_region-swap x y r h = (
  rw
      (
        (run_region-texts y (run_region x r)).0,
        (run_region-texts x (run_region y r)).0,
        (run_region-texts x r).0,
        (run_region-texts y r).0,
      )
      (sym (marked-swap x.1.error y.1.error x.0 y.0 x.1.text y.1.text r.texts h)),
  omega (
    arith,
    (run_region-texts y (run_region x r)).1,
    (run_region-texts x (run_region y r)).1,
    (run_region-texts x r).1,
    (run_region-texts y r).1,
  ),
)

run_regions-Same :
    (xs : List (ℕ × StreamStats)) (r o : Reading)
    → Same r o
    → Same (run_regions xs r) (run_regions xs o)
unfolding run_regions
run_regions-Same [] r o h = h
run_regions-Same (x ∷ xs) r o h =
    run_regions-Same xs (run_region x r) (run_region x o) (run_region-Same x r o h)

run_regions-Perm :
    {xs ys : List (ℕ × StreamStats)}
    → Permᴰ xs ys
    → (r : Reading) → Apart xs
    → Same (run_regions xs r) (run_regions ys r)
unfolding run_regions
run_regions-Perm nil r h = (refl, refl)
run_regions-Perm (cons {a} {l₁} {l₂} e d) r h =
    subst (λ x. Same (run_regions l₁ (run_region a r)) (run_regions l₂ (run_region x r))) e
      (run_regions-Perm d (run_region a r) h.1)
run_regions-Perm (swap {a} {b} {a'} {b'} {l} e f) r h =
    let before = run_regions l (run_region b (run_region a r)) in
    subst (λ x. Same before (run_regions l (run_region b' (run_region x r)))) f
      (subst (λ x. Same before (run_regions l (run_region x (run_region b r)))) e
        (run_regions-Same l _ _ (run_region-swap a b r h.0.0)))
run_regions-Perm (trans d e) r h =
    let one = run_regions-Perm d r h in
    let two = run_regions-Perm e r (Apart-Perm d h) in (one.0 ∙ two.0, one.1 ∙ two.1)

-- In whatever order the requests for the regions of a page end, no two of them for one position, the
-- text that the page shares and the tokens that it counts are the same.
pub run_regions-order :
    (u : Unicode) (xs ys : List (ℕ × StreamStats)) (r : Reading)
    → Permᴰ xs ys
    → Apart xs
    → (shared_text u (run_regions xs r) ≡ shared_text u (run_regions ys r))
      × ((run_regions xs r).tokens ≡ (run_regions ys r).tokens)
unfolding shared_text
run_regions-order u xs ys r p h =
    let same = run_regions-Perm p r h in (ap (λ t. stitch_regions u t true) same.0, same.1)
