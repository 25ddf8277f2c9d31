-- ===== src/Pages/Made.antt =====
-- The pages whose future was made, and what a task's move does to them.
use ocr_serving.Base.{
  ℕ, ◌≡◌, refl, ap, sym, subst, ◌∙◌, ◌==◌, if◌then◌else◌, ==_iff, Bool-cases, inl, inr, ◌⊎◌, Bool,
  true, false, Option, none, some,
}
use ocr_serving.Base.Text.{Text, text_eq}
use ocr_serving.Base.Dict.{lookup, lookup-insert}
use ocr_serving.Base.Families.{put, put-same, put-other}
use ocr_serving.Config.{Settings}
use ocr_serving.Postprocess.Normalize.{Unicode}
use ocr_serving.Pages.Pool.{
  Stage, opened, reading, copying, failed, Board, register, Job, Move, is_new, starts, start_fails,
  flush_fails, reads, read_fails,
}

-- A page whose future was made: its task is on the way to share a text, or has shared one, or failed.
pub data IsMade (b : Board) (stage : ℕ → Stage) (j : ℕ) : Type 0 where
  will_start : stage j ≡ opened → IsMade b stage j
  will_read : stage j ≡ reading → IsMade b stage j
  has_shared : (t : Text) → b.shared j ≡ some t → IsMade b stage j
  has_failed : stage j ≡ failed → IsMade b stage j

-- `IsMade` without a result shows in the stage.
abbrev pub made : Stage → Bool
made opened = true
made reading = true
made failed = true
made _ = false

-- What a stage waits for.
abbrev pub copied : Stage → Option ℕ
copied (copying j) = some j
copied _ = none

pub none_ne_some : {j : ℕ} → none ≡ some j → ⊥
none_ne_some e = cc

pub false_ne_true : false ≡ true → ⊥
false_ne_true e = cc

pub some_injective : {i j : ℕ} → some i ≡ some j → i ≡ j
some_injective e = cc

pub register-lookup :
    (dedup : Bool) (digest d : Text) (i j : ℕ) (b : Board)
    → lookup d (register dedup digest i b).dedupe ≡ some j
    → (lookup d b.dedupe ≡ some j) ⊎ (i ≡ j)
register-lookup false digest d i j b e = inl e
register-lookup true digest d i j b e =
    go (text_eq digest d) (sym (lookup-insert digest d i b.dedupe) ∙ e)
  where
    go :
        (same : Bool)
        → (if same then some i else lookup d b.dedupe) ≡ some j
        → (lookup d b.dedupe ≡ some j) ⊎ (i ≡ j)
    go true p = inr cc
    go false p = inl p

pub register-shared :
    (dedup : Bool) (digest : Text) (i : ℕ) (b : Board)
    → (register dedup digest i b).shared ≡ b.shared
register-shared true digest i b = refl
register-shared false digest i b = refl

put-some :
    (f : ℕ → Option Text) (i j : ℕ) (t t₁ : Text)
    → f j ≡ some t₁
    → (t₂ : Text) × (put f i (some t) j ≡ some t₂)
put-some f i j t t₁ e = elim (Bool-cases (i == j)) [
  | inl same ↦ (t, rw same)
  | inr other ↦ (t₁, rw (other, e))
]

module _ (s : Settings) (u : Unicode) (job : Job) where
  -- A text that is shared stays shared.
  pub Move-shared :
      {i : ℕ} {b c : Board} {x y : Stage}
      → Move s u job i b x c y
      → (j : ℕ) (t : Text) → b.shared j ≡ some t
      → (t₂ : Text) × (c.shared j ≡ some t₂)
  Move-shared {i} {b} (is_new {p} e h o) j t q =
      (t, ap (λ f. f j) (register-shared s.deduplicate_pages p.digest i b) ∙ q)
  Move-shared {i} {b} (reads r ms e) j t q = put-some b.shared i j _ t q
  Move-shared {i} {b} (read_fails r) j t q = put-some b.shared i j _ t q
  Move-shared _ j t q = (t, q)

  -- A task whose page's future is made goes on to share, or fails.
  pub Move-IsMade :
      {i : ℕ} {b c : Board} {x y : Stage}
      → Move s u job i b x c y
      → made x ≡ true
      → (f : ℕ → Stage) → IsMade c (put f i y) i
  Move-IsMade {i} {y} starts m f = will_read (put-same f i y)
  Move-IsMade {i} {y} start_fails m f = has_failed (put-same f i y)
  Move-IsMade {i} {y} flush_fails m f = has_failed (put-same f i y)
  Move-IsMade {i} {b} (reads r ms e) m f = has_shared _ (put-same b.shared i _)
  Move-IsMade {i} {b} (read_fails r) m f = has_shared _ (put-same b.shared i _)
  Move-IsMade _ m f = absurd (false_ne_true m)

  module _ (f : ℕ → Stage) {i : ℕ} {b c : Board} {y : Stage} (m : Move s u job i b (f i) c y) where
    moved :
        (j : ℕ)
        → made (f j) ≡ true
        → (put f i y j ≡ f j → IsMade c (put f i y) j)
        → IsMade c (put f i y) j
    moved j h keep = elim (Bool-cases (i == j)) [
      | inl same ↦
          let e = (==_iff i j).0 same in
          subst (IsMade c (put f i y)) e (Move-IsMade m (ap (λ k. made (f k)) e ∙ h) f)
      | inr other ↦ keep (rw other)
    ]

    pub move-IsMade : (j : ℕ) → IsMade b f j → IsMade c (put f i y) j
    move-IsMade j (has_shared t p) = let (t₂, q) = Move-shared m j t p in has_shared t₂ q
    move-IsMade j (will_start e) = moved j (ap made e) (λ q. will_start (q ∙ e))
    move-IsMade j (will_read e) = moved j (ap made e) (λ q. will_read (q ∙ e))
    move-IsMade j (has_failed e) = moved j (ap made e) (λ q. has_failed (q ∙ e))

  -- A task whose page has no future yet is moved: the others stand where they stood.
  module _ (f : ℕ → Stage) (b : Board) (i : ℕ) (y : Stage) (early : made (f i) ≡ false) where
    apart : (j : ℕ) → made (f j) ≡ true → put f i y j ≡ f j
    apart j h = put-other f i j y (λ e. false_ne_true (sym early ∙ (ap (λ k. made (f k)) e ∙ h)))

    pub put-IsMade : (j : ℕ) → IsMade b f j → IsMade b (put f i y) j
    put-IsMade j (has_shared t p) = has_shared t p
    put-IsMade j (will_start e) = will_start (apart j (ap made e) ∙ e)
    put-IsMade j (will_read e) = will_read (apart j (ap made e) ∙ e)
    put-IsMade j (has_failed e) = has_failed (apart j (ap made e) ∙ e)
