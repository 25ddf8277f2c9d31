-- ===== src/Pages/Waiting.antt =====
-- What a page that waits for its original waits for.
use ocr_serving.Base.{
  ℕ, suc, ◌≡◌, refl, ap, sym, ◌∙◌, ◌==◌, ==_iff, Bool-cases, inl, inr, ◌⊎◌, Bool, true, false, none,
  some, arith,
}
use ocr_serving.Base.Text.{Text}
use ocr_serving.Base.Dict.{lookup}
use ocr_serving.Base.Families.{put, put-same}
use ocr_serving.Config.{Settings}
use ocr_serving.Postprocess.Normalize.{Unicode}
use ocr_serving.Pages.{Prepared}
use ocr_serving.Pages.Pool.{
  image, Stage, queued, preparing, opened, copying, Board, original_of, Job, Move, is_copy, is_new,
  Pool, start, Step, spawn, enter, move, gather, Reach, here, next,
}
use ocr_serving.Pages.Bounds.{Counts, Reach-Counts}
use ocr_serving.Pages.Made.{
  IsMade, will_start, made, copied, none_ne_some, register-lookup, move-IsMade, put-IsMade,
}

module _ (s : Settings) (u : Unicode) (job : Job) where
  -- Whatever is waited for, or stands in `dedupe`, is the page of a future that was made.
  pub record Waits (a : Pool s u job) : Type 0 where
    pub listed : (d : Text) (j : ℕ) → lookup d a.board.dedupe ≡ some j → IsMade a.board a.stage j
    pub awaited : (i j : ℕ) → a.stage i ≡ copying j → IsMade a.board a.stage j
    pub imaged :
        (i j : ℕ)
        → a.stage i ≡ copying j
        → (dpi : ℕ) × (p : Prepared) × (job.source i ≡ image dpi p)

  original-listed :
      (dedup : Bool) (d : Text) (b : Board) (j : ℕ)
      → original_of dedup d b ≡ some j
      → lookup d b.dedupe ≡ some j
  original-listed true d b j e = e
  original-listed false d b j e = cc

  -- A task that begins to wait found the page in `dedupe`.
  Move-copying :
      {i : ℕ} {b c : Board} {x y : Stage}
      → Move s u job i b x c y
      → (j : ℕ) → y ≡ copying j
      → (d : Text) × (lookup d b.dedupe ≡ some j)
  Move-copying {b} (is_copy {p} e h o) j q =
      (p.digest, original-listed s.deduplicate_pages p.digest b j (o ∙ ap copied q))
  Move-copying _ j q = absurd (none_ne_some (ap copied q))

  Move-imaged :
      {i : ℕ} {b c : Board} {x y : Stage}
      → Move s u job i b x c y
      → (j : ℕ) → y ≡ copying j
      → (dpi : ℕ) × (p : Prepared) × (job.source i ≡ image dpi p)
  Move-imaged (is_copy {dpi} {p} e h o) j q = (dpi, p, e)
  Move-imaged _ j q = absurd (none_ne_some (ap copied q))

  -- What is new in `dedupe` is the page of the task itself.
  Move-listed :
      {i : ℕ} {b c : Board} {x y : Stage}
      → Move s u job i b x c y
      → (d : Text) (j : ℕ) → lookup d c.dedupe ≡ some j
      → (lookup d b.dedupe ≡ some j) ⊎ ((i ≡ j) × (y ≡ opened))
  Move-listed {i} {b} (is_new {p} e h o) d j q =
      elim (register-lookup s.deduplicate_pages p.digest d i j b q) [
        | inl old ↦ inl old
        | inr self ↦ inr (self, refl)
      ]
  Move-listed _ d j q = inl q

  pub put-awaited :
      (f : ℕ → Stage) (i : ℕ) (y : Stage) (k j : ℕ)
      → put f i y k ≡ copying j
      → ((i ≡ k) × (y ≡ copying j)) ⊎ (f k ≡ copying j)
  put-awaited f i y k j e = elim (Bool-cases (i == k)) [
    | inl same ↦ inl ((==_iff i k).0 same, rw same at e)
    | inr other ↦ inr (rw other at e)
  ]

  module _ {a : Pool s u job} (v : Waits a) where
    Move-Waits :
        (i : ℕ) (c : Board) (y : Stage)
        → Move s u job i a.board (a.stage i) c y
        → Waits (record a { board = c; stage = put a.stage i y })
    Move-Waits i c y m = record {
      listed = λ d j e. elim (Move-listed m d j e) [
        | inl old ↦ move-IsMade s u job a.stage m j (v.listed d j old)
        | inr (self, new) ↦
            will_start (ap (put a.stage i y) (sym self) ∙ (put-same a.stage i y ∙ new))
      ];
      awaited = λ k j e. elim (put-awaited a.stage i y k j e) [
        | inl (at, now) ↦
            let (d, old) = Move-copying m j now in
            move-IsMade s u job a.stage m j (v.listed d j old)
        | inr old ↦ move-IsMade s u job a.stage m j (v.awaited k j old)
      ];
      imaged = λ k j e. elim (put-awaited a.stage i y k j e) [
        | inl (at, now) ↦
            let (dpi, p, q) = Move-imaged m j now in (dpi, p, ap job.source (sym at) ∙ q)
        | inr old ↦ v.imaged k j old
      ];
    }

    early-Waits :
        (i n : ℕ) (y : Stage)
        → made (a.stage i) ≡ false
        → copied y ≡ none
        → Waits (record a { stage = put a.stage i y; spawned = n })
    early-Waits i n y early none_yet = record {
      listed = λ d j e. put-IsMade s u job a.stage a.board i y early j (v.listed d j e);
      awaited = λ k j e. elim (put-awaited a.stage i y k j e) [
        | inl (at, now) ↦ absurd (none_ne_some (sym none_yet ∙ ap copied now))
        | inr old ↦ put-IsMade s u job a.stage a.board i y early j (v.awaited k j old)
      ];
      imaged = λ k j e. elim (put-awaited a.stage i y k j e) [
        | inl (at, now) ↦ absurd (none_ne_some (sym none_yet ∙ ap copied now))
        | inr old ↦ v.imaged k j old
      ];
    }

  Step-Waits : {a b : Pool s u job} → Counts s u job a → Step s u job a b → Waits a → Waits b
  Step-Waits {a} n (spawn lt few) v =
      early-Waits v a.spawned (suc a.spawned) queued
        (ap made (n.unborn_from a.spawned (omega arith))) refl
  Step-Waits {a} n (enter i lt e free) v = early-Waits v i a.spawned preparing (ap made e) refl
  Step-Waits n (move i {b} {st} lt m) v = Move-Waits v i b st m
  Step-Waits n (gather all few first) v = record {
    listed = v.listed;
    awaited = v.awaited;
    imaged = v.imaged;
  }

  pub Reach-Waits : {a : Pool s u job} → Reach s u job a → Waits a
  unfolding start lookup
  Reach-Waits here = record { listed = λ d j e. cc; awaited = λ i j e. cc; imaged = λ i j e. cc }
  Reach-Waits (next r st) = Step-Waits (Reach-Counts s u job r) st (Reach-Waits r)
