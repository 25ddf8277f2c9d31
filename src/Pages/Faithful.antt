-- ===== src/Pages/Faithful.antt =====
-- The texts that the tasks share and the results that they add, in every state of the pool.
use ocr_serving.Base.{
  ℕ, suc, ◌≡◌, refl, ap, sym, subst, ◌∙◌, ◌==◌, ==_iff, Bool-cases, Option-cases, inl, inr, true,
  false, none, some, All, All-append, All-imp, arith,
}
use ocr_serving.Base.Text.{Text}
use ocr_serving.Base.Dict.{lookup}
use ocr_serving.Base.Families.{put, put-same, put-pred}
use ocr_serving.Config.{Settings}
use ocr_serving.Schemas.{PageResult}
use ocr_serving.Postprocess.Normalize.{Unicode}
use ocr_serving.Pages.{native_result, blank_result, duplicate_result, ocr_result}
use ocr_serving.Pages.Pool.{
  Stage, unborn, queued, preparing, copying, announcing, Board, Job, Move, has_text, is_blank,
  is_new, reads, copies, Pool, start, Step, spawn, enter, move, gather, Reach, here, next,
}
use ocr_serving.Pages.Bounds.{Counts, Reach-Counts}
use ocr_serving.Pages.Made.{copied, none_ne_some, false_ne_true}
use ocr_serving.Pages.Results.{
  past, engaged, readable, digest_of, register-pages, not_blank, IsResult, as_native, as_blank,
  as_ocr, as_copy, Move-past, Move-fixed, Move-keyed, Move-twin, Move-settled, Move-busy,
}

module _ (s : Settings) (u : Unicode) (job : Job) where
  -- A result that a page may have, of a page whose task has left `_process_page`.
  abbrev Shown : Board → (ℕ → Stage) → PageResult → Type 0
  Shown b f p = IsResult u job b p × (past (f p.index) ≡ true)

  -- What the tasks keep of the pages' texts.
  pub record Faithful (a : Pool s u job) : Type 0 where
    pub shown : All (Shown a.board a.stage) a.board.pages
    pub keyed :
        (d : Text) (j : ℕ) → lookup d a.board.dedupe ≡ some j → digest_of (job.source j) ≡ some d
    pub twin :
        (i j : ℕ) → a.stage i ≡ copying j → digest_of (job.source j) ≡ digest_of (job.source i)
    pub settled :
        (j : ℕ) (t : Text)
        → a.board.shared j ≡ some t
        → (past (a.stage j) ≡ true) × (readable (job.source j) ≡ true)
    pub busy : (i : ℕ) → engaged (a.stage i) ≡ true → readable (job.source i) ≡ true

  -- The result that a move adds is one that its page may have.
  Move-Shown :
      {i : ℕ} {b c : Board} {x y : Stage}
      → Move s u job i b x c y
      → (f : ℕ → Stage) → (engaged x ≡ true → readable (job.source i) ≡ true)
      → ((j : ℕ) → x ≡ copying j → digest_of (job.source j) ≡ digest_of (job.source i))
      → (past x ≡ false → b.shared i ≡ none)
      → All (Shown c (put f i y)) b.pages
      → All (Shown c (put f i y)) c.pages
  unfolding native_result blank_result ocr_result duplicate_result
  Move-Shown {i} {b} (has_text {w} {h} {t} ms e) f busy twin unset old =
      All-append _ b.pages _ old ((as_native i w h t ms e, ap past (put-same f i announcing)), tt)
  Move-Shown {i} {b} (is_blank {dpi} {p} ms e q) f busy twin unset old =
      All-append _ b.pages _ old ((as_blank i dpi p ms e q, ap past (put-same f i announcing)), tt)
  Move-Shown {i} {b} (reads {dpi} {p} r ms e) f busy twin unset old = All-append _ b.pages _ old (
    (
      as_ocr i dpi p r ms e (not_blank p.is_blank (sym (ap readable e) ∙ busy refl))
          (put-same b.shared i _),
      ap past (put-same f i announcing),
    ),
    tt,
  )
  Move-Shown {i} {b} (copies {dpi} {j} {p} {t} ms e q) f busy twin unset old =
      All-append _ b.pages _ old (
        (
          as_copy i dpi j p t ms e (not_blank p.is_blank (sym (ap readable e) ∙ busy refl))
              (twin j refl ∙ ap digest_of e) q (unset refl),
          ap past (put-same f i announcing),
        ),
        tt,
      )
  Move-Shown {i} {b} (is_new {p} e q o) f busy twin unset old =
      subst (All _) (sym (register-pages s.deduplicate_pages p.digest i b)) old
  Move-Shown _ f busy twin unset old = old

  -- A result stays one that its page may have, while no future of an ended page changes.
  kept :
      (b c : Board) (f : ℕ → Stage)
      → ((j : ℕ) → past (f j) ≡ true → c.shared j ≡ b.shared j)
      → ((j : ℕ) (t : Text) → b.shared j ≡ some t → past (f j) ≡ true)
      → (p : PageResult) → past (f p.index) ≡ true
      → IsResult u job b p
      → IsResult u job c p
  unfolding native_result blank_result ocr_result duplicate_result
  kept b c f same ended p h (as_native i w hh t ms e) = as_native i w hh t ms e
  kept b c f same ended p h (as_blank i dpi q ms e z) = as_blank i dpi q ms e z
  kept b c f same ended p h (as_ocr i dpi q r ms e z k) = as_ocr i dpi q r ms e z (same i h ∙ k)
  kept b c f same ended p h (as_copy i dpi j q t ms e z d k n) =
      as_copy i dpi j q t ms e z d (same j (ended j t k) ∙ k) (same i h ∙ n)

  stays :
      (f : ℕ → Stage) (i : ℕ) (y : Stage)
      → (past (f i) ≡ true → past y ≡ true)
      → (j : ℕ) → past (f j) ≡ true
      → past (put f i y j) ≡ true
  stays f i y h j e = elim (Bool-cases (i == j)) [
    | inl same ↦ rw same (h (ap (λ k. past (f k)) ((==_iff i j).0 same) ∙ e))
    | inr other ↦ rw other e
  ]

  module _ {a : Pool s u job} (v : Faithful a) where
    unset : (i : ℕ) → past (a.stage i) ≡ false → a.board.shared i ≡ none
    unset i h = elim (Option-cases (a.board.shared i)) [
      | inl e ↦ e
      | inr (t, e) ↦ absurd (false_ne_true (sym h ∙ (v.settled i t e).0))
    ]

    Move-Faithful :
        (i : ℕ) (c : Board) (y : Stage)
        → Move s u job i a.board (a.stage i) c y
        → Faithful (record a { board = c; stage = put a.stage i y })
    Move-Faithful i c y m = record {
      shown = Move-Shown m a.stage (v.busy i) (v.twin i) (unset i) (
          All-imp
            (λ p h. (
              kept a.board c a.stage fixed (λ j t e. (v.settled j t e).0) p h.1 h.0,
              stays a.stage i y (Move-past s u job m) p.index h.1,
            ))
            a.board.pages v.shown);
      keyed =
          λ d j e. elim (Move-keyed s u job m d j e) [ inl old ↦ v.keyed d j old | inr new ↦ new ];
      twin = λ k.
          put-pred
            (λ k st. (j : ℕ) → st ≡ copying j → digest_of (job.source j) ≡ digest_of (job.source k))
            a.stage i y (Move-twin s u job m v.keyed) k (v.twin k);
      settled = λ j t e. elim (Move-settled s u job m j t e) [
        | inl old ↦
            let (ended, seen) = v.settled j t old in
            (stays a.stage i y (Move-past s u job m) j ended, seen)
        | inr (self, at_work, ends) ↦ (
          ap past (ap (put a.stage i y) (sym self) ∙ put-same a.stage i y) ∙ ends,
          ap (λ k. readable (job.source k)) (sym self) ∙ v.busy i at_work,
        )
      ];
      busy = λ k.
          put-pred (λ k st. engaged st ≡ true → readable (job.source k) ≡ true) a.stage i y
            (Move-busy s u job m (v.busy i)) k (v.busy k);
    }
      where
        fixed : (j : ℕ) → past (a.stage j) ≡ true → c.shared j ≡ a.board.shared j
        fixed j h = Move-fixed s u job m j (λ e. ap (λ k. past (a.stage k)) e ∙ h)

    early-Faithful :
        (i n : ℕ) (x y : Stage)
        → a.stage i ≡ x
        → past x ≡ false
        → copied y ≡ none
        → engaged y ≡ false
        → Faithful (record a { stage = put a.stage i y; spawned = n })
    early-Faithful i n x y at not_past not_waiting not_engaged = record {
      shown = All-imp (λ p h. (h.0, stays a.stage i y no_end p.index h.1)) a.board.pages v.shown;
      keyed = v.keyed;
      twin = λ k.
          put-pred
            (λ k st. (j : ℕ) → st ≡ copying j → digest_of (job.source j) ≡ digest_of (job.source k))
            a.stage i y (λ j e. absurd (none_ne_some (sym not_waiting ∙ ap copied e))) k (v.twin k);
      settled =
          λ j t e. let (ended, seen) = v.settled j t e in (stays a.stage i y no_end j ended, seen);
      busy = λ k.
          put-pred (λ k st. engaged st ≡ true → readable (job.source k) ≡ true) a.stage i y
            (λ e. absurd (false_ne_true (sym not_engaged ∙ e))) k (v.busy k);
    }
      where
        no_end : past (a.stage i) ≡ true → past y ≡ true
        no_end e = absurd (false_ne_true (sym not_past ∙ (ap past (sym at) ∙ e)))

  Step-Faithful :
      {a b : Pool s u job} → Counts s u job a → Step s u job a b → Faithful a → Faithful b
  Step-Faithful {a} n (spawn lt few) v =
      early-Faithful v a.spawned (suc a.spawned) unborn queued
        (n.unborn_from a.spawned (omega arith)) refl refl refl
  Step-Faithful {a} n (enter i lt e free) v =
      early-Faithful v i a.spawned queued preparing e refl refl refl
  Step-Faithful n (move i {b} {st} lt m) v = Move-Faithful v i b st m
  Step-Faithful n (gather all few first) v = record {
    shown = v.shown;
    keyed = v.keyed;
    twin = v.twin;
    settled = v.settled;
    busy = v.busy;
  }

  pub Reach-Faithful : {a : Pool s u job} → Reach s u job a → Faithful a
  unfolding start lookup
  Reach-Faithful here = record {
    shown = tt;
    keyed = λ d j e. cc;
    twin = λ i j e. absurd (none_ne_some (ap copied e));
    settled = λ j t e. cc;
    busy = λ i e. absurd (false_ne_true e);
  }
  Reach-Faithful (next r st) = Step-Faithful (Reach-Counts s u job r) st (Reach-Faithful r)
