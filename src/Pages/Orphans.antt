-- ===== src/Pages/Orphans.antt =====
-- A page that waits for a future which its task left unset: the start of a page is published between
-- the making of the future and the `try` whose `finally` sets it, and the `finally` flushes the relay,
-- which may raise, before it sets the future.
use ocr_serving.Base.{ℕ, suc, ◌<◌, ◌≡◌, refl, ap, sym, ◌∙◌, none, some, arith}
use ocr_serving.Base.Families.{put, put-other, weigh-ge}
use ocr_serving.Config.{Settings}
use ocr_serving.Postprocess.Normalize.{Unicode}
use ocr_serving.Pages.Pool.{
  Stage, unborn, queued, preparing, copying, failed, alive, Board, Job, Move, is_new, reads,
  read_fails, copies, Pool, Step, spawn, enter, move, gather, Reach, next, tasks, IsOver,
}
use ocr_serving.Pages.Bounds.{Counts, Reach-Counts, alive_spawned}
use ocr_serving.Pages.Progress.{ahead, Move-ahead}
use ocr_serving.Pages.Made.{register-shared, copied, none_ne_some}
use ocr_serving.Pages.Stuck.{Orphan}

module _ (s : Settings) (u : Unicode) (job : Job) where
  -- A task that failed makes no move.
  failed_ends : {i : ℕ} {b c : Board} {x y : Stage} → Move s u job i b x c y → x ≡ failed → ⊥
  failed_ends m e = omega (arith, Move-ahead s u job m, ap ahead e)

  -- A task that waits makes none while the future is unset.
  copying_blocked :
      {i : ℕ} {b c : Board} {x y : Stage}
      → Move s u job i b x c y
      → (j : ℕ) → x ≡ copying j
      → b.shared j ≡ none
      → ⊥
  copying_blocked {b} (copies {j = k} ms e q) j w unset = clash (ap copied w)
    where
      clash : some k ≡ some j → ⊥
      clash p = cc
  copying_blocked _ j w unset = none_ne_some (ap copied w)

  -- No task sets the future of another.
  Move-unshared :
      {i : ℕ} {b c : Board} {x y : Stage}
      → Move s u job i b x c y
      → (j : ℕ) → (i ≡ j → ⊥)
      → b.shared j ≡ none
      → c.shared j ≡ none
  Move-unshared {i} {b} (is_new {p} e h o) j other unset =
      ap (λ f. f j) (register-shared s.deduplicate_pages p.digest i b) ∙ unset
  Move-unshared {i} {b} (reads r ms e) j other unset = put-other b.shared i j _ other ∙ unset
  Move-unshared {i} {b} (read_fails r) j other unset = put-other b.shared i j _ other ∙ unset
  Move-unshared _ j other unset = unset

  -- An orphan stays one, whatever the other tasks do.
  module _ {a : Pool s u job} (o : Orphan s u job a) where
    Move-Orphan :
        (i : ℕ) (c : Board) (y : Stage)
        → Move s u job i a.board (a.stage i) c y
        → Orphan s u job (record a { board = c; stage = put a.stage i y })
    Move-Orphan i c y m = record {
      page = o.page;
      original = o.original;
      waits = put-other a.stage i o.page y not_page ∙ o.waits;
      gone = put-other a.stage i o.original y not_original ∙ o.gone;
      unshared = Move-unshared m o.original not_original o.unshared;
    }
      where
        not_page : i ≡ o.page → ⊥
        not_page e = copying_blocked m o.original (ap a.stage e ∙ o.waits) o.unshared

        not_original : i ≡ o.original → ⊥
        not_original e = failed_ends m (ap a.stage e ∙ o.gone)

    early-Orphan :
        (i n : ℕ) (x y : Stage)
        → a.stage i ≡ x
        → copied x ≡ none
        → (x ≡ failed → ⊥)
        → Orphan s u job (record a { stage = put a.stage i y; spawned = n })
    early-Orphan i n x y at not_waiting not_failed = record {
      page = o.page;
      original = o.original;
      waits =
          put-other a.stage i o.page y
            (λ e. none_ne_some (sym not_waiting ∙ ap copied (sym at ∙ (ap a.stage e ∙ o.waits))))
          ∙ o.waits;
      gone =
          put-other a.stage i o.original y (λ e. not_failed (sym at ∙ (ap a.stage e ∙ o.gone)))
          ∙ o.gone;
      unshared = o.unshared;
    }

  Step-Orphan :
      {a b : Pool s u job}
      → Counts s u job a
      → Step s u job a b
      → Orphan s u job a
      → Orphan s u job b
  Step-Orphan {a} c (spawn lt few) o =
      early-Orphan o a.spawned (suc a.spawned) unborn queued (c.unborn_from a.spawned (omega arith))
        refl (λ e. cc)
  Step-Orphan {a} c (enter i lt e free) o =
      early-Orphan o i a.spawned queued preparing e refl (λ q. cc)
  Step-Orphan c (move i {b} {st} lt m) o = Move-Orphan o i b st m
  Step-Orphan c (gather all few first) o = record {
    page = o.page;
    original = o.original;
    waits = o.waits;
    gone = o.gone;
    unshared = o.unshared;
  }

  -- The states that follow a state.
  pub data Later (a : Pool s u job) : Pool s u job → Type 0 where
    now : Later a a
    after : {b c : Pool s u job} → Later a b → Step s u job b c → Later a c

  Later-Reach : {a b : Pool s u job} → Reach s u job a → Later a b → Reach s u job b
  Later-Reach r now = r
  Later-Reach r (after l st) = next (Later-Reach r l) st

  Later-Orphan :
      {a b : Pool s u job} → Reach s u job a → Orphan s u job a → Later a b → Orphan s u job b
  Later-Orphan r o now = o
  Later-Orphan r o (after l st) =
      Step-Orphan (Reach-Counts s u job (Later-Reach r l)) st (Later-Orphan r o l)

  Orphan-alive : {a : Pool s u job} → Counts s u job a → Orphan s u job a → 0 < tasks s u job a
  Orphan-alive {a} c o = omega (
    arith,
    c.within,
    alive_spawned s u job c o.page (ap alive o.waits),
    ap alive o.waits,
    weigh-ge alive job.count a.stage o.page
        (omega (arith, c.within, alive_spawned s u job c o.page (ap alive o.waits))),
  )

  -- Where all tasks were handed to `gather`, behind which the job is not asked for its cancellation any
  -- more, and a page waits for one that failed with its future unset, the pages of the job never end: in
  -- no later state are all tasks over, whatever the tasks do.
  pub Orphan-forever :
      (a b : Pool s u job) (at : ℕ → Stage)
      → Reach s u job a
      → a.gathered ≡ some at
      → Orphan s u job a
      → Later a b
      → ¬ IsOver s u job b
  Orphan-forever a b at r called o l ended = omega (
    arith,
    ended.none_alive,
    Orphan-alive (Reach-Counts s u job (Later-Reach r l)) (Later-Orphan r o l),
  )
