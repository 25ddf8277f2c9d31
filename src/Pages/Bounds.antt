-- ===== src/Pages/Bounds.antt =====
-- How many pages are in work, and how many are in memory, in every state that the pool can reach.
use ocr_serving.Base.{
  ℕ, suc, ◌+◌, ◌<◌, ◌≤◌, ◌≡◌, refl, ap, ◌∙◌, leb, leb→le, Bool-cases, inl, inr, arith,
}
use ocr_serving.Base.Families.{put, put-other, weigh-put, weigh-zero}
use ocr_serving.Config.{Settings}
use ocr_serving.Postprocess.Normalize.{Unicode}
use ocr_serving.Pages.Pool.{
  Stage, unborn, queued, preparing, inside, alive, Board, Job, Move, prepare_fails, has_text,
  is_blank, is_copy, is_new, starts, start_fails, flush_fails, reads, read_fails, copies, announces,
  announce_fails, Pool, start, Step, spawn, enter, move, gather, Reach, here, next, tasks, holders,
}

module _ (s : Settings) (u : Unicode) (job : Job) where
  -- A task's own step takes no place: it neither enters `page_sem` nor comes to life.
  Move-inside :
      {i : ℕ} {b c : Board} {x y : Stage}
      → Move s u job i b x c y
      → (inside y ≤ inside x) × (alive y ≤ alive x) × (alive x ≡ 1)
  Move-inside prepare_fails = (omega arith, omega arith, refl)
  Move-inside (has_text ms e) = (omega arith, omega arith, refl)
  Move-inside (is_blank ms e h) = (omega arith, omega arith, refl)
  Move-inside (is_copy e h o) = (omega arith, omega arith, refl)
  Move-inside (is_new e h o) = (omega arith, omega arith, refl)
  Move-inside starts = (omega arith, omega arith, refl)
  Move-inside start_fails = (omega arith, omega arith, refl)
  Move-inside flush_fails = (omega arith, omega arith, refl)
  Move-inside (reads r ms e) = (omega arith, omega arith, refl)
  Move-inside (read_fails r) = (omega arith, omega arith, refl)
  Move-inside (copies ms e h) = (omega arith, omega arith, refl)
  Move-inside announces = (omega arith, omega arith, refl)
  Move-inside announce_fails = (omega arith, omega arith, refl)

  -- What holds of the counts in every state.
  pub record Counts (a : Pool s u job) : Type 0 where
    pub unborn_from : (i : ℕ) → a.spawned ≤ i → a.stage i ≡ unborn
    pub within : a.spawned ≤ job.count
    pub few_holders : holders s u job a ≤ s.page_concurrency
    pub few_tasks : tasks s u job a ≤ suc (s.page_concurrency + s.worker_prefetch)

  module _ {a : Pool s u job} (c : Counts a) where
    pub alive_spawned : (i : ℕ) → alive (a.stage i) ≡ 1 → i < a.spawned
    alive_spawned i h = elim (Bool-cases (leb a.spawned i)) [
      | inl above ↦ absurd (omega (arith, h, ap alive (c.unborn_from i (leb→le a.spawned i above))))
      | inr below ↦ ground arith
    ]

    -- A change of the stage of a task that lives leaves the tasks above `spawned` unborn.
    put_unborn :
        (i : ℕ) (st : Stage)
        → alive (a.stage i) ≡ 1
        → (j : ℕ) → a.spawned ≤ j
        → put a.stage i st j ≡ unborn
    put_unborn i st h j le =
        put-other a.stage i j st (λ e. omega (arith, e, le, alive_spawned i h)) ∙ c.unborn_from j le

    spawn-Counts :
        a.spawned < job.count
        → tasks s u job a ≤ s.page_concurrency + s.worker_prefetch
        → Counts (record a { stage = put a.stage a.spawned queued; spawned = suc a.spawned })
    spawn-Counts lt few = record {
      unborn_from = λ j le.
          put-other a.stage a.spawned j queued (λ e. omega (arith, e, le))
          ∙ c.unborn_from j (omega (arith, le));
      within = lt;
      few_holders = omega (
        arith,
        c.few_holders,
        weigh-put inside job.count a.stage a.spawned queued lt,
        ap inside (c.unborn_from a.spawned (omega arith)),
      );
      few_tasks = omega (
        arith,
        few,
        weigh-put alive job.count a.stage a.spawned queued lt,
        ap alive (c.unborn_from a.spawned (omega arith)),
      );
    }

    enter-Counts :
        (i : ℕ)
        → i < job.count
        → a.stage i ≡ queued
        → holders s u job a < s.page_concurrency
        → Counts (record a { stage = put a.stage i preparing })
    enter-Counts i lt e free = record {
      unborn_from = put_unborn i preparing (ap alive e);
      within = c.within;
      few_holders =
          omega (arith, free, weigh-put inside job.count a.stage i preparing lt, ap inside e);
      few_tasks =
          omega (arith, c.few_tasks, weigh-put alive job.count a.stage i preparing lt, ap alive e);
    }

    Move-Counts :
        (i : ℕ) (b : Board) (st : Stage)
        → i < job.count
        → Move s u job i a.board (a.stage i) b st
        → Counts (record a { board = b; stage = put a.stage i st })
    Move-Counts i b st lt m =
        let (less, fewer, lives) = Move-inside m in
        record {
          unborn_from = put_unborn i st lives;
          within = c.within;
          few_holders =
              omega (arith, c.few_holders, less, weigh-put inside job.count a.stage i st lt);
          few_tasks = omega (arith, c.few_tasks, fewer, weigh-put alive job.count a.stage i st lt);
        }

  Step-Counts : {a b : Pool s u job} → Step s u job a b → Counts a → Counts b
  Step-Counts (spawn lt few) c = spawn-Counts c lt few
  Step-Counts (enter i lt e free) c = enter-Counts c i lt e free
  Step-Counts (move i {b} {st} lt m) c = Move-Counts c i b st lt m
  Step-Counts (gather all few first) c = record {
    unborn_from = c.unborn_from;
    within = c.within;
    few_holders = c.few_holders;
    few_tasks = c.few_tasks;
  }

  start-Counts : Counts (start s u job)
  unfolding start
  start-Counts = record {
    unborn_from = λ i le. refl;
    within = omega arith;
    few_holders = omega (arith, weigh-zero inside job.count (λ i. unborn) (λ i lt. refl));
    few_tasks = omega (arith, weigh-zero alive job.count (λ i. unborn) (λ i lt. refl));
  }

  pub Reach-Counts : {a : Pool s u job} → Reach s u job a → Counts a
  Reach-Counts here = start-Counts
  Reach-Counts (next r st) = Step-Counts st (Reach-Counts r)

  -- In every state that the pages can reach, in whatever order their tasks run, at most
  -- `page_concurrency` pages are in `_process_page`, and at most `page_concurrency + worker_prefetch`
  -- and one more have a task.
  pub Reach-bounds :
      (a : Pool s u job)
      → Reach s u job a
      → (holders s u job a ≤ s.page_concurrency)
        × (tasks s u job a ≤ suc (s.page_concurrency + s.worker_prefetch))
  Reach-bounds a r = ((Reach-Counts r).few_holders, (Reach-Counts r).few_tasks)
