-- ===== src/Pages/Progress.antt =====
-- Whether the pages come to an end: no run is without end, and where it stops for good.
use ocr_serving.Base.{ℕ, zero, suc, ◌+◌, ◌*◌, ◌<◌, ◌≤◌, ◌≡◌, refl, ap, Option, none, some, arith}
use ocr_serving.Base.Families.{weigh, weigh-put}
use ocr_serving.Config.{Settings}
use ocr_serving.Postprocess.Normalize.{Unicode}
use ocr_serving.Pages.Pool.{
  Stage, unborn, queued, preparing, opened, reading, copying, announcing, finished, failed, Board,
  Job, Move, prepare_fails, has_text, is_blank, is_copy, is_new, starts, start_fails, flush_fails,
  reads, read_fails, copies, announces, announce_fails, Pool, start, Step, spawn, enter, move,
  gather, Reach, here, next,
}
use ocr_serving.Pages.Bounds.{Counts, Reach-Counts}

-- The points that are still before a task.
abbrev pub ahead : Stage → ℕ
ahead unborn = 6
ahead queued = 5
ahead preparing = 4
ahead opened = 3
ahead reading = 2
ahead (copying j) = 2
ahead announcing = 1
ahead finished = 0
ahead failed = 0

abbrev pub to_call : Option (ℕ → Stage) → ℕ
to_call none = 1
to_call (some at) = 0

module _ (s : Settings) (u : Unicode) (job : Job) where
  pub Move-ahead : {i : ℕ} {b c : Board} {x y : Stage} → Move s u job i b x c y → ahead y < ahead x
  Move-ahead prepare_fails = omega arith
  Move-ahead (has_text ms e) = omega arith
  Move-ahead (is_blank ms e h) = omega arith
  Move-ahead (is_copy e h o) = omega arith
  Move-ahead (is_new e h o) = omega arith
  Move-ahead starts = omega arith
  Move-ahead start_fails = omega arith
  Move-ahead flush_fails = omega arith
  Move-ahead (reads r ms e) = omega arith
  Move-ahead (read_fails r) = omega arith
  Move-ahead (copies ms e h) = omega arith
  Move-ahead announces = omega arith
  Move-ahead announce_fails = omega arith

  -- The steps that a pool has left, at most.
  abbrev pub left : Pool s u job → ℕ
  left a = weigh ahead job.count a.stage + to_call a.gathered

  Step-left : {a b : Pool s u job} → Counts s u job a → Step s u job a b → left b < left a
  Step-left {a} c (spawn lt few) = omega (
    arith,
    weigh-put ahead job.count a.stage a.spawned queued lt,
    ap ahead (c.unborn_from a.spawned (omega arith)),
  )
  Step-left {a} c (enter i lt e free) =
      omega (arith, weigh-put ahead job.count a.stage i preparing lt, ap ahead e)
  Step-left {a} c (move i {b} {st} lt m) =
      omega (arith, weigh-put ahead job.count a.stage i st lt, Move-ahead m)
  Step-left {a} c (gather all few first) = omega (arith, ap to_call first)

  weigh-unborn : (n : ℕ) → weigh ahead n (λ i. unborn) ≡ 6 * n
  unfolding weigh
  weigh-unborn zero = refl
  weigh-unborn (suc n) = omega (arith, weigh-unborn n)

  -- The length of a run.
  pub steps : {a : Pool s u job} → Reach s u job a → ℕ
  steps here = 0
  steps (next r st) = suc (steps r)

  steps-left : {a : Pool s u job} (r : Reach s u job a) → steps r + left a ≤ 6 * job.count + 1
  unfolding steps start
  steps-left here = omega (arith, weigh-unborn job.count)
  steps-left (next r st) = omega (arith, steps-left r, Step-left (Reach-Counts s u job r) st)

  -- No run of the pages is without end: none takes more than six steps for each page and one.
  pub steps-bound : (a : Pool s u job) (r : Reach s u job a) → steps r ≤ 6 * job.count + 1
  steps-bound a r = omega (arith, steps-left r)
