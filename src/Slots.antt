-- ===== src/Slots.antt =====
-- workers/cpu_worker.py: `Worker.run` and `Worker._reclaim_loop`, which share the semaphore `_sem` and
-- the set `_tasks`, and `request_stop`. A step is what one of them, or a task of a job, does between
-- two points at which the others may run. The other housekeeping loops share nothing with them.
pub mod Bounds
use ocr_serving.Base.{ℕ, suc, ◌≤◌, ◌≡◌, Bool, true, false}
use ocr_serving.Config.{Settings}

-- `run`: at the test of the loop, before `_sem.acquire`, behind it, at `queue.reserve`, and in the
-- `finally`, reached with the permit given back or, where `reserve` raised, still held.
pub data Loop : Type 0 where
  testing acquiring acquired reserving draining draining_held : Loop

-- `_reclaim_loop`: asleep; in the loop over jobs that it has claimed, of which so many are left;
-- returned or cancelled.
pub data Reclaimer : Type 0 where
  asleep : Reclaimer
  starting : ℕ → Reclaimer
  returned : Reclaimer

pub record Slots : Type 0 where
  pub stopping : Bool
  pub free : ℕ
  pub running : ℕ
  pub loop : Loop
  pub reclaimer : Reclaimer

-- The permit that `run` holds itself.
abbrev pub held : Loop → ℕ
held acquired = 1
held reserving = 1
held draining_held = 1
held _ = 0

module _ (s : Settings) where
  unfoldable pub started : Slots
  started = record {
    stopping = false;
    free = s.worker_concurrency;
    running = 0;
    loop = testing;
    reclaimer = asleep;
  }

  pub data Step (a : Slots) : Slots → Type 0 where
    request_stop : Step a (record a { stopping = true })
    -- `while not self._stopping.is_set()`
    go_on : a.loop ≡ testing → a.stopping ≡ false → Step a (record a { loop = acquiring })
    leave : a.loop ≡ testing → a.stopping ≡ true → Step a (record a { loop = draining })
    acquire :
        (n : ℕ)
        → a.loop ≡ acquiring
        → a.free ≡ suc n
        → Step a (record a { loop = acquired; free = n })
    give_back :
        a.loop ≡ acquired
        → a.stopping ≡ true
        → Step a (record a { loop = draining; free = suc a.free })
    ask : a.loop ≡ acquired → a.stopping ≡ false → Step a (record a { loop = reserving })
    reserve_none : a.loop ≡ reserving → Step a (record a { loop = testing; free = suc a.free })
    reserve_one : a.loop ≡ reserving → Step a (record a { loop = testing; running = suc a.running })
    reserve_raises : a.loop ≡ reserving → Step a (record a { loop = draining_held })
    -- a task of a job ends, and its callbacks release the permit
    job_ends : (n : ℕ) → a.running ≡ suc n → Step a (record a { running = n; free = suc a.free })
    wakes_stopped :
        a.reclaimer ≡ asleep → a.stopping ≡ true → Step a (record a { reclaimer = returned })
    reclaims :
        (k : ℕ)
        → a.reclaimer ≡ asleep
        → a.stopping ≡ false
        → k ≤ 10
        → Step a (record a { reclaimer = starting k })
    starts :
        (k n : ℕ)
        → a.reclaimer ≡ starting (suc k)
        → a.free ≡ suc n
        → Step a (record a { reclaimer = starting k; free = n; running = suc a.running })
    sleeps : a.reclaimer ≡ starting 0 → Step a (record a { reclaimer = asleep })
    -- the `finally`: housekeeping is cancelled, the tasks are waited for
    cancels : a.loop ≡ draining → Step a (record a { reclaimer = returned })
    cancels_held : a.loop ≡ draining_held → Step a (record a { reclaimer = returned })

  pub data Reach : Slots → Type 0 where
    here : Reach started
    next : {a b : Slots} → Reach a → Step a b → Reach b

  pub data Later (a : Slots) : Slots → Type 0 where
    now : Later a a
    after : {b c : Slots} → Later a b → Step b c → Later a c
