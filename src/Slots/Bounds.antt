-- ===== src/Slots/Bounds.antt =====
-- How many jobs a worker handles at once, and what it still starts once it is stopping.
use ocr_serving.Base.{ℕ, ◌+◌, ◌≤◌, ◌≡◌, ◌⊎◌, inl, inr, refl, ap, ◌∙◌, arith}
use ocr_serving.Config.{Settings}
use ocr_serving.Slots.{
  Loop, testing, acquiring, acquired, reserving, draining, draining_held, Reclaimer, asleep,
  starting, returned, Slots, held, started, Step, request_stop, go_on, leave, acquire, give_back,
  ask, reserve_none, reserve_one, reserve_raises, job_ends, wakes_stopped, reclaims, starts, sleeps,
  cancels, cancels_held, Reach, here, next, Later, now, after,
}

-- Every permit is free, with a job, or with the loop.
abbrev taken : Slots → ℕ
taken a = a.free + (a.running + held a.loop)

module _ (s : Settings) where
  Step-taken : {a b : Slots} → Step s a b → taken b ≡ taken a
  Step-taken request_stop = refl
  Step-taken {a} (go_on at e) = omega (arith, ap held at)
  Step-taken {a} (leave at e) = omega (arith, ap held at)
  Step-taken {a} (acquire n at e) = omega (arith, ap held at, e)
  Step-taken {a} (give_back at e) = omega (arith, ap held at)
  Step-taken {a} (ask at e) = omega (arith, ap held at)
  Step-taken {a} (reserve_none at) = omega (arith, ap held at)
  Step-taken {a} (reserve_one at) = omega (arith, ap held at)
  Step-taken {a} (reserve_raises at) = omega (arith, ap held at)
  Step-taken {a} (job_ends n e) = omega (arith, e)
  Step-taken (wakes_stopped at e) = refl
  Step-taken (reclaims k at e le) = refl
  Step-taken {a} (starts k n at e) = omega (arith, e)
  Step-taken (sleeps at) = refl
  Step-taken (cancels at) = refl
  Step-taken (cancels_held at) = refl

  Reach-taken : {a : Slots} → Reach s a → taken a ≡ s.worker_concurrency
  unfolding started
  Reach-taken here = omega arith
  Reach-taken (next r st) = Step-taken st ∙ Reach-taken r

  -- In every state that a worker can reach, in whatever order its loops and its jobs run, each permit of
  -- the semaphore is free, with a job that runs, or with the loop; so no more than `worker_concurrency`
  -- jobs run at once, reclaimed ones among them.
  pub Reach-permits :
      (a : Slots)
      → Reach s a
      → (a.free + (a.running + held a.loop) ≡ s.worker_concurrency)
        × (a.running ≤ s.worker_concurrency)
  Reach-permits a r = (Reach-taken r, omega (arith, Reach-taken r))

  -- The loop has left, and the reclaimer too.
  pub record IsStopped (a : Slots) : Type 0 where
    pub left : (a.loop ≡ draining) ⊎ (a.loop ≡ draining_held)
    pub quiet : a.reclaimer ≡ returned

  not_left : {l : Loop} → (l ≡ draining) ⊎ (l ≡ draining_held) → l ≡ testing → ⊥
  not_left (inl e) h = cc
  not_left (inr e) h = cc

  not_acquiring : {l : Loop} → (l ≡ draining) ⊎ (l ≡ draining_held) → l ≡ acquiring → ⊥
  not_acquiring (inl e) h = cc
  not_acquiring (inr e) h = cc

  not_acquired : {l : Loop} → (l ≡ draining) ⊎ (l ≡ draining_held) → l ≡ acquired → ⊥
  not_acquired (inl e) h = cc
  not_acquired (inr e) h = cc

  not_reserving : {l : Loop} → (l ≡ draining) ⊎ (l ≡ draining_held) → l ≡ reserving → ⊥
  not_reserving (inl e) h = cc
  not_reserving (inr e) h = cc

  not_asleep : {r : Reclaimer} → r ≡ returned → r ≡ asleep → ⊥
  not_asleep e h = cc

  not_starting : {r : Reclaimer} {k : ℕ} → r ≡ returned → r ≡ starting k → ⊥
  not_starting e h = cc

  Step-IsStopped : {a b : Slots} → Step s a b → IsStopped a → IsStopped b × (b.running ≤ a.running)
  Step-IsStopped request_stop v = (record { left = v.left; quiet = v.quiet }, omega arith)
  Step-IsStopped (go_on at e) v = absurd (not_left v.left at)
  Step-IsStopped (leave at e) v = absurd (not_left v.left at)
  Step-IsStopped (acquire n at e) v = absurd (not_acquiring v.left at)
  Step-IsStopped (give_back at e) v = absurd (not_acquired v.left at)
  Step-IsStopped (ask at e) v = absurd (not_acquired v.left at)
  Step-IsStopped (reserve_none at) v = absurd (not_reserving v.left at)
  Step-IsStopped (reserve_one at) v = absurd (not_reserving v.left at)
  Step-IsStopped (reserve_raises at) v = absurd (not_reserving v.left at)
  Step-IsStopped (job_ends n e) v = (record { left = v.left; quiet = v.quiet }, omega (arith, e))
  Step-IsStopped (wakes_stopped at e) v = absurd (not_asleep v.quiet at)
  Step-IsStopped (reclaims k at e le) v = absurd (not_asleep v.quiet at)
  Step-IsStopped (starts k n at e) v = absurd (not_starting v.quiet at)
  Step-IsStopped (sleeps at) v = absurd (not_starting v.quiet at)
  Step-IsStopped (cancels at) v = (record { left = v.left; quiet = refl }, omega arith)
  Step-IsStopped (cancels_held at) v = (record { left = v.left; quiet = refl }, omega arith)

  -- Once the loop has left and the reclaimer has returned or was cancelled, that stays so whatever
  -- happens, and the number of jobs that run never grows.
  pub IsStopped-drains :
      (a b : Slots) → IsStopped a → Later s a b → IsStopped b × (b.running ≤ a.running)
  IsStopped-drains a b v now = (v, omega arith)
  IsStopped-drains a b v (after {b = c} l st) =
      let (w, less) = IsStopped-drains a c v l in
      let (x, fewer) = Step-IsStopped st w in (x, omega (arith, less, fewer))
