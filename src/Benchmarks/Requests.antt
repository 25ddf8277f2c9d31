-- ===== src/Benchmarks/Requests.antt =====
-- The workers of a level make each request once, and come to an end.
use ocr_serving.Base.{
  ℕ, zero, suc, ◌+◌, ◌-◌, ◌*◌, ◌≤◌, ◌<◌, ◌≡◌, refl, subst, true, List, [], ◌∷◌, ◌++◌, arith, length,
  length-append, append_assoc, append-nil, ltb, ◌⊎◌, inl, inr, Bool-cases,
}
use mathlib.Core.List.{Perm}
use mathlib.Core.List.Perm
use ocr_serving.Benchmarks.{Level, launched, Step, takes, returns, collects, Reach, here, then_step}

-- The indices below `n`, the last first.
pub upto : ℕ → List ℕ
upto zero = []
upto (suc n) = n ∷ upto n

middle : (i : ℕ) (front back : List ℕ) → Perm (front ++ i ∷ back) (i ∷ (front ++ back))
middle i [] back = Perm.refl (i ∷ back)
middle i (j ∷ front) back =
    Perm.trans (Perm.cons j (middle i front back)) (Perm.swap i j (front ++ back))

module _ (concurrency budget : ℕ) where
  record Inv (n : ℕ) (a : Level) : Type 0 where
    made : Perm (a.collected ++ a.busy) (upto a.next)
    within : a.next ≤ budget
    workers : a.idle + length a.busy + a.returned ≡ concurrency
    -- a worker returns only when nothing is left
    drained : (a.returned ≡ 0) ⊎ (budget ≤ a.next)
    steps : n + 2 * (budget - a.next) + 2 * length a.busy + a.idle ≡ 2 * budget + concurrency

  Inv-launched : Inv 0 (launched concurrency budget)
  unfolding upto launched
  Inv-launched = record {
    made = Perm.nil;
    within = omega arith;
    workers = omega arith;
    drained = inl refl;
    steps = omega arith;
  }

  takes-made :
      (a : Level)
      → Perm (a.collected ++ a.busy) (upto a.next)
      → Perm (a.collected ++ a.next ∷ a.busy) (upto (suc a.next))
  unfolding upto
  takes-made a made = Perm.trans (middle a.next a.collected a.busy) (Perm.cons a.next made)

  collects-made :
      (collected busy front back indices : List ℕ) (i : ℕ)
      → busy ≡ front ++ i ∷ back
      → Perm (collected ++ busy) indices
      → Perm ((collected ++ i ∷ []) ++ (front ++ back)) indices
  collects-made collected busy front back indices i e made =
      rw (append_assoc collected (i ∷ []) (front ++ back)) (
        Perm.trans (Perm.append_left collected (Perm.symm (middle i front back)))
          (subst (λ b. Perm (collected ++ b) indices) e made))

  length-collects :
      (busy front back : List ℕ) (i : ℕ)
      → busy ≡ front ++ i ∷ back
      → length busy ≡ suc (length (front ++ back))
  length-collects busy front back i e =
      rw e (omega (arith, length-append front (i ∷ back), length-append front back))

  still_left :
      (left next : ℕ)
      → (left ≡ 0) ⊎ (budget ≤ next)
      → ltb next budget ≡ true
      → (left ≡ 0) ⊎ (budget ≤ suc next)
  still_left left next (inl none_left) more = inl none_left
  still_left left next (inr over) more = inr (omega arith)

  Inv-step : {n : ℕ} {a b : Level} → Inv n a → Step concurrency budget a b → Inv (suc n) b
  Inv-step {n} {a} h (takes m idle more) = record {
    made = takes-made a h.made;
    within = ground (arith, h.within);
    workers = omega (arith, h.workers, idle);
    drained = still_left a.returned a.next h.drained more;
    steps = ground (arith, h.steps, idle);
  }
  Inv-step {n} {a} h (returns m idle over) = record {
    made = h.made;
    within = h.within;
    workers = omega (arith, h.workers, idle);
    drained = inr (ground arith);
    steps = omega (arith, h.steps, idle);
  }
  Inv-step {n} {a} h (collects i front back e) = record {
    made = collects-made a.collected a.busy front back (upto a.next) i e h.made;
    within = h.within;
    workers = omega (arith, h.workers, length-collects a.busy front back i e);
    drained = h.drained;
    steps = omega (arith, h.steps, length-collects a.busy front back i e);
  }

  Reach-Inv : {n : ℕ} {a : Level} → Reach concurrency budget n a → Inv n a
  Reach-Inv here = Inv-launched
  Reach-Inv (then_step r s) = Inv-step (Reach-Inv r) s

  -- All workers have returned, and each index below the budget has been collected once.
  abbrev IsComplete : Level → Type 0
  IsComplete a = (a.returned ≡ concurrency) × Perm a.collected (upto budget)

  complete :
      {n : ℕ} (a : Level) → 0 < concurrency → Inv n a → a.busy ≡ [] → a.idle ≡ 0 → IsComplete a
  complete a some_worker h quiet none_idle = (
    ground (arith, h.workers),
    subst (λ k. Perm a.collected (upto k)) (all_made h.drained)
        (subst (λ l. Perm l (upto a.next)) (append-nil a.collected)
          (subst (λ b. Perm (a.collected ++ b) (upto a.next)) quiet h.made)),
  )
    where
      all_made : (a.returned ≡ 0) ⊎ (budget ≤ a.next) → a.next ≡ budget
      all_made (inl none_back) = ground (arith, h.workers)
      all_made (inr over) = omega (arith, h.within)

  -- With a worker at least, whatever the order in which the workers run and their requests end: a
  -- level is over within two steps for each request and one for each worker; no more requests than
  -- workers are in flight; and until all workers have returned, with each index below the budget
  -- requested and collected once, there is a step to take.
  pub run_level_once :
      (n : ℕ) (a : Level)
      → 0 < concurrency
      → Reach concurrency budget n a
      → (n ≤ 2 * budget + concurrency)
        × (length a.busy ≤ concurrency)
        × (((b : Level) × Step concurrency budget a b) ⊎ IsComplete a)
  run_level_once n a some_worker r =
      let h = Reach-Inv r in
      (omega (arith, h.steps), omega (arith, h.workers), go h a.busy refl a.idle refl)
    where
      go :
          Inv n a
          → (busy : List ℕ) → a.busy ≡ busy
          → (idle : ℕ) → a.idle ≡ idle
          → ((b : Level) × Step concurrency budget a b) ⊎ IsComplete a
      go h (i ∷ busy) e idle f = inl (_, collects i [] busy e)
      go h [] e zero f = inr (complete a some_worker h e f)
      go h [] e (suc m) f = elim (Bool-cases (ltb a.next budget)) [
        | inl more ↦ inl (_, takes m f more)
        | inr over ↦ inl (_, returns m f over)
      ]
