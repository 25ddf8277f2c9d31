-- ===== src/Pages/Once.antt =====
-- How many results a page has in `pages`.
use ocr_serving.Base.{
  ℕ, suc, ◌+◌, ◌<◌, ◌≤◌, ◌≡◌, refl, ap, subst, ◌==◌, ==_iff, if◌then◌else◌, Bool-cases, inl, inr,
  some, List, [], ◌∷◌, ◌++◌, arith,
}
use ocr_serving.Base.Families.{put, put-pred, weigh-ge}
use ocr_serving.Config.{Settings}
use ocr_serving.Schemas.{PageResult}
use ocr_serving.Postprocess.Normalize.{Unicode}
use ocr_serving.Pages.{native_result, blank_result, duplicate_result, ocr_result}
use ocr_serving.Pages.Pool.{
  Stage, unborn, queued, preparing, announcing, finished, failed, alive, Board, Job, Move,
  prepare_fails, has_text, is_blank, is_copy, is_new, starts, start_fails, flush_fails, reads,
  read_fails, copies, announces, announce_fails, Pool, start, Step, spawn, enter, move, gather,
  Reach, here, next, IsOver,
}
use ocr_serving.Pages.Bounds.{Counts, Reach-Counts}
use ocr_serving.Pages.Results.{register-pages}

-- How many results in a list are of the page `i`.
unfoldable pub times : ℕ → List PageResult → ℕ
times i [] = 0
times i (p ∷ ps) = (if p.index == i then 1 else 0) + times i ps

module _ (i : ℕ) (p : PageResult) where
  times-add : (ps : List PageResult) → p.index ≡ i → times i (ps ++ p ∷ []) ≡ times i ps + 1
  unfolding times
  times-add [] e = ground arith
  times-add (q ∷ ps) e = omega (arith, times-add ps e)

  times-add_other : (ps : List PageResult) → (p.index ≡ i → ⊥) → times i (ps ++ p ∷ []) ≡ times i ps
  unfolding times
  times-add_other [] h = ground arith
  times-add_other (q ∷ ps) h = omega (arith, times-add_other ps h)

-- At most, and at least, how many results a page has whose task stands there.
abbrev at_most : Stage → ℕ
at_most announcing = 1
at_most finished = 1
at_most failed = 1
at_most _ = 0

abbrev at_least : Stage → ℕ
at_least announcing = 1
at_least finished = 1
at_least _ = 0

abbrev born : Stage → ℕ
born unborn = 0
born _ = 1

at_most_one : (st : Stage) → at_most st ≤ 1
at_most_one announcing = omega arith
at_most_one finished = omega arith
at_most_one failed = omega arith
at_most_one _ = omega arith

ended : (st : Stage) → born st ≡ 1 → alive st ≡ 0 → (st ≡ failed → ⊥) → 1 ≤ at_least st
ended unborn b e h = absurd (omega (arith, b))
ended finished b e h = omega arith
ended failed b e h = absurd (h refl)
ended _ b e h = absurd (omega (arith, e))

-- The task of the page `i` adds its result.
one :
    (i : ℕ) (b : Board) (p : PageResult)
    → p.index ≡ i
    → times i b.pages ≤ 0
    → (times i (b.pages ++ p ∷ []) ≤ 1) × (1 ≤ times i (b.pages ++ p ∷ [])) × (born announcing ≡ 1)
one i b p e none_yet =
    (omega (arith, times-add i p b.pages e, none_yet), omega (arith, times-add i p b.pages e), refl)

module _ (s : Settings) (u : Unicode) (job : Job) where
  Move-times :
      {i : ℕ} {b c : Board} {x y : Stage}
      → Move s u job i b x c y
      → (times i b.pages ≤ at_most x)
      → at_least x ≤ times i b.pages
      → (times i c.pages ≤ at_most y) × (at_least y ≤ times i c.pages) × (born y ≡ 1)
  unfolding native_result blank_result ocr_result duplicate_result
  Move-times prepare_fails hi lo = (omega (arith, hi), omega arith, refl)
  Move-times {i} {b} (has_text ms e) hi lo = one i b _ refl hi
  Move-times {i} {b} (is_blank ms e q) hi lo = one i b _ refl hi
  Move-times (is_copy e q o) hi lo = (hi, omega arith, refl)
  Move-times {i} {b} (is_new {p} e q o) hi lo =
      (rw (register-pages s.deduplicate_pages p.digest i b) hi, omega arith, refl)
  Move-times starts hi lo = (hi, omega arith, refl)
  Move-times start_fails hi lo = (omega (arith, hi), omega arith, refl)
  Move-times flush_fails hi lo = (omega (arith, hi), omega arith, refl)
  Move-times {i} {b} (reads r ms e) hi lo = one i b _ refl hi
  Move-times (read_fails r) hi lo = (omega (arith, hi), omega arith, refl)
  Move-times {i} {b} (copies ms e q) hi lo = one i b _ refl hi
  Move-times announces hi lo = (hi, lo, refl)
  Move-times announce_fails hi lo = (hi, omega arith, refl)

  Move-others :
      {i : ℕ} {b c : Board} {x y : Stage}
      → Move s u job i b x c y
      → (j : ℕ) → (i ≡ j → ⊥)
      → times j c.pages ≡ times j b.pages
  unfolding native_result blank_result ocr_result duplicate_result
  Move-others {b} (has_text ms e) j other = times-add_other j _ b.pages other
  Move-others {b} (is_blank ms e q) j other = times-add_other j _ b.pages other
  Move-others {i} {b} (is_new {p} e q o) j other =
      ap (times j) (register-pages s.deduplicate_pages p.digest i b)
  Move-others {b} (reads r ms e) j other = times-add_other j _ b.pages other
  Move-others {b} (copies ms e q) j other = times-add_other j _ b.pages other
  Move-others _ j other = refl

  -- What is known of the number of results of a page.
  pub record Tallied (a : Pool s u job) : Type 0 where
    pub few : (i : ℕ) → times i a.board.pages ≤ at_most (a.stage i)
    pub enough : (i : ℕ) → at_least (a.stage i) ≤ times i a.board.pages
    pub there : (i : ℕ) → i < a.spawned → born (a.stage i) ≡ 1
    pub all_there : (at : ℕ → Stage) → a.gathered ≡ some at → a.spawned ≡ job.count

  module _ {a : Pool s u job} (v : Tallied a) where
    Move-Tallied :
        (i : ℕ) (c : Board) (y : Stage)
        → Move s u job i a.board (a.stage i) c y
        → Tallied (record a { board = c; stage = put a.stage i y })
    Move-Tallied i c y m =
        let (hi, lo, alive_now) = Move-times m (v.few i) (v.enough i) in
        record {
          few = λ j. elim (Bool-cases (i == j)) [
            | inl same ↦ rw same (subst (λ k. times k c.pages ≤ at_most y) ((==_iff i j).0 same) hi)
            | inr other ↦ rw (other, Move-others m j (λ e. ground arith)) (v.few j)
          ];
          enough = λ j. elim (Bool-cases (i == j)) [
            | inl same ↦
                rw same (subst (λ k. at_least y ≤ times k c.pages) ((==_iff i j).0 same) lo)
            | inr other ↦ rw (other, Move-others m j (λ e. ground arith)) (v.enough j)
          ];
          there = λ j lt. put-pred (λ k st. born st ≡ 1) a.stage i y alive_now j (v.there j lt);
          all_there = v.all_there;
        }

    early-Tallied :
        (i n : ℕ) (x y : Stage)
        → a.stage i ≡ x
        → at_most x ≡ 0
        → at_least y ≡ 0
        → born y ≡ 1
        → ((j : ℕ) → j < n → (i ≡ j → ⊥) → j < a.spawned)
        → ((at : ℕ → Stage) → a.gathered ≡ some at → n ≡ job.count)
        → Tallied (record a { stage = put a.stage i y; spawned = n })
    early-Tallied i n x y at none_yet none_due is_born others all_there = record {
      few = λ j.
          put-pred (λ k st. times k a.board.pages ≤ at_most st) a.stage i y
            (omega (arith, v.few i, ap at_most at, none_yet)) j (v.few j);
      enough = λ j.
          put-pred (λ k st. at_least st ≤ times k a.board.pages) a.stage i y
            (omega (arith, none_due)) j (v.enough j);
      there = λ j lt. elim (Bool-cases (i == j)) [
        | inl same ↦ rw same is_born
        | inr other ↦ rw other (v.there j (others j lt (λ e. ground arith)))
      ];
      all_there = all_there;
    }

  Step-Tallied : {a b : Pool s u job} → Counts s u job a → Step s u job a b → Tallied a → Tallied b
  Step-Tallied {a} n (spawn lt few) v =
      early-Tallied v a.spawned (suc a.spawned) unborn queued
        (n.unborn_from a.spawned (omega arith)) refl refl refl
        (λ j le other. omega (arith, le, other)) (λ at e. omega (arith, lt, v.all_there at e))
  Step-Tallied {a} n (enter i lt e free) v =
      early-Tallied v i a.spawned queued preparing e refl refl refl (λ j le other. le) v.all_there
  Step-Tallied n (move i {b} {st} lt m) v = Move-Tallied v i b st m
  Step-Tallied n (gather all few first) v = record {
    few = v.few;
    enough = v.enough;
    there = v.there;
    all_there = λ at e. all;
  }

  Reach-Tallied : {a : Pool s u job} → Reach s u job a → Tallied a
  unfolding start times
  Reach-Tallied here = record {
    few = λ i. omega arith;
    enough = λ i. omega arith;
    there = λ i lt. absurd (omega arith);
    all_there = λ at e. cc;
  }
  Reach-Tallied (next r st) = Step-Tallied (Reach-Counts s u job r) st (Reach-Tallied r)

  -- In every state that the pages can reach, no page has two results.
  pub times_once : (a : Pool s u job) → Reach s u job a → (i : ℕ) → times i a.board.pages ≤ 1
  times_once a r i = omega (arith, (Reach-Tallied r).few i, at_most_one (a.stage i))

  -- When all tasks are over, a page whose task did not fail has exactly one result.
  pub times_exact :
      (a : Pool s u job) (i : ℕ)
      → Reach s u job a
      → IsOver s u job a
      → i < job.count
      → (a.stage i ≡ failed → ⊥)
      → times i a.board.pages ≡ 1
  times_exact a i r over lt ok =
      let v = Reach-Tallied r in
      let all = v.all_there over.called.0 over.called.1 in
      omega (
        arith,
        times_once a r i,
        v.enough i,
        ended (a.stage i) (v.there i (omega (arith, all)))
            (omega (arith, weigh-ge alive job.count a.stage i lt, over.none_alive)) ok,
      )
