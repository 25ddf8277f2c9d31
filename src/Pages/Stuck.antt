-- ===== src/Pages/Stuck.antt =====
-- Where the pages can stop: at the end, or at a page that waits for a future that nobody will set.
use ocr_serving.Base.{
  ℕ, ◌<◌, ◌≡◌, refl, ap, sym, subst, ◌∙◌, ◌==◌, ltb, ltb→lt, Bool-cases, Option-cases, inl, inr,
  none, arith,
}
use ocr_serving.Base.Families.{weigh-index}
use ocr_serving.Config.{Settings}
use ocr_serving.Postprocess.Normalize.{Unicode}
use ocr_serving.Pages.{no_reading}
use ocr_serving.Pages.Pool.{
  Stage, unborn, queued, preparing, opened, reading, copying, announcing, finished, failed, inside,
  alive, Board, Job, Move, prepare_fails, starts, read_fails, copies, announces, Pool, Step, spawn,
  enter, move, gather, Reach, tasks, holders, IsOver,
}
use ocr_serving.Pages.Bounds.{Counts, Reach-Counts, alive_spawned}
use ocr_serving.Pages.Made.{IsMade, will_start, will_read, has_shared, has_failed}
use ocr_serving.Pages.Waiting.{Waits, Reach-Waits}

module _ (s : Settings) (u : Unicode) (job : Job) where
  -- The page `i` waits for the text of the page `j`, which failed without sharing one.
  pub record Orphan (a : Pool s u job) : Type 0 where
    pub page : ℕ
    pub original : ℕ
    pub waits : a.stage page ≡ copying original
    pub gone : a.stage original ≡ failed
    pub unshared : a.board.shared original ≡ none

  pub data Outlook (a : Pool s u job) : Type 0 where
    over : IsOver s u job a → Outlook a
    goes : (b : Pool s u job) → Step s u job a b → Outlook a
    stuck : Orphan a → Outlook a

  module _ (some_room : 0 < s.page_concurrency) (a : Pool s u job) (c : Counts s u job a)
      (v : Waits s u job a) where
    -- A task at `st` makes the move `m`.
    goes_on :
        (i : ℕ) {st : Stage} {b : Board} {y : Stage}
        → a.stage i ≡ st
        → alive st ≡ 1
        → Move s u job i a.board st b y
        → Outlook a
    goes_on i {b} {y} e lives m = goes _ (
        move i (omega (arith, c.within, alive_spawned s u job c i (ap alive e ∙ lives)))
          (subst (λ x. Move s u job i a.board x b y) (sym e) m))

    waiting_goes : (i j : ℕ) → a.stage i ≡ copying j → IsMade a.board a.stage j → Outlook a
    waiting_goes i j e (will_start q) = goes_on j q refl starts
    waiting_goes i j e (will_read q) = goes_on j q refl (read_fails (no_reading 0))
    waiting_goes i j e (has_shared t q) =
        let (dpi, p, image_of) = v.imaged i j e in goes_on i e refl (copies 0 image_of q)
    waiting_goes i j e (has_failed q) = elim (Option-cases (a.board.shared j)) [
      | inl open_still ↦
          stuck (record { page = i; original = j; waits = e; gone = q; unshared = open_still })
      | inr (t, set) ↦
          let (dpi, p, image_of) = v.imaged i j e in goes_on i e refl (copies 0 image_of set)
    ]

    inside_goes : (i : ℕ) (st : Stage) → a.stage i ≡ st → 0 < inside st → Outlook a
    inside_goes i preparing e h = goes_on i e refl prepare_fails
    inside_goes i opened e h = goes_on i e refl starts
    inside_goes i reading e h = goes_on i e refl (read_fails (no_reading 0))
    inside_goes i (copying j) e h = waiting_goes i j e (v.awaited i j e)
    inside_goes i unborn e h = absurd (omega arith)
    inside_goes i queued e h = absurd (omega arith)
    inside_goes i announcing e h = absurd (omega arith)
    inside_goes i finished e h = absurd (omega arith)
    inside_goes i failed e h = absurd (omega arith)

    queued_goes : (i : ℕ) → i < job.count → a.stage i ≡ queued → Outlook a
    queued_goes i lt e = elim (Bool-cases (ltb (holders s u job a) s.page_concurrency)) [
      | inl free ↦ goes _ (enter i lt e (ltb→lt (holders s u job a) s.page_concurrency free))
      | inr full ↦
          let (k, lt', h) = weigh-index inside job.count a.stage (ground arith) in
          inside_goes k (a.stage k) refl h
    ]

    alive_goes : (i : ℕ) → i < job.count → (st : Stage) → a.stage i ≡ st → 0 < alive st → Outlook a
    alive_goes i lt queued e h = queued_goes i lt e
    alive_goes i lt announcing e h = goes_on i e refl announces
    alive_goes i lt preparing e h = inside_goes i preparing e (omega arith)
    alive_goes i lt opened e h = inside_goes i opened e (omega arith)
    alive_goes i lt reading e h = inside_goes i reading e (omega arith)
    alive_goes i lt (copying j) e h = inside_goes i (copying j) e (omega arith)
    alive_goes i lt unborn e h = absurd (omega arith)
    alive_goes i lt finished e h = absurd (omega arith)
    alive_goes i lt failed e h = absurd (omega arith)

    idle_goes : tasks s u job a ≡ 0 → Outlook a
    idle_goes idle = elim (Bool-cases (ltb a.spawned job.count)) [
      | inl more ↦ goes _ (spawn (ltb→lt a.spawned job.count more) (omega (arith, idle)))
      | inr all ↦ elim (Option-cases a.gathered) [
        | inl first ↦ goes _ (gather (ground (arith, c.within)) (omega (arith, idle)) first)
        | inr called ↦ over (record { called = called; none_alive = idle })
      ]
    ]

  -- In every state that the pages can reach, and where `page_concurrency` is not 0, all tasks have
  -- ended and are gathered, or some task can go on, or a page waits for one that failed with its
  -- future unset.
  pub Reach-Outlook : (a : Pool s u job) → 0 < s.page_concurrency → Reach s u job a → Outlook a
  Reach-Outlook a room r = elim (Bool-cases (tasks s u job a == 0)) [
    | inl idle ↦ idle_goes room a (Reach-Counts s u job r) (Reach-Waits s u job r) (ground arith)
    | inr busy ↦
        let (i, lt, h) = weigh-index alive job.count a.stage (ground arith) in
        alive_goes room a (Reach-Counts s u job r) (Reach-Waits s u job r) i lt (a.stage i) refl h
  ]
