-- ===== src/Tests/PagesTests.antt =====
-- Two pages with the same image: the second is a copy of the first. In one run both end; in the other
-- the start of the first is not published.
use mathlib.Core.List.Permᴰ.{swap}
use ocr_serving.Base.{ℕ, suc, ◌≤◌, ◌≡◌, refl, true, false, some, [], ◌∷◌, arith}
use ocr_serving.Base.Text.{codes, text_eq}
use ocr_serving.Base.Dict.{lookup, insert}
use ocr_serving.Base.Families.{put, weigh}
use ocr_serving.Config.{default_settings}
use ocr_serving.Engine.{StreamStats, new_stats}
use ocr_serving.Postprocess.Normalize.{Unicode}
use ocr_serving.Pages.{
  Prepared, Reading, no_reading, run_regions, duplicate_result, ocr_result, shared_text,
}
use ocr_serving.Pages.Pool.{
  image, Stage, queued, preparing, opened, reading, copying, announcing, finished, failed, Board,
  add_page, resolve, register, Job, is_copy, is_new, starts, start_fails, reads, copies, announces,
  Pool, start, spawn, enter, move, gather, Reach, here, next, tasks, holders, IsOver,
}
use ocr_serving.Pages.Bounds.{Reach-bounds}
use ocr_serving.Pages.Stuck.{Orphan, Outlook, Reach-Outlook}
use ocr_serving.Pages.Orphans.{now, Orphan-forever}
use ocr_serving.Pages.Results.{IsResult}
use ocr_serving.Pages.Copies.{Reach-IsResult}
use ocr_serving.Pages.Once.{times, times_exact}
use ocr_serving.Pages.Regions.{run_regions-order}

abbrev unicode : Unicode
unicode = record { nfkc = λ t. t; is_word = λ c. true; is_alpha = λ c. true }

abbrev picture : Prepared
picture = record {
  width = 8;
  height = 8;
  skew = 0;
  is_blank = false;
  digest = codes "d";
  regions = [];
}

abbrev job : Job
job = record { count = 2; source = λ i. image 200 picture }

abbrev State : Type 0
State = Pool default_settings unicode job

abbrev spawned : State → State
spawned a = record a { stage = put a.stage a.spawned queued; spawned = suc a.spawned }

abbrev at_stage : State → ℕ → Stage → State
at_stage a i st = record a { stage = put a.stage i st }

abbrev moved : State → ℕ → Board → Stage → State
moved a i b st = record a { board = b; stage = put a.stage i st }

abbrev called : State → State
called a = record a { gathered = some a.stage }

abbrev first_spawned : State
first_spawned = spawned (start default_settings unicode job)

abbrev first_entered : State
first_entered = at_stage first_spawned 0 preparing

abbrev first_opened : State
first_opened = moved first_entered 0 (register true (codes "d") 0 first_entered.board) opened

abbrev both_spawned : State
both_spawned = spawned first_opened

abbrev both_entered : State
both_entered = at_stage both_spawned 1 preparing

abbrev second_waits : State
second_waits = moved both_entered 1 both_entered.board (copying 0)

abbrev all_called : State
all_called = called second_waits

run_called : Reach default_settings unicode job all_called
unfolding start weigh lookup insert text_eq
run_called =
    let r1 : Reach default_settings unicode job first_spawned =
      next here (spawn (omega arith) (omega arith)) in
    let r2 : Reach default_settings unicode job first_entered =
      next r1 (enter 0 (omega arith) refl (omega arith)) in
    let r3 : Reach default_settings unicode job first_opened =
      next r2 (move 0 (omega arith) (is_new refl refl refl)) in
    let r4 : Reach default_settings unicode job both_spawned =
      next r3 (spawn (omega arith) (omega arith)) in
    let r5 : Reach default_settings unicode job both_entered =
      next r4 (enter 1 (omega arith) refl (omega arith)) in
    let r6 : Reach default_settings unicode job second_waits =
      next r5 (move 1 (omega arith) (is_copy refl refl refl)) in
    next r6 (gather refl (omega arith) refl)

-- The publish of the first page's start raises.
abbrev orphaned : State
orphaned = moved all_called 0 all_called.board failed

run_orphaned : Reach default_settings unicode job orphaned
unfolding start
run_orphaned = next run_called (move 0 (omega arith) start_fails)

orphan : Orphan default_settings unicode job orphaned
unfolding start
orphan = record { page = 1; original = 0; waits = refl; gone = refl; unshared = refl }

-- The engine reads the first page; the second takes its text.
abbrev nothing_read : Reading
nothing_read = no_reading 0

abbrev first_reads : State
first_reads = moved all_called 0 all_called.board reading

abbrev first_read : State
first_read =
    moved first_reads 0
      (add_page (ocr_result unicode 0 200 picture nothing_read 5)
        (resolve 0 (shared_text unicode nothing_read) first_reads.board))
      announcing

abbrev second_copied : State
second_copied =
    moved first_read 1
      (add_page (duplicate_result unicode 1 200 picture 0 (shared_text unicode nothing_read) 6)
        first_read.board)
      announcing

abbrev first_ended : State
first_ended = moved second_copied 0 second_copied.board finished

abbrev both_ended : State
both_ended = moved first_ended 1 first_ended.board finished

run_copied : Reach default_settings unicode job second_copied
unfolding start
run_copied =
    let r1 : Reach default_settings unicode job first_reads =
      next run_called (move 0 (omega arith) starts) in
    let r2 : Reach default_settings unicode job first_read =
      next r1 (move 0 (omega arith) (reads nothing_read 5 refl)) in
    next r2 (move 1 (omega arith) (copies 6 refl refl))

run_ended : Reach default_settings unicode job both_ended
unfolding start
run_ended =
    let r1 : Reach default_settings unicode job first_ended =
      next run_copied (move 0 (omega arith) announces) in
    next r1 (move 1 (omega arith) announces)

Reach-bounds_example :
    (holders default_settings unicode job all_called ≤ 2)
    × (tasks default_settings unicode job all_called ≤ 4)
Reach-bounds_example = Reach-bounds default_settings unicode job all_called run_called

Reach-Outlook_example : Outlook default_settings unicode job orphaned
Reach-Outlook_example =
    Reach-Outlook default_settings unicode job orphaned (omega arith) run_orphaned

Orphan-forever_example : ¬ IsOver default_settings unicode job orphaned
Orphan-forever_example =
    Orphan-forever default_settings unicode job orphaned orphaned all_called.stage run_orphaned refl
      orphan now

Reach-IsResult_example :
    IsResult unicode job both_ended.board
      (duplicate_result unicode 1 200 picture 0 (shared_text unicode nothing_read) 6)
unfolding start
Reach-IsResult_example = Reach-IsResult default_settings unicode job both_ended 1 _ run_ended refl

is_over : IsOver default_settings unicode job both_ended
unfolding start weigh
is_over = record { called = (all_called.stage, refl); none_alive = refl }

times_exact_example : times 1 both_ended.board.pages ≡ 1
unfolding start
times_exact_example =
    times_exact default_settings unicode job both_ended 1 run_ended is_over (omega arith) (λ e. cc)

abbrev upper : StreamStats
upper = record new_stats { text = codes "Upper half"; completion_tokens = 2 }

abbrev lower : StreamStats
lower = record new_stats { text = codes "Lower half"; completion_tokens = 3 }

run_regions-order_example :
    (shared_text unicode (run_regions ((0, upper) ∷ (1, lower) ∷ []) (no_reading 2))
      ≡ shared_text unicode (run_regions ((1, lower) ∷ (0, upper) ∷ []) (no_reading 2)))
    × ((run_regions ((0, upper) ∷ (1, lower) ∷ []) (no_reading 2)).tokens
        ≡ (run_regions ((1, lower) ∷ (0, upper) ∷ []) (no_reading 2)).tokens)
run_regions-order_example =
    run_regions-order unicode ((0, upper) ∷ (1, lower) ∷ []) ((1, lower) ∷ (0, upper) ∷ [])
      (no_reading 2) (swap refl refl) ((λ e. omega (arith, e), tt), (tt, tt))
