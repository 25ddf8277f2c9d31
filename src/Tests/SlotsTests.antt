-- ===== src/Tests/SlotsTests.antt =====
-- A worker with the default settings that takes a job and is told to stop.
use ocr_serving.Base.{◌+◌, ◌≤◌, ◌≡◌, refl}
use ocr_serving.Config.{default_settings}
use ocr_serving.Slots.{
  testing, acquiring, acquired, reserving, Slots, started, go_on, acquire, ask, reserve_one, Reach,
  here, next,
}
use ocr_serving.Slots.Bounds.{Reach-permits}

abbrev reserved : Slots
reserved = record (started default_settings) { loop = testing; free = 1; running = 1 }

run_reserved : Reach default_settings reserved
unfolding started
run_reserved =
    let first = started default_settings in
    let r1 : Reach default_settings (record first { loop = acquiring }) =
      next here (go_on refl refl) in
    let r2 : Reach default_settings (record first { loop = acquired; free = 1 }) =
      next r1 (acquire 1 refl refl) in
    let r3 : Reach default_settings (record first { loop = reserving; free = 1 }) =
      next r2 (ask refl refl) in
    next r3 (reserve_one refl)

Reach-permits_example : (1 + (1 + 0) ≡ 2) × (1 ≤ 2)
unfolding started
Reach-permits_example = Reach-permits default_settings reserved run_reserved
