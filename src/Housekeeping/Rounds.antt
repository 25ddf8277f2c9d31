-- ===== src/Housekeeping/Rounds.antt =====
-- A heartbeat names every job in flight and outlives its errors; the counters add up.
use ocr_serving.Base.{ℕ, ◌+◌, List, [], ◌∷◌, if◌then◌else◌, ◌≡◌, refl, ap}
use ocr_serving.Base.Text.{Text}
use ocr_serving.Base.Dict.{Dict}
use ocr_serving.Config.{Settings}
use ocr_serving.Effects.{Result, ok, err, Env, World, Exec, perform, pure, handled, Call}
use ocr_serving.Effects
use ocr_serving.Retention.{SweepResult, total_removed}
use ocr_serving.Housekeeping.{keys, claim, heartbeat, Round}

module _ {S : Type 0} (env : Env S) (s : Settings) (consumer : Text) where
  -- What a heartbeat sends.
  abbrev beat : List Text → List Call → List Call
  beat [] log = log
  beat (id ∷ ids) log = Effects.xclaim s.queue_stream s.queue_group consumer (id ∷ ids) ∷ log

  caught : (r : Result (Unit {0})) (w : World S) → handled r (λ e. pure (tt {0})) w ≡ (ok tt, w)
  caught (ok a) w = refl
  caught (err e) w = refl

  handled_beat :
      (ids : List Text) (w : World S)
      → ((claim env s consumer ids w).0 ≡ ok tt)
        × ((claim env s consumer ids w).1.log ≡ beat ids w.log)
        × ((claim env s consumer ids w).1.inflight ≡ w.inflight)
  unfolding perform
  handled_beat [] w = (refl, refl, refl)
  handled_beat (id ∷ ids) w =
      let sent : Call = Effects.xclaim s.queue_stream s.queue_group consumer (id ∷ ids) in
      let answer : Result (Unit {0}) × S = env.unit_call sent w.state in
      let done = caught answer.0 (record w { state = answer.1; log = sent ∷ w.log }) in
      (ap (λ o. o.0) done, ap (λ o. o.1.log) done, ap (λ o. o.1.inflight) done)

  -- A heartbeat never raises, sends one XCLAIM that names every job in flight, or nothing where
  -- none is, and leaves the jobs in flight as they are.
  pub heartbeat_names :
      (w : World S)
      → ((heartbeat env s consumer w).0 ≡ ok tt)
        × ((heartbeat env s consumer w).1.log ≡ beat (keys w.inflight) w.log)
        × ((heartbeat env s consumer w).1.inflight ≡ w.inflight)
  unfolding heartbeat
  heartbeat_names w = handled_beat (keys w.inflight) w

-- The files that a round removed.
abbrev pub found_by : Result SweepResult → ℕ
found_by (err e) = 0
found_by (ok r) = total_removed r

-- The files that the rounds before the stop removed.
unfoldable pub removed_by : List Round → ℕ
removed_by [] = 0
removed_by (r ∷ rounds) =
    let rest = removed_by rounds in if r.stopping then 0 else found_by r.sweep + rest
