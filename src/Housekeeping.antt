-- ===== src/Housekeeping.antt =====
-- workers/cpu_worker.py: the rounds of `_heartbeat_loop`, `_metrics_loop` and `_retention_loop`. A
-- heartbeat is one round, between two sleeps; the sweep of a round and the test of `_stopping` are given with it.
pub mod Rounds
use ocr_serving.Base.{
  ℕ, ◌+◌, ◌*◌, ◌/◌, max, Bool, true, false, Option, none, some, List, [], ◌∷◌, if◌then◌else◌, ◌==◌,
}
use ocr_serving.Base.Text.{Text, codes}
use ocr_serving.Base.Dict.{Dict, lookup, insert}
use ocr_serving.Config.{Settings}
use ocr_serving.Effects.{Error, Result, ok, err, Env, World, Exec, pure, catch, perform}
use ocr_serving.Effects
use ocr_serving.Queue.{Stats, stats}
use ocr_serving.Retention.{SweepResult}

-- `list(self._inflight)`
unfoldable pub keys : Dict Text → List Text
keys [] = []
keys ((k, v) ∷ d) = k ∷ keys d

-- `max(visibility_timeout_s / 3, 5)`, in thirds of a second.
abbrev pub heartbeat_thirds : Settings → ℕ
heartbeat_thirds s = max s.visibility_timeout_s 15

module _ {S : Type 0} (env : Env S) (s : Settings) (consumer : Text) where
  abbrev pub claim : List Text → Exec S (Unit {0})
  claim [] = pure tt
  claim (id ∷ ids) =
      catch
        (perform env.unit_call (Effects.xclaim s.queue_stream s.queue_group consumer (id ∷ ids)))
        (λ e. pure tt)

  -- One round of `_heartbeat_loop`, past the sleep.
  unfoldable pub heartbeat : Exec S (Unit {0})
  unfolding keys
  heartbeat w = claim (keys w.inflight) w

module _ {S : Type 0} (env : Env S) (s : Settings) where
  -- One round of `_metrics_loop`: the gauges as it leaves them.
  unfoldable pub measured : Stats → Exec S Stats
  measured gauges = catch (stats env s) (λ e. pure gauges)

-- The counters by kind and the gauge of the bytes.
pub record Gauges : Type 0 where
  pub removed : Dict ℕ
  pub storage_bytes : ℕ

abbrev pub value : Option ℕ → ℕ
value none = 0
value (some n) = n

-- `RETENTION_REMOVED.labels(kind=kind).inc(count)`
abbrev pub inc : Text → ℕ → Dict ℕ → Dict ℕ
inc kind count counters = insert kind (value (lookup kind counters) + count) counters

-- The loop over `result.removed.items()`.
unfoldable pub count_removed : Dict ℕ → Dict ℕ → Dict ℕ
count_removed [] counters = counters
count_removed ((kind, count) ∷ removed) counters =
    count_removed removed (if count == 0 then counters else inc kind count counters)

-- What a round of `_retention_loop` finds after its sleep.
pub record Round : Type 0 where
  pub stopping : Bool
  pub sweep : Result SweepResult

abbrev pub swept : Result SweepResult → Gauges → Gauges
swept (err e) g = g
swept (ok r) g = record {
  removed = count_removed r.removed g.removed;
  storage_bytes = r.remaining_bytes;
}

unfoldable pub retention_rounds : List Round → Gauges → Gauges
unfolding count_removed
retention_rounds [] g = g
retention_rounds (r ∷ rounds) g =
    let rest = retention_rounds rounds (swept r.sweep g) in if r.stopping then g else rest

-- Hours are in thousandths.
abbrev pub sweep_interval : Settings → ℕ
sweep_interval s = s.retention_sweep_hours * 3600 / 1000

unfoldable pub retention_loop : Settings → List Round → Gauges → Gauges
unfolding retention_rounds
retention_loop s rounds g = if sweep_interval s == 0 then g else retention_rounds rounds g
