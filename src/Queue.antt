-- ===== src/Queue.antt =====
-- common/queue.py: `JobQueue` on a Redis Stream consumer group.
pub mod Backend
pub mod Spec
pub mod Refinement
pub mod AtLeastOnce
use ocr_serving.Base.{ℕ, ◌-◌, ◌*◌, none, some, List, [], ◌∷◌, take, if◌then◌else◌}
use ocr_serving.Base.Text.{Text, codes, contains}
use ocr_serving.Base.Dict.{Dict, lookup}
use ocr_serving.Config.{Settings}
use ocr_serving.Effects.{Error, Env, Entry, Exec, pure, raise, catch, perform, ◌>>=◌, ◌>>◌}
use ocr_serving.Effects

pub record QueuedJob : Type 0 where
  pub entry_id : Text
  pub job_id : Text
  pub deliveries : ℕ
  pub fields : Dict Text

-- The list comprehension of `reserve`: entries with no `job_id` are left out.
unfoldable pub queued_jobs : List Entry → List QueuedJob
queued_jobs [] = []
queued_jobs (e ∷ es) =
    let rest = queued_jobs es in
    elim (lookup (codes "job_id") e.fields) [
      | none ↦ rest
      | some job_id ↦
          record { entry_id = e.id; job_id = job_id; deliveries = 1; fields = e.fields } ∷ rest
    ]

pub record Stats : Type 0 where
  pub depth : ℕ
  pub pending : ℕ
  pub dead : ℕ

module _ {S : Type 0} (env : Env S) (s : Settings) where
  unfoldable pub enqueue : Text → Dict Text → Exec S Text
  enqueue job_id fields =
      perform env.text_call (Effects.xadd s.queue_stream ((codes "job_id", job_id) ∷ fields) none)

  -- The `except ResponseError` of `ensure_group`: a group that exists already is no error.
  unfoldable pub group_error : Error → Exec S (Unit {0})
  group_error (Error.response name text) =
      if contains (codes "BUSYGROUP") text then pure tt else raise (Error.response name text)
  group_error e = raise e

  unfoldable pub ensure_group : Exec S (Unit {0})
  unfolding group_error
  ensure_group =
      catch (perform env.unit_call (Effects.xgroup_create s.queue_stream s.queue_group)) group_error

  unfoldable pub reserve : ℕ → Exec S (List QueuedJob)
  reserve count = do
    entries ← perform env.entries_call (Effects.xreadgroup s.queue_stream s.queue_group count)
    pure (queued_jobs entries)

  unfoldable pub ack : Text → Exec S (Unit {0})
  ack entry_id = do
    perform env.unit_call (Effects.xack s.queue_stream s.queue_group entry_id)
    perform env.unit_call (Effects.xdel s.queue_stream entry_id)

  -- The loop of `reclaim`: an entry that a trimmed stream left without its fields is acknowledged.
  unfoldable pub reclaim_entries : List Entry → Exec S (List QueuedJob)
  unfolding ack
  reclaim_entries [] = pure []
  reclaim_entries (e ∷ es) = elim (lookup (codes "job_id") e.fields) [
    | none ↦ ack e.id >> reclaim_entries es
    | some job_id ↦ do
      rest ← reclaim_entries es
      pure (record { entry_id = e.id; job_id = job_id; deliveries = 2; fields = e.fields } ∷ rest)
  ]

  -- The `except ResponseError` around XAUTOCLAIM: no jobs.
  abbrev pub no_entries : Error → Exec S (List Entry)
  no_entries (Error.response name text) = pure []
  no_entries e = raise e

  unfoldable pub reclaim : ℕ → Exec S (List QueuedJob)
  unfolding reclaim_entries
  reclaim count = do
    entries ←
        catch
          (perform env.entries_call
            (Effects.xautoclaim s.queue_stream s.queue_group (s.visibility_timeout_s * 1000) count))
          no_entries
    reclaim_entries entries

  unfoldable pub dead_letter : QueuedJob → Text → Exec S (Unit {0})
  unfolding ack
  dead_letter job reason = do
    perform env.text_call (
        Effects.xadd s.dead_letter_stream
          ((codes "job_id", job.job_id)
            ∷ (codes "reason", take 500 reason)
            ∷ (codes "entry_id", job.entry_id)
            ∷ [])
          (some 1000))
    ack job.entry_id

  abbrev zero_dead : Error → Exec S ℕ
  zero_dead (Error.response name text) = pure 0
  zero_dead e = raise e

  -- The `try` of `stats`: XINFO gives what is pending for the group, the rest of the stream waits.
  abbrev depth_and_pending : Exec S (ℕ × ℕ)
  depth_and_pending = do
    len ← perform env.nat_call (Effects.xlen s.queue_stream)
    pending ← perform env.nat_call (Effects.xinfo_pending s.queue_stream s.queue_group)
    pure (len - pending, pending)

  abbrev depth_only : Error → Exec S (ℕ × ℕ)
  depth_only (Error.response name text) = do
    len ← perform env.nat_call (Effects.xlen s.queue_stream)
    pure (len, 0)
  depth_only e = raise e

  unfoldable pub stats : Exec S Stats
  stats = do
    found ← catch depth_and_pending depth_only
    dead ← catch (perform env.nat_call (Effects.xlen s.dead_letter_stream)) zero_dead
    pure (record { depth = found.0; pending = found.1; dead = dead })
