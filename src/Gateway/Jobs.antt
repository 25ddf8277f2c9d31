-- ===== src/Gateway/Jobs.antt =====
-- gateway/main.py: the state, the result, the cancellation and the artifacts of a job, for its tenant.
use ocr_serving.Base.{Bool, true, false, Option, none, some, [], ◌∷◌, ◌++◌, ◌&&◌, if◌then◌else◌}
use ocr_serving.Base.Text.{Text, codes, text_eq, nonempty}
use ocr_serving.Base.Dict.{Dict, lookup}
use ocr_serving.Schemas.{completed, status_value, status_terminal, JobState, OcrResult}
use ocr_serving.Config.{Settings}
use ocr_serving.Effects.{
  Error, http, other, Result, Env, Exec, pure, raise, catch, perform, ◌>>=◌, ◌>>◌,
}
use ocr_serving.Effects
use ocr_serving.Events.{get_job, parse_state, request_cancel, get_default}

-- What `result` sends: the stored result, the text of the result file, or the state.
pub data Answer : Type 0 where
  from_database : OcrResult → Answer
  from_file : Text → Answer
  from_state : JobState → Answer

-- Where `result` found the job.
pub data Loaded : Type 0 where
  running : Dict Text → Loaded
  archived : OcrResult → Loaded

module _ {S : Type 0} (env : Env S) (s : Settings) where
  -- `_load_job` on what Redis holds: a job of another tenant is as unknown as none.
  unfoldable pub own_job : Text → Dict Text → Exec S (Dict Text)
  unfolding text_eq
  own_job tenant [] = raise (http 404 (codes "unknown job"))
  own_job tenant (f ∷ job) =
      if text_eq (get_default (codes "tenant") (f ∷ job) (codes "default")) tenant
      then pure (f ∷ job)
      else raise (http 404 (codes "unknown job"))

  unfoldable pub load_job : Text → Text → Exec S (Dict Text)
  unfolding get_job own_job
  load_job job_id tenant = do job ← get_job env s job_id; own_job tenant job

  -- `parse_state`, which raises a ValueError on what it cannot read.
  unfoldable pub read_state : Option JobState → Exec S JobState
  read_state none = raise (other (codes "ValueError") [])
  read_state (some state) = pure state

  abbrev pub state_of : Text → Dict Text → Exec S JobState
  state_of job_id job = read_state (parse_state job_id job)

  -- The reply of `cancel`: the status, and whether the job is being cancelled.
  unfoldable pub cancel_state : Text → JobState → Exec S (Text × Bool)
  unfolding status_terminal request_cancel
  cancel_state job_id state =
      if status_terminal state.status
      then pure (status_value state.status, false)
      else request_cancel env s job_id >> pure (codes "cancelling", true)

  unfoldable pub cancel : Text → Text → Exec S (Text × Bool)
  unfolding load_job read_state cancel_state
  cancel job_id tenant = do
    job ← load_job job_id tenant
    state ← state_of job_id job
    cancel_state job_id state

  unfoldable pub is_completed : Dict Text → Bool
  unfolding text_eq
  is_completed job = elim (lookup (codes "status") job) [
    | none ↦ false
    | some v ↦ text_eq v (status_value completed)
  ]

  -- The `except HTTPException` of `result`; `database` answers `get_result`.
  module _ (database : Effects.Call → S → Result (Option OcrResult) × S) where
    unfoldable pub own_result : Error → Text → Option OcrResult → Exec S Loaded
    unfolding text_eq
    own_result e tenant none = raise e
    own_result e tenant (some stored) =
        if text_eq stored.tenant tenant then pure (archived stored) else raise e

    unfoldable pub recover : Text → Text → Error → Exec S Loaded
    unfolding own_result
    recover job_id tenant (http code detail) = do
      stored ← perform database (Effects.load_job job_id)
      own_result (http code detail) tenant stored
    recover job_id tenant e = raise e

    unfoldable pub answer : Text → Loaded → Exec S Answer
    unfolding is_completed read_state
    answer job_id (archived stored) = pure (from_database stored)
    answer job_id (running job) =
        let path = get_default (codes "result_path") job [] in
        let state = (do found ← state_of job_id job; pure (from_state found)) in
        if is_completed job && nonempty path
        then (do
          there ← perform env.bool_call (Effects.path_exists path)
          if there
              then (do
                content ← perform env.text_call (Effects.read_file path)
                pure (from_file content))
              else state)
        else state

    unfoldable pub result : Text → Text → Exec S Answer
    unfolding load_job recover answer
    result job_id tenant = do
      found ← catch (do job ← load_job job_id tenant; pure (running job)) (recover job_id tenant)
      answer job_id found

  -- `_artifact` on the caller's job.
  unfoldable pub artifact_of : Dict Text → Text → Exec S Text
  unfolding is_completed
  artifact_of job field =
      let path = get_default field job [] in
      let missing = http 404 (field ++ codes " not available for this job") in
      if is_completed job
      then if nonempty path
        then (do
          there ← perform env.bool_call (Effects.path_exists path)
          if there then pure path else raise missing)
        else raise missing
      else raise (
          http 409 (
            codes "job is "
            ++ (get_default (codes "status") job (codes "None") ++ codes ", artifacts not ready")))

  unfoldable pub artifact : Text → Text → Text → Exec S Text
  unfolding load_job artifact_of
  artifact job_id tenant field = do job ← load_job job_id tenant; artifact_of job field
