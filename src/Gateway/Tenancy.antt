-- ===== src/Gateway/Tenancy.antt =====
-- What a tenant can reach of the jobs of others.
use ocr_serving.Base.{◌≡◌, refl, some, [], ◌∷◌, Bool-cases, inl, inr, if◌then◌else◌}
use ocr_serving.Base.Text.{Text, codes, text_eq, text_eq_iff}
use ocr_serving.Base.Dict.{Dict}
use ocr_serving.Schemas.{status_terminal, JobState}
use ocr_serving.Config.{Settings, job_key, cancel_key}
use ocr_serving.Effects.{Error, http, Result, ok, err, Env, Exec, World, perform, raise, ◌>>=◌}
use ocr_serving.Effects
use ocr_serving.Effects.Logs.{continue-pure-log}
use ocr_serving.Events.{get_job, get_default, parse_state, request_cancel}
use ocr_serving.Gateway.Jobs.{own_job, load_job, read_state, cancel_state, cancel, artifact}

-- The tenant that a job belongs to.
abbrev pub owner : Dict Text → Text
owner job = get_default (codes "tenant") job (codes "default")

module _ {S : Type 0} (env : Env S) (s : Settings) where
  own_job-foreign :
      (tenant : Text) (job : Dict Text) (w : World S)
      → ¬ (owner job ≡ tenant)
      → own_job env s tenant job w ≡ raise (http 404 (codes "unknown job")) w
  unfolding own_job
  own_job-foreign tenant [] w foreign = refl
  own_job-foreign tenant (f ∷ job) w foreign =
      elim (Bool-cases (text_eq (owner (f ∷ job)) tenant)) [
        | inl same ↦ absurd (foreign ((text_eq_iff (owner (f ∷ job)) tenant).0 same))
        | inr differs ↦ rw differs
      ]

  -- Asked to cancel a job of another tenant, or for an artifact of it, the gateway reads the hash of
  -- the job, sends nothing more, and answers 404 with `unknown job`.
  pub foreign_job :
      (job_id tenant field : Text) (job : Dict Text) (w : World S) (s₁ : S)
      → env.dict_call (Effects.hgetall (job_key job_id)) w.state ≡ (ok job, s₁)
      → ¬ (owner job ≡ tenant)
      → (cancel env s job_id tenant w ≡ (
        err (http 404 (codes "unknown job")),
        record w { state = s₁; log = Effects.hgetall (job_key job_id) ∷ w.log },
      ))
        × (artifact env s job_id tenant field w ≡ (
          err (http 404 (codes "unknown job")),
          record w { state = s₁; log = Effects.hgetall (job_key job_id) ∷ w.log },
        ))
  unfolding cancel artifact load_job get_job perform
  foreign_job job_id tenant field job w s₁ found foreign = (
    rw found (rw (own_job-foreign tenant job _ foreign)),
    rw found (rw (own_job-foreign tenant job _ foreign)),
  )

  own_job-own :
      (tenant : Text) (f : Text × Text) (job : Dict Text) (w : World S)
      → owner (f ∷ job) ≡ tenant
      → own_job env s tenant (f ∷ job) w ≡ (ok (f ∷ job), w)
  unfolding own_job
  own_job-own tenant f job w own = rw ((text_eq_iff (owner (f ∷ job)) tenant).1 own)

  cancel_state-log :
      (job_id : Text) (state : JobState) (w : World S)
      → (cancel_state env s job_id state w).1.log ≡ (
          if status_terminal state.status
          then w.log
          else Effects.setex (cancel_key job_id) s.event_ttl_s (codes "1") ∷ w.log)
  unfolding cancel_state request_cancel perform
  cancel_state-log job_id state w = elim (Bool-cases (status_terminal state.status)) [
    | inl ended ↦ rw ended
    | inr alive ↦ rw alive (continue-pure-log _ _ _)
  ]

  -- A cancellation sets the flag of the caller's job if the job is still running, and does nothing to
  -- a job that has ended.
  pub cancel_exact :
      (job_id tenant : Text) (f : Text × Text) (job : Dict Text) (state : JobState) (w : World S)
      (s₁ : S)
      → env.dict_call (Effects.hgetall (job_key job_id)) w.state ≡ (ok (f ∷ job), s₁)
      → owner (f ∷ job) ≡ tenant
      → parse_state job_id (f ∷ job) ≡ some state
      → (cancel env s job_id tenant w).1.log ≡ (
          if status_terminal state.status
          then Effects.hgetall (job_key job_id) ∷ w.log
          else Effects.setex (cancel_key job_id) s.event_ttl_s (codes "1")
            ∷ Effects.hgetall (job_key job_id)
            ∷ w.log)
  unfolding cancel load_job get_job read_state perform
  cancel_exact job_id tenant f job state w s₁ found own parsed =
      rw found (rw (own_job-own tenant f job _ own) (rw parsed (cancel_state-log job_id state _)))
