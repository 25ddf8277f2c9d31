-- ===== src/Worker/Failure.antt =====
-- A failure that no retry can mend: the state, the event and the queue entry of the job.
use ocr_serving.Base.{
  ℕ, ◌≡◌, refl, ap, ◌∙◌, Bool, true, false, Option, some, List, [], ◌∷◌, ◌++◌, ◌||◌, ◌≤◌, leb,
  le→leb, ◌*◌, if◌then◌else◌, take,
}
use ocr_serving.Base.Text.{Text, codes}
use ocr_serving.Schemas.{JobStatus, failed, EventType, job_failed, PageResult, OcrResult}
use ocr_serving.Config.{Settings, job_key, events_stream}
use ocr_serving.Documents.{Document}
use ocr_serving.Postprocess.Normalize.{Unicode}
use ocr_serving.Effects.{
  Error, unreadable, cancelled, response, http, other, Result, ok, err, Env, Exec, World, Call,
  perform, named_error, ◌>>=◌, ◌>>◌,
}
use ocr_serving.Effects
use ocr_serving.Effects.Logs.{bind_ok, bind_rest}
use ocr_serving.Events.{event_fields, publish, set_status, status_mapping, expire_events}
use ocr_serving.Queue.{QueuedJob, ack, dead_letter}
use ocr_serving.Worker.{fail, give_up, settle_failure, attempts_or_one, announce, job_event}
use ocr_serving.Worker.Process.{run_job, attempt, process, handle_error}
use ocr_serving.Worker.Outcome.{IsTransient, in_flight}

module _ {S A B : Type 0} where
  -- An action that returned is its second part, run behind the first.
  then_ok :
      (m : Exec S A) (n : Exec S B) (w : World S) {b : B}
      → ((m >> n) w).0 ≡ ok b
      → (a : A) × ((m w).0 ≡ ok a) × ((m >> n) w ≡ n (m w).1) × ((n (m w).1).0 ≡ ok b)
  then_ok m n w h =
      let (a, e, eq) = bind_ok m (λ x. n) w h in (a, e, eq, bind_rest m (λ x. n) w {a = a} h eq)

module _ {S : Type 0} (env : Env S) (s : Settings) where
  set_status-log :
      (job_id : Text) (status : JobStatus) (fields : List (Text × Option Text)) (w : World S)
      {a : Unit {0}}
      → (set_status env s job_id status fields w).0 ≡ ok a
      → (clock : Text) × (set_status env s job_id status fields w).1.log
          ≡ Effects.hset_expire
              (job_key job_id)
              (status_mapping env s status clock fields)
              (s.result_ttl_days * 86400)
            ∷ Effects.now
            ∷ w.log
  unfolding set_status perform
  set_status-log job_id status fields w h =
      let (clock, e, eq) = bind_ok (perform env.text_call Effects.now) _ w h in
      (clock, ap (λ x. x.1.log) eq)

  announce-log :
      (kind : EventType) (job_id content : Text) (w : World S) {a : Text}
      → (announce env s kind job_id content w).0 ≡ ok a
      → (ts : Text) × (announce env s kind job_id content w).1.log
          ≡ Effects.xadd
              (events_stream job_id)
              (event_fields (job_event kind job_id content ts))
              (some s.event_stream_maxlen)
            ∷ Effects.now
            ∷ w.log
  unfolding announce publish perform job_event
  announce-log kind job_id content w h =
      let (ts, e, eq) = bind_ok (perform env.text_call Effects.now) _ w h in
      (ts, ap (λ x. x.1.log) eq)

  ack-log :
      (entry_id : Text) (w : World S) {a : Unit {0}}
      → (ack env s entry_id w).0 ≡ ok a
      → (ack env s entry_id w).1.log
        ≡ Effects.xdel s.queue_stream entry_id
          ∷ Effects.xack s.queue_stream s.queue_group entry_id
          ∷ w.log
  unfolding ack perform
  ack-log entry_id w h =
      let (a, e, eq, rest) =
        then_ok (perform env.unit_call (Effects.xack s.queue_stream s.queue_group entry_id)) _ w
          h in
      ap (λ x. x.1.log) eq

  module _ (job : QueuedJob) where
    -- The entry of the dead-letter stream.
    abbrev pub dead_entry : Text → Call
    dead_entry reason =
        Effects.xadd s.dead_letter_stream
          ((codes "job_id", job.job_id)
            ∷ (codes "reason", take 500 reason)
            ∷ (codes "entry_id", job.entry_id)
            ∷ [])
          (some 1000)

    -- How the entry leaves the queue, the latest call first.
    abbrev pub leaving : Text → Bool → List Call
    leaving error true =
        Effects.xdel s.queue_stream job.entry_id
        ∷ Effects.xack s.queue_stream s.queue_group job.entry_id
        ∷ []
    leaving error false =
        Effects.xdel s.queue_stream job.entry_id
        ∷ Effects.xack s.queue_stream s.queue_group job.entry_id
        ∷ dead_entry error
        ∷ []

    -- The state and the event of the failure, the latest call first.
    abbrev pub failure_calls : Text → Text → Text → List Call
    failure_calls error clock ts =
        Effects.expire (events_stream job.job_id) s.event_ttl_s
        ∷ Effects.xadd (events_stream job.job_id)
            (event_fields (job_event job_failed job.job_id error ts)) (some s.event_stream_maxlen)
        ∷ Effects.now
        ∷ Effects.hset_expire (job_key job.job_id)
            (status_mapping env s failed clock ((codes "error", some error) ∷ []))
            (s.result_ttl_days * 86400)
        ∷ Effects.now
        ∷ []

    leave-log :
        (error : Text) (permanent : Bool) (w : World S) {a : Unit {0}}
        → ((if permanent then ack env s job.entry_id else dead_letter env s job error) w).0 ≡ ok a
        → ((if permanent then ack env s job.entry_id else dead_letter env s job error) w).1.log
          ≡ leaving error permanent ++ w.log
    unfolding dead_letter perform
    leave-log error true w h = ack-log job.entry_id w h
    leave-log error false w h =
        let (a, e, eq, rest) = then_ok (perform env.text_call (dead_entry error)) _ w h in
        ap (λ x. x.1.log) eq ∙ ack-log job.entry_id _ rest

    give_up-log :
        (error : Text) (permanent : Bool) (w : World S) {a : Unit {0}}
        → (give_up env s job error permanent w).0 ≡ ok a
        → (clock ts : Text) × (give_up env s job error permanent w).1.log
            ≡ leaving error permanent ++ (failure_calls error clock ts ++ w.log)
    unfolding give_up expire_events perform
    give_up-log error permanent w h =
        let (a, set, eq₁, h₁) =
          then_ok (set_status env s job.job_id failed ((codes "error", some error) ∷ [])) _ w h in
        let (b, told, eq₂, h₂) = then_ok (announce env s job_failed job.job_id error) _ _ h₁ in
        let (c, kept, eq₃, h₃) = then_ok (expire_events env s job.job_id) _ _ h₂ in
        let (clock, e₁) =
          set_status-log job.job_id failed ((codes "error", some error) ∷ []) w set in
        let (ts, e₂) = announce-log job_failed job.job_id error _ told in
        (
          clock,
          ts,
          ap (λ x. x.1.log) (eq₁ ∙ (eq₂ ∙ eq₃))
              ∙ (leave-log error permanent _ h₃
                  ∙ ap
                      (λ l.
                        leaving error permanent
                        ++ (Effects.expire (events_stream job.job_id) s.event_ttl_s ∷ l))
                      (e₂
                        ∙ ap
                            (λ l.
                              Effects.xadd (events_stream job.job_id)
                                (event_fields (job_event job_failed job.job_id error ts))
                                (some s.event_stream_maxlen)
                              ∷ Effects.now
                              ∷ l)
                            e₁)),
        )

    fail-log :
        (error : Text) (permanent : Bool) (w : World S) (n : ℕ) (s₂ : S) {a : Unit {0}}
        → env.nat_call (Effects.hincrby (job_key job.job_id) (codes "attempts") 0) w.state
          ≡ (ok n, s₂)
        → (permanent || leb s.max_attempts (attempts_or_one n)) ≡ true
        → (fail env s job error permanent w).0 ≡ ok a
        → (clock ts : Text) × (fail env s job error permanent w).1.log
            ≡ leaving error permanent
              ++ (failure_calls error clock ts
                  ++ (Effects.hincrby (job_key job.job_id) (codes "attempts") 0 ∷ w.log))
    unfolding fail settle_failure perform
    fail-log error permanent w n s₂ counted over =
        rw counted (rw over (λ h. give_up-log error permanent _ h))

module _ {S : Type 0} (env : Env S) (s : Settings) (u : Unicode) (to_json : OcrResult → Text)
    (elapsed : Text → Text → Option ℕ) (process_pages : Text → Document → Exec S (List PageResult))
    (job : QueuedJob) where
  -- `_process` raised UnreadableDocument and Redis answers: the worker counts the attempts, writes
  -- the FAILED state with the error, publishes JOB_FAILED, lets the events expire, and last
  -- acknowledges and deletes the entry, whatever attempts are left. Nothing is dead-lettered.
  pub run_job_rejects :
      (w : World S) (text : Text) (w₁ : World S) (n : ℕ) (s₂ : S)
      → process env s u to_json elapsed process_pages job
          (in_flight env s u to_json elapsed process_pages job w)
        ≡ (err (unreadable text), w₁)
      → env.nat_call (Effects.hincrby (job_key job.job_id) (codes "attempts") 0) w₁.state
        ≡ (ok n, s₂)
      → (run_job env s u to_json elapsed process_pages job w).0 ≡ ok tt
      → (clock ts : Text) × (run_job env s u to_json elapsed process_pages job w).1.log
          ≡ leaving env s job text true
            ++ (failure_calls env s job text clock ts
                ++ (Effects.hincrby (job_key job.job_id) (codes "attempts") 0 ∷ w₁.log))
  unfolding run_job attempt handle_error
  run_job_rejects w text w₁ n s₂ stopped counted =
      rw stopped (λ h. fail-log env s job text true w₁ n s₂ counted refl h)

  handled-log :
      (e : Error) (w₁ : World S) (n : ℕ) (s₂ : S)
      → IsTransient e
      → env.nat_call (Effects.hincrby (job_key job.job_id) (codes "attempts") 0) w₁.state
        ≡ (ok n, s₂)
      → leb s.max_attempts (attempts_or_one n) ≡ true
      → (handle_error env s u to_json elapsed process_pages job e w₁).0 ≡ ok tt
      → (clock ts : Text) × (handle_error env s u to_json elapsed process_pages job e w₁).1.log
          ≡ leaving env s job (named_error e) false
            ++ (failure_calls env s job (named_error e) clock ts
                ++ (Effects.hincrby (job_key job.job_id) (codes "attempts") 0 ∷ w₁.log))
  unfolding handle_error
  handled-log (unreadable text) w₁ n s₂ transient counted over h = absurd transient
  handled-log cancelled w₁ n s₂ transient counted over h = absurd transient
  handled-log (response name text) w₁ n s₂ transient counted over h =
      fail-log env s job (named_error (response name text)) false w₁ n s₂ counted over h
  handled-log (http code text) w₁ n s₂ transient counted over h =
      fail-log env s job (named_error (http code text)) false w₁ n s₂ counted over h
  handled-log (other name text) w₁ n s₂ transient counted over h =
      fail-log env s job (named_error (other name text)) false w₁ n s₂ counted over h

  -- `_process` raised a transient error, the count of the attempts has reached the limit, and Redis
  -- answers: the job fails as above, and its entry goes to the dead-letter stream, with the error,
  -- before it is acknowledged and deleted.
  pub run_job_gives_up :
      (w : World S) (e : Error) (w₁ : World S) (n : ℕ) (s₂ : S)
      → IsTransient e
      → process env s u to_json elapsed process_pages job
          (in_flight env s u to_json elapsed process_pages job w)
        ≡ (err e, w₁)
      → env.nat_call (Effects.hincrby (job_key job.job_id) (codes "attempts") 0) w₁.state
        ≡ (ok n, s₂)
      → s.max_attempts ≤ attempts_or_one n
      → (run_job env s u to_json elapsed process_pages job w).0 ≡ ok tt
      → (clock ts : Text) × (run_job env s u to_json elapsed process_pages job w).1.log
          ≡ leaving env s job (named_error e) false
            ++ (failure_calls env s job (named_error e) clock ts
                ++ (Effects.hincrby (job_key job.job_id) (codes "attempts") 0 ∷ w₁.log))
  unfolding run_job attempt
  run_job_gives_up w e w₁ n s₂ transient stopped counted spent = rw stopped (λ h.
      handled-log e w₁ n s₂ transient counted (le→leb s.max_attempts (attempts_or_one n) spent) h)
