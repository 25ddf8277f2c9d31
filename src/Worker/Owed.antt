-- ===== src/Worker/Owed.antt =====
-- The worker over a Redis with a stream and a consumer group: which entries stay due.
use ocr_serving.Base.{
  ℕ, ◌≡◌, refl, ap, sym, ◌∙◌, subst, not, ◌<◌, Bool, true, false, inl, inr, Bool-cases, leb, leb→le,
  Option, some, List, arith,
}
use ocr_serving.Base.Text.{Text, text_eq, codes, starts_with}
use ocr_serving.Base.Dict.{Dict, lookup}
use ocr_serving.Schemas.{PageResult, OcrResult}
use ocr_serving.Config.{Settings, job_key, events_stream}
use ocr_serving.Documents.{Document}
use ocr_serving.Postprocess.Normalize.{Unicode}
use ocr_serving.Effects.{
  Error, unreadable, cancelled, response, http, other, Result, ok, err, Call, Env, Exec, World,
  perform, named_error, ◌>>◌,
}
use ocr_serving.Effects
use ocr_serving.Effects.Logs.{Keeps, Keeps-pure, Keeps-bind, Keeps-if, Keeps-catch}
use ocr_serving.Events.{expire_events}
use ocr_serving.Queue.{QueuedJob, ack, dead_letter}
use ocr_serving.Queue.Backend.{Backend, takes, is_apart}
use ocr_serving.Queue.AtLeastOnce.{Stays, Stays-perform, ack-Stays, letter_apart}
use ocr_serving.Worker.{give_up, settle_failure, attempts_or_one, fail}
use ocr_serving.Worker.Process.{process, handle_error, attempt, run_job}
use ocr_serving.Worker.Outcome.{IsTransient, in_flight}
use ocr_serving.Worker.Quiet.{settles, Quiet, set_status-Keeps, announce-Keeps, process-Keeps}

settled : {A : Type 0} {x : Bool} → x ≡ true → x ≡ false → A
settled e h = absurd (clash (sym e ∙ h))
  where
    clash : true ≡ false → ⊥
    clash p = cc

takes_none : (s : Settings) (c : Call) (id : Text) → settles c ≡ false → takes s c id ≡ false
takes_none s (Effects.xack stream group i) id h = settled refl h
takes_none s (Effects.xdel stream i) id h = settled refl h
takes_none s (Effects.xadd stream fields (some n)) id h = elim (Bool-cases (is_apart stream)) [
  | inl apart ↦ rw apart refl
  | inr here ↦ settled (ap not here) h
]
takes_none s (Effects.setex key n v) id h = h
takes_none s (Effects.expire key n) id h = h
takes_none s (Effects.hset_expire key fields n) id h = h
takes_none s (Effects.incrby_expire key n m) id h = h
takes_none s c id h = refl

module _ {S : Type 0} (env : Env S) (s : Settings) (b : Backend env s) (id : Text)
    (fields : Dict Text) where
  -- The entry is due.
  abbrev Due : World S → Type 0
  Due = Stays env s b id fields

  Due-Quiet : Quiet env Due
  Due-Quiet = record {
    unit =
        λ c e. Stays-perform env s b id fields env.unit_call c b.leaves_unit (takes_none s c id e);
    text =
        λ c e. Stays-perform env s b id fields env.text_call c b.leaves_text (takes_none s c id e);
    nat = λ c e. Stays-perform env s b id fields env.nat_call c b.leaves_nat (takes_none s c id e);
    bool =
        λ c e. Stays-perform env s b id fields env.bool_call c b.leaves_bool (takes_none s c id e);
    optional = λ c e.
        Stays-perform env s b id fields env.optional_call c b.leaves_optional (takes_none s c id e);
    dict =
        λ c e. Stays-perform env s b id fields env.dict_call c b.leaves_dict (takes_none s c id e);
  }

  module _ (job : QueuedJob) (another : text_eq job.entry_id id ≡ false) where
    dead_letter-Due : (reason : Text) → Keeps Due (dead_letter env s job reason)
    unfolding dead_letter
    dead_letter-Due reason =
        Keeps-bind _ _
          (Stays-perform env s b id fields env.text_call _ b.leaves_text (letter_apart s))
          (λ i. ack-Stays env s b id fields job.entry_id another)

    give_up-Due : (error : Text) (permanent : Bool) → Keeps Due (give_up env s job error permanent)
    unfolding give_up expire_events is_apart starts_with events_stream
    give_up-Due error permanent =
        Keeps-bind _ _ (set_status-Keeps env s Due-Quiet job.job_id _ _) (λ x.
          Keeps-bind _ _ (announce-Keeps env s Due-Quiet _ job.job_id error) (λ y.
            Keeps-bind _ _ (Due-Quiet.unit _ refl) (λ z.
              Keeps-if permanent _ _ (ack-Stays env s b id fields job.entry_id another)
                (dead_letter-Due error))))

    settle_failure-Due :
        (error : Text) (permanent : Bool) (n : ℕ)
        → Keeps Due (settle_failure env s job error permanent n)
    unfolding settle_failure
    settle_failure-Due error permanent n =
        Keeps-if _ _ _ (give_up-Due error permanent)
          (Keeps-bind _ _ (announce-Keeps env s Due-Quiet _ job.job_id _) (λ x. Keeps-pure tt))

    fail-Due : (error : Text) (permanent : Bool) → Keeps Due (fail env s job error permanent)
    unfolding fail
    fail-Due error permanent =
        Keeps-bind _ _ (Due-Quiet.nat _ refl)
          (λ n. settle_failure-Due error permanent (attempts_or_one n))

  module _ (u : Unicode) (to_json : OcrResult → Text) (elapsed : Text → Text → Option ℕ)
      (process_pages : Text → Document → Exec S (List PageResult)) (job : QueuedJob)
      (pages_keep : (job_id : Text) (document : Document)
        → Keeps Due (process_pages job_id document)) where
    process-Due : Keeps Due (process env s u to_json elapsed process_pages job)
    process-Due = process-Keeps env s Due-Quiet u to_json elapsed process_pages job pages_keep

    handle_error-Due :
        (e : Error)
        → text_eq job.entry_id id ≡ false
        → Keeps Due (handle_error env s u to_json elapsed process_pages job e)
    unfolding handle_error
    handle_error-Due (unreadable text) another = fail-Due job another text true
    handle_error-Due cancelled another = ack-Stays env s b id fields job.entry_id another
    handle_error-Due (response name text) another =
        fail-Due job another (named_error (response name text)) false
    handle_error-Due (http code text) another =
        fail-Due job another (named_error (http code text)) false
    handle_error-Due (other name text) another =
        fail-Due job another (named_error (other name text)) false

    -- Over a Redis with a stream and a consumer group as documented: whatever becomes of a job, and
    -- whether `_run_job` returns or raises, an entry with another id that was due is still due with its
    -- fields, where the processing of the pages leaves it due.
    pub run_job-others :
        (w : World S)
        → lookup id (b.due w.state) ≡ some fields
        → text_eq job.entry_id id ≡ false
        → lookup id (b.due (run_job env s u to_json elapsed process_pages job w).1.state)
          ≡ some fields
    unfolding run_job attempt
    run_job-others w at another =
        (Keeps-catch _ _
            (Keeps-bind _ _ process-Due (λ x. ack-Stays env s b id fields job.entry_id another))
            (λ e. handle_error-Due e another)).at
          (in_flight env s u to_json elapsed process_pages job w) at

    spared :
        (error : Text) (n : ℕ)
        → n < s.max_attempts
        → Keeps Due (settle_failure env s job error false n)
    unfolding settle_failure
    spared error n spare = elim (Bool-cases (leb s.max_attempts n)) [
      | inl spent ↦ absurd (omega (arith, leb→le s.max_attempts n spent))
      | inr left ↦
          rw (settle_failure, left)
            (Keeps-bind _ _ (announce-Keeps env s Due-Quiet _ job.job_id _) (λ x. Keeps-pure tt))
    ]

    fail_spared :
        (error : Text) (w : World S) (n : ℕ) (s₂ : S)
        → Due w
        → env.nat_call (Effects.hincrby (job_key job.job_id) (codes "attempts") 0) w.state
          ≡ (ok n, s₂)
        → attempts_or_one n < s.max_attempts
        → Due (fail env s job error false w).1
    unfolding fail perform
    fail_spared error w n s₂ at counted spare = rw counted (
        (spared error (attempts_or_one n) spare).at _ (
          subst (λ x. lookup id (b.due x.1) ≡ some fields) counted
            (b.leaves_nat _ w.state id fields refl at)))

    -- Over a Redis with a stream and a consumer group as documented, where `_process` raised a transient
    -- error, Redis answers the count of the attempts, attempts are left, and the processing of the pages
    -- leaves the entry due: an entry that was due is still due with its fields behind `_run_job`, also
    -- the job's own.
    pub run_job-owed :
        (w : World S) (e : Error) (w₁ : World S) (n : ℕ) (s₂ : S)
        → lookup id (b.due w.state) ≡ some fields
        → IsTransient e
        → process env s u to_json elapsed process_pages job
            (in_flight env s u to_json elapsed process_pages job w)
          ≡ (err e, w₁)
        → env.nat_call (Effects.hincrby (job_key job.job_id) (codes "attempts") 0) w₁.state
          ≡ (ok n, s₂)
        → attempts_or_one n < s.max_attempts
        → lookup id (b.due (run_job env s u to_json elapsed process_pages job w).1.state)
          ≡ some fields
    unfolding run_job attempt handle_error
    run_job-owed w e w₁ n s₂ at transient failed counted spare =
        subst
          (λ x.
            Due
              (Effects.handled x.0 (handle_error env s u to_json elapsed process_pages job) x.1).1)
          (sym stopped) (handled_transient e transient)
      where
        stopped :
            (process env s u to_json elapsed process_pages job >> ack env s job.entry_id)
              (in_flight env s u to_json elapsed process_pages job w)
            ≡ (err e, w₁)
        stopped = ap (λ x. Effects.continue x.0 (λ a. ack env s job.entry_id) x.1) failed

        behind : Due w₁
        behind = subst (λ x. Due x.1) failed (process-Due.at _ at)

        handled_transient :
            (e : Error)
            → IsTransient e
            → Due (handle_error env s u to_json elapsed process_pages job e w₁).1
        handled_transient (unreadable text) transient = absurd transient
        handled_transient cancelled transient = absurd transient
        handled_transient (response name text) transient =
            fail_spared (named_error (response name text)) w₁ n s₂ behind counted spare
        handled_transient (http code text) transient =
            fail_spared (named_error (http code text)) w₁ n s₂ behind counted spare
        handled_transient (other name text) transient =
            fail_spared (named_error (other name text)) w₁ n s₂ behind counted spare
