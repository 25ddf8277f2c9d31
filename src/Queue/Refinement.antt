-- ===== src/Queue/Refinement.antt =====
-- `JobQueue` against an abstract queue: a dict of the entries that are due, and the latest dead letter.
use ocr_serving.Base.{
  ℕ, ◌*◌, ◌≡◌, refl, ap, ◌∙◌, some, List, [], ◌∷◌, inl, inr, All, Option-cases, none, ◌⊎◌,
}
use ocr_serving.Base.Text.{Text, codes}
use ocr_serving.Base.Dict.{Dict, lookup, insert, erase, erase-erase}
use ocr_serving.Config.{Settings}
use ocr_serving.Effects.{
  Error, response, catch, Result, ok, err, Call, Entry, Env, Exec, World, pure, perform, ◌>>=◌,
  ◌>>◌,
}
use ocr_serving.Effects
use ocr_serving.Effects.Logs.{perform_err}
use ocr_serving.Effects.Yields.{
  Yields, Yields-perform, Yields-pure, Yields-raise, Yields-bind, Yields-catch,
}
use ocr_serving.Queue.{
  QueuedJob, queued_jobs, enqueue, reserve, ack, reclaim_entries, no_entries, reclaim, dead_letter,
}
use ocr_serving.Queue.Backend.{Backend, IsDue, IsClaimed}
use ocr_serving.Queue.Spec.{
  View, Op, put_job, take_new, take_over, settle, retire, erase_all, letter, Spec, puts, takes_new,
  takes_over, settles, retires, spec_to, tombstones, taken_over, reclaimed, queued_jobs-IsOwed,
  reclaimed-IsOwed, tombstones-IsIdle,
}

module _ {S : Type 0} (env : Env S) (s : Settings) where
  -- An operation of `JobQueue`; one that gives no jobs gives the empty list.
  unfoldable pub act : Op → Exec S (List QueuedJob)
  act (put_job job_id fields) = enqueue env s job_id fields >>= λ id. pure []
  act (take_new n) = reserve env s n
  act (take_over n) = reclaim env s n
  act (settle id) = ack env s id >>= λ x. pure []
  act (retire job reason) = dead_letter env s job reason >>= λ x. pure []

  module _ (b : Backend env s) where
    abbrev pub view : S → View
    view a = record { due = b.due a; latest = b.latest a }

    -- The state is changed so, and the latest dead letter is not.
    abbrev Changes : {A : Type 0} → (Dict (Dict Text) → Dict (Dict Text)) → S → A → S → Type 0
    Changes f a x t = (b.due t ≡ f (b.due a)) × (b.latest t ≡ b.latest a)

    erased_once :
        (id : Text) (d e : Dict (Dict Text)) → (e ≡ erase id d) ⊎ (e ≡ d) → erase id e ≡ erase id d
    erased_once id d e (inl gone) = ap (erase id) gone ∙ erase-erase id d
    erased_once id d e (inr same) = ap (erase id) same

    ack-Yields : (id : Text) → Yields (Changes (erase id)) (ack env s id)
    unfolding ack
    ack-Yields id =
        Yields-bind
          (λ a x t.
            ((b.due t ≡ erase id (b.due a)) ⊎ (b.due t ≡ b.due a)) × (b.latest t ≡ b.latest a))
          (λ x. Changes (erase id)) _ _
          (Yields-perform env.unit_call _ (λ a x t e. b.acked a t id e))
          (λ x. Yields-perform env.unit_call _ (λ a y t e. b.deleted a t id e))
          (λ a x t y t₂ h k. (k.0 ∙ erased_once id (b.due a) (b.due t) h.0, k.1 ∙ h.1))

    reclaim_entries-Yields :
        (es : List Entry)
        → Yields
            (λ a jobs t. Changes (erase_all (tombstones es)) a jobs t × (jobs ≡ reclaimed es))
            (reclaim_entries env s es)
    unfolding reclaim_entries
    reclaim_entries-Yields [] = Yields-pure [] (λ a. ((refl, refl), refl))
    reclaim_entries-Yields (e ∷ es) = elim (Option-cases (lookup (codes "job_id") e.fields)) [
      | inl gone ↦
          rw (reclaim_entries, tombstones, reclaimed, gone)
            (Yields-bind (Changes (erase e.id)) _ _ _ (ack-Yields e.id)
              (λ x. reclaim_entries-Yields es)
              (λ a x t jobs t₂ h k.
                ((k.0.0 ∙ ap (erase_all (tombstones es)) h.0, k.0.1 ∙ h.1), k.1)))
      | inr (job_id, found) ↦
          rw (reclaim_entries, tombstones, reclaimed, found)
            (Yields-bind _ (λ jobs a all t. (t ≡ a) × (all ≡ taken_over e job_id ∷ jobs)) _ _
              (reclaim_entries-Yields es) (λ jobs. Yields-pure _ (λ a. (refl, refl)))
              (λ a jobs t all t₂ h k. (
                (ap b.due k.0 ∙ h.0.0, ap b.latest k.0 ∙ h.0.1),
                k.1 ∙ ap (λ js. taken_over e job_id ∷ js) h.1,
              )))
    ]

    -- The dead letter is written, and the entry is not due.
    abbrev Buries : {A : Type 0} → QueuedJob → Text → S → A → S → Type 0
    Buries job reason a x t =
        (b.due t ≡ erase job.entry_id (b.due a)) × (b.latest t ≡ some (letter job reason))

    dead_letter-Yields :
        (job : QueuedJob) (reason : Text)
        → Yields (Buries job reason) (dead_letter env s job reason)
    unfolding dead_letter
    dead_letter-Yields job reason =
        Yields-bind (λ a id t. (b.due t ≡ b.due a) × (b.latest t ≡ some (letter job reason)))
          (λ id. Changes (erase job.entry_id)) _ _
          (Yields-perform env.text_call _ (λ a id t e. b.buried a t _ 1000 id e))
          (λ id. ack-Yields job.entry_id)
          (λ a id t x t₂ h k. (k.0 ∙ ap (erase job.entry_id) h.0, k.1 ∙ h.1))

    -- What XAUTOCLAIM gave, or nothing where Redis refused it.
    abbrev Claims : S → List Entry → S → Type 0
    Claims a es t = All (IsClaimed (b.due a)) es × (b.due t ≡ b.due a) × (b.latest t ≡ b.latest a)

    pub claim-Yields :
        (idle n : ℕ)
        → Yields Claims (
            catch
              (perform env.entries_call (Effects.xautoclaim s.queue_stream s.queue_group idle n))
              (no_entries env s))
    claim-Yields idle n =
        Yields-catch
          (λ a e t.
            (name text : Text)
            → e ≡ response name text
            → (b.due t ≡ b.due a) × (b.latest t ≡ b.latest a))
          _ _ (Yields-perform env.entries_call _ (λ a es t e. b.claimed a t idle n es e))
          (λ w e at name text is.
            b.refused w.state _ _ name text
              (perform_err env.entries_call _ w (response name text) (at ∙ ap err is)))
          answered
      where
        answered :
            (e : Error)
            → Yields
                (λ t es t₂.
                  (a : S)
                  → ((name text : Text)
                      → e ≡ response name text
                      → (b.due t ≡ b.due a) × (b.latest t ≡ b.latest a))
                  → Claims a es t₂)
                (no_entries env s e)
        answered (response name text) =
            Yields-pure [] (λ t a h. (tt, (h name text refl).0, (h name text refl).1))
        answered e = Yields-raise e

    same_view :
        (a t : S) (d : Dict (Dict Text))
        → b.due t ≡ d
        → b.latest t ≡ b.latest a
        → view t ≡ record (view a) { due = d }
    same_view a t d h k = rw (h, k) refl

    act-Yields : (op : Op) → Yields (λ a jobs t. Spec (view a) op jobs (view t)) (act op)
    unfolding act enqueue reserve reclaim dead_letter
    act-Yields (put_job job_id fields) =
        Yields-bind
          (λ a id t.
            (lookup id (b.due a) ≡ none)
            × (b.due t ≡ insert id ((codes "job_id", job_id) ∷ fields) (b.due a))
            × (b.latest t ≡ b.latest a))
          (λ id a jobs t. (t ≡ a) × (jobs ≡ [])) _ _
          (Yields-perform env.text_call _ (λ a id t e. b.added a t _ id e))
          (λ id. Yields-pure [] (λ a. (refl, refl)))
          (λ a id t jobs t₂ h k. spec_to (puts id h.0) k.1 (ap view k.0 ∙ same_view a t _ h.1 h.2))
    act-Yields (take_new n) =
        Yields-bind
          (λ a es t. All (IsDue (b.due a)) es × (b.due t ≡ b.due a) × (b.latest t ≡ b.latest a))
          (λ es a jobs t. (t ≡ a) × (jobs ≡ queued_jobs es)) _ _
          (Yields-perform env.entries_call _ (λ a es t e. b.delivered a t n es e))
          (λ es. Yields-pure (queued_jobs es) (λ a. (refl, refl)))
          (λ a es t jobs t₂ h k.
            spec_to (takes_new (queued_jobs es) (queued_jobs-IsOwed (b.due a) es h.0)) k.1
              (ap view k.0 ∙ same_view a t _ h.1 h.2))
    act-Yields (take_over n) =
        Yields-bind Claims
          (λ es a jobs t. Changes (erase_all (tombstones es)) a jobs t × (jobs ≡ reclaimed es)) _ _
          (claim-Yields (s.visibility_timeout_s * 1000) n) (λ es. reclaim_entries-Yields es)
          (λ a es t jobs t₂ h k.
            spec_to
              (takes_over (reclaimed es) (tombstones es) (reclaimed-IsOwed (b.due a) es h.0)
                (tombstones-IsIdle (b.due a) es h.0))
              k.1 (same_view a t₂ _ (k.0.0 ∙ ap (erase_all (tombstones es)) h.1) (k.0.1 ∙ h.2)))
    act-Yields (settle id) =
        Yields-bind _ (λ x a jobs t. (t ≡ a) × (jobs ≡ [])) _ _ (ack-Yields id)
          (λ x. Yields-pure [] (λ a. (refl, refl)))
          (λ a x t jobs t₂ h k. spec_to settles k.1 (ap view k.0 ∙ same_view a t _ h.0 h.1))
    act-Yields (retire job reason) =
        Yields-bind (Buries job reason) (λ x a jobs t. (t ≡ a) × (jobs ≡ [])) _ _
          (dead_letter-Yields job reason) (λ x. Yields-pure [] (λ a. (refl, refl)))
          (λ a x t jobs t₂ h k. spec_to retires k.1 (ap view k.0 ∙ rw (h.0, h.1) refl))

    -- Over any Redis with a stream and a consumer group as documented, an operation of `JobQueue` that
    -- returns does what the abstract queue specifies: a new job becomes due under a fresh entry; what a
    -- consumer is given is due and stays due, except entries without a job; an acknowledgement ends its
    -- entry and no other; a dead letter is written as its entry ends.
    pub act-Spec :
        (op : Op) (w : World S) (jobs : List QueuedJob)
        → (act op w).0 ≡ ok jobs
        → Spec (view w.state) op jobs (view (act op w).1.state)
    act-Spec op w jobs h = (act-Yields op).at w jobs h
