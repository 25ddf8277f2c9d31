-- ===== src/Queue/AtLeastOnce.antt =====
-- At-least-once delivery: an entry with a job stays due, through any operations of any number of
-- consumers and whether they return or raise, until it is acknowledged or buried.
use ocr_serving.Base.{
  ℕ, ◌*◌, ◌≡◌, refl, ap, sym, ◌∙◌, Bool, false, ◌||◌, not, none, some, List, [], ◌∷◌, inl, inr, All,
  Option-cases, Bool-cases,
}
use ocr_serving.Base.Text.{Text, codes, text_eq, text_eq_iff}
use ocr_serving.Base.Dict.{Dict, lookup}
use ocr_serving.Config.{Settings}
use ocr_serving.Effects.{Error, response, catch, Result, ok, Call, Entry, Env, Exec, World, perform}
use ocr_serving.Effects
use ocr_serving.Effects.Logs.{Keeps, Keeps-pure, Keeps-raise, Keeps-bind, Keeps-catch, Keeps-then}
use ocr_serving.Queue.{enqueue, reserve, ack, reclaim_entries, no_entries, reclaim, dead_letter}
use ocr_serving.Queue.Backend.{Backend, IsClaimed, Leaves, takes, is_apart}
use ocr_serving.Queue.Spec.{
  Op, put_job, take_new, take_over, settle, retire, claimed-IsIdle, nothing_found,
}
use ocr_serving.Queue.Refinement.{act, claim-Yields}

-- The operations that end the entry.
abbrev pub ends : Op → Text → Bool
ends (settle id) i = text_eq id i
ends (retire job reason) i = text_eq job.entry_id i
ends op i = false

-- A dead letter goes to another stream than the queue's.
pub letter_apart :
    (s : Settings)
    → not (is_apart s.dead_letter_stream || text_eq s.dead_letter_stream s.dead_letter_stream)
      ≡ false
letter_apart s = elim (Bool-cases (is_apart s.dead_letter_stream)) [
  | inl apart ↦ rw apart refl
  | inr here ↦ rw (here, (text_eq_iff s.dead_letter_stream s.dead_letter_stream).1 refl) refl
]

module _ {S : Type 0} (env : Env S) (s : Settings) where
  -- Operations one behind another, whichever consumer's, each whether the one before returned or raised.
  unfoldable pub run_ops : List Op → World S → World S
  unfolding act
  run_ops [] w = w
  run_ops (op ∷ ops) w = run_ops ops (act env s op w).1

  module _ (b : Backend env s) (id : Text) (fields : Dict Text) where
    abbrev pub Stays : World S → Type 0
    Stays w = lookup id (b.due w.state) ≡ some fields

    pub Stays-perform :
        {A : Type 0} (answer : Call → S → Result A × S) (c : Call)
        → Leaves s b.due answer
        → takes s c id ≡ false
        → Keeps Stays (perform answer c)
    unfolding perform
    Stays-perform answer c law e = record { at = λ w h. law c w.state id fields e h }

    pub ack-Stays : (i : Text) → text_eq i id ≡ false → Keeps Stays (ack env s i)
    unfolding ack
    ack-Stays i other =
        Keeps-bind _ _ (Stays-perform _ _ b.leaves_unit other)
          (λ x. Stays-perform _ _ b.leaves_unit other)

    -- What has no job in it is another entry.
    abbrev Others : List Entry → Type 0
    Others es = All (λ e. lookup (codes "job_id") e.fields ≡ none → text_eq e.id id ≡ false) es

    reclaim_entries-Stays : (es : List Entry) → Others es → Keeps Stays (reclaim_entries env s es)
    unfolding reclaim_entries
    reclaim_entries-Stays [] h = Keeps-pure _
    reclaim_entries-Stays (e ∷ es) h = elim (Option-cases (lookup (codes "job_id") e.fields)) [
      | inl gone ↦
          rw (reclaim_entries, gone)
            (Keeps-bind _ _ (ack-Stays e.id (h.0 gone)) (λ x. reclaim_entries-Stays es h.1))
      | inr (job_id, found) ↦
          rw (reclaim_entries, found)
            (Keeps-bind _ _ (reclaim_entries-Stays es h.1) (λ jobs. Keeps-pure _))
    ]

    module _ (job_id : Text) (has_job : lookup (codes "job_id") fields ≡ some job_id) where
      claimed-Others :
          (d : Dict (Dict Text)) (es : List Entry)
          → lookup id d ≡ some fields
          → All (IsClaimed d) es
          → Others es
      claimed-Others d [] at h = tt
      claimed-Others d (e ∷ es) at h = (
        (λ gone. elim (Bool-cases (text_eq e.id id)) [
          | inl same ↦ absurd (
              nothing_found (
                sym (
                  claimed-IsIdle d e gone h.0 fields
                    (ap (λ i. lookup i d) ((text_eq_iff e.id id).0 same) ∙ at))
                ∙ has_job))
          | inr other ↦ other
        ]),
        claimed-Others d es at h.1,
      )

      claim-Stays :
          (idle n : ℕ)
          → Keeps Stays (
              catch
                (perform env.entries_call (Effects.xautoclaim s.queue_stream s.queue_group idle n))
                (no_entries env s))
      claim-Stays idle n =
          Keeps-catch _ _ (Stays-perform _ _ b.leaves_entries refl) refused_or_raised
        where
          refused_or_raised : (e : Error) → Keeps Stays (no_entries env s e)
          refused_or_raised (response name text) = Keeps-pure _
          refused_or_raised e = Keeps-raise _

      act-Stays : (op : Op) → ends op id ≡ false → Keeps Stays (act env s op)
      unfolding act enqueue reserve reclaim dead_letter
      act-Stays (put_job j more) e =
          Keeps-bind _ _ (Stays-perform _ _ b.leaves_text refl) (λ i. Keeps-pure _)
      act-Stays (take_new n) e =
          Keeps-bind _ _ (Stays-perform _ _ b.leaves_entries refl) (λ es. Keeps-pure _)
      act-Stays (take_over n) e =
          Keeps-then _ _ (claim-Stays (s.visibility_timeout_s * 1000) n) (λ w es before at behind.
            (reclaim_entries-Stays es (
                claimed-Others (b.due w.state) es before
                  ((claim-Yields env s b (s.visibility_timeout_s * 1000) n).at w es at).0)).at
              _ behind)
      act-Stays (settle i) e = Keeps-bind _ _ (ack-Stays i e) (λ x. Keeps-pure _)
      act-Stays (retire job reason) e =
          Keeps-bind _ _
            (Keeps-bind _ _ (Stays-perform _ _ b.leaves_text (letter_apart s))
              (λ i. ack-Stays job.entry_id e))
            (λ x. Keeps-pure _)

      -- Over any Redis with a stream and a consumer group as documented, an entry with a job that is due
      -- is still due, with its fields, behind any sequence of operations of `JobQueue` by any
      -- consumers, each whether it returns or raises, none of which acknowledges or buries the entry.
      pub run_ops-due :
          (ops : List Op) (w : World S)
          → lookup id (b.due w.state) ≡ some fields
          → All (λ op. ends op id ≡ false) ops
          → lookup id (b.due (run_ops ops w).state) ≡ some fields
      unfolding run_ops
      run_ops-due [] w at h = at
      run_ops-due (op ∷ ops) w at h =
          run_ops-due ops (act env s op w).1 ((act-Stays op h.0).at w at) h.1
