-- ===== src/Queue/Spec.antt =====
-- The abstract queue: what each operation does to the entries that are due, and to the dead letters.
use ocr_serving.Base.{
  ℕ, ◌≡◌, ap, sym, subst, ◌∙◌, Option, none, some, List, [], ◌∷◌, inl, inr, All, take, Option-cases,
}
use ocr_serving.Base.Text.{Text, codes}
use ocr_serving.Base.Dict.{Dict, lookup, insert, erase}
use ocr_serving.Effects.{Entry}
use ocr_serving.Queue.{QueuedJob, queued_jobs}
use ocr_serving.Queue.Backend.{IsDue, IsClaimed}

pub record View : Type 0 where
  pub due : Dict (Dict Text)
  pub latest : Option (Dict Text)

pub data Op : Type 0 where
  put_job : Text → Dict Text → Op
  take_new take_over : ℕ → Op
  settle : Text → Op
  retire : QueuedJob → Text → Op

pub nothing_found : {A : Type 0} {x : A} → none ≡ some x → ⊥
nothing_found e = cc

pub some_inj : {A : Type 0} {x y : A} → some x ≡ some y → x ≡ y
some_inj e = cc

-- A job that a consumer was given is due, under its entry's id.
abbrev pub IsOwed : Dict (Dict Text) → QueuedJob → Type 0
IsOwed d j =
    (lookup j.entry_id d ≡ some j.fields) × (lookup (codes "job_id") j.fields ≡ some j.job_id)

-- No entry with a job is due under the id.
abbrev pub IsIdle : Dict (Dict Text) → Text → Type 0
IsIdle d id =
    (fields : Dict Text) → lookup id d ≡ some fields → lookup (codes "job_id") fields ≡ none

abbrev pub erase_all : List Text → Dict (Dict Text) → Dict (Dict Text)
erase_all [] d = d
erase_all (id ∷ ids) d = erase_all ids (erase id d)

abbrev pub letter : QueuedJob → Text → Dict Text
letter job reason =
    (codes "job_id", job.job_id)
    ∷ (codes "reason", take 500 reason)
    ∷ (codes "entry_id", job.entry_id)
    ∷ []

-- What each operation does to the abstract queue, and what it gives.
pub data Spec (v : View) : Op → List QueuedJob → View → Type 0 where
  puts :
      {job_id : Text} {fields : Dict Text} (id : Text)
      → lookup id v.due ≡ none
      → Spec v
          (put_job job_id fields)
          []
          (record v { due = insert id ((codes "job_id", job_id) ∷ fields) v.due })
  takes_new : {n : ℕ} (jobs : List QueuedJob) → All (IsOwed v.due) jobs → Spec v (take_new n) jobs v
  takes_over :
      {n : ℕ} (jobs : List QueuedJob) (ids : List Text)
      → All (IsOwed v.due) jobs
      → All (IsIdle v.due) ids
      → Spec v (take_over n) jobs (record v { due = erase_all ids v.due })
  settles : {id : Text} → Spec v (settle id) [] (record v { due = erase id v.due })
  retires :
      {job : QueuedJob} {reason : Text}
      → Spec v
          (retire job reason)
          []
          (record { due = erase job.entry_id v.due; latest = some (letter job reason) })

pub spec_to :
    {v w w₂ : View} {op : Op} {jobs jobs₂ : List QueuedJob}
    → Spec v op jobs w
    → jobs₂ ≡ jobs
    → w₂ ≡ w
    → Spec v op jobs₂ w₂
spec_to {v} {w} {op} {jobs₂} h e k =
    subst (Spec v op jobs₂) (sym k) (subst (λ js. Spec v op js w) (sym e) h)

-- What XAUTOCLAIM's answer is split into: the ids that are acknowledged, and the jobs.
abbrev pub tombstones : List Entry → List Text
tombstones [] = []
tombstones (e ∷ es) =
    let rest = tombstones es in
    elim (lookup (codes "job_id") e.fields) [ none ↦ e.id ∷ rest | some job_id ↦ rest ]

abbrev pub taken_over : Entry → Text → QueuedJob
taken_over e job_id = record { entry_id = e.id; job_id = job_id; deliveries = 2; fields = e.fields }

abbrev pub reclaimed : List Entry → List QueuedJob
reclaimed [] = []
reclaimed (e ∷ es) =
    let rest = reclaimed es in
    elim (lookup (codes "job_id") e.fields) [
      | none ↦ rest
      | some job_id ↦ taken_over e job_id ∷ rest
    ]

module _ (d : Dict (Dict Text)) where
  pub queued_jobs-IsOwed : (es : List Entry) → All (IsDue d) es → All (IsOwed d) (queued_jobs es)
  unfolding queued_jobs
  queued_jobs-IsOwed [] h = tt
  queued_jobs-IsOwed (e ∷ es) h = elim (Option-cases (lookup (codes "job_id") e.fields)) [
    | inl gone ↦ rw (All, queued_jobs, gone) (queued_jobs-IsOwed es h.1)
    | inr (job_id, found) ↦ rw (All, queued_jobs, found) ((h.0, found), queued_jobs-IsOwed es h.1)
  ]

  pub claimed-IsDue :
      (e : Entry) (job_id : Text)
      → lookup (codes "job_id") e.fields ≡ some job_id
      → IsClaimed d e
      → IsDue d e
  unfolding lookup
  claimed-IsDue e job_id found (inl h) = h
  claimed-IsDue e job_id found (inr h) =
      absurd (nothing_found (sym (ap (lookup (codes "job_id")) h.1) ∙ found))

  pub claimed-IsIdle :
      (e : Entry) → lookup (codes "job_id") e.fields ≡ none → IsClaimed d e → IsIdle d e.id
  claimed-IsIdle e gone (inl h) fields at =
      ap (lookup (codes "job_id")) (some_inj (sym at ∙ h)) ∙ gone
  claimed-IsIdle e gone (inr h) fields at = absurd (nothing_found (sym h.0 ∙ at))

  pub reclaimed-IsOwed : (es : List Entry) → All (IsClaimed d) es → All (IsOwed d) (reclaimed es)
  reclaimed-IsOwed [] h = tt
  reclaimed-IsOwed (e ∷ es) h = elim (Option-cases (lookup (codes "job_id") e.fields)) [
    | inl gone ↦ rw (All, reclaimed, gone) (reclaimed-IsOwed es h.1)
    | inr (job_id, found) ↦
        rw (All, reclaimed, found)
          ((claimed-IsDue e job_id found h.0, found), reclaimed-IsOwed es h.1)
  ]

  pub tombstones-IsIdle : (es : List Entry) → All (IsClaimed d) es → All (IsIdle d) (tombstones es)
  tombstones-IsIdle [] h = tt
  tombstones-IsIdle (e ∷ es) h = elim (Option-cases (lookup (codes "job_id") e.fields)) [
    | inl gone ↦ rw (All, tombstones, gone) (claimed-IsIdle e gone h.0, tombstones-IsIdle es h.1)
    | inr (job_id, found) ↦ rw (All, tombstones, found) (tombstones-IsIdle es h.1)
  ]
