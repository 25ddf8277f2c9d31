-- ===== src/Tests/QueueTests.antt =====
-- `JobQueue` on a small Redis: one stream with one group, which gives out the first entry that is due.
use ocr_serving.Base.{
  true, arith, ◌≡◌, refl, ap, sym, subst, ◌∙◌, false, Option, none, some, List, [], ◌∷◌, inl, inr,
  All, All-imp, Bool-cases,
}
use ocr_serving.Base.Text.{Text, codes, text_eq, text_eq_iff}
use ocr_serving.Base.Dict.{Dict, lookup, insert, erase, lookup-insert, lookup-erase}
use ocr_serving.Config.{default_settings}
use ocr_serving.Effects.{
  Error, other, Result, ok, err, Call, Entry, Env, Exec, World, pure, perform,
}
use ocr_serving.Effects
use ocr_serving.Schemas.{PageResult}
use ocr_serving.Documents.{Document}
use ocr_serving.Postprocess.Normalize.{Unicode}
use ocr_serving.Effects.Logs.{Keeps-pure}
use ocr_serving.Worker.Process.{run_job, process}
use ocr_serving.Worker.Owed.{run_job-others, run_job-owed}
use ocr_serving.Queue.{QueuedJob, reserve, queued_jobs}
use ocr_serving.Queue.Backend.{Backend, IsDue, Leaves}
use ocr_serving.Queue.Spec.{Spec, Op, put_job, take_new, take_over, settle}
use ocr_serving.Queue.Refinement.{act, view, act-Spec}
use ocr_serving.Queue.AtLeastOnce.{run_ops, run_ops-due}

abbrev Redis : Type 0
Redis = Dict (Dict Text) × Option (Dict Text)

abbrev new_id : Text
new_id = codes "9-0"

-- An id that is taken is an error.
abbrev add : Option (Dict Text) → Dict Text → Redis → Result Text × Redis
add none fields a = (ok new_id, (insert new_id fields a.0, a.1))
add (some f) fields a = (err (other (codes "ConnectionError") (codes "id")), a)

abbrev answer_text : Call → Redis → Result Text × Redis
answer_text (Effects.xadd stream fields none) a = add (lookup new_id a.0) fields a
answer_text (Effects.xadd stream fields (some n)) a = (ok new_id, (a.0, some fields))
answer_text c a = (ok [], a)

abbrev answer_unit : Call → Redis → Result (Unit {0}) × Redis
answer_unit (Effects.xack stream group id) a = (ok tt, (erase id a.0, a.1))
answer_unit (Effects.xdel stream id) a = (ok tt, (erase id a.0, a.1))
answer_unit c a = (ok tt, a)

abbrev first : Dict (Dict Text) → List Entry
first [] = []
first ((id, fields) ∷ d) = record { id = id; fields = fields } ∷ []

-- The answer to a request for a hash is given.
abbrev redis : Result (Dict Text) → Env Redis
redis hash = record {
  unit_call = answer_unit;
  text_call = answer_text;
  nat_call = λ c a. (ok 0, a);
  bool_call = λ c a. (ok false, a);
  optional_call = λ c a. (ok none, a);
  dict_call = λ c a. (hash, a);
  entries_call = λ c a. (ok (first a.0), a);
  fromisoformat = λ t. some t;
}

answered :
    {A : Type 0} {x y : A} {a b : Redis}
    → ◌≡◌ {A = Result A × Redis} (ok x, a) (ok y, b)
    → (x ≡ y) × (a ≡ b)
answered e = (ok_inj (ap (λ p. p.0) e), ap (λ p. p.1) e)
  where
    ok_inj : {A : Type 0} {x y : A} → ok x ≡ ok y → x ≡ y
    ok_inj h = cc

not_raised :
    {A : Type 0} {x : A} {e : Error} {a b : Redis}
    → ◌≡◌ {A = Result A × Redis} (ok x, a) (err e, b)
    → ⊥
not_raised h = clash (ap (λ p. p.0) h)
  where
    clash : {A : Type 0} {x : A} {e : Error} → ok x ≡ err e → ⊥
    clash p = cc

not_answered :
    {A : Type 0} {x : A} {e : Error} {a b : Redis}
    → ◌≡◌ {A = Result A × Redis} (err e, a) (ok x, b)
    → ⊥
not_answered h = not_raised (sym h)

add-due :
    (found : Option (Dict Text)) (fields : Dict Text) (a b : Redis) (id : Text)
    → add found fields a ≡ (ok id, b)
    → lookup new_id a.0 ≡ found
    → (lookup id a.0 ≡ none) × (b.0 ≡ insert id fields a.0) × (b.1 ≡ a.1)
add-due none fields a b id e free =
    let (same, state) = answered e in
    (
      ap (λ i. lookup i a.0) (sym same) ∙ free,
      sym (ap (λ x. x.0) state) ∙ ap (λ i. insert i fields a.0) same,
      sym (ap (λ x. x.1) state),
    )
add-due (some f) fields a b id e taken = absurd (not_answered e)

first-IsDue : (d : Dict (Dict Text)) → All (IsDue d) (first d)
unfolding lookup
first-IsDue [] = tt
first-IsDue ((id, fields) ∷ d) = (rw ((text_eq_iff id id).1 refl) refl, tt)

add-leaves :
    (found : Option (Dict Text)) (more : Dict Text) (a : Redis) (id : Text) (fields : Dict Text)
    → lookup new_id a.0 ≡ found
    → lookup id a.0 ≡ some fields
    → lookup id (add found more a).1.0 ≡ some fields
add-leaves none more a id fields at h = elim (Bool-cases (text_eq new_id id)) [
  | inl same ↦
      absurd (clash (sym at ∙ (ap (λ i. lookup i a.0) ((text_eq_iff new_id id).0 same) ∙ h)))
  | inr differ ↦ lookup-insert new_id id more a.0 ∙ rw differ h
]
  where
    clash : none ≡ some fields → ⊥
    clash p = cc
add-leaves (some f) more a id fields at h = h

answer_text-Leaves : Leaves default_settings (λ a. a.0) answer_text
answer_text-Leaves (Effects.xadd stream more none) a id fields e h =
    add-leaves (lookup new_id a.0) more a id fields refl h
answer_text-Leaves (Effects.xadd stream more (some n)) a id fields e h = h
answer_text-Leaves c a id fields e h = h

answer_unit-Leaves : Leaves default_settings (λ a. a.0) answer_unit
answer_unit-Leaves (Effects.xack stream group i) a id fields e h = lookup-erase i id a.0 ∙ rw e h
answer_unit-Leaves (Effects.xdel stream i) a id fields e h = lookup-erase i id a.0 ∙ rw e h
answer_unit-Leaves c a id fields e h = h

backend : (hash : Result (Dict Text)) → Backend (redis hash) default_settings
backend hash = record {
  due = λ a. a.0;
  latest = λ a. a.1;
  added = λ a b fields id e. add-due (lookup new_id a.0) fields a b id e refl;
  buried = λ a b fields n id e.
      let state = (answered e).1 in (sym (ap (λ x. x.0) state), sym (ap (λ x. x.1) state));
  acked = λ a b id e.
      let state = (answered e).1 in (inl (sym (ap (λ x. x.0) state)), sym (ap (λ x. x.1) state));
  deleted = λ a b id e.
      let state = (answered e).1 in (sym (ap (λ x. x.0) state), sym (ap (λ x. x.1) state));
  delivered = λ a b n es e.
      let (same, state) = answered e in
      (
        subst (All (IsDue a.0)) same (first-IsDue a.0),
        sym (ap (λ x. x.0) state),
        sym (ap (λ x. x.1) state),
      );
  claimed = λ a b idle n es e.
      let (same, state) = answered e in
      (
        All-imp (λ x h. inl h) es (subst (All (IsDue a.0)) same (first-IsDue a.0)),
        sym (ap (λ x. x.0) state),
        sym (ap (λ x. x.1) state),
      );
  refused = λ a b c name text e. absurd (not_raised e);
  leaves_unit = answer_unit-Leaves;
  leaves_text = answer_text-Leaves;
  leaves_nat = λ c a id fields e h. h;
  leaves_bool = λ c a id fields e h. h;
  leaves_optional = λ c a id fields e h. h;
  leaves_dict = λ c a id fields e h. h;
  leaves_entries = λ c a id fields e h. h;
}

abbrev owed : Dict Text
owed = (codes "job_id", codes "j1") ∷ []

abbrev started : World Redis
started = record { state = ((codes "1-0", owed) ∷ [], none); log = []; inflight = [] }

abbrev given : QueuedJob
given = record { entry_id = codes "1-0"; job_id = codes "j1"; deliveries = 1; fields = owed }

act-Spec_example :
    Spec
      (view (redis (ok [])) default_settings (backend (ok [])) started.state)
      (take_new 1)
      (given ∷ [])
      (view
        (redis (ok []))
        default_settings
        (backend (ok []))
        (act (redis (ok [])) default_settings (take_new 1) started).1.state)
unfolding act reserve perform queued_jobs lookup text_eq
act-Spec_example =
    act-Spec (redis (ok [])) default_settings (backend (ok [])) (take_new 1) started (given ∷ [])
      refl

-- Another consumer puts a job and settles it; a third takes this one over.
abbrev ops : List Op
ops = take_new 1 ∷ put_job (codes "j2") [] ∷ settle (codes "9-0") ∷ take_over 10 ∷ []

run_ops-due_example :
    lookup (codes "1-0") (run_ops (redis (ok [])) default_settings ops started).state.0 ≡ some owed
unfolding lookup text_eq backend
run_ops-due_example =
    run_ops-due (redis (ok [])) default_settings (backend (ok [])) (codes "1-0") owed (codes "j1")
      refl ops started refl (refl, (refl, (refl, (refl, tt))))

-- The hash of a job cannot be read.
abbrev down : Error
down = other (codes "ConnectionError") (codes "connection lost")

abbrev next_job : QueuedJob
next_job = record { entry_id = codes "2-0"; job_id = codes "j9"; deliveries = 1; fields = [] }

abbrev unicode : Unicode
unicode = record { nfkc = λ t. t; is_word = λ c. true; is_alpha = λ c. true }

abbrev no_pages : Text → Document → Exec Redis (List PageResult)
no_pages job_id document = pure []

run_job-others_example :
    lookup
      (codes "1-0")
      (run_job
        (redis (ok []))
        default_settings
        unicode
        (λ r. [])
        (λ a b. none)
        no_pages
        next_job
        started).1.state.0
    ≡ some owed
unfolding lookup text_eq backend
run_job-others_example =
    run_job-others (redis (ok [])) default_settings (backend (ok [])) (codes "1-0") owed unicode
      (λ r. []) (λ a b. none) no_pages next_job (λ job_id document. Keeps-pure []) started refl refl

run_job-owed_example :
    lookup
      (codes "1-0")
      (run_job
        (redis (err down))
        default_settings
        unicode
        (λ r. [])
        (λ a b. none)
        no_pages
        given
        started).1.state.0
    ≡ some owed
unfolding lookup text_eq backend process perform
run_job-owed_example =
    run_job-owed (redis (err down)) default_settings (backend (err down)) (codes "1-0") owed unicode
      (λ r. []) (λ a b. none) no_pages given (λ job_id document. Keeps-pure []) started down _ 0 _
      refl tt refl refl (omega arith)
