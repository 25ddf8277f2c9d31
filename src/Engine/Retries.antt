-- ===== src/Engine/Retries.antt =====
-- What `ocr_page_stream` returns against what it streamed, over all its attempts.
use ocr_serving.Base.{
  ℕ, zero, suc, ◌≡◌, refl, ap, sym, ◌∙◌, ◌++◌, ◌+◌, ◌≤◌, Bool, true, false, Option, none, some,
  List, [], arith, append_assoc, ◌-◌, not, ◌&&◌, ◌||◌, ltb, Bool-cases, inl, inr,
}
use ocr_serving.Base.Text.{Text}
use ocr_serving.Engine.{
  Fault, retryable, Response, new_stats, Run, Outcome, returned, raised, consume_stream,
  after_fault, after_attempt, attempt_loop, ocr_page_stream, reset, ended_badly, fault_text,
  ChunkJson,
}
use ocr_serving.Engine.Deltas.{flat, Streamed, deltas, consume_stream-Streamed}

module _ (json_loads : Text → Option ChunkJson) (on_delta : Text → Option Fault)
    (answers : ℕ → Response) (starts ends : ℕ → ℕ) where
  -- The deltas of `k` attempts, from the attempt `i` on.
  unfoldable pub earlier : ℕ → ℕ → List Text
  unfolding deltas
  earlier zero i = []
  earlier (suc k) i = deltas json_loads on_delta (answers i) ++ earlier k (suc i)

  -- The attempts from `attempt` on have led to `new`: `k` failed and were retried, then one ended.
  abbrev Ended : ℕ → ℕ → Run → Run → Type 0
  Ended attempt left old new =
      (k last : ℕ) × (last ≡ k + attempt)
      × (k ≤ left)
      × (new.told ≡ old.told ++ (earlier k attempt ++ deltas json_loads on_delta (answers last)))
      × (new.stats.text ≡ flat (deltas json_loads on_delta (answers last)))
      × (new.stats.attempts ≡ last)

  Ended-one :
      (attempt left : ℕ) (old new : Run)
      → old.stats.text ≡ []
      → old.stats.attempts ≡ attempt
      → Streamed (deltas json_loads on_delta (answers attempt)) old new
      → Ended attempt left old new
  unfolding earlier
  Ended-one attempt left old new empty now (t, x, n) = (
    0,
    attempt,
    omega arith,
    omega arith,
    t,
    x ∙ ap (λ y. y ++ flat (deltas json_loads on_delta (answers attempt))) empty,
    n ∙ now,
  )

  Ended-more :
      (attempt left : ℕ) (old mid new : Run)
      → mid.told ≡ old.told ++ deltas json_loads on_delta (answers attempt)
      → Ended (suc attempt) left mid new
      → Ended attempt (suc left) old new
  unfolding earlier
  Ended-more attempt left old mid new before (k, last, e, few, t, x, n) =
      let first = deltas json_loads on_delta (answers attempt) in
      let ending = deltas json_loads on_delta (answers last) in
      (
        suc k,
        last,
        omega (arith, e),
        omega (arith, few),
        t
            ∙ (ap (λ y. y ++ (earlier k (suc attempt) ++ ending)) before
                ∙ (append_assoc old.told first (earlier k (suc attempt) ++ ending)
                    ∙ ap (λ y. old.told ++ y)
                        (sym (append_assoc first (earlier k (suc attempt)) ending)))),
        x,
        n,
      )

  module _ (max_retries : ℕ) where
    -- The attempts from `attempt` on, of which `left` may follow the first.
    abbrev loop : ℕ → ℕ → Run → Run
    loop left attempt =
        attempt_loop json_loads on_delta answers starts ends max_retries left attempt

    or_true : (b c : Bool) → c ≡ true → b || c ≡ true
    or_true true c h = refl
    or_true false c h = h

    -- The fault of the last attempt, and that of an attempt before it.
    last_fault-Ended :
        (attempt : ℕ) (e : Fault) (old r : Run) (again : Run → Run)
        → ltb max_retries attempt ≡ true
        → Ended attempt 0 old r
        → Ended attempt 0 old
            (after_fault json_loads on_delta answers starts ends max_retries attempt e r again)
    unfolding after_fault
    last_fault-Ended attempt e old r again last h =
        rw (or_true (not (retryable e && true)) (ltb max_retries attempt) last) h

    early_fault-Ended :
        (attempt left : ℕ) (e : Fault) (old r : Run)
        → old.stats.text ≡ []
        → old.stats.attempts ≡ attempt
        → Streamed (deltas json_loads on_delta (answers attempt)) old r
        → ((r' : Run)
            → r'.stats.text ≡ []
            → Ended (suc attempt) left r' (loop (suc left) (suc attempt) r'))
        → Ended attempt (suc left) old (
            after_fault json_loads on_delta answers starts ends max_retries attempt e r
              (loop (suc left) (suc attempt)))
    unfolding after_fault
    early_fault-Ended attempt left e old r empty now told keep =
        let next =
          reset json_loads on_delta answers starts ends max_retries
            (ended_badly json_loads on_delta answers starts ends max_retries attempt e r) in
        elim (Bool-cases (not (retryable e && true) || ltb max_retries attempt)) [
          | inl last ↦ rw last (Ended-one attempt (suc left) old r empty now told)
          | inr more ↦ rw more (
              Ended-more attempt left old next (loop (suc left) (suc attempt) next) told.0
                (keep next refl))
        ]

    -- One round of the loop, by what becomes of its fault.
    round-Ended :
        (left attempt : ℕ) (run : Run)
        → run.stats.text ≡ []
        → ((e : Fault) (old r : Run)
            → old.stats.text ≡ []
            → old.stats.attempts ≡ attempt
            → Streamed (deltas json_loads on_delta (answers attempt)) old r
            → Ended attempt left old (
                after_fault json_loads on_delta answers starts ends max_retries attempt e r
                  (loop left (suc attempt))))
        → Ended attempt left run (loop (suc left) attempt run)
    unfolding attempt_loop
    round-Ended left attempt run empty on_fault =
        go (consume_stream json_loads on_delta (starts attempt) (answers attempt) false run') (
          consume_stream-Streamed json_loads on_delta (starts attempt) (answers attempt) false run')
      where
        run' : Run
        run' = record run { stats = record run.stats { attempts = attempt } }

        go :
            (o : Outcome × Run)
            → Streamed (deltas json_loads on_delta (answers attempt)) run' o.1
            → Ended attempt left run (
                after_attempt json_loads on_delta answers starts ends max_retries attempt o
                  (loop left (suc attempt)))
        go (returned b, r) told = Ended-one attempt left run' r empty refl told
        go (raised e, r) told = on_fault e run' r empty refl told

    attempt_loop-Ended :
        (left attempt : ℕ) (run : Run)
        → attempt + left ≡ suc max_retries
        → run.stats.text ≡ []
        → Ended attempt left run (loop (suc left) attempt run)
    attempt_loop-Ended zero attempt run room empty =
        round-Ended zero attempt run empty (λ e old r empty now told.
          last_fault-Ended attempt e old r (loop zero (suc attempt)) (ground (arith, room))
            (Ended-one attempt zero old r empty now told))
    attempt_loop-Ended (suc left) attempt run room empty =
        round-Ended (suc left) attempt run empty (λ e old r empty now told.
          early_fault-Ended attempt left e old r empty now told
            (λ r' empty'. attempt_loop-Ended left (suc attempt) r' (omega (arith, room)) empty'))

    -- `on_delta` is told the deltas of the attempts that were retried, in order, and then those of the
    -- last attempt, as their responses have them; the text is made of the deltas of the last attempt
    -- alone. At most `max_retries` attempts are retried.
    pub ocr_page_stream-text :
        (k : ℕ) × (k ≤ max_retries)
        × ((ocr_page_stream json_loads on_delta answers starts ends max_retries).told
            ≡ earlier k 1 ++ deltas json_loads on_delta (answers (suc k)))
        × ((ocr_page_stream json_loads on_delta answers starts ends max_retries).stats.text
            ≡ flat (deltas json_loads on_delta (answers (suc k))))
        × ((ocr_page_stream json_loads on_delta answers starts ends max_retries).stats.attempts
            ≡ suc k)
    unfolding ocr_page_stream
    ocr_page_stream-text =
        let (k, last, e, few, t, x, n) =
          attempt_loop-Ended max_retries 1 (record { stats = new_stats; told = [] }) (omega arith)
            refl in
        let same : last ≡ suc k = omega (arith, e) in
        (
          k,
          few,
          t ∙ ap (λ i. earlier k 1 ++ deltas json_loads on_delta (answers i)) same,
          x ∙ ap (λ i. flat (deltas json_loads on_delta (answers i))) same,
          n ∙ same,
        )

  -- The first run, and the one that a failed first attempt leaves to the second.
  abbrev pub first_run : Run
  first_run = record { stats = new_stats; told = [] }

  abbrev pub second_run : ℕ → Fault → Run → Run
  second_run max_retries e r =
      let again : Run = reset json_loads on_delta answers starts ends max_retries r in
      record again {
        stats = record again.stats {
          attempts = 2;
          error = some (fault_text e);
          e2e_s = ends 1 - starts 1;
        };
      }

  -- A first attempt that fails with a retryable fault is retried whatever it has told `on_delta`
  -- already. If the second attempt succeeds, `on_delta` was told the deltas of both, while the text
  -- is that of the second alone.
  pub retry_repeats :
      (more : ℕ) (e : Fault) (r₁ : Run) (b : Bool) (r₂ : Run)
      → consume_stream json_loads on_delta (starts 1) (answers 1) false first_run ≡ (raised e, r₁)
      → retryable e ≡ true
      → consume_stream json_loads on_delta (starts 2) (answers 2) false (second_run (suc more) e r₁)
        ≡ (returned b, r₂)
      → (ds : List Text) × ((ocr_page_stream json_loads on_delta answers starts ends
            (suc more)).told
          ≡ r₁.told ++ ds)
        × ((ocr_page_stream json_loads on_delta answers starts ends (suc more)).stats.text
            ≡ flat ds)
        × ((ocr_page_stream json_loads on_delta answers starts ends (suc more)).stats.error ≡ none)
  unfolding ocr_page_stream attempt_loop after_fault
  retry_repeats more e r₁ b r₂ failed again worked =
      let ds = deltas json_loads on_delta (answers 2) in
      let (t, x, n) =
        consume_stream-Streamed json_loads on_delta (starts 2) (answers 2) false
          (second_run (suc more) e r₁) in
      (
        ds,
        ap (λ r. r.told) result ∙ (ap (λ o. o.1.told) (sym worked) ∙ t),
        ap (λ r. r.stats.text) result ∙ (ap (λ o. o.1.stats.text) (sym worked) ∙ x),
        ap (λ r. r.stats.error) result,
      )
    where
      not_last : ltb (suc more) 1 ≡ false
      not_last = ground arith

      result :
          ocr_page_stream json_loads on_delta answers starts ends (suc more)
          ≡ record r₂ { stats = record r₂.stats { e2e_s = ends 2 - starts 2; error = none } }
      result = rw failed (rw again (rw not_last (rw worked)))
