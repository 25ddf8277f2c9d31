-- ===== src/Streaming/Resume.antt =====
-- A subscriber that reconnects: what it receives against the stream of the job.
use ocr_serving.Base.{
  false, ◌≡◌, refl, ap, sym, ◌∙◌, Option, none, some, List, [], ◌∷◌, ◌++◌, All, Bool-cases, inl,
  inr,
}
use ocr_serving.Base.Text.{Text}
use ocr_serving.Schemas.{StreamEvent, event_terminal}
use ocr_serving.Streaming.{
  Poll, advance, last_cursor, job_over, yield_batch, poll_step, event_source,
}

-- The events among what was yielded.
unfoldable pub events_in : List (Option StreamEvent) → List StreamEvent
events_in [] = []
events_in (none ∷ xs) = events_in xs
events_in (some e ∷ xs) = e ∷ events_in xs

-- `xs` is the start of `ys`.
abbrev pub Starts : List StreamEvent → List StreamEvent → Type 0
Starts xs ys = (rest : List StreamEvent) × (ys ≡ xs ++ rest)

module _ (after : Text → List StreamEvent)
    (moves : (cursor : Text) (e : StreamEvent) (rest : List StreamEvent)
      → after cursor ≡ e ∷ rest
      → after (advance e.id cursor) ≡ rest) where
  yield_batch-Starts :
      (es rest : List StreamEvent) (cursor : Text) (next : Text → List (Option StreamEvent))
      → after cursor ≡ es ++ rest
      → ((c : Text) → Starts (events_in (next c)) (after c))
      → Starts (events_in (yield_batch es cursor next)) (after cursor)
  unfolding yield_batch events_in
  yield_batch-Starts [] rest cursor next e keep = keep cursor
  yield_batch-Starts (x ∷ es) rest cursor next e keep = elim (Bool-cases (event_terminal x.kind)) [
    | inl ends ↦ rw ends (es ++ rest, e)
    | inr goes ↦ rw goes (
        let (left, p) =
          yield_batch-Starts es rest (advance x.id cursor) next (moves cursor x (es ++ rest) e)
            keep in
        (left, e ∙ ap (λ l. x ∷ l) (sym (moves cursor x (es ++ rest) e) ∙ p)))
  ]

  -- A poll that reads what XREAD promises: the first of the entries behind the cursor.
  abbrev pub Honest : Poll → Type 0
  Honest p = (cursor : Text) → Starts (p.read cursor) (after cursor)

  poll_step-Starts :
      (p : Poll) (es : List StreamEvent) (cursor : Text) (next : Text → List (Option StreamEvent))
      → Starts es (after cursor)
      → ((c : Text) → Starts (events_in (next c)) (after c))
      → Starts (events_in (poll_step p es cursor next)) (after cursor)
  unfolding poll_step events_in
  poll_step-Starts p [] cursor next h keep = elim (Bool-cases (job_over p.job)) [
    | inl over ↦ rw over (after cursor, refl)
    | inr live ↦ rw live (keep cursor)
  ]
  poll_step-Starts p (e ∷ es) cursor next (rest, h) keep =
      yield_batch-Starts (e ∷ es) rest cursor next h keep

  -- Let each entry's id be the cursor to the entries behind it, and let each poll read the first of
  -- the entries behind its cursor. From any cursor, so also from `Last-Event-ID`, what the
  -- subscriber receives is the start of the entries behind it: in order, none skipped, none repeated.
  pub event_source-Starts :
      (polls : List Poll) (cursor : Text)
      → All Honest polls
      → Starts (events_in (event_source polls cursor)) (after cursor)
  unfolding event_source events_in
  event_source-Starts [] cursor h = (after cursor, refl)
  event_source-Starts (p ∷ polls) cursor h = elim (Bool-cases p.gone) [
    | inl left ↦ rw left (after cursor, refl)
    | inr here ↦ rw here (
        poll_step-Starts p (p.read cursor) cursor (event_source polls) (h.0 cursor)
          (λ c. event_source-Starts polls c h.1))
  ]

yield_batch-last_cursor :
    (es : List StreamEvent) (cursor : Text) (next : Text → List (Option StreamEvent))
    → All (λ e. event_terminal e.kind ≡ false) es
    → events_in (yield_batch es cursor next) ≡ es ++ events_in (next (last_cursor es cursor))
unfolding yield_batch events_in
yield_batch-last_cursor [] cursor next live = refl
yield_batch-last_cursor (e ∷ es) cursor next live =
    rw live.0 (ap (λ l. e ∷ l) (yield_batch-last_cursor es (advance e.id cursor) next live.1))

-- A connected subscriber receives the whole of a batch that does not end the job, and the stream goes
-- on behind the last entry of the batch.
pub event_source-delivers :
    (p : Poll) (polls : List Poll) (cursor : Text) (e : StreamEvent) (es : List StreamEvent)
    → p.gone ≡ false
    → p.read cursor ≡ e ∷ es
    → All (λ x. event_terminal x.kind ≡ false) (e ∷ es)
    → events_in (event_source (p ∷ polls) cursor)
      ≡ (e ∷ es) ++ events_in (event_source polls (last_cursor (e ∷ es) cursor))
unfolding event_source poll_step
event_source-delivers p polls cursor e es here batch live =
    rw here (rw batch (yield_batch-last_cursor (e ∷ es) cursor (event_source polls) live))
