-- ===== src/Smoke/Tally.antt =====
-- What the client counts is what the gateway sent.
use ocr_serving.Base.{
  ℕ, suc, ◌≡◌, refl, ap, ◌∙◌, ◌+◌, ◌++◌, true, false, Option, none, some, List, [], ◌∷◌, arith,
  length, All,
}
use ocr_serving.Base.Text.{Text, codes, text_eq, nonempty, starts_with}
use ocr_serving.Base.Strip.{strip, is_line_end}
use ocr_serving.Base.Dict.{Dict}
use ocr_serving.Wire.{has_line_end, IsLines}
use ocr_serving.Schemas.{
  StreamEvent, EventType, event_value, job_started, page_started, token, page_complete, progress,
  job_complete, job_failed, job_cancelled,
}
use ocr_serving.Streaming.{SseFrame, status_frame, event_frame, keepalive, end_frame}
use ocr_serving.Streaming.Frames.{printed_id, text_line, sse, print_frame, print_frames}
use ocr_serving.Smoke.{StreamCount, count_event, counted, stream_loop, take_line, stream_job}
use ocr_serving.Smoke.Reads.{
  IsEventJson, loop, loop-event, loop-data, loop-id, strip-event_value, event_value-clean,
  event_value-nonempty,
}

-- The name under which the client counts a frame.
abbrev pub counted_as : SseFrame → Dict ℕ → Dict ℕ
counted_as (status_frame state) counts = count_event (codes "status") counts
counted_as (event_frame e) counts = count_event (event_value e.kind) counts
counted_as keepalive counts = counts
counted_as (end_frame state) counts = count_event (codes "end") counts

-- The frames of each name, in the order of their first frame.
pub tally : List SseFrame → Dict ℕ → Dict ℕ
tally [] counts = counts
tally (f ∷ fs) counts = tally fs (counted_as f counts)

abbrev pub token_length : SseFrame → ℕ
token_length (event_frame e) = elim e.kind [ token ↦ length e.content | _ ↦ 0 ]
token_length _ = 0

-- The characters of all tokens.
pub token_chars : List SseFrame → ℕ
token_chars [] = 0
token_chars (f ∷ fs) = token_length f + token_chars fs

-- No text of the frame has a line end in it.
abbrev pub IsClean : SseFrame → Type 0
IsClean (status_frame state) = has_line_end state ≡ false
IsClean (event_frame e) =
    (has_line_end (printed_id e.id) ≡ false)
    × (has_line_end e.content ≡ false)
    × (has_line_end e.job_id ≡ false)
IsClean keepalive = Unit
IsClean (end_frame state) = has_line_end state ≡ false

module _ {lines : Text → List Text} (splits : IsLines lines) where
  lines-data :
      (payload rest : Text)
      → has_line_end payload ≡ false
      → lines (text_line (codes "data: " ++ payload) (text_line [] rest))
        ≡ (codes "data: " ++ payload) ∷ [] ∷ lines rest
  unfolding has_line_end is_line_end
  lines-data payload rest clean =
      splits.lines-append (codes "data: " ++ payload) (text_line [] rest) clean
      ∙ ap (λ ls. (codes "data: " ++ payload) ∷ ls) (splits.lines-append [] rest refl)

  lines-event :
      (name rest : Text)
      → has_line_end name ≡ false
      → lines (text_line (codes "event: " ++ name) rest) ≡ (codes "event: " ++ name) ∷ lines rest
  unfolding has_line_end is_line_end
  lines-event name rest clean = splits.lines-append (codes "event: " ++ name) rest clean

  lines-id :
      (id rest : Text)
      → has_line_end id ≡ false
      → lines (text_line (codes "id: " ++ id) rest) ≡ (codes "id: " ++ id) ∷ lines rest
  unfolding has_line_end is_line_end
  lines-id id rest clean = splits.lines-append (codes "id: " ++ id) rest clean

-- `new` counts one frame more than `old`.
abbrev Counts : SseFrame → StreamCount → StreamCount → Type 0
Counts f old new =
    (new.events ≡ counted_as f old.events) × (new.stream_chars ≡ old.stream_chars + token_length f)

module _ (loads : Text → Option Text) where
  counted-event :
      (e : StreamEvent) (k : EventType) (t : ℕ) (st : StreamCount)
      → e.kind ≡ k
      → Counts (event_frame e) st (counted loads (event_value e.kind) t st e.content)
  unfolding event_value text_eq
  counted-event e job_started t st h = rw h (refl, omega arith)
  counted-event e page_started t st h = rw h (refl, omega arith)
  counted-event e token t st h = rw h (refl, refl)
  counted-event e page_complete t st h = rw h (refl, omega arith)
  counted-event e progress t st h = rw h (refl, omega arith)
  counted-event e job_complete t st h = rw h (refl, omega arith)
  counted-event e job_failed t st h = rw h (refl, omega arith)
  counted-event e job_cancelled t st h = rw h (refl, omega arith)

module _ {dumps_event : StreamEvent → Text} {dumps_status : Text → Text → Text}
    {loads : Text → Option Text} {lines : Text → List Text} (splits : IsLines lines)
    (json : IsEventJson dumps_event dumps_status loads) (clock : ℕ → ℕ) (job_id : Text)
    (clean_id : has_line_end job_id ≡ false) where
  -- A named payload and the empty line behind it.
  loop-named :
      (i : ℕ) (name payload content rest : Text) (st : StreamCount)
      → has_line_end name ≡ false
      → strip (32 ∷ name) ≡ name
      → nonempty name ≡ true
      → has_line_end payload ≡ false
      → (strip (32 ∷ payload) ≡ payload) × (nonempty payload ≡ true)
      → loads payload ≡ some content
      → loop loads clock i
          (lines (
            text_line
              (codes "event: " ++ name)
              (text_line (codes "data: " ++ payload) (text_line [] rest))))
          []
          st
        ≡ loop loads clock
            (suc (suc (suc i)))
            (lines rest)
            []
            (counted loads name (clock (suc i)) st content)
  unfolding stream_loop take_line starts_with
  loop-named i name payload content rest st clean trimmed full clean' trimmed' reads =
      rw (lines-event splits name (text_line (codes "data: " ++ payload) (text_line [] rest)) clean)
        (rw (lines-data splits payload rest clean') (
          loop-event loads clock i name ((codes "data: " ++ payload) ∷ [] ∷ lines rest) [] st
            trimmed
          ∙ loop-data loads clock (suc i) payload content ([] ∷ lines rest) name st full trimmed'
              reads))

  -- A frame, whatever follows it.
  loop-frame :
      (i : ℕ) (f : SseFrame) (rest : Text) (st : StreamCount)
      → IsClean f
      → (i' : ℕ) × (new : StreamCount) × (loop loads clock i
            (lines (print_frame dumps_event dumps_status job_id f rest))
            []
            st
          ≡ loop loads clock i' (lines rest) [] new)
        × Counts f st new
  unfolding print_frame sse has_line_end is_line_end strip starts_with take_line stream_loop text_eq
  loop-frame i (status_frame state) rest st clean = (
    suc (suc (suc i)),
    counted loads (codes "status") (clock (suc i)) st [],
    loop-named i (codes "status") (dumps_status job_id state) [] rest st refl refl refl
        (json.has_line_end-dumps_status job_id state clean_id clean)
        (json.strip-dumps_status job_id state) (json.loads-dumps_status job_id state),
    (refl, omega arith),
  )
  loop-frame i (end_frame state) rest st clean = (
    suc (suc (suc i)),
    counted loads (codes "end") (clock (suc i)) st [],
    loop-named i (codes "end") (dumps_status job_id state) [] rest st refl refl refl
        (json.has_line_end-dumps_status job_id state clean_id clean)
        (json.strip-dumps_status job_id state) (json.loads-dumps_status job_id state),
    (refl, omega arith),
  )
  loop-frame i keepalive rest st clean = (
    suc (suc i),
    st,
    rw (splits.lines-append (codes ": keepalive") (text_line [] rest) refl)
        (rw (splits.lines-append [] rest refl) refl),
    (refl, omega arith),
  )
  loop-frame i (event_frame e) rest st (id, content, owner) = (
    suc (suc (suc (suc i))),
    counted loads (event_value e.kind) (clock (suc (suc i))) st e.content,
    rw
        (lines-id splits (printed_id e.id)
          (text_line (codes "event: " ++ event_value e.kind)
            (text_line (codes "data: " ++ dumps_event e) (text_line [] rest)))
          id)
        (loop-id loads clock i (printed_id e.id)
            (lines (
              text_line (codes "event: " ++ event_value e.kind)
                (text_line (codes "data: " ++ dumps_event e) (text_line [] rest))))
            [] st
          ∙ loop-named (suc i) (event_value e.kind) (dumps_event e) e.content rest st
              (event_value-clean e.kind) (strip-event_value e.kind) (event_value-nonempty e.kind)
              (json.has_line_end-dumps_event e content owner) (json.strip-dumps_event e)
              (json.loads-dumps_event e)),
    counted-event loads e e.kind (clock (suc (suc i))) st refl,
  )

  loop-frames :
      (i : ℕ) (fs : List SseFrame) (st : StreamCount)
      → All IsClean fs
      → (new : StreamCount) × (loop loads clock i
            (lines (print_frames dumps_event dumps_status job_id fs))
            []
            st
          ≡ some new)
        × (new.events ≡ tally fs st.events)
        × (new.stream_chars ≡ st.stream_chars + token_chars fs)
  unfolding print_frames stream_loop tally token_chars
  loop-frames i [] st clean = (st, rw splits.lines-nil refl, refl, omega arith)
  loop-frames i (f ∷ fs) st clean =
      let (i', next, same, (events, chars)) =
        loop-frame i f (print_frames dumps_event dumps_status job_id fs) st clean.0 in
      let (new, same', events', chars') = loop-frames i' fs next clean.1 in
      (new, same ∙ same', events' ∙ ap (tally fs) events, omega arith)

  -- The client that reads the lines of the frames that the endpoint printed raises nothing, counts
  -- the frames by their names, keepalives left out, and adds up the characters of the tokens. The
  -- texts in the frames have no line end in them, and JSON keeps to one line then, is not empty and
  -- is read back.
  pub stream_job-print_frames :
      (fs : List SseFrame)
      → All IsClean fs
      → (new : StreamCount) × (stream_job loads clock
            (lines (print_frames dumps_event dumps_status job_id fs))
          ≡ some new)
        × (new.events ≡ tally fs [])
        × (new.stream_chars ≡ token_chars fs)
  unfolding stream_job
  stream_job-print_frames fs clean =
      let (new, same, events, chars) =
        loop-frames 0 fs (record { events = []; ttft_s = none; stream_chars = 0 }) clean in
      (new, same, events, omega arith)
