-- ===== src/Smoke/Reads.antt =====
-- What the client counts is what the gateway sent.
use ocr_serving.Base.{ℕ, suc, ◌≡◌, refl, ◌++◌, true, false, Option, some, List, [], ◌∷◌}
use ocr_serving.Base.Text.{Text, codes, nonempty, starts_with, text_or}
use ocr_serving.Base.Strip.{strip, is_line_end}
use ocr_serving.Wire.{has_line_end}
use ocr_serving.Schemas.{
  StreamEvent, EventType, event_value, job_started, page_started, token, page_complete, progress,
  job_complete, job_failed, job_cancelled,
}
use ocr_serving.Smoke.{StreamCount, counted, take_line, stream_loop}

-- What the two sides rely on of JSON: with `ensure_ascii=False` a text without line ends prints
-- without them, an object has no white space around it and is not empty, and its `data` is read back.
pub record IsEventJson (dumps_event : StreamEvent → Text) (dumps_status : Text → Text → Text)
    (loads : Text → Option Text) : Type 0 where
  pub has_line_end-dumps_event :
      (e : StreamEvent)
      → has_line_end e.content ≡ false
      → has_line_end e.job_id ≡ false
      → has_line_end (dumps_event e) ≡ false
  pub has_line_end-dumps_status :
      (job_id state : Text)
      → has_line_end job_id ≡ false
      → has_line_end state ≡ false
      → has_line_end (dumps_status job_id state) ≡ false
  pub strip-dumps_event :
      (e : StreamEvent)
      → (strip (32 ∷ dumps_event e) ≡ dumps_event e) × (nonempty (dumps_event e) ≡ true)
  pub strip-dumps_status :
      (job_id state : Text)
      → (strip (32 ∷ dumps_status job_id state) ≡ dumps_status job_id state)
        × (nonempty (dumps_status job_id state) ≡ true)
  pub loads-dumps_event : (e : StreamEvent) → loads (dumps_event e) ≡ some e.content
  pub loads-dumps_status : (job_id state : Text) → loads (dumps_status job_id state) ≡ some []

pub strip-event_value : (k : EventType) → strip (32 ∷ event_value k) ≡ event_value k
unfolding strip event_value
strip-event_value job_started = refl
strip-event_value page_started = refl
strip-event_value token = refl
strip-event_value page_complete = refl
strip-event_value progress = refl
strip-event_value job_complete = refl
strip-event_value job_failed = refl
strip-event_value job_cancelled = refl

pub event_value-clean : (k : EventType) → has_line_end (event_value k) ≡ false
unfolding has_line_end is_line_end event_value
event_value-clean job_started = refl
event_value-clean page_started = refl
event_value-clean token = refl
event_value-clean page_complete = refl
event_value-clean progress = refl
event_value-clean job_complete = refl
event_value-clean job_failed = refl
event_value-clean job_cancelled = refl

pub event_value-nonempty : (k : EventType) → nonempty (event_value k) ≡ true
unfolding event_value
event_value-nonempty job_started = refl
event_value-nonempty page_started = refl
event_value-nonempty token = refl
event_value-nonempty page_complete = refl
event_value-nonempty progress = refl
event_value-nonempty job_complete = refl
event_value-nonempty job_failed = refl
event_value-nonempty job_cancelled = refl

text_or-nonempty : (s : Text) → nonempty s ≡ true → text_or s (codes "{}") ≡ s
text_or-nonempty [] h = cc
text_or-nonempty (c ∷ s) h = refl

module _ (loads : Text → Option Text) (clock : ℕ → ℕ) where
  abbrev pub loop : ℕ → List Text → Text → StreamCount → Option StreamCount
  loop = stream_loop loads clock

  pub loop-event :
      (i : ℕ) (name : Text) (ls : List Text) (event : Text) (st : StreamCount)
      → strip (32 ∷ name) ≡ name
      → loop i ((codes "event: " ++ name) ∷ ls) event st ≡ loop (suc i) ls name st
  unfolding stream_loop take_line starts_with
  loop-event i name ls event st clean = rw clean refl

  pub loop-data :
      (i : ℕ) (payload content : Text) (ls : List Text) (event : Text) (st : StreamCount)
      → nonempty event ≡ true
      → (strip (32 ∷ payload) ≡ payload) × (nonempty payload ≡ true)
      → loads payload ≡ some content
      → loop i ((codes "data: " ++ payload) ∷ ls) event st
        ≡ loop (suc i) ls [] (counted loads event (clock i) st content)
  unfolding stream_loop take_line starts_with
  loop-data i payload content ls event st named (clean, full) reads =
      rw (named, clean) (rw (text_or-nonempty payload full) (rw reads refl))

  pub loop-id :
      (i : ℕ) (id : Text) (ls : List Text) (event : Text) (st : StreamCount)
      → loop i ((codes "id: " ++ id) ∷ ls) event st ≡ loop (suc i) ls event st
  unfolding stream_loop take_line starts_with
  loop-id i id ls event st = refl
