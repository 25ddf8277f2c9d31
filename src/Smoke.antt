-- ===== src/Smoke.antt =====
-- scripts/smoke.py: `stream_job`, the example client of the SSE stream. httpx's lines and the JSON
-- decoder are parameters; what it prints is left out.
pub mod Reads
pub mod Tally
use ocr_serving.Base.{
  ℕ, suc, ◌+◌, ◌-◌, Bool, true, false, ◌&&◌, Option, none, some, List, [], ◌∷◌, drop, length,
  if◌then◌else◌,
}
use ocr_serving.Base.Text.{Text, codes, text_eq, starts_with, nonempty, text_or}
use ocr_serving.Base.Strip.{strip}
use ocr_serving.Base.Dict.{Dict, lookup, insert}

pub record StreamCount : Type 0 where
  pub events : Dict ℕ
  pub ttft_s : Option ℕ
  pub stream_chars : ℕ

abbrev count_or : Option ℕ → ℕ
count_or none = 0
count_or (some n) = n

-- `counts[event] = counts.get(event, 0) + 1`
unfoldable pub count_event : Text → Dict ℕ → Dict ℕ
count_event event counts = insert event (suc (count_or (lookup event counts))) counts

abbrev first_of : Option ℕ → ℕ → Option ℕ
first_of none now = some now
first_of (some t) now = some t

-- `json.loads` gives the member `data` of the payload, empty when it is missing; `none` is its
-- exception. `since` is the time since the start.
module _ (loads : Text → Option Text) where
  abbrev pub counted : Text → ℕ → StreamCount → Text → StreamCount
  counted event since st content =
      if text_eq event (codes "token")
      then record {
        events = count_event event st.events;
        ttft_s = first_of st.ttft_s since;
        stream_chars = st.stream_chars + length content;
      }
      else record st { events = count_event event st.events }

  -- What a payload does, with what follows it.
  abbrev counted_then :
      Text
      → ℕ
      → StreamCount
      → Option Text
      → (Text → StreamCount → Option StreamCount)
      → Option StreamCount
  counted_then event since st none next = none
  counted_then event since st (some content) next = next [] (counted event since st content)

  -- One line: `event` is the name that waits for its data.
  unfoldable pub take_line :
      ℕ → Text → Text → StreamCount → (Text → StreamCount → Option StreamCount) → Option StreamCount
  unfolding count_event strip text_eq
  take_line since l event st next =
      if starts_with l (codes "event:")
      then next (strip (drop 6 l)) st
      else if starts_with l (codes "data:") && nonempty event
      then counted_then event since st (loads (text_or (strip (drop 5 l)) (codes "{}"))) next
      else next event st

  -- The loop over the lines, the `i`th at the time `clock i`.
  unfoldable pub stream_loop : (ℕ → ℕ) → ℕ → List Text → Text → StreamCount → Option StreamCount
  unfolding take_line
  stream_loop clock i [] event st = some st
  stream_loop clock i (l ∷ ls) event st =
      take_line (clock i) l event st (stream_loop clock (suc i) ls)

  -- `stream_job` on the lines of a response.
  unfoldable pub stream_job : (ℕ → ℕ) → List Text → Option StreamCount
  unfolding stream_loop
  stream_job clock lines =
      stream_loop clock 0 lines [] (record { events = []; ttft_s = none; stream_chars = 0 })
