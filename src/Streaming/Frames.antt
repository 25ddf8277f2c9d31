-- ===== src/Streaming/Frames.antt =====
-- gateway/main.py: the text of the SSE endpoint's frames, `_sse` and the generator of `stream`. JSON
-- is a parameter: of an event, and of a job's id with a status.
use ocr_serving.Base.{Option, none, some, List, [], ◌∷◌, ◌++◌}
use ocr_serving.Base.Text.{Text, codes}
use ocr_serving.Schemas.{StreamEvent, event_value}
use ocr_serving.Streaming.{SseFrame, status_frame, event_frame, keepalive, end_frame}

-- `f"{event.id}"`
abbrev pub printed_id : Option Text → Text
printed_id none = codes "None"
printed_id (some id) = id

-- One line of a frame, and its end.
abbrev pub text_line : Text → Text → Text
text_line l rest = l ++ 10 ∷ rest

module _ (dumps_event : StreamEvent → Text) (dumps_status : Text → Text → Text) where
  -- `_sse`; `rest` is what follows.
  unfoldable pub sse : StreamEvent → Text → Text
  sse event rest = text_line (codes "id: " ++ printed_id event.id) (
      text_line (codes "event: " ++ event_value event.kind)
        (text_line (codes "data: " ++ dumps_event event) (text_line [] rest)))

  unfoldable pub print_frame : Text → SseFrame → Text → Text
  unfolding sse
  print_frame job_id (status_frame state) rest =
      text_line (codes "event: status")
        (text_line (codes "data: " ++ dumps_status job_id state) (text_line [] rest))
  print_frame job_id (event_frame event) rest = sse event rest
  print_frame job_id keepalive rest = text_line (codes ": keepalive") (text_line [] rest)
  print_frame job_id (end_frame state) rest =
      text_line (codes "event: end")
        (text_line (codes "data: " ++ dumps_status job_id state) (text_line [] rest))

  -- The body of the response.
  unfoldable pub print_frames : Text → List SseFrame → Text
  unfolding print_frame
  print_frames job_id [] = []
  print_frames job_id (f ∷ fs) = print_frame job_id f (print_frames job_id fs)
