-- ===== src/Streaming.antt =====
-- gateway/main.py: the two streams of a job's events, `_event_source` behind the SSE endpoint and the
-- loop of the WebSocket, and what each sends. A stream is run against the polls of its loop: what the
-- client's connection, XREAD and the job's hash answer each time.
pub mod Resume
pub mod Frames
use ocr_serving.Base.{
  Bool, true, false, Option, none, some, List, [], ◌∷◌, ◌++◌, ◌||◌, map, if◌then◌else◌, ℕ, ◌==◌,
}
use ocr_serving.Base.Text.{Text, codes, text_eq, text_or}
use ocr_serving.Base.Dict.{Dict, lookup}
use ocr_serving.Schemas.{job_status, status_terminal, event_terminal, StreamEvent}
use ocr_serving.Events.{get_default, from_start, from_now}

pub record Poll : Type 0 where
  -- `request.is_disconnected()`
  pub gone : Bool
  -- `read_events(r, job_id, cursor)`
  pub read : Text → List StreamEvent
  -- `get_job`, where the batch was empty
  pub job : Dict Text

-- `event.id or cursor`
abbrev pub advance : Option Text → Text → Text
advance none cursor = cursor
advance (some id) cursor = text_or id cursor

-- `not job or JobStatus(job.get("status", "queued")).terminal`; a status that is none raises, which
-- ends the stream too.
unfoldable pub job_over : Dict Text → Bool
unfolding job_status status_terminal
job_over [] = true
job_over (f ∷ job) = elim (job_status (get_default (codes "status") (f ∷ job) (codes "queued"))) [
  | none ↦ true
  | some status ↦ status_terminal status
]

-- The events of a batch, up to the first that ends the job; `next` goes on from the cursor.
unfoldable pub yield_batch :
    List StreamEvent → Text → (Text → List (Option StreamEvent)) → List (Option StreamEvent)
unfolding event_terminal
yield_batch [] cursor next = next cursor
yield_batch (e ∷ es) cursor next =
    let rest = yield_batch es (advance e.id cursor) next in
    if event_terminal e.kind then some e ∷ [] else some e ∷ rest

-- One turn of the loop; `none` is a keepalive.
unfoldable pub poll_step :
    Poll → List StreamEvent → Text → (Text → List (Option StreamEvent)) → List (Option StreamEvent)
unfolding job_over yield_batch
poll_step p [] cursor next = if job_over p.job then [] else none ∷ next cursor
poll_step p (e ∷ es) cursor next = yield_batch (e ∷ es) cursor next

-- `_event_source`
unfoldable pub event_source : List Poll → Text → List (Option StreamEvent)
unfolding poll_step
event_source [] cursor = []
event_source (p ∷ polls) cursor =
    if p.gone then [] else poll_step p (p.read cursor) cursor (event_source polls)

-- Where `stream` starts: behind `Last-Event-ID`, or at the start, or at the end.
unfoldable pub start_id : Text → Bool → Text
start_id last_event_id replay = text_or last_event_id (if replay then from_start else from_now)

-- What the SSE endpoint sends, in order: the status, then each event or a keepalive, then the end.
pub data SseFrame : Type 0 where
  status_frame : Text → SseFrame
  event_frame : StreamEvent → SseFrame
  keepalive : SseFrame
  end_frame : Text → SseFrame

abbrev pub frame : Option StreamEvent → SseFrame
frame none = keepalive
frame (some e) = event_frame e

-- `stream`: 503 when `slots` are all taken; `final` is the job's hash at the end. The status of the
-- first frame is a status, or its reading raises.
unfoldable pub stream :
    Bool → Dict Text → Dict Text → List Poll → Text → Bool → Option (List SseFrame)
unfolding event_source start_id
stream locked job final polls last_event_id replay =
    if locked
    then none
    else some (
        status_frame (get_default (codes "status") job (codes "queued"))
        ∷ (map frame (event_source polls (start_id last_event_id replay))
            ++ end_frame (get_default (codes "status") final (codes "unknown")) ∷ []))

-- What the WebSocket sends, or the code with which it is closed at once.
pub data WsReply : Type 0 where
  closed : ℕ → WsReply
  sent : Text → List (Option StreamEvent) → WsReply

abbrev pub ends_job : List StreamEvent → Bool
ends_job [] = false
ends_job (e ∷ es) = event_terminal e.kind || ends_job es

abbrev pub last_cursor : List StreamEvent → Text → Text
last_cursor [] cursor = cursor
last_cursor (e ∷ es) cursor = last_cursor es (advance e.id cursor)

unfoldable pub ws_step :
    Poll → List StreamEvent → Text → (Text → List (Option StreamEvent)) → List (Option StreamEvent)
unfolding job_over
ws_step p [] cursor next = if job_over p.job then [] else none ∷ next cursor
ws_step p (e ∷ es) cursor next =
    if ends_job (e ∷ es)
    then map some (e ∷ es)
    else map some (e ∷ es) ++ next (last_cursor (e ∷ es) cursor)

-- The loop of the WebSocket: a batch is sent whole, then the loop ends if the batch ended the job.
-- `gone` is the exception of a send to a client that went away.
unfoldable pub ws_source : List Poll → Text → List (Option StreamEvent)
unfolding ws_step
ws_source [] cursor = []
ws_source (p ∷ polls) cursor =
    if p.gone then [] else ws_step p (p.read cursor) cursor (ws_source polls)

-- `websocket_stream`, by the tenant of the presented key and the hash of the job.
unfoldable pub websocket_stream : Option Text → Dict Text → List Poll → Text → WsReply
unfolding ws_source text_eq
websocket_stream none job polls last_event_id = closed 4401
websocket_stream (some tenant) [] polls last_event_id = closed 4404
websocket_stream (some tenant) (f ∷ job) polls last_event_id =
    if text_eq (get_default (codes "tenant") (f ∷ job) (codes "default")) tenant
    then sent (get_default (codes "status") (f ∷ job) (codes "queued"))
        (ws_source polls (text_or last_event_id from_start))
    else closed 4404
