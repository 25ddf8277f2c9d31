-- ===== src/Tests/WireTests.antt =====
-- The clients against the texts that the services write, with a small JSON: an object is a brace, a
-- letter, the values shifted out of the way of spaces and line ends, and a brace.
use ocr_serving.Base.{
  ℕ, ◌≡◌, refl, ap, ◌+◌, ◌-◌, Bool, true, false, Option, none, some, List, [], ◌∷◌, arith,
  if◌then◌else◌, ◌==◌, All, inl, inr, Bool-cases,
}
use ocr_serving.Base.Text.{Text, codes, text_eq, nonempty}
use ocr_serving.Base.Strip.{is_space, is_line_end, lstrip, rstrip, strip, split_lines}
use ocr_serving.Wire.{has_line_end, split_lines-IsLines}
use ocr_serving.Config.{default_settings}
use ocr_serving.Engine.{Fault, ChunkJson, Run, ocr_page_stream}
use ocr_serving.Engine.Deltas.{flat}
use ocr_serving.Engine.Payload.{OcrClient, client_from_settings, payload}
use ocr_serving.Mock.{Payload, opening, delta, closing, usage, completion, Answer, chat_completions}
use ocr_serving.Mock.Answers.{json_of, IsJson, response_of}
use ocr_serving.Mock.Agree.{stream_agrees}
use ocr_serving.Schemas.{EventType, token, job_complete, StreamEvent}
use ocr_serving.Streaming.{SseFrame, status_frame, event_frame, keepalive, end_frame}
use ocr_serving.Streaming.Frames.{print_frames}
use ocr_serving.Smoke.{StreamCount, stream_job}
use ocr_serving.Smoke.Reads.{IsEventJson}
use ocr_serving.Smoke.Tally.{IsClean, tally, token_chars, stream_job-print_frames}

abbrev shift : ℕ → ℕ
shift c = c + 20000

shift_text : Text → Text
shift_text [] = b'}' ∷ []
shift_text (c ∷ s) = shift c ∷ shift_text s

unshift_text : Text → Text
unshift_text [] = []
unshift_text (c ∷ s) = let rest = unshift_text s in if c == b'}' then [] else (c - 20000) ∷ rest

unshift-shift : (s : Text) → unshift_text (shift_text s) ≡ s
unfolding unshift_text shift_text
unshift-shift [] = refl
unshift-shift (c ∷ s) = ground (arith, unshift-shift s)

abbrev Plain : Text → Type 0
Plain s = All (λ c. is_space c ≡ false) s

is_space-shift : (c : ℕ) → is_space (shift c) ≡ false
unfolding is_space
is_space-shift c = ground arith

shift_text-Plain : (s : Text) → Plain (shift_text s)
unfolding shift_text is_space
shift_text-Plain [] = (refl, tt)
shift_text-Plain (c ∷ s) = (is_space-shift c, shift_text-Plain s)

has_line_end-shift : (s : Text) → has_line_end (shift_text s) ≡ false
unfolding shift_text has_line_end is_line_end
has_line_end-shift [] = refl
has_line_end-shift (c ∷ s) = ground (arith, has_line_end-shift s)

rstrip-Plain : (s : Text) → Plain s → rstrip s ≡ s
unfolding rstrip
rstrip-Plain [] h = refl
rstrip-Plain (c ∷ []) h = rw (h.0, rstrip) refl
rstrip-Plain (c ∷ d ∷ s) h = rw (rstrip-Plain (d ∷ s) h.1) refl

strip-braced : (s : Text) → Plain s → strip (32 ∷ b'{' ∷ s) ≡ b'{' ∷ s
unfolding strip lstrip is_space
strip-braced s h = rstrip-Plain (b'{' ∷ s) (refl, h)

-- The letter and the values of a payload.
abbrev content : Payload → Text
content opening = b'o' ∷ b'}' ∷ []
content (delta text) = b'd' ∷ shift_text text
content closing = b'c' ∷ b'}' ∷ []
content (usage prompt n) = b'u' ∷ shift prompt ∷ shift n ∷ b'}' ∷ []

abbrev dumps : Payload → Text
dumps p = b'{' ∷ content p

abbrev counts : Text → Option ChunkJson
counts (prompt ∷ n ∷ s) = some (json_of (usage (prompt - 20000) (n - 20000)))
counts (c ∷ []) = none
counts [] = none

loads : Text → Option ChunkJson
loads (brace ∷ letter ∷ s) =
    if letter == b'd'
    then some (json_of (delta (unshift_text s)))
    else if letter == b'u'
    then counts s
    else if letter == b'c'
    then some (json_of closing)
    else some (json_of opening)
loads (c ∷ []) = none
loads [] = none

content-Plain : (p : Payload) → Plain (content p)
unfolding is_space
content-Plain opening = (refl, (refl, tt))
content-Plain (delta text) = (refl, shift_text-Plain text)
content-Plain closing = (refl, (refl, tt))
content-Plain (usage prompt n) = (refl, (is_space-shift prompt, (is_space-shift n, (refl, tt))))

has_line_end-dumps : (p : Payload) → has_line_end (dumps p) ≡ false
unfolding has_line_end is_line_end
has_line_end-dumps opening = refl
has_line_end-dumps (delta text) = has_line_end-shift text
has_line_end-dumps closing = refl
has_line_end-dumps (usage prompt n) = ground arith

loads-dumps : (p : Payload) → loads (dumps p) ≡ some (json_of p)
unfolding loads
loads-dumps opening = refl
loads-dumps (delta text) = rw (unshift-shift text) refl
loads-dumps closing = refl
loads-dumps (usage prompt n) = rw (unshift prompt, unshift n) refl
  where
    unshift : (n : ℕ) → (n + 20000) - 20000 ≡ n
    unshift n = omega arith

dumps-not_done : (p : Payload) → text_eq (dumps p) (codes "[DONE]") ≡ false
unfolding text_eq
dumps-not_done p = refl

json : IsJson dumps loads
json = record {
  has_line_end-dumps = has_line_end-dumps;
  strip-dumps = λ p. strip-braced (content p) (content-Plain p);
  dumps-not_done = dumps-not_done;
  loads-dumps = loads-dumps;
}

abbrev choices : Text → ℕ → Text
choices seed i = if i == 3 then codes "total" else codes "net"

abbrev fails_once : ℕ → Bool
fails_once a = a == 1

abbrev client : OcrClient
client = client_from_settings default_settings

abbrev png : Text
png = codes "png"

abbrev encode : Text → Text
encode t = t

abbrev calm : Text → Option Fault
calm d = none

abbrev ask : Bool → Bool → Answer
ask streams failing =
    chat_completions choices dumps 14 failing (payload encode client png streams none)

abbrev zeros : ℕ → ℕ
zeros a = 0

abbrev client_run : Run
client_run =
    ocr_page_stream loads calm (λ a. response_of split_lines (λ i. i) (ask true (fails_once a)))
      zeros zeros 2

word-full : (seed : Text) (i : ℕ) → nonempty (choices seed i) ≡ true
word-full seed i = elim (Bool-cases (i == 3)) [
  | inl third ↦ rw third refl
  | inr other ↦ rw other refl
]

stream_agrees_example :
    (ask false false
      ≡ completion client_run.stats.text client_run.stats.prompt_tokens
          client_run.stats.completion_tokens)
    × (client_run.stats.error ≡ none)
    × (flat client_run.told ≡ client_run.stats.text)
    × (client_run.stats.attempts ≡ 2)
stream_agrees_example =
    stream_agrees choices split_lines-IsLines json (λ d. refl) word-full encode client png none
      (λ a i. i) zeros zeros 14 fails_once 1 (omega arith) (λ j small. ground arith) refl

abbrev dumps_event : StreamEvent → Text
dumps_event e = b'{' ∷ shift_text e.content

abbrev dumps_status : Text → Text → Text
dumps_status job_id state = codes "{}"

abbrev loads_event : Text → Option Text
loads_event (brace ∷ s) = some (unshift_text s)
loads_event [] = none

braces-trimmed :
    (job_id state : Text)
    → (strip (32 ∷ dumps_status job_id state) ≡ dumps_status job_id state)
      × (nonempty (dumps_status job_id state) ≡ true)
unfolding strip lstrip rstrip is_space
braces-trimmed job_id state = (refl, refl)

event_json : IsEventJson dumps_event dumps_status loads_event
unfolding has_line_end is_line_end unshift_text
event_json = record {
  has_line_end-dumps_event = λ e content owner. has_line_end-shift e.content;
  has_line_end-dumps_status = λ job_id state a b. refl;
  strip-dumps_event = λ e. (strip-braced (shift_text e.content) (shift_text-Plain e.content), refl);
  strip-dumps_status = braces-trimmed;
  loads-dumps_event = λ e. ap some (unshift-shift e.content);
  loads-dumps_status = λ job_id state. refl;
}

abbrev event_of : EventType → Text → StreamEvent
event_of kind content = record {
  kind = kind;
  job_id = codes "j1";
  page = some 0;
  content = content;
  seq = 1;
  ts = codes "t";
  id = some (codes "1-0");
}

abbrev sent : List SseFrame
sent =
    status_frame (codes "queued")
    ∷ event_frame (event_of token (codes "Hello"))
    ∷ keepalive
    ∷ event_frame (event_of token (codes " you"))
    ∷ event_frame (event_of job_complete [])
    ∷ end_frame (codes "completed")
    ∷ []

sent-IsClean : All IsClean sent
unfolding has_line_end is_line_end
sent-IsClean =
    (refl, ((refl, refl, refl), (tt, ((refl, refl, refl), ((refl, refl, refl), (refl, tt))))))

stream_job-print_frames_example :
    (new : StreamCount) × (stream_job loads_event
        (λ i. i)
        (split_lines (print_frames dumps_event dumps_status (codes "j1") sent))
      ≡ some new)
    × (new.events ≡ tally sent [])
    × (new.stream_chars ≡ token_chars sent)
unfolding has_line_end is_line_end
stream_job-print_frames_example =
    stream_job-print_frames split_lines-IsLines event_json (λ i. i) (codes "j1") refl sent
      sent-IsClean
