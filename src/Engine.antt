-- ===== src/Engine.antt =====
-- common/engine.py: `OCRClient.ocr_page_stream` and the SSE response that it consumes. A response is
-- the sequence of what `aiter_lines` does, with the clock's reading at each line. httpx, the JSON
-- decoder and the callback `on_delta` are parameters; semaphores, metrics and the sleep are left out.
pub mod Retries
pub mod Deltas
pub mod Payload
use ocr_serving.Base.{
  ℕ, zero, suc, ◌+◌, ◌-◌, ◌++◌, Bool, true, false, Option, none, some, List, [], ◌∷◌, drop,
  if◌then◌else◌, ltb, ◌==◌, not, ◌||◌, ◌&&◌,
}
use ocr_serving.Base.Text.{Text, codes, text_eq, starts_with}
use ocr_serving.Base.Strip.{strip}

-- What a request may raise: `httpx.HTTPStatusError`, `httpx.TransportError` (of which
-- `RemoteProtocolError` is one) or `asyncio.TimeoutError`, and all others.
pub data Fault : Type 0 where
  http_status : ℕ → Fault
  transport : Text → Fault
  fault : Text → Fault

-- `f"{type(exc).__name__}: {exc}"`, whole in `transport` and `fault`; of a status error only the class.
abbrev pub fault_text : Fault → Text
fault_text (http_status code) = codes "HTTPStatusError"
fault_text (transport text) = text
fault_text (fault text) = text

-- `RETRY_STATUS`
unfoldable pub retry_status : ℕ → Bool
retry_status code =
    (code == 408)
    || (code == 425)
    || (code == 429)
    || (code == 500)
    || (code == 502)
    || (code == 503)
    || (code == 504)

unfoldable pub retryable : Fault → Bool
unfolding retry_status
retryable (http_status code) = retry_status code
retryable (transport text) = true
retryable (fault text) = false

-- `raise_for_status` and `aiter_lines`: the response ends, raises, or gives one more line.
pub data Response : Type 0 where
  finished : Response
  broken : Fault → Response
  line : ℕ → Text → Response → Response

-- A chunk as JSON has it: the counts of `usage`, each where it is there, and the `content` of the
-- `delta` of each choice.
pub record Usage : Type 0 where
  pub completion_tokens : Option ℕ
  pub prompt_tokens : Option ℕ

pub record Choice : Type 0 where
  pub delta : Option (Option Text)

pub record ChunkJson : Type 0 where
  pub usage : Option Usage
  pub choices : List Choice

-- What `_consume_stream` reads of a chunk. A count that is missing or 0 is `none`, as is no delta.
pub record Chunk : Type 0 where
  pub completion_tokens : Option ℕ
  pub prompt_tokens : Option ℕ
  pub delta : Text

pub record StreamStats : Type 0 where
  pub ttft_s : ℕ
  pub e2e_s : ℕ
  pub completion_tokens : ℕ
  pub prompt_tokens : ℕ
  pub text : Text
  pub error : Option Text
  pub attempts : ℕ

abbrev pub new_stats : StreamStats
new_stats = record {
  ttft_s = 0;
  e2e_s = 0;
  completion_tokens = 0;
  prompt_tokens = 0;
  text = [];
  error = none;
  attempts = 1;
}

-- `n or …`
abbrev pub positive : Option ℕ → Option ℕ
positive none = none
positive (some n) = if n == 0 then none else some n

-- `choices[0].get("delta", {}).get("content") if choices else None`
abbrev pub content_of : List Choice → Option Text
content_of [] = none
content_of (choice ∷ choices) = elim choice.delta [ none ↦ none | some content ↦ content ]

abbrev pub text_or_nil : Option Text → Text
text_or_nil none = []
text_or_nil (some t) = t

abbrev pub count_of : (Usage → Option ℕ) → Option Usage → Option ℕ
count_of count none = none
count_of count (some u) = positive (count u)

abbrev pub read_chunk : ChunkJson → Chunk
read_chunk j = record {
  completion_tokens = count_of (λ u. u.completion_tokens) j.usage;
  prompt_tokens = count_of (λ u. u.prompt_tokens) j.usage;
  delta = text_or_nil (content_of j.choices);
}

abbrev pub read_json : Option ChunkJson → Option Chunk
read_json none = none
read_json (some j) = some (read_chunk j)

-- The statistics, and the deltas that `on_delta` was called with, in order.
pub record Run : Type 0 where
  pub stats : StreamStats
  pub told : List Text

-- How `_consume_stream` ends: it returns whether a delta was emitted, or raises.
pub data Outcome : Type 0 where
  returned : Bool → Outcome
  raised : Fault → Outcome

abbrev pub keep_or : Option ℕ → ℕ → ℕ
keep_or none n = n
keep_or (some m) n = m

-- `if usage := chunk.get("usage")`
unfoldable pub count_usage : Chunk → StreamStats → StreamStats
count_usage c stats = record stats {
  completion_tokens = keep_or c.completion_tokens stats.completion_tokens;
  prompt_tokens = keep_or c.prompt_tokens stats.prompt_tokens;
}

-- The statistics after a delta that came `after` the start of the request.
unfoldable pub count_delta : Bool → ℕ → Text → StreamStats → StreamStats
count_delta emitted after delta stats = record stats {
  ttft_s = if emitted then stats.ttft_s else after;
  text = stats.text ++ delta;
  completion_tokens =
      if stats.prompt_tokens == 0 then suc stats.completion_tokens else stats.completion_tokens;
}

-- The payload of a line: `none` for a line that is skipped.
unfoldable pub data_of : Text → Option Text
unfolding starts_with strip
data_of t = if starts_with t (codes "data:") then some (strip (drop 5 t)) else none

module _ (json_loads : Text → Option ChunkJson) (on_delta : Text → Option Fault) where
  -- What follows a call of `on_delta`.
  unfoldable pub after_delta : Option Fault → Run → (Bool → Run → Outcome × Run) → Outcome × Run
  after_delta none run next = next true run
  after_delta (some e) run next = (raised e, run)

  -- A delta is added to the text, then handed to `on_delta`; `next` is the rest of the response.
  unfoldable pub emit_delta : Bool → ℕ → Text → Run → (Bool → Run → Outcome × Run) → Outcome × Run
  unfolding count_delta after_delta
  emit_delta emitted after [] run next = next emitted run
  emit_delta emitted after (c ∷ delta) run next =
      let run' : Run = record {
        stats = count_delta emitted after (c ∷ delta) run.stats;
        told = run.told ++ (c ∷ delta) ∷ [];
      } in
      after_delta (on_delta (c ∷ delta)) run' next

  -- One payload; a chunk that is no JSON raises.
  unfoldable pub take_payload :
      Bool → ℕ → Option Chunk → Run → (Bool → Run → Outcome × Run) → Outcome × Run
  unfolding emit_delta count_usage
  take_payload emitted after none run next = (raised (fault (codes "JSONDecodeError")), run)
  take_payload emitted after (some c) run next =
      emit_delta emitted after c.delta (record run { stats = count_usage c run.stats }) next

  unfoldable pub take_line :
      Bool → ℕ → Option Text → Run → (Bool → Run → Outcome × Run) → Outcome × Run
  unfolding take_payload text_eq
  take_line emitted after none run next = next emitted run
  take_line emitted after (some payload) run next =
      if text_eq payload (codes "[DONE]")
      then (returned emitted, run)
      else take_payload emitted after (read_json (json_loads payload)) run next

  -- `_consume_stream` from the state `emitted`; `start` is the clock at the start of the request.
  unfoldable pub consume_stream : ℕ → Response → Bool → Run → Outcome × Run
  unfolding take_line data_of
  consume_stream start finished emitted run = (returned emitted, run)
  consume_stream start (broken e) emitted run = (raised e, run)
  consume_stream start (line time t rest) emitted run =
      take_line emitted (time - start) (data_of t) run (consume_stream start rest)

  -- What the engine answers to each attempt, and the clock at its start and at its end.
  module _ (answers : ℕ → Response) (starts ends : ℕ → ℕ) (max_retries : ℕ) where
    abbrev pub ended_well : ℕ → Run → Run
    ended_well attempt run = record run {
      stats = record run.stats { e2e_s = ends attempt - starts attempt; error = none };
    }

    abbrev pub ended_badly : ℕ → Fault → Run → Run
    ended_badly attempt e run = record run {
      stats = record run.stats {
        e2e_s = ends attempt - starts attempt;
        error = some (fault_text e);
      };
    }

    -- `stats.text, stats.completion_tokens, stats.ttft_s = "", 0, 0.0`
    abbrev pub reset : Run → Run
    reset run = record run {
      stats = record run.stats { text = []; completion_tokens = 0; ttft_s = 0 };
    }

    -- The `except` clause. In `retryable(exc) and not emitted`, the variable is still the `False` that
    -- it was before the call that raised: the assignment of the call's result was not reached.
    unfoldable pub after_fault : ℕ → Fault → Run → (Run → Run) → Run
    unfolding retryable
    after_fault attempt e run again =
        let emitted = false in
        if not (retryable e && not emitted) || ltb max_retries attempt
        then ended_badly attempt e run
        else again (reset (ended_badly attempt e run))

    abbrev pub after_attempt : ℕ → Outcome × Run → (Run → Run) → Run
    after_attempt attempt (returned emitted, run) again = ended_well attempt run
    after_attempt attempt (raised e, run) again = after_fault attempt e run again

    -- The loop over `range(1, max_retries + 2)`: `left` values are left, the next is `attempt`.
    unfoldable pub attempt_loop : ℕ → ℕ → Run → Run
    unfolding consume_stream after_fault
    attempt_loop zero attempt run = run
    attempt_loop (suc left) attempt run =
        let run' : Run = record run { stats = record run.stats { attempts = attempt } } in
        after_attempt attempt (consume_stream (starts attempt) (answers attempt) false run')
          (attempt_loop left (suc attempt))

    unfoldable pub ocr_page_stream : Run
    unfolding attempt_loop
    ocr_page_stream = attempt_loop (suc max_retries) 1 (record { stats = new_stats; told = [] })
