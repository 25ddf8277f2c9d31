-- ===== src/Mock/Answers.antt =====
-- The client of common/engine.py against the mock engine: a streamed answer and a whole one agree.
use ocr_serving.Base.{
  ℕ, zero, suc, ◌≡◌, refl, ap, sym, ◌∙◌, ◌++◌, ◌+◌, ◌-◌, Bool, true, false, Option, none, some, not,
  List, [], ◌∷◌, map, arith, append_assoc, append-nil, length, All, Bool-cases, inl, inr,
  if◌then◌else◌, ◌==◌, ◌||◌,
}
use ocr_serving.Base.Text.{Text, codes, text_eq, nonempty}
use ocr_serving.Base.Strip.{strip, is_line_end}
use ocr_serving.Wire.{has_line_end, IsLines}
use ocr_serving.Engine.{
  Fault, http_status, Response, finished, broken, line, Chunk, ChunkJson, Choice, read_chunk, Run,
  Outcome, returned, count_delta, count_usage, after_delta, data_of, emit_delta, take_payload,
  take_line, consume_stream, keep_or,
}
use ocr_serving.Engine.Deltas.{flat}
use ocr_serving.Mock.{
  Payload, opening, delta, closing, usage, payloads, frames, Answer, refused, completion,
  event_stream,
}

-- The payloads as JSON: the role, the content, the end, and the counts with no choice.
abbrev choice_of : Option Text → List Choice
choice_of content = record { delta = some content } ∷ []

abbrev pub json_of : Payload → ChunkJson
json_of opening = record { usage = none; choices = choice_of (some []) }
json_of (delta text) = record { usage = none; choices = choice_of (some text) }
json_of closing = record { usage = none; choices = choice_of none }
json_of (usage prompt n) = record {
  usage = some (record { completion_tokens = some n; prompt_tokens = some prompt });
  choices = [];
}

-- What the client reads of each payload.
abbrev pub chunk_of : Payload → Chunk
chunk_of p = read_chunk (json_of p)

-- What the two sides rely on of JSON: an object prints as one line, with a brace at either end, and
-- is read back.
pub record IsJson (dumps : Payload → Text) (loads : Text → Option ChunkJson) : Type 0 where
  pub has_line_end-dumps : (p : Payload) → has_line_end (dumps p) ≡ false
  pub strip-dumps : (p : Payload) → strip (32 ∷ dumps p) ≡ dumps p
  pub dumps-not_done : (p : Payload) → text_eq (dumps p) (codes "[DONE]") ≡ false
  pub loads-dumps : (p : Payload) → loads (dumps p) ≡ some (json_of p)

-- The lines of a body as they arrive, the `i`th at the time `clock i`.
unfoldable pub respond : (ℕ → ℕ) → ℕ → List Text → Response
respond clock i [] = finished
respond clock i (l ∷ ls) = line (clock i) l (respond clock (suc i) ls)

-- The response to a streamed request.
unfoldable pub response_of : (Text → List Text) → (ℕ → ℕ) → Answer → Response
unfolding respond
response_of lines clock (refused code) = broken (http_status code)
response_of lines clock (completion text prompt_tokens completion_tokens) = finished
response_of lines clock (event_stream body) = respond clock 0 (lines body)

has_line_end-append : (s t : Text) → has_line_end (s ++ t) ≡ has_line_end s || has_line_end t
unfolding has_line_end
has_line_end-append [] t = refl
has_line_end-append (c ∷ s) t = ground (arith, has_line_end-append s t)

usage_count : (n m : ℕ) → m ≡ n → keep_or (if n == 0 then none else some n) m ≡ n
usage_count n m h = ground arith

module _ {lines : Text → List Text} (splits : IsLines lines) where
  lines-frame :
      (content rest : Text)
      → has_line_end content ≡ false
      → lines ((codes "data: " ++ (content ++ 10 ∷ 10 ∷ [])) ++ rest)
        ≡ (codes "data: " ++ content) ∷ [] ∷ lines rest
  unfolding has_line_end
  lines-frame content rest clean =
      ap lines (ap (λ x. codes "data: " ++ x) (append_assoc content (10 ∷ 10 ∷ []) rest))
      ∙ (splits.lines-append (codes "data: " ++ content) (10 ∷ rest) (prefixed content clean)
          ∙ ap (λ ls. (codes "data: " ++ content) ∷ ls) (splits.lines-append [] rest refl))
    where
      prefixed :
          (content : Text)
          → has_line_end content ≡ false
          → has_line_end (codes "data: " ++ content) ≡ false
      prefixed content clean = (unfold has_line_end is_line_end in clean)

module _ (loads : Text → Option ChunkJson) (on_delta : Text → Option Fault) (clock : ℕ → ℕ)
    (start : ℕ) where
  consume_stream-data :
      (i : ℕ) (content : Text) (ls : List Text) (emitted : Bool) (run : Run)
      → strip (32 ∷ content) ≡ content
      → consume_stream loads on_delta start
          (respond clock i ((codes "data: " ++ content) ∷ [] ∷ ls))
          emitted
          run
        ≡ take_line loads on_delta emitted
            (clock i - start)
            (some content)
            run
            (consume_stream loads on_delta start (respond clock (suc (suc i)) ls))
  unfolding consume_stream respond data_of ocr_serving.Base.Text.starts_with
  consume_stream-data i content ls emitted run clean = rw clean refl

module _ {dumps : Payload → Text} {loads : Text → Option ChunkJson} {lines : Text → List Text}
    (splits : IsLines lines) (json : IsJson dumps loads) (on_delta : Text → Option Fault)
    (clock : ℕ → ℕ) (start : ℕ) where
  -- What the client makes of the frames of `ps`, from the line `i` on.
  abbrev read : ℕ → List Payload → Bool → Run → Outcome × Run
  read i ps = consume_stream loads on_delta start (respond clock i (lines (frames dumps ps)))

  read-step :
      (i : ℕ) (p : Payload) (ps : List Payload) (emitted : Bool) (run : Run)
      → read i (p ∷ ps) emitted run
        ≡ take_payload loads on_delta emitted
            (clock i - start)
            (some (chunk_of p))
            run
            (read (suc (suc i)) ps)
  unfolding frames take_line
  read-step i p ps emitted run =
      rw (lines-frame splits (dumps p) (frames dumps ps) (json.has_line_end-dumps p)) (
        consume_stream-data loads on_delta clock start i (dumps p) (lines (frames dumps ps)) emitted
          run (json.strip-dumps p)
        ∙ (rw (json.dumps-not_done p) (rw (json.loads-dumps p) refl)))

  read-done : (i : ℕ) (emitted : Bool) (run : Run) → read i [] emitted run ≡ (returned emitted, run)
  unfolding frames take_line has_line_end is_line_end strip text_eq
  read-done i emitted run = rw (lines-frame splits (codes "[DONE]") [] refl) (
      consume_stream-data loads on_delta clock start i (codes "[DONE]") (lines []) emitted run refl)

  -- `new` was reached from `old` by the deltas `ds`, while no usage was known.
  abbrev Counted : List Text → Run → Run → Type 0
  Counted ds old new =
      (new.stats.text ≡ old.stats.text ++ flat ds)
      × (new.told ≡ old.told ++ ds)
      × (new.stats.prompt_tokens ≡ 0)
      × (new.stats.completion_tokens ≡ old.stats.completion_tokens + length ds)
      × (new.stats.attempts ≡ old.stats.attempts)

  abbrev told_piece : Bool → ℕ → Text → Run → Run
  told_piece emitted after d run = record {
    stats = count_delta emitted after d run.stats;
    told = run.told ++ d ∷ [];
  }

  read-delta :
      (i : ℕ) (d : Text) (ps : List Payload) (emitted : Bool) (run : Run)
      → nonempty d ≡ true
      → on_delta d ≡ none
      → read i (delta d ∷ ps) emitted run
        ≡ read (suc (suc i)) ps true (told_piece emitted (clock i - start) d run)
  unfolding take_payload emit_delta after_delta count_usage count_delta
  read-delta i [] ps emitted run full calm = cc
  read-delta i (c ∷ d) ps emitted run full calm =
      read-step i (delta (c ∷ d)) ps emitted run ∙ (rw calm refl)

  told_piece-Counted :
      (emitted : Bool) (after : ℕ) (d : Text) (ds : List Text) (run new : Run)
      → run.stats.prompt_tokens ≡ 0
      → Counted ds (told_piece emitted after d run) new
      → Counted (d ∷ ds) run new
  unfolding count_delta flat
  told_piece-Counted emitted after d ds run new zero_prompt (text, told, prompt, count, attempts) =
      (
        text ∙ append_assoc run.stats.text d (flat ds),
        told ∙ append_assoc run.told (d ∷ []) ds,
        prompt,
        ground arith,
        attempts,
      )

  told_piece-prompt :
      (emitted : Bool) (after : ℕ) (d : Text) (run : Run)
      → run.stats.prompt_tokens ≡ 0
      → (told_piece emitted after d run).stats.prompt_tokens ≡ 0
  unfolding count_delta
  told_piece-prompt emitted after d run h = h

  read-pieces :
      ((d : Text) → on_delta d ≡ none)
      → (i : ℕ) (ds : List Text) (ps : List Payload) (emitted : Bool) (run : Run)
      → All (λ d. nonempty d ≡ true) ds
      → run.stats.prompt_tokens ≡ 0
      → (i' : ℕ) × (emitted' : Bool) × (new : Run) × (read i (map delta ds ++ ps) emitted run
          ≡ read i' ps emitted' new)
        × Counted ds run new
  unfolding flat
  read-pieces calm i [] ps emitted run full zero_prompt = (
    i,
    emitted,
    run,
    refl,
    (sym (append-nil run.stats.text), sym (append-nil run.told), zero_prompt, omega arith, refl),
  )
  read-pieces calm i (d ∷ ds) ps emitted run full zero_prompt =
      let next = told_piece emitted (clock i - start) d run in
      let (i', emitted', new, same, counted) =
        read-pieces calm (suc (suc i)) ds ps true next full.1
          (told_piece-prompt emitted (clock i - start) d run zero_prompt) in
      (
        i',
        emitted',
        new,
        read-delta i d (map delta ds ++ ps) emitted run full.0 (calm d) ∙ same,
        told_piece-Counted emitted (clock i - start) d ds run new zero_prompt counted,
      )

  read-silent :
      (i : ℕ) (p : Payload) (ps : List Payload) (emitted : Bool) (run : Run)
      → chunk_of p ≡ record { completion_tokens = none; prompt_tokens = none; delta = [] }
      → read i (p ∷ ps) emitted run ≡ read (suc (suc i)) ps emitted run
  unfolding take_payload emit_delta count_usage
  read-silent i p ps emitted run silent =
      read-step i p ps emitted run
      ∙ ap
          (λ c.
            take_payload loads on_delta emitted (clock i - start) (some c) run
              (read (suc (suc i)) ps))
          silent

  -- What the usage at the end makes of the statistics.
  abbrev with_usage : ℕ → Run → Run
  with_usage n run = record run { stats = count_usage (chunk_of (usage 512 n)) run.stats }

  read-usage :
      (i n : ℕ) (emitted : Bool) (run : Run)
      → read i (usage 512 n ∷ []) emitted run ≡ (returned emitted, with_usage n run)
  unfolding take_payload emit_delta
  read-usage i n emitted run =
      read-step i (usage 512 n) [] emitted run ∙ read-done (suc (suc i)) emitted (with_usage n run)

  -- A response read from the start, by a run that has nothing yet.
  pub read-payloads :
      ((d : Text) → on_delta d ≡ none)
      → (ds : List Text) (run : Run) → All (λ d. nonempty d ≡ true) ds
      → run.stats.prompt_tokens ≡ 0
      → run.stats.completion_tokens ≡ 0
      → (emitted : Bool) × (new : Run) × (read 0 (payloads true ds) false run
          ≡ (returned emitted, new))
        × (new.stats.text ≡ run.stats.text ++ flat ds)
        × (new.told ≡ run.told ++ ds)
        × (new.stats.prompt_tokens ≡ 512)
        × (new.stats.completion_tokens ≡ length ds)
        × (new.stats.attempts ≡ run.stats.attempts)
  unfolding payloads count_usage
  read-payloads calm ds run full zero_prompt zero_count =
      let ending = closing ∷ usage 512 (length ds) ∷ [] in
      let (i, emitted, new, same, (text, told, prompt, count, attempts)) =
        read-pieces calm 2 ds ending false run full zero_prompt in
      (
        emitted,
        with_usage (length ds) new,
        read-silent 0 opening (map delta ds ++ ending) false run refl
            ∙ (same
                ∙ (read-silent i closing (usage 512 (length ds) ∷ []) emitted new refl
                    ∙ read-usage (suc (suc i)) (length ds) emitted new)),
        text,
        told,
        refl,
        usage_count (length ds) new.stats.completion_tokens (omega arith),
        attempts,
      )
