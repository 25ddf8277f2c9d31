-- ===== src/Tests/EngineTests.antt =====
-- A response that breaks off behind its first delta, and a retry that succeeds.
use ocr_serving.Base.{
  ℕ, suc, ◌≡◌, refl, ◌≤◌, ◌==◌, true, false, Option, none, some, List, [], ◌∷◌, ◌++◌, if◌then◌else◌,
}
use ocr_serving.Base.Text.{Text, codes}
use ocr_serving.Engine.{
  Fault, transport, ChunkJson, Response, finished, broken, line, Run, ocr_page_stream,
  consume_stream, retryable,
}
use ocr_serving.Engine.Deltas.{flat, deltas}
use ocr_serving.Engine.Retries.{earlier, first_run, second_run, ocr_page_stream-text, retry_repeats}

-- Every payload is a chunk whose delta it is.
abbrev decode : Text → Option ChunkJson
decode t = some (record { usage = none; choices = record { delta = some (some t) } ∷ [] })

abbrev listen : Text → Option Fault
listen t = none

-- The first attempt breaks off, any other succeeds.
abbrev answers : ℕ → Response
answers n =
    if n == 1
    then line 5 (codes "data: Hello") (broken (transport (codes "ReadError")))
    else line 9 (codes "data: Hello") (line 10 (codes "data: [DONE]") finished)

abbrev clock : ℕ → ℕ
clock n = n

abbrev begin : Run
begin = first_run decode listen answers clock clock

ocr_page_stream-text_example :
    (k : ℕ) × (k ≤ 2)
    × ((ocr_page_stream decode listen answers clock clock 2).told
        ≡ earlier decode listen answers clock clock k 1 ++ deltas decode listen (answers (suc k)))
    × ((ocr_page_stream decode listen answers clock clock 2).stats.text
        ≡ flat (deltas decode listen (answers (suc k))))
    × ((ocr_page_stream decode listen answers clock clock 2).stats.attempts ≡ suc k)
ocr_page_stream-text_example = ocr_page_stream-text decode listen answers clock clock 2

abbrev after_first : Run
unfolding consume_stream
after_first = (consume_stream decode listen 1 (answers 1) false begin).1

abbrev after_second : Run
after_second =
    (consume_stream decode listen 2 (answers 2) false (
      second_run decode listen answers clock clock 2 (transport (codes "ReadError")) after_first)).1

-- The listener was told "Hello" twice, the text holds it once.
retry_repeats_example :
    (ds : List Text) × ((ocr_page_stream decode listen answers clock clock 2).told
      ≡ after_first.told ++ ds)
    × ((ocr_page_stream decode listen answers clock clock 2).stats.text ≡ flat ds)
    × ((ocr_page_stream decode listen answers clock clock 2).stats.error ≡ none)
unfolding consume_stream retryable
retry_repeats_example =
    retry_repeats decode listen answers clock clock 1 (transport (codes "ReadError")) after_first
      true after_second refl refl refl
