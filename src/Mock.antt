-- ===== src/Mock.antt =====
-- serving/mock/server.py: the mock engine. `random.Random`, JSON and the sleeps are a library's; the
-- words that it draws, and the texts that JSON makes of its payloads, are parameters.
pub mod Answers
pub mod Agree
use ocr_serving.Base.{
  ℕ, zero, suc, ◌+◌, ◌-◌, ◌%◌, min, Bool, true, false, ◌&&◌, not, Option, none, some, List, [], ◌∷◌,
  ◌++◌, map, drop, length, if◌then◌else◌, ◌==◌,
}
use ocr_serving.Base.Text.{Text, codes, text_eq}
use ocr_serving.Engine.Payload.{Part, image_url, text_part, Content, plain, parts, Message, Body}
use ocr_serving.Engine.Deltas.{flat}

-- `i and i % 12 == 0`
abbrev pub starts_line : ℕ → Bool
starts_line i = not (i == 0) && (i % 12 == 0)

-- `"\n"`
abbrev pub newline : Text
newline = 10 ∷ []

module _ (choice : ℕ → Text) where
  -- The loop over `range(tokens)`: `left` rounds are left, the next is `i`, which makes the `i`th draw.
  unfoldable pub words_from : ℕ → ℕ → List Text
  words_from zero i = []
  words_from (suc left) i =
      let rest = choice i ∷ words_from left (suc i) in
      if starts_line i then newline ∷ rest else rest

-- `" " + w if i else w`
abbrev piece : ℕ → Text → Text
piece zero word = word
piece (suc i) word = 32 ∷ word

-- The comprehension over `enumerate(words)`.
unfoldable pub pieces_from : ℕ → List Text → List Text
pieces_from i [] = []
pieces_from i (word ∷ words) =
    (if text_eq word newline then word else piece i word) ∷ pieces_from (suc i) words

-- `_deterministic_text`: the generator is seeded by the image.
unfoldable pub deterministic_text : (Text → ℕ → Text) → Text → ℕ → List Text
unfolding words_from pieces_from
deterministic_text choices seed tokens = pieces_from 0 (words_from (choices seed) tokens 0)

-- `url[-256:]`
abbrev pub last_256 : Text → Text
last_256 url = drop (length url - 256) url

unfoldable pub part_seed : List Part → Option Text
part_seed [] = none
part_seed (image_url url ∷ ps) = some (last_256 url)
part_seed (text_part text ∷ ps) = part_seed ps

abbrev seed_or : Option Text → Text → Text
seed_or none rest = rest
seed_or (some seed) rest = seed

-- `_image_seed`
unfoldable pub image_seed : List Message → Text
unfolding part_seed
image_seed [] = codes "no-image"
image_seed (message ∷ messages) = elim message.content [
  | plain text ↦ image_seed messages
  | parts ps ↦ seed_or (part_seed ps) (image_seed messages)
]

-- What is written after `data: `, less the identifier, the time and the model.
pub data Payload : Type 0 where
  opening : Payload
  delta : Text → Payload
  closing : Payload
  usage : ℕ → ℕ → Payload

-- `if include_usage`
abbrev usage_payloads : Bool → List Text → List Payload
usage_payloads include_usage pieces = if include_usage then usage 512 (length pieces) ∷ [] else []

unfoldable pub payloads : Bool → List Text → List Payload
payloads include_usage pieces =
    opening ∷ (map delta pieces ++ closing ∷ usage_payloads include_usage pieces)

-- The frame of a payload, and the text that the generator yields.
module _ (dumps : Payload → Text) where
  abbrev pub frame : Text → Text
  frame content = codes "data: " ++ (content ++ 10 ∷ 10 ∷ [])

  unfoldable pub frames : List Payload → Text
  frames [] = frame (codes "[DONE]")
  frames (p ∷ ps) = frame (dumps p) ++ frames ps

-- The answers of `chat_completions`.
pub data Answer : Type 0 where
  refused : ℕ → Answer
  completion : Text → ℕ → ℕ → Answer
  event_stream : Text → Answer

-- `min(int(body.get("max_tokens") or TOKENS), TOKENS)`
abbrev pub token_limit : Option ℕ → ℕ → ℕ
token_limit none tokens = tokens
token_limit (some zero) tokens = tokens
token_limit (some (suc n)) tokens = min (suc n) tokens

module _ (choices : Text → ℕ → Text) (dumps : Payload → Text) (tokens : ℕ) where
  abbrev pub pieces_of : Body → List Text
  pieces_of body =
      deterministic_text choices (image_seed body.messages) (token_limit body.max_tokens tokens)

  -- `chat_completions`; `fails` is the draw against FAIL_RATE.
  unfoldable pub chat_completions : Bool → Body → Answer
  unfolding payloads frames
  chat_completions fails body =
      if fails
      then refused 503
      else if not body.stream
      then completion (flat (pieces_of body)) 512 (length (pieces_of body))
      else event_stream (frames dumps (payloads body.include_usage (pieces_of body)))
