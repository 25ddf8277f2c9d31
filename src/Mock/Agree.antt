-- ===== src/Mock/Agree.antt =====
-- A client that streams and one that does not get the same answer from the mock engine.
use ocr_serving.Base.{
  subst, ℕ, zero, suc, ◌≡◌, refl, ap, sym, ◌∙◌, ◌++◌, ◌+◌, ◌<◌, ◌≤◌, Bool, true, false, Option,
  none, List, [], ◌∷◌, arith, length, All, Bool-cases, inl, inr, ltb,
}
use ocr_serving.Base.Text.{Text, text_eq, nonempty}
use ocr_serving.Wire.{IsLines}
use ocr_serving.Engine.{
  Fault, http_status, ChunkJson, Run, new_stats, retryable, retry_status, consume_stream,
  after_fault, attempt_loop, ocr_page_stream, ended_badly, reset,
}
use ocr_serving.Engine.Deltas.{flat}
use ocr_serving.Engine.Payload.{OcrClient, Body, payload}
use ocr_serving.Mock.{
  newline, starts_line, piece, words_from, pieces_from, deterministic_text, Payload, payloads,
  frames, Answer, refused, image_seed, token_limit, completion, event_stream, pieces_of,
  chat_completions,
}
use ocr_serving.Mock.Answers.{IsJson, response_of, read-payloads}

-- Every piece has a character, when every word has.
words_from-full :
    (choice : ℕ → Text)
    → ((i : ℕ) → nonempty (choice i) ≡ true)
    → (left i : ℕ) → All (λ w. nonempty w ≡ true) (words_from choice left i)
unfolding words_from
words_from-full choice full zero i = tt
words_from-full choice full (suc left) i = elim (Bool-cases (starts_line i)) [
  | inl begins ↦ rw begins (refl, (full i, words_from-full choice full left (suc i)))
  | inr goes_on ↦ rw goes_on (full i, words_from-full choice full left (suc i))
]

piece-full : (i : ℕ) (word : Text) → nonempty word ≡ true → nonempty (piece i word) ≡ true
piece-full zero word full = full
piece-full (suc i) word full = refl

pieces_from-full :
    (i : ℕ) (words : List Text)
    → All (λ w. nonempty w ≡ true) words
    → All (λ w. nonempty w ≡ true) (pieces_from i words)
unfolding pieces_from
pieces_from-full i [] full = tt
pieces_from-full i (w ∷ words) full = elim (Bool-cases (text_eq w newline)) [
  | inl break ↦ rw break (full.0, pieces_from-full (suc i) words full.1)
  | inr word ↦ rw word (piece-full i w full.0, pieces_from-full (suc i) words full.1)
]

pieces_of-full :
    (choices : Text → ℕ → Text) (dumps : Payload → Text) (tokens : ℕ) (body : Body)
    → ((seed : Text) (i : ℕ) → nonempty (choices seed i) ≡ true)
    → All (λ w. nonempty w ≡ true) (pieces_of choices dumps tokens body)
unfolding deterministic_text
pieces_of-full choices dumps tokens body full =
    let seed = image_seed body.messages in
    let n = token_limit body.max_tokens tokens in
    pieces_from-full 0 (words_from (choices seed) n 0)
      (words_from-full (choices seed) (full seed) n 0)

shift : (a j : ℕ) → a + suc j ≡ suc a + j
shift a j = omega arith

-- A run that has shown `ds` in its attempt number `attempt`, and no error.
abbrev Shown : List Text → ℕ → Run → Type 0
Shown ds attempt run =
    (run.stats.text ≡ flat ds)
    × (run.told ≡ ds)
    × (run.stats.prompt_tokens ≡ 512)
    × (run.stats.completion_tokens ≡ length ds)
    × (run.stats.attempts ≡ attempt)
    × (run.stats.error ≡ none)

-- Nothing has been shown.
abbrev Untold : Run → Type 0
Untold run =
    (run.stats.text ≡ [])
    × (run.told ≡ [])
    × (run.stats.prompt_tokens ≡ 0)
    × (run.stats.completion_tokens ≡ 0)

module _ {dumps : Payload → Text} {loads : Text → Option ChunkJson} {lines : Text → List Text}
    (splits : IsLines lines) (json : IsJson dumps loads) {on_delta : Text → Option Fault}
    (calm : (d : Text) → on_delta d ≡ none) (clock : ℕ → ℕ → ℕ) (starts ends : ℕ → ℕ)
    (max_retries : ℕ) (answer : ℕ → Answer) where
  abbrev client_loop : ℕ → ℕ → Run → Run
  client_loop =
      attempt_loop loads on_delta (λ a. response_of lines (clock a) (answer a)) starts ends
        max_retries

  -- The run as the attempt begins.
  abbrev begun : ℕ → Run → Run
  begun attempt run = record run { stats = record run.stats { attempts = attempt } }

  loop-answered :
      (ds : List Text) (left attempt : ℕ) (run : Run)
      → All (λ d. nonempty d ≡ true) ds
      → answer attempt ≡ event_stream (frames dumps (payloads true ds))
      → Untold run
      → Shown ds attempt (client_loop (suc left) attempt run)
  unfolding attempt_loop response_of
  loop-answered ds left attempt run full answers (text, told, prompt, count) =
      let (emitted, new, same, text', told', prompt', count', attempts') =
        read-payloads splits json on_delta (clock attempt) (starts attempt) calm ds
          (begun attempt run) full prompt count in
      rw answers (
        rw same (
          text' ∙ ap (λ t. t ++ flat ds) text,
          told' ∙ ap (λ t. t ++ ds) told,
          prompt',
          count',
          attempts',
          refl,
        ))

  -- The run as the next attempt finds it.
  abbrev retried : ℕ → Run → Run
  retried attempt run =
      let environment = λ (a : ℕ). response_of lines (clock a) (answer a) in
      reset loads on_delta environment starts ends max_retries (
        ended_badly loads on_delta environment starts ends max_retries attempt (http_status 503)
          (begun attempt run))

  loop-refused :
      (left attempt : ℕ) (run : Run)
      → answer attempt ≡ refused 503
      → ltb max_retries attempt ≡ false
      → client_loop (suc left) attempt run ≡ client_loop left (suc attempt) (retried attempt run)
  unfolding attempt_loop response_of consume_stream after_fault retryable retry_status
  loop-refused left attempt run refuses early = rw refuses (rw (early, after_fault) refl)

  loop-Shown :
      (ds : List Text)
      → All (λ d. nonempty d ≡ true) ds
      → (k left attempt : ℕ) (run : Run) → ((j : ℕ) → j < k → answer (attempt + j) ≡ refused 503)
      → answer (attempt + k) ≡ event_stream (frames dumps (payloads true ds))
      → attempt + left ≡ max_retries + 2
      → k < left
      → Untold run
      → Shown ds (attempt + k) (client_loop left attempt run)
  loop-Shown ds full k zero attempt run refuses answers bound room untold =
      absurd (omega (arith, room))
  loop-Shown ds full zero (suc left) attempt run refuses answers bound room untold =
      let here : attempt + 0 ≡ attempt = omega arith in
      subst (λ a. Shown ds a (client_loop (suc left) attempt run)) (sym here)
        (loop-answered ds left attempt run full
          (subst (λ a. answer a ≡ event_stream (frames dumps (payloads true ds))) here answers)
          untold)
  loop-Shown ds full (suc k) (suc left) attempt run refuses answers bound room untold =
      let here : attempt + 0 ≡ attempt = omega arith in
      let later : attempt + suc k ≡ suc attempt + k = omega arith in
      let turned_away : answer attempt ≡ refused 503 =
        subst (λ a. answer a ≡ refused 503) here (refuses 0 (omega arith)) in
      rw (loop-refused left attempt run turned_away (ground arith), later)
        (loop-Shown ds full k left (suc attempt) (retried attempt run)
          (λ j small.
            subst (λ a. answer a ≡ refused 503) (shift attempt j)
              (refuses (suc j) (omega (arith, small))))
          (subst (λ a. answer a ≡ event_stream (frames dumps (payloads true ds))) later answers)
          (omega arith) (omega arith) (refl, untold.1, untold.2, refl))

module _ (choices : Text → ℕ → Text) (dumps : Payload → Text) (tokens : ℕ) (body : Body) where
  chat_completions-fails :
      (b : Bool) → b ≡ true → chat_completions choices dumps tokens b body ≡ refused 503
  unfolding chat_completions
  chat_completions-fails b h = rw h refl

  chat_completions-streams :
      (b : Bool)
      → b ≡ false
      → body.stream ≡ true
      → chat_completions choices dumps tokens b body
        ≡ event_stream
            (frames dumps (payloads body.include_usage (pieces_of choices dumps tokens body)))
  unfolding chat_completions
  chat_completions-streams b h streams = rw (h, streams) refl

-- Against a mock engine that refuses the first `k` attempts with 503, no more than the client
-- retries, and serves the next: the client's stream ends without an error in its attempt `k + 1`,
-- the deltas that it was told make up its text, and its text and both token counts are those of the
-- answer to the same request without streaming. JSON prints an object as one line and reads it back,
-- the words are not empty, and the callback does not raise.
pub stream_agrees :
    {dumps : Payload → Text} {loads : Text → Option ChunkJson} {lines : Text → List Text}
    {on_delta : Text → Option Fault} (choices : Text → ℕ → Text)
    → IsLines lines
    → IsJson dumps loads
    → ((d : Text) → on_delta d ≡ none)
    → ((seed : Text) (i : ℕ) → nonempty (choices seed i) ≡ true)
    → (b64encode : Text → Text) (client : OcrClient) (png : Text) (prompt : Option Text)
    → (clock : ℕ → ℕ → ℕ) (starts ends : ℕ → ℕ) (tokens : ℕ) (fails : ℕ → Bool) (k : ℕ)
    → k ≤ client.max_retries
    → ((j : ℕ) → j < k → fails (1 + j) ≡ true)
    → fails (1 + k) ≡ false
    → let ask = λ (streams failing : Bool).
      chat_completions choices dumps tokens failing (payload b64encode client png streams prompt) in
      let run =
        ocr_page_stream loads on_delta
          (λ a. response_of lines (clock a) (ask true (fails a)))
          starts
          ends
          client.max_retries in
      (ask false false
        ≡ completion run.stats.text run.stats.prompt_tokens run.stats.completion_tokens)
      × (run.stats.error ≡ none)
      × (flat run.told ≡ run.stats.text)
      × (run.stats.attempts ≡ 1 + k)
unfolding ocr_page_stream chat_completions
stream_agrees {dumps} choices splits json calm full b64encode client png prompt clock starts ends
      tokens fails k few failing serves =
    let body = payload b64encode client png true prompt in
    let ds = pieces_of choices dumps tokens body in
    let shown =
      loop-Shown splits json calm clock starts ends client.max_retries
        (λ a. chat_completions choices dumps tokens (fails a) body) ds
        (pieces_of-full choices dumps tokens body full) k (suc client.max_retries) 1
        (record { stats = new_stats; told = [] })
        (λ j small.
          chat_completions-fails choices dumps tokens body (fails (1 + j)) (failing j small))
        (chat_completions-streams choices dumps tokens body (fails (1 + k)) serves refl)
        (omega arith) (omega arith) (refl, refl, refl, refl) in
    (cc (shown.0, shown.2, shown.3), shown.5, ap flat shown.1 ∙ sym shown.0, shown.4)
