-- ===== src/Engine/Deltas.antt =====
-- The deltas of a response, and what one attempt makes of them.
use ocr_serving.Base.{
  ℕ, ◌≡◌, refl, ap, sym, ◌∙◌, ◌++◌, Bool, true, Option, none, some, List, [], ◌∷◌, append_assoc,
  append-nil, if◌then◌else◌, Bool-cases, inl, inr,
}
use ocr_serving.Base.Text.{Text, codes, text_eq}
use ocr_serving.Engine.{
  Fault, Response, finished, broken, line, Chunk, Run, Outcome, count_usage, count_delta, data_of,
  after_delta, emit_delta, take_payload, take_line, consume_stream, ChunkJson, read_json,
}

-- The deltas as one text.
unfoldable pub flat : List Text → Text
flat [] = []
flat (d ∷ ds) = d ++ flat ds

flat-append : (ds es : List Text) → flat (ds ++ es) ≡ flat ds ++ flat es
unfolding flat
flat-append [] es = refl
flat-append (d ∷ ds) es =
    ap (λ x. d ++ x) (flat-append ds es) ∙ sym (append_assoc d (flat ds) (flat es))

-- `new` was reached from `old` by the deltas `ds`: each was told and added to the text.
abbrev pub Streamed : List Text → Run → Run → Type 0
Streamed ds old new =
    (new.told ≡ old.told ++ ds)
    × (new.stats.text ≡ old.stats.text ++ flat ds)
    × (new.stats.attempts ≡ old.stats.attempts)

Streamed-refl : (r : Run) → Streamed [] r r
unfolding flat
Streamed-refl r = (sym (append-nil r.told), sym (append-nil r.stats.text), refl)

Streamed-trans :
    (ds es : List Text) (a b c : Run) → Streamed ds a b → Streamed es b c → Streamed (ds ++ es) a c
Streamed-trans ds es a b c (t, x, n) (t', x', n') = (
  t' ∙ (ap (λ x. x ++ es) t ∙ append_assoc a.told ds es),
  x'
      ∙ (ap (λ y. y ++ flat es) x
          ∙ (append_assoc a.stats.text (flat ds) (flat es)
              ∙ ap (λ y. a.stats.text ++ y) (sym (flat-append ds es)))),
  n' ∙ n,
)

module _ (json_loads : Text → Option ChunkJson) (on_delta : Text → Option Fault) where
  -- The deltas that a response has for `on_delta`, read without any statistics: `rest` is what the
  -- lines that follow have. A delta on which `on_delta` raises is the last.
  abbrev told_then : Option Fault → List Text → List Text
  told_then none rest = rest
  told_then (some e) rest = []

  abbrev delta_deltas : Text → List Text → List Text
  delta_deltas [] rest = rest
  delta_deltas (c ∷ delta) rest = (c ∷ delta) ∷ told_then (on_delta (c ∷ delta)) rest

  abbrev chunk_deltas : Option Chunk → List Text → List Text
  chunk_deltas none rest = []
  chunk_deltas (some c) rest = delta_deltas c.delta rest

  abbrev line_deltas : Option Text → List Text → List Text
  line_deltas none rest = rest
  line_deltas (some payload) rest =
      if text_eq payload (codes "[DONE]")
      then []
      else chunk_deltas (read_json (json_loads payload)) rest

  unfoldable pub deltas : Response → List Text
  unfolding data_of
  deltas finished = []
  deltas (broken e) = []
  deltas (line time t rest) = line_deltas (data_of t) (deltas rest)

  emit_delta-Streamed :
      (emitted : Bool) (after : ℕ) (delta : Text) (run : Run) (rest : List Text)
      (next : Bool → Run → Outcome × Run)
      → ((b : Bool) (r : Run) → Streamed rest r (next b r).1)
      → Streamed
          (delta_deltas delta rest)
          run
          (emit_delta json_loads on_delta emitted after delta run next).1
  unfolding emit_delta count_delta after_delta flat
  emit_delta-Streamed emitted after [] run rest next keep = keep emitted run
  emit_delta-Streamed emitted after (c ∷ delta) run rest next keep =
      Streamed-trans ((c ∷ delta) ∷ []) (told_then (on_delta (c ∷ delta)) rest) run told_one
        (emit_delta json_loads on_delta emitted after (c ∷ delta) run next).1
        (refl, ap (λ y. run.stats.text ++ y) (sym (append-nil (c ∷ delta))), refl)
        (go (on_delta (c ∷ delta)))
    where
      told_one : Run
      told_one = record {
        stats = count_delta emitted after (c ∷ delta) run.stats;
        told = run.told ++ (c ∷ delta) ∷ [];
      }

      go :
          (o : Option Fault)
          → Streamed (told_then o rest) told_one (after_delta json_loads on_delta o told_one next).1
      go none = keep true told_one
      go (some e) = Streamed-refl told_one

  take_line-Streamed :
      (emitted : Bool) (after : ℕ) (payload : Option Text) (run : Run) (rest : List Text)
      (next : Bool → Run → Outcome × Run)
      → ((b : Bool) (r : Run) → Streamed rest r (next b r).1)
      → Streamed
          (line_deltas payload rest)
          run
          (take_line json_loads on_delta emitted after payload run next).1
  unfolding take_line take_payload count_usage
  take_line-Streamed emitted after none run rest next keep = keep emitted run
  take_line-Streamed emitted after (some payload) run rest next keep =
      elim (Bool-cases (text_eq payload (codes "[DONE]"))) [
        | inl last ↦ rw last (Streamed-refl run)
        | inr more ↦ rw more (go (read_json (json_loads payload)))
      ]
    where
      go :
          (o : Option Chunk)
          → Streamed
              (chunk_deltas o rest)
              run
              (take_payload json_loads on_delta emitted after o run next).1
      go none = Streamed-refl run
      go (some c) =
          emit_delta-Streamed emitted after c.delta (record run { stats = count_usage c run.stats })
            rest next keep

  -- `_consume_stream` tells each delta of the response once, in order, adds exactly the told deltas to
  -- the text, and leaves the number of the attempt alone, however it ends.
  pub consume_stream-Streamed :
      (start : ℕ) (r : Response) (emitted : Bool) (run : Run)
      → Streamed (deltas r) run (consume_stream json_loads on_delta start r emitted run).1
  unfolding consume_stream deltas
  consume_stream-Streamed start finished emitted run = Streamed-refl run
  consume_stream-Streamed start (broken e) emitted run = Streamed-refl run
  consume_stream-Streamed start (line time t rest) emitted run =
      take_line-Streamed emitted _ (data_of t) run (deltas rest) _
        (consume_stream-Streamed start rest)
