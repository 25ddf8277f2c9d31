-- ===== src/Tests/StreamTests.antt =====
-- A stream of one event, and a relay of three deltas.
use ocr_serving.Base.{
  refl, ℕ, ◌++◌, ◌≡◌, Bool, true, false, none, some, List, [], ◌∷◌, sym, subst, append-nil,
  if◌then◌else◌,
}
use ocr_serving.Base.Text.{Text, codes, text_eq}
use ocr_serving.Schemas.{StreamEvent, job_complete, token}
use ocr_serving.Streaming.{Poll, advance, event_source}
use ocr_serving.Streaming.Resume.{Starts, events_in, event_source-Starts}
use mathlib.Core.List.{Perm}
use ocr_serving.Relay.{
  flush, new_relay, relay_delta, joined, token_event, Traffic, post, calls, flushes, arrives, Reach,
  here, next, new_traffic,
}
use ocr_serving.Relay.Tokens.{contents, Numbered, relay_exact}

abbrev last_event : StreamEvent
last_event = record {
  kind = job_complete;
  job_id = codes "j1";
  page = none;
  content = codes "1";
  seq = 0;
  ts = codes "t";
  id = some (codes "7-0");
}

-- The entries behind a cursor: the event, unless the cursor is the event's id.
abbrev after : Text → List StreamEvent
after cursor = if text_eq cursor (codes "7-0") then [] else last_event ∷ []

after_moves :
    (cursor : Text) (e : StreamEvent) (rest : List StreamEvent)
    → after cursor ≡ e ∷ rest
    → after (advance e.id cursor) ≡ rest
unfolding text_eq
after_moves cursor e rest h = go (text_eq cursor (codes "7-0")) h
  where
    go :
        (b : Bool)
        → (if b then [] else last_event ∷ []) ≡ e ∷ rest
        → after (advance e.id cursor) ≡ rest
    go true p = absurd (none_left p)
      where
        none_left : [] ≡ e ∷ rest → ⊥
        none_left q = cc
    go false p = subst (λ x. after (advance x.id cursor) ≡ rest) same no_more
      where
        same : last_event ≡ e
        same = cc

        no_more : [] ≡ rest
        no_more = cc

abbrev whole : Poll
whole = record { gone = false; read = after; job = [] }

event_source-Starts_example :
    Starts (events_in (event_source (whole ∷ []) (codes "0-0"))) (after (codes "0-0"))
event_source-Starts_example =
    event_source-Starts after after_moves (whole ∷ []) (codes "0-0")
      (λ cursor. ([], sym (append-nil (after cursor))), tt)

-- Two deltas are gathered into an event, a third into another, which arrives first.
abbrev quiet : Traffic
quiet = new_traffic (codes "j1") 0 24 50 0

abbrev after_call : Text → ℕ → ℕ → Traffic → Traffic
after_call delta now clock w = post delta (relay_delta delta now clock w.relay) w

abbrev both_called : Traffic
both_called = after_call (codes " world") 90 91 (after_call (codes "He") 1 1 quiet)

abbrev flushed : Traffic
flushed = let w = after_call (codes "!") 92 92 both_called in post [] (flush 95 w.relay) w

abbrev relay_event : Text → ℕ → StreamEvent
relay_event content seq = record {
  kind = token;
  job_id = codes "j1";
  page = some 0;
  content = content;
  seq = seq;
  ts = [];
  id = none;
}

abbrev second_arrived : Traffic
second_arrived = record flushed {
  flying = relay_event (codes "He world") 1 ∷ [];
  arrived = relay_event (codes "!") 2 ∷ [];
}

run : Reach (codes "j1") 0 24 50 0 second_arrived
unfolding new_traffic new_relay relay_delta flush joined token_event
run =
    next
      (next
        (next (next (next here (calls (codes "He") 1 1)) (calls (codes " world") 90 91))
          (calls (codes "!") 92 92))
        (flushes 95))
      (arrives (relay_event (codes "!") 2) (relay_event (codes "He world") 1 ∷ []) [] refl)

relay_exact_example :
    (made : List StreamEvent) × (contents made ++ joined second_arrived.relay.buf
      ≡ second_arrived.called)
    × Numbered 1 made
    × Perm (second_arrived.flying ++ (second_arrived.arrived ++ second_arrived.lost)) made
relay_exact_example = relay_exact (codes "j1") 0 24 50 0 second_arrived run
