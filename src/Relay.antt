-- ===== src/Relay.antt =====
-- workers/cpu_worker.py: `TokenRelay`, which gathers the deltas of a page into larger TOKEN events.
-- The clock is read in milliseconds. The regions of a page share one relay: up to its `await` a call
-- runs alone, then the publish is under way while others call, and it arrives or raises.
pub mod Tokens
use ocr_serving.Base.{
  ◌≡◌, ℕ, suc, ◌+◌, ◌-◌, Bool, true, false, Option, none, some, List, [], ◌∷◌, ◌++◌, ◌||◌, length,
  leb, if◌then◌else◌,
}
use ocr_serving.Base.Text.{Text}
use ocr_serving.Schemas.{token, StreamEvent}

pub record Relay : Type 0 where
  pub job_id : Text
  pub page : ℕ
  pub flush_chars : ℕ
  pub flush_interval : ℕ
  pub buf : List Text
  pub size : ℕ
  pub last : ℕ
  pub seq : ℕ

-- `"".join(self._buf)`
unfoldable pub joined : List Text → Text
joined [] = []
joined (d ∷ ds) = d ++ joined ds

-- `__init__`, with the clock at its time.
unfoldable pub new_relay : Text → ℕ → ℕ → ℕ → ℕ → Relay
new_relay job_id page flush_chars flush_interval clock = record {
  job_id = job_id;
  page = page;
  flush_chars = flush_chars;
  flush_interval = flush_interval;
  buf = [];
  size = 0;
  last = clock;
  seq = 0;
}

unfoldable pub token_event : Relay → Text → StreamEvent
token_event r payload = record {
  kind = token;
  job_id = r.job_id;
  page = some r.page;
  content = payload;
  seq = suc r.seq;
  ts = [];
  id = none;
}

abbrev pub flush_from : List Text → ℕ → Relay → Relay × Option StreamEvent
flush_from [] clock r = (r, none)
flush_from (d ∷ ds) clock r = (
  record r { buf = []; size = 0; last = clock; seq = suc r.seq },
  some (token_event r (joined (d ∷ ds))),
)

-- `flush` up to its publish, with the clock at its time, and the event that it publishes.
unfoldable pub flush : ℕ → Relay → Relay × Option StreamEvent
unfolding joined token_event
flush clock r = flush_from r.buf clock r

-- `self._buf.append(delta)` and `self._size += len(delta)`
abbrev pub take_in : Text → Relay → Relay
take_in delta r = record r { buf = r.buf ++ delta ∷ []; size = r.size + length delta }

-- `__call__` up to the publish, with the clock at the call and at the flush.
unfoldable pub relay_delta : Text → ℕ → ℕ → Relay → Relay × Option StreamEvent
unfolding flush
relay_delta delta now clock r =
    let full : Relay = take_in delta r in
    if leb full.flush_chars full.size || leb full.flush_interval (now - full.last)
    then flush clock full
    else (full, none)

-- The relay of a page, the deltas that it was called with so far, as one text, and the events that it
-- published: under way, arrived (the latest first), and lost to an exception.
pub record Traffic : Type 0 where
  pub relay : Relay
  pub called : Text
  pub flying : List StreamEvent
  pub arrived : List StreamEvent
  pub lost : List StreamEvent

abbrev pub posted : Option StreamEvent → List StreamEvent
posted none = []
posted (some e) = e ∷ []

abbrev pub post : Text → Relay × Option StreamEvent → Traffic → Traffic
post delta (r, e) w = record w {
  relay = r;
  called = w.called ++ delta;
  flying = w.flying ++ posted e;
}

-- What a region does with the relay, and what becomes of its publishes.
pub data Step (w : Traffic) : Traffic → Type 0 where
  calls :
      (delta : Text) (now clock : ℕ) → Step w (post delta (relay_delta delta now clock w.relay) w)
  flushes : (clock : ℕ) → Step w (post [] (flush clock w.relay) w)
  arrives :
      (e : StreamEvent) (before after : List StreamEvent)
      → w.flying ≡ before ++ e ∷ after
      → Step w (record w { flying = before ++ after; arrived = e ∷ w.arrived })
  raises :
      (e : StreamEvent) (before after : List StreamEvent)
      → w.flying ≡ before ++ e ∷ after
      → Step w (record w { flying = before ++ after; lost = e ∷ w.lost })

module _ (job_id : Text) (page flush_chars flush_interval clock : ℕ) where
  unfoldable pub new_traffic : Traffic
  unfolding new_relay
  new_traffic = record {
    relay = new_relay job_id page flush_chars flush_interval clock;
    called = [];
    flying = [];
    arrived = [];
    lost = [];
  }

  pub data Reach : Traffic → Type 0 where
    here : Reach new_traffic
    next : {v w : Traffic} → Reach v → Step v w → Reach w
