-- ===== src/Events.antt =====
-- common/events.py: the state hash of a job, its replayable event stream, and the cancel flag.
pub mod RoundTrip
use ocr_serving.Base.{ℕ, ◌*◌, Bool, true, false, Option, none, some, List, [], ◌∷◌, if◌then◌else◌}
use ocr_serving.Base.Text.{Text, codes, text_or, nonempty, decimal, int_of}
use ocr_serving.Base.Dict.{Dict, lookup, insert}
use ocr_serving.Schemas.{
  JobStatus, queued, status_value, job_status, EventType, event_value, event_type, StreamEvent,
  JobState,
}
use ocr_serving.Config.{Settings, job_key, events_stream, cancel_key}
use ocr_serving.Effects.{Error, other, Env, Entry, Exec, pure, raise, perform, ◌>>=◌, ◌>>◌}
use ocr_serving.Effects

-- `FROM_START` and `FROM_NOW`
abbrev pub from_start : Text
from_start = codes "0-0"

abbrev pub from_now : Text
from_now = codes "$"

-- `raw.get(key) or d`
abbrev pub get_or : Text → Dict Text → Text → Text
get_or key raw d = elim (lookup key raw) [ none ↦ d | some v ↦ text_or v d ]

-- `raw.get(key, d)`
abbrev pub get_default : Text → Dict Text → Text → Text
get_default key raw d = elim (lookup key raw) [ none ↦ d | some v ↦ v ]

-- `"" if event.page is None else str(event.page)`
abbrev pub page_text : Option ℕ → Text
page_text none = []
page_text (some n) = decimal n

-- `ts.isoformat()`: a time is the text that it prints as.
abbrev pub isoformat : Text → Text
isoformat time = time

-- The fields of the stream entry that `publish` adds.
unfoldable pub event_fields : StreamEvent → Dict Text
event_fields e =
    (codes "type", event_value e.kind)
    ∷ (codes "page", page_text e.page)
    ∷ (codes "data", e.content)
    ∷ (codes "seq", decimal e.seq)
    ∷ (codes "ts", isoformat e.ts)
    ∷ []

-- `int(text) if text else None`; the outer `none` is the ValueError.
abbrev pub page_number : Text → Option (Option ℕ)
page_number [] = some none
page_number (c ∷ s) = elim (int_of (c ∷ s)) [ none ↦ none | some n ↦ some (some n) ]

-- `datetime.fromisoformat(fields["ts"]) if fields.get("ts") else …`, with the clock for the present.
abbrev pub parse_time : (Text → Option Text) → Text → Text → Option Text
parse_time fromisoformat clock [] = some clock
parse_time fromisoformat clock (c ∷ t) = fromisoformat (c ∷ t)

-- `_parse`; `none` is a KeyError or a ValueError.
unfoldable pub parse_event :
    (Text → Option Text) → Text → Text → Text → Dict Text → Option StreamEvent
parse_event fromisoformat clock job_id entry_id fields = elim (lookup (codes "type") fields) [
  | none ↦ none
  | some t ↦ elim (event_type t) [
    | none ↦ none
    | some kind ↦ elim (page_number (get_or (codes "page") fields [])) [
      | none ↦ none
      | some page ↦ elim (int_of (get_or (codes "seq") fields (codes "0"))) [
        | none ↦ none
        | some seq ↦ elim (parse_time fromisoformat clock (get_default (codes "ts") fields [])) [
          | none ↦ none
          | some ts ↦ some (record {
            kind = kind;
            job_id = job_id;
            page = page;
            content = get_default (codes "data") fields [];
            seq = seq;
            ts = ts;
            id = some entry_id;
          })
        ]
      ]
    ]
  ]
]

-- `mapping.update({k: v for … if v is not None})`
unfoldable pub update : Dict Text → List (Text × Option Text) → Dict Text
update d [] = d
update d ((k, none) ∷ fields) = update d fields
update d ((k, some v) ∷ fields) = update (insert k v d) fields

-- `parse_state`; `none` is a ValueError of a status or a number.
unfoldable pub parse_state : Text → Dict Text → Option JobState
parse_state job_id raw =
    elim (job_status (get_default (codes "status") raw (status_value queued))) [
      | none ↦ none
      | some status ↦ elim (int_of (get_or (codes "attempts") raw (codes "0"))) [
        | none ↦ none
        | some attempts ↦ elim (int_of (get_or (codes "pages_done") raw (codes "0"))) [
          | none ↦ none
          | some pages_done ↦ elim (int_of (get_or (codes "page_count") raw (codes "0"))) [
            | none ↦ none
            | some page_count ↦ some (record {
              job_id = job_id;
              status = status;
              filename = get_default (codes "filename") raw [];
              tenant = get_default (codes "tenant") raw (codes "default");
              attempts = attempts;
              pages_done = pages_done;
              page_count = page_count;
              error = lookup (codes "error") raw;
              created_at = lookup (codes "created_at") raw;
              updated_at = lookup (codes "updated_at") raw;
            })
          ]
        ]
      ]
    ]

module _ {S : Type 0} (env : Env S) (s : Settings) where
  unfoldable pub publish : StreamEvent → Exec S Text
  publish e =
      perform env.text_call
        (Effects.xadd (events_stream e.job_id) (event_fields e) (some s.event_stream_maxlen))

  -- The batch after the entries have come.
  unfoldable pub parse_all : Text → Text → List Entry → Exec S (List StreamEvent)
  parse_all clock job_id [] = pure []
  parse_all clock job_id (e ∷ es) =
      elim (parse_event env.fromisoformat clock job_id e.id e.fields) [
        | none ↦ raise (other (codes "ValueError") [])
        | some event ↦ do rest ← parse_all clock job_id es; pure (event ∷ rest)
      ]

  unfoldable pub read_events : Text → Text → Exec S (List StreamEvent)
  unfolding parse_all
  read_events job_id last_id = do
    clock ← perform env.text_call Effects.now
    entries ← perform env.entries_call (Effects.xread (events_stream job_id) last_id 500)
    parse_all clock job_id entries

  unfoldable pub expire_events : Text → Exec S (Unit {0})
  expire_events job_id = perform env.unit_call (Effects.expire (events_stream job_id) s.event_ttl_s)

  -- The mapping that `set_status` writes.
  unfoldable pub status_mapping : JobStatus → Text → List (Text × Option Text) → Dict Text
  unfolding update
  status_mapping status clock fields =
      update ((codes "status", status_value status) ∷ (codes "updated_at", clock) ∷ []) fields

  unfoldable pub set_status : Text → JobStatus → List (Text × Option Text) → Exec S (Unit {0})
  set_status job_id status fields = do
    clock ← perform env.text_call Effects.now
    perform env.unit_call (
        Effects.hset_expire (job_key job_id) (status_mapping status clock fields)
          (s.result_ttl_days * 86400))

  -- Nothing is sent when every field is `None`.
  unfoldable pub send_fields : Text → Dict Text → Exec S (Unit {0})
  send_fields job_id [] = pure tt
  send_fields job_id (f ∷ fs) = perform env.unit_call (Effects.hset (job_key job_id) (f ∷ fs))

  unfoldable pub update_job : Text → List (Text × Option Text) → Exec S (Unit {0})
  unfolding send_fields update
  update_job job_id fields = send_fields job_id (update [] fields)

  unfoldable pub incr_pages_done : Text → Exec S ℕ
  incr_pages_done job_id =
      perform env.nat_call (Effects.hincrby (job_key job_id) (codes "pages_done") 1)

  unfoldable pub get_job : Text → Exec S (Dict Text)
  get_job job_id = perform env.dict_call (Effects.hgetall (job_key job_id))

  unfoldable pub request_cancel : Text → Exec S (Unit {0})
  request_cancel job_id =
      perform env.unit_call (Effects.setex (cancel_key job_id) s.event_ttl_s (codes "1"))

  unfoldable pub is_cancelled : Text → Exec S Bool
  is_cancelled job_id = perform env.bool_call (Effects.exists (cancel_key job_id))
