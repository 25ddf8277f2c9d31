-- ===== src/Tests/TextTests.antt =====
-- The post-processing and the events, on short texts.
use ocr_serving.Base.{◌≡◌, refl, none, some, Option, if◌then◌else◌, drop}
use ocr_serving.Base.Text.{Text, codes, starts_with}
use ocr_serving.Schemas.{token, StreamEvent}
use ocr_serving.Events.{event_fields, parse_event}
use ocr_serving.Events.RoundTrip.{parse_event-event_fields}

abbrev delta : StreamEvent
delta = record {
  kind = token;
  job_id = codes "j1";
  page = some 12;
  content = codes "Hello";
  seq = 0;
  ts = codes "2024-01-01T00:00:00";
  id = none;
}

-- A time is read where it has the hours behind the day.
abbrev read_time : Text → Option Text
read_time t = if starts_with (drop 10 t) (codes "T") then some t else none

parse_event-event_fields_example :
    parse_event read_time (codes "now") (codes "j1") (codes "5-0") (event_fields delta)
    ≡ some (record delta { id = some (codes "5-0") })
unfolding starts_with
parse_event-event_fields_example =
    parse_event-event_fields read_time delta (codes "now") (codes "5-0") refl refl
