-- ===== src/Events/RoundTrip.antt =====
-- What a subscriber reads is what was published.
use ocr_serving.Base.{ℕ, ◌≡◌, refl, true, Option, none, some, [], ◌∷◌}
use ocr_serving.Base.Text.{
  Text, codes, text_eq, text_or, nonempty, decimal, int_of, int_of-decimal, decimal-nonempty,
}
use ocr_serving.Base.Dict.{lookup}
use ocr_serving.Schemas.{StreamEvent}
use ocr_serving.Schemas.Values.{event_type-value}
use ocr_serving.Events.{event_fields, parse_event, page_text, page_number, isoformat, parse_time}

text_or-nonempty : (t d : Text) → nonempty t ≡ true → text_or t d ≡ t
text_or-nonempty [] d h = cc
text_or-nonempty (c ∷ t) d h = refl

text_or-nil : (t : Text) → text_or t [] ≡ t
text_or-nil [] = refl
text_or-nil (c ∷ t) = refl

page_number-nonempty :
    (t : Text) (n : ℕ) → nonempty t ≡ true → int_of t ≡ some n → page_number t ≡ some (some n)
page_number-nonempty [] n h e = cc
page_number-nonempty (c ∷ t) n h e = rw (page_number, e)

page_number-page_text : (p : Option ℕ) → page_number (page_text p) ≡ some p
page_number-page_text none = refl
page_number-page_text (some n) =
    page_number-nonempty (decimal n) n (decimal-nonempty n) (int_of-decimal n)

parse_time-ts :
    (fromisoformat : Text → Option Text) (clock t : Text)
    → nonempty t ≡ true
    → fromisoformat t ≡ some t
    → parse_time fromisoformat clock t ≡ some t
parse_time-ts fromisoformat clock [] h e = cc
parse_time-ts fromisoformat clock (c ∷ t) h e = e

-- An event is read back from its stream entry as it was published, with the entry's id, where its time
-- has a text and `fromisoformat` reads the time back from it.
pub parse_event-event_fields :
    (fromisoformat : Text → Option Text) (e : StreamEvent) (clock entry_id : Text)
    → nonempty (isoformat e.ts) ≡ true
    → fromisoformat (isoformat e.ts) ≡ some e.ts
    → parse_event fromisoformat clock e.job_id entry_id (event_fields e)
      ≡ some (record e { id = some entry_id })
unfolding parse_event event_fields lookup text_eq
parse_event-event_fields fromisoformat e clock entry_id timed reads =
    rw (parse_event, event_type-value e.kind)
      (rw (text_or-nil (page_text e.page)) (
        rw (page_number-page_text e.page) (
          rw (text_or-nonempty (decimal e.seq) (codes "0") (decimal-nonempty e.seq))
            (rw (int_of-decimal e.seq) (rw (parse_time-ts fromisoformat clock e.ts timed reads))))))

-- An entry whose time cannot be read is an error, whatever else it holds.
pub parse_event-unreadable :
    (fromisoformat : Text → Option Text) (e : StreamEvent) (clock entry_id : Text)
    → nonempty (isoformat e.ts) ≡ true
    → fromisoformat (isoformat e.ts) ≡ none
    → parse_event fromisoformat clock e.job_id entry_id (event_fields e) ≡ none
unfolding parse_event event_fields lookup text_eq
parse_event-unreadable fromisoformat e clock entry_id timed fails =
    rw (parse_event, event_type-value e.kind)
      (rw (text_or-nil (page_text e.page)) (
        rw (page_number-page_text e.page) (
          rw (text_or-nonempty (decimal e.seq) (codes "0") (decimal-nonempty e.seq))
            (rw (int_of-decimal e.seq) (rw (unread e.ts timed fails))))))
  where
    unread :
        (t : Text)
        → nonempty t ≡ true
        → fromisoformat t ≡ none
        → parse_time fromisoformat clock t ≡ none
    unread [] h f = cc
    unread (c ∷ t) h f = f
