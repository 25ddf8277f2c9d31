-- ===== src/Logging/Safety.antt =====
-- No field that a caller adds can break the call or replace the message.
use ocr_serving.Base.{
  ◌≡◌, refl, ap, ◌∙◌, Bool, true, false, ◌&&◌, not, Option, none, some, [], ◌∷◌, ◌++◌,
  if◌then◌else◌, Bool-cases, inl, inr, All,
}
use ocr_serving.Base.Text.{Text, codes, text_eq, text_eq_iff, starts_with}
use ocr_serving.Base.Dict.{Dict, lookup, insert, lookup-insert}
use ocr_serving.Logging.{
  LogRecord, Context, safe_key, renamed, any_refused, make_record, updated, with_id, with_error,
  last_codes, first_fields, payload_of, reserved_names,
}

module _ (reserved refuses : Text → Bool)
    (refuses-reserved : (k : Text) → refuses k ≡ true → reserved k ≡ true)
    (reserved-underscore : (k : Text) → reserved k ≡ true → reserved (k ++ codes "_") ≡ false)
    (reserved-msg : reserved (codes "msg") ≡ true) where
  -- No key of a dict is refused.
  abbrev Accepted : Dict Text → Type 0
  Accepted d = All {A = Text × Text} (λ e. refuses e.0 ≡ false) d

  not_refused : (k : Text) → reserved k ≡ false → refuses k ≡ false
  not_refused k free = elim (Bool-cases (refuses k)) [
    | inl bad ↦ cc (refuses-reserved k bad, free)
    | inr fine ↦ fine
  ]

  safe_key-free : (k : Text) → refuses (safe_key reserved k) ≡ false
  safe_key-free k = elim (Bool-cases (reserved k)) [
    | inl taken ↦ rw taken (not_refused (k ++ codes "_") (reserved-underscore k taken))
    | inr free ↦ rw free (not_refused k free)
  ]

  insert-Accepted :
      (k v : Text) (d : Dict Text) → refuses k ≡ false → Accepted d → Accepted (insert k v d)
  unfolding insert
  insert-Accepted k v [] fine h = (fine, tt)
  insert-Accepted k v ((j, w) ∷ d) fine h = elim (Bool-cases (text_eq j k)) [
    | inl same ↦ rw same (h.0, h.1)
    | inr differ ↦ rw differ (h.0, insert-Accepted k v d fine h.1)
  ]

  renamed-Accepted : (out extra : Dict Text) → Accepted out → Accepted (renamed reserved out extra)
  unfolding renamed
  renamed-Accepted out [] h = h
  renamed-Accepted out ((k, v) ∷ extra) h =
      renamed-Accepted (insert (safe_key reserved k) v out) extra
        (insert-Accepted (safe_key reserved k) v out (safe_key-free k) h)

  any_refused-Accepted : (d : Dict Text) → Accepted d → any_refused refuses d ≡ false
  unfolding any_refused
  any_refused-Accepted [] h = refl
  any_refused-Accepted ((k, v) ∷ d) h = rw (h.0, any_refused-Accepted d h.1) refl

  other_key : (j k : Text) → reserved j ≡ true → reserved k ≡ false → text_eq k j ≡ false
  other_key j k taken free = elim (Bool-cases (text_eq k j)) [
    | inl same ↦ cc (taken, free, ap reserved ((text_eq_iff k j).0 same))
    | inr differ ↦ differ
  ]

  kept_by :
      (j k v : Text) (payload : Dict Text)
      → reserved j ≡ true
      → lookup j (
          if not (reserved k) && not (starts_with k (codes "_"))
          then insert k v payload
          else payload)
        ≡ lookup j payload
  kept_by j k v payload taken = elim (Bool-cases (reserved k)) [
    | inl held ↦ rw held refl
    | inr free ↦ elim (Bool-cases (starts_with k (codes "_"))) [
      | inl hidden ↦ rw (free, hidden) refl
      | inr shown ↦
          rw (free, shown) (lookup-insert k j v payload ∙ rw (other_key j k taken free) refl)
    ]
  ]

  updated-reserved :
      (j : Text) (payload extra : Dict Text)
      → reserved j ≡ true
      → lookup j (updated reserved payload extra) ≡ lookup j payload
  unfolding updated
  updated-reserved j payload [] taken = refl
  updated-reserved j payload ((k, v) ∷ extra) taken =
      updated-reserved j
        (if not (reserved k) && not (starts_with k (codes "_"))
          then insert k v payload
          else payload)
        extra taken
      ∙ kept_by j k v payload taken

  with_id-msg :
      (key : Text) (id : Option Text) (payload : Dict Text)
      → text_eq key (codes "msg") ≡ false
      → lookup (codes "msg") (with_id key id payload) ≡ lookup (codes "msg") payload
  with_id-msg key none payload differ = refl
  with_id-msg key (some id) payload differ =
      lookup-insert key (codes "msg") id payload ∙ rw differ refl

  first-msg :
      (service : Text) (context : Context) (r : LogRecord)
      → lookup (codes "msg") (
          with_id
            (codes "job_id")
            context.job_id
            (with_id (codes "request_id") context.request_id (first_fields service r)))
        ≡ some r.message
  unfolding lookup text_eq
  first-msg service context r =
      with_id-msg (codes "job_id") context.job_id _ refl
      ∙ with_id-msg (codes "request_id") context.request_id (first_fields service r) refl

  with_error-msg :
      (error : Option (Text × Text)) (payload : Dict Text)
      → lookup (codes "msg") (with_error error payload) ≡ lookup (codes "msg") payload
  unfolding lookup text_eq insert
  with_error-msg none payload = refl
  with_error-msg (some (e, trace)) payload =
      lookup-insert (codes "traceback") (codes "msg") (last_codes 4000 trace)
        (insert (codes "error") e payload)
      ∙ lookup-insert (codes "error") (codes "msg") e payload

  payload-msg :
      (service : Text) (context : Context) (r : LogRecord)
      → lookup (codes "msg") (payload_of reserved service context r) ≡ some r.message
  unfolding payload_of
  payload-msg service context r =
      with_error-msg r.exc_info _
      ∙ updated-reserved (codes "msg") _ r.extra reserved-msg
      ∙ first-msg service context r

  safe_by :
      (service : Text) (context : Context) (r : LogRecord) (extra : Dict Text)
      → (made : LogRecord) × (make_record reserved refuses r extra ≡ some made)
        × (lookup (codes "msg") (payload_of reserved service context made) ≡ some r.message)
  unfolding make_record
  safe_by service context r extra = (
    record r { extra = renamed reserved [] extra },
    rw (any_refused-Accepted (renamed reserved [] extra) (renamed-Accepted [] extra tt)) refl,
    payload-msg service context (record r { extra = renamed reserved [] extra }),
  )

-- Whatever extra fields a caller adds, the record is made, nothing is raised, and the JSON object
-- written for it carries the caller's own message under `msg`, in any context, with an error or
-- without. The standard library refuses only reserved names, a reserved name with an underscore
-- after it is not reserved, and `msg` is an attribute of a record.
pub log_safe :
    (attribute refuses : Text → Bool)
    → ((k : Text) → refuses k ≡ true → reserved_names attribute k ≡ true)
    → ((k : Text)
        → reserved_names attribute k ≡ true
        → reserved_names attribute (k ++ codes "_") ≡ false)
    → attribute (codes "msg") ≡ true
    → (service : Text) (context : Context) (r : LogRecord) (extra : Dict Text)
    → (made : LogRecord) × (make_record (reserved_names attribute) refuses r extra ≡ some made)
      × (lookup (codes "msg") (payload_of (reserved_names attribute) service context made)
          ≡ some r.message)
unfolding reserved_names
log_safe attribute refuses refused free msg service context r extra =
    safe_by (reserved_names attribute) refuses refused free (rw msg refl) service context r extra
