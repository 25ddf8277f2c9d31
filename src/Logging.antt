-- ===== src/Logging.antt =====
-- common/logging.py: `SafeLogger.makeRecord` and `JsonFormatter.format`. Which attributes a
-- LogRecord has, and which names the standard library refuses in `extra`, are parameters; values are texts.
pub mod Safety
use ocr_serving.Base.{
  Bool, true, false, ◌&&◌, ◌||◌, not, Option, none, some, List, [], ◌∷◌, ◌++◌, if◌then◌else◌, ℕ,
  drop, length, ◌-◌,
}
use ocr_serving.Base.Text.{Text, codes, starts_with, text_eq}
use ocr_serving.Base.Dict.{Dict, insert}

-- What the standard library puts into a record, and the context variables.
pub record LogRecord : Type 0 where
  pub created : Text
  pub levelname : Text
  pub name : Text
  pub message : Text
  -- the error and its traceback, where `exc_info` is set
  pub exc_info : Option (Text × Text)
  -- the attributes that `extra` added
  pub extra : Dict Text

pub record Context : Type 0 where
  pub request_id : Option Text
  pub job_id : Option Text

-- What the standard library's `makeRecord` does with `extra`: KeyError is `none`.
unfoldable pub any_refused : (Text → Bool) → Dict Text → Bool
any_refused refuses [] = false
any_refused refuses ((k, v) ∷ extra) = refuses k || any_refused refuses extra

abbrev pub with_id : Text → Option Text → Dict Text → Dict Text
with_id key none payload = payload
with_id key (some id) payload = insert key id payload

-- `[-n:]`
abbrev pub last_codes : ℕ → Text → Text
last_codes n t = drop (length t - n) t

abbrev pub with_error : Option (Text × Text) → Dict Text → Dict Text
with_error none payload = payload
with_error (some (error, trace)) payload =
    insert (codes "traceback") (last_codes 4000 trace) (insert (codes "error") error payload)

abbrev pub first_fields : Text → LogRecord → Dict Text
first_fields service r =
    (codes "ts", r.created)
    ∷ (codes "level", r.levelname)
    ∷ (codes "service", service)
    ∷ (codes "logger", r.name)
    ∷ (codes "msg", r.message)
    ∷ []

-- `_RESERVED`: the attributes of a LogRecord and three names more.
unfoldable pub reserved_names : (Text → Bool) → Text → Bool
unfolding text_eq
reserved_names attribute k =
    attribute k
    || text_eq k (codes "asctime")
    || text_eq k (codes "message")
    || text_eq k (codes "taskName")

module _ (reserved : Text → Bool) where
  -- `f"{k}_" if k in _RESERVED else k`
  abbrev pub safe_key : Text → Text
  safe_key k = if reserved k then k ++ codes "_" else k

  -- The comprehension over `extra.items()`: a later item under the same new name wins.
  unfoldable pub renamed : Dict Text → Dict Text → Dict Text
  renamed out [] = out
  renamed out ((k, v) ∷ extra) = renamed (insert (safe_key k) v out) extra

  -- `SafeLogger.makeRecord`, from the record without the extras.
  unfoldable pub make_record : (Text → Bool) → LogRecord → Dict Text → Option LogRecord
  unfolding renamed any_refused
  make_record refuses record_of extra =
      let safe = renamed [] extra in
      if any_refused refuses safe then none else some (record record_of { extra = safe })

  -- `payload.update(…)`
  unfoldable pub updated : Dict Text → Dict Text → Dict Text
  unfolding starts_with
  updated payload [] = payload
  updated payload ((k, v) ∷ extra) =
      updated
        (if not (reserved k) && not (starts_with k (codes "_"))
          then insert k v payload
          else payload)
        extra

  -- `JsonFormatter.format`, up to the printing of the object.
  unfoldable pub payload_of : Text → Context → LogRecord → Dict Text
  unfolding updated
  payload_of service context r = with_error r.exc_info (
      updated
        (with_id (codes "job_id") context.job_id
          (with_id (codes "request_id") context.request_id (first_fields service r)))
        r.extra)
