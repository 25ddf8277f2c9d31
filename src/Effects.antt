-- ===== src/Effects.antt =====
-- What the service asks of Redis, PostgreSQL, the file system, the clock, pymupdf and the engine.
-- Each request is a `Call`; an `Env` answers it from a state of its own, or raises. The model keeps
-- a log of the calls that were made, the latest first, so that a theorem can say what was sent and
-- in which order, whatever the answers were.
pub mod Logs
pub mod Yields
use ocr_serving.Base.{ℕ, Bool, Option, List, ◌∷◌, ◌++◌}
use ocr_serving.Base.Text.{Text, codes, decimal}
use ocr_serving.Base.Dict.{Dict}

-- Exceptions, by how the code tells them apart: redis-py's `ResponseError` and its subclasses,
-- `UnreadableDocument`, `JobCancelled`, FastAPI's `HTTPException`, and all others. `response` and
-- `other` have the name of the class first, then the text that the exception prints.
pub data Error : Type 0 where
  response : Text → Text → Error
  unreadable : Text → Error
  cancelled : Error
  http : ℕ → Text → Error
  other : Text → Text → Error

pub data Result {ℓ} (A : Type ℓ) : Type ℓ where
  ok : A → Result A
  err : Error → Result A

-- The text that an exception prints.
abbrev pub error_text : Error → Text
error_text (response name text) = text
error_text (unreadable text) = text
error_text cancelled = codes "JobCancelled"
error_text (http code text) = decimal code ++ (codes ": " ++ text)
error_text (other name text) = text

-- `type(exc).__name__`
abbrev pub class_name : Error → Text
class_name (response name text) = name
class_name (unreadable text) = codes "UnreadableDocument"
class_name cancelled = codes "JobCancelled"
class_name (http code text) = codes "HTTPException"
class_name (other name text) = name

-- `f"{type(exc).__name__}: {exc}"`
unfoldable pub named_error : Error → Text
named_error e = class_name e ++ (codes ": " ++ error_text e)

pub data Call : Type 0 where
  -- redis-py; `hset_expire` is the transaction of HSET and EXPIRE
  xadd : Text → Dict Text → Option ℕ → Call
  xack : Text → Text → Text → Call
  xdel : Text → Text → Call
  xgroup_create : Text → Text → Call
  xreadgroup : Text → Text → ℕ → Call
  xautoclaim : Text → Text → ℕ → ℕ → Call
  -- with `min_idle_time=0` and `justid=True`
  xclaim : Text → Text → Text → List Text → Call
  xread : Text → Text → ℕ → Call
  xlen : Text → Call
  xinfo_pending : Text → Text → Call
  hset : Text → Dict Text → Call
  hset_expire : Text → Dict Text → ℕ → Call
  hincrby : Text → Text → ℕ → Call
  hgetall : Text → Call
  get exists : Text → Call
  setex : Text → ℕ → Text → Call
  expire : Text → ℕ → Call
  incrby_expire : Text → ℕ → ℕ → Call
  -- the clock, the file system, pymupdf, PostgreSQL, uuid
  now today perf_counter : Call
  path_exists : Text → Call
  open_pdf needs_pass : Text → Call
  write_file : Text → Text → Call
  read_file : Text → Call
  unlink : Text → Call
  searchable_pdf : Text → List Text → Text → Call
  save_job : Text → Call
  load_job : Text → Call
  -- the blob store and the rate limiter
  put_blob : Text → Call
  delete_blob : Text → Call
  take_token : Text → Call
  new_id : Call

pub record Entry : Type 0 where
  pub id : Text
  pub fields : Dict Text

-- The environment, by the type of the answer. A time is the text that `isoformat` prints for it.
pub record Env (S : Type 0) : Type 0 where
  pub unit_call : Call → S → Result (Unit {0}) × S
  pub text_call : Call → S → Result Text × S
  pub nat_call : Call → S → Result ℕ × S
  pub bool_call : Call → S → Result Bool × S
  pub optional_call : Call → S → Result (Option Text) × S
  pub dict_call : Call → S → Result (Dict Text) × S
  pub entries_call : Call → S → Result (List Entry) × S
  -- `datetime.fromisoformat`: a ValueError is `none`
  pub fromisoformat : Text → Option Text

pub record World (S : Type 0) : Type 0 where
  pub state : S
  pub log : List Call
  -- `Worker._inflight`: entry id to job id
  pub inflight : Dict Text

abbrev pub Exec : Type 0 → Type 0 → Type 0
Exec S A = World S → Result A × World S

module _ {S A : Type 0} where
  abbrev pub pure : A → Exec S A
  pure a w = (ok a, w)

  abbrev pub raise : Error → Exec S A
  raise e w = (err e, w)

module _ {S A B : Type 0} where
  abbrev pub continue : Result A → (A → Exec S B) → Exec S B
  continue (ok a) f w = f a w
  continue (err e) f w = (err e, w)

  infixl 10 ◌>>=◌ ◌>>◌
  abbrev pub ◌>>=◌ : Exec S A → (A → Exec S B) → Exec S B
  ◌>>=◌ m f w = let (r, w') = m w in continue r f w'

  abbrev pub ◌>>◌ : Exec S A → Exec S B → Exec S B
  m >> n = m >>= λ _. n

module _ {S A : Type 0} where
  abbrev pub handled : Result A → (Error → Exec S A) → Exec S A
  handled (ok a) h w = (ok a, w)
  handled (err e) h w = h e w

  -- `try: m; except …: h`
  abbrev pub catch : Exec S A → (Error → Exec S A) → Exec S A
  catch m h w = let (r, w') = m w in handled r h w'

  -- A call is logged, then answered.
  unfoldable pub perform : (Call → S → Result A × S) → Call → Exec S A
  perform answer c w = let (r, s) = answer c w.state in (r, record w { state = s; log = c ∷ w.log })
