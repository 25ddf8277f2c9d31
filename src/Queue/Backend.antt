-- ===== src/Queue/Backend.antt =====
-- What `JobQueue` relies on of a Redis stream with a consumer group, as laws of an environment. An
-- entry is due while the stream has it and the group has yet to see it acknowledged. Streams, jobs and
-- quotas have different keys, and so have the queue and its dead letters.
use ocr_serving.Base.{ℕ, ◌≡◌, Bool, false, ◌||◌, not, Option, none, some, List, [], ◌⊎◌, All}
use ocr_serving.Base.Text.{Text, codes, text_eq, starts_with}
use ocr_serving.Base.Dict.{Dict, lookup, insert, erase}
use ocr_serving.Config.{Settings}
use ocr_serving.Effects.{response, Result, ok, err, Call, Entry, Env}
use ocr_serving.Effects

-- A key of a job or of a quota; the queue's stream is another.
unfoldable pub is_apart : Text → Bool
unfolding starts_with
is_apart key = starts_with key (codes "job:") || starts_with key (codes "quota:")

-- What may end the delivery of this entry: its XACK and XDEL, and a request that replaces, trims or
-- expires a key that may be the queue's.
abbrev pub takes : Settings → Call → Text → Bool
takes s (Effects.xack stream group id) i = text_eq id i
takes s (Effects.xdel stream id) i = text_eq id i
takes s (Effects.xadd stream fields (some n)) i =
    not (is_apart stream || text_eq stream s.dead_letter_stream)
takes s (Effects.setex key n v) i = not (is_apart key)
takes s (Effects.expire key n) i = not (is_apart key)
takes s (Effects.hset_expire key fields n) i = not (is_apart key)
takes s (Effects.incrby_expire key n m) i = not (is_apart key)
takes s c i = false

-- A delivered entry is due, with the fields that it was added with.
abbrev pub IsDue : Dict (Dict Text) → Entry → Type 0
IsDue d e = lookup e.id d ≡ some e.fields

-- XAUTOCLAIM also delivers an entry whose message is gone from the stream: it has no fields.
abbrev pub IsClaimed : Dict (Dict Text) → Entry → Type 0
IsClaimed d e = IsDue d e ⊎ ((lookup e.id d ≡ none) × (e.fields ≡ []))

-- A request that does not take the entry `id` leaves it due, whether it is answered or raises.
abbrev pub Leaves :
    {S A : Type 0} → Settings → (S → Dict (Dict Text)) → (Call → S → Result A × S) → Type 0
Leaves {S} s due answer =
    (c : Call) (a : S) (id : Text) (fields : Dict Text)
    → takes s c id ≡ false
    → lookup id (due a) ≡ some fields
    → lookup id (due (answer c a).1) ≡ some fields

pub record Backend {S : Type 0} (env : Env S) (s : Settings) : Type 0 where
  -- the entries that are due, by their ids, and the latest dead letter
  pub due : S → Dict (Dict Text)
  pub latest : S → Option (Dict Text)
  -- the id of an XADD is a new one
  pub added :
      (a b : S) (fields : Dict Text) (id : Text)
      → env.text_call (Effects.xadd s.queue_stream fields none) a ≡ (ok id, b)
      → (lookup id (due a) ≡ none) × (due b ≡ insert id fields (due a)) × (latest b ≡ latest a)
  pub buried :
      (a b : S) (fields : Dict Text) (n : ℕ) (id : Text)
      → env.text_call (Effects.xadd s.dead_letter_stream fields (some n)) a ≡ (ok id, b)
      → (due b ≡ due a) × (latest b ≡ some fields)
  -- an XACK of an entry that was not delivered changes nothing
  pub acked :
      (a b : S) (id : Text)
      → env.unit_call (Effects.xack s.queue_stream s.queue_group id) a ≡ (ok tt, b)
      → ((due b ≡ erase id (due a)) ⊎ (due b ≡ due a)) × (latest b ≡ latest a)
  pub deleted :
      (a b : S) (id : Text)
      → env.unit_call (Effects.xdel s.queue_stream id) a ≡ (ok tt, b)
      → (due b ≡ erase id (due a)) × (latest b ≡ latest a)
  pub delivered :
      (a b : S) (n : ℕ) (es : List Entry)
      → env.entries_call (Effects.xreadgroup s.queue_stream s.queue_group n) a ≡ (ok es, b)
      → All (IsDue (due a)) es × (due b ≡ due a) × (latest b ≡ latest a)
  pub claimed :
      (a b : S) (idle n : ℕ) (es : List Entry)
      → env.entries_call (Effects.xautoclaim s.queue_stream s.queue_group idle n) a ≡ (ok es, b)
      → All (IsClaimed (due a)) es × (due b ≡ due a) × (latest b ≡ latest a)
  pub refused :
      (a b : S) (c : Call) (name text : Text)
      → env.entries_call c a ≡ (err (response name text), b)
      → (due b ≡ due a) × (latest b ≡ latest a)
  pub leaves_unit : Leaves s due env.unit_call
  pub leaves_text : Leaves s due env.text_call
  pub leaves_nat : Leaves s due env.nat_call
  pub leaves_bool : Leaves s due env.bool_call
  pub leaves_optional : Leaves s due env.optional_call
  pub leaves_dict : Leaves s due env.dict_call
  pub leaves_entries : Leaves s due env.entries_call
