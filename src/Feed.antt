-- ===== src/Feed.antt =====
-- workers/cpu_worker.py: `aiter_pages`, the bounded queue between the thread that renders the pages and
-- the loop that takes them. A step is one put, one get, or the end of either side; each order of the
-- two sides is a run.
pub mod Marks
pub mod Order
pub mod Leak
use ocr_serving.Base.{ℕ, ◌<◌, ◌≡◌, Bool, true, false, List, [], ◌∷◌, ◌++◌, length, max}

-- What is in the queue: a page, the exception of the renderer, or `done`.
pub data Item (A : Type 0) : Type 0 where
  page : A → Item A
  failure done : Item A

-- The thread: in `iter_pages`, before the put of `done`, and behind it.
pub data Producer : Type 0 where
  producing closing ended : Producer

-- The generator: at `queue.get` or at `yield`; at `await producer`, behind `done`, behind the renderer's
-- exception, or closed at a `yield` by a caller that takes no more; and ended.
pub data Consumer : Type 0 where
  consuming drained failed left over : Consumer

pub record Channel (A : Type 0) : Type 0 where
  pub todo : List A
  pub queue : List (Item A)
  pub got : List A
  pub producer : Producer
  pub consumer : Consumer

-- `maxsize=max(prefetch, 1)`
abbrev pub maxsize : ℕ → ℕ
maxsize prefetch = max prefetch 1

module _ {A : Type 0} (prefetch : ℕ) (broken : Bool) where
  -- `broken`: the renderer raises behind its last page.
  pub data Step (a : Channel A) : Channel A → Type 0 where
    put_page :
        (x : A) (xs : List A)
        → a.producer ≡ producing
        → a.todo ≡ x ∷ xs
        → length a.queue < maxsize prefetch
        → Step a (record a { todo = xs; queue = a.queue ++ page x ∷ [] })
    put_failure :
        a.producer ≡ producing
        → a.todo ≡ []
        → broken ≡ true
        → length a.queue < maxsize prefetch
        → Step a (record a { queue = a.queue ++ failure ∷ []; producer = closing })
    finish :
        a.producer ≡ producing
        → a.todo ≡ []
        → broken ≡ false
        → Step a (record a { producer = closing })
    put_done :
        a.producer ≡ closing
        → length a.queue < maxsize prefetch
        → Step a (record a { queue = a.queue ++ done ∷ []; producer = ended })
    get_page :
        (x : A) (q : List (Item A))
        → a.consumer ≡ consuming
        → a.queue ≡ page x ∷ q
        → Step a (record a { queue = q; got = a.got ++ x ∷ [] })
    get_failure :
        (q : List (Item A))
        → a.consumer ≡ consuming
        → a.queue ≡ failure ∷ q
        → Step a (record a { queue = q; consumer = failed })
    get_done :
        (q : List (Item A))
        → a.consumer ≡ consuming
        → a.queue ≡ done ∷ q
        → Step a (record a { queue = q; consumer = drained })
    leave : a.consumer ≡ consuming → Step a (record a { consumer = left })
    join : (a.consumer ≡ consuming → ⊥) → a.producer ≡ ended → Step a (record a { consumer = over })

  unfoldable pub opened : List A → Channel A
  opened pages = record {
    todo = pages;
    queue = [];
    got = [];
    producer = producing;
    consumer = consuming;
  }

  pub data Later (a : Channel A) : Channel A → Type 0 where
    now : Later a a
    after : {b c : Channel A} → Later a b → Step b c → Later a c
