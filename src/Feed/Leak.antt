-- ===== src/Feed/Leak.antt =====
-- A loop over the pages that stops early: the cancellation of a job closes the generator at a `yield`.
use ocr_serving.Base.{ℕ, ◌+◌, ◌<◌, ◌≤◌, ◌≡◌, ap, Bool, List, [], ◌∷◌, length, length-append, arith}
use ocr_serving.Feed.{
  page, Producer, producing, closing, ended, Consumer, consuming, left, over, Channel, maxsize,
  Step, put_page, put_failure, finish, put_done, get_page, get_failure, get_done, leave, join,
  opened, Later, now, after,
}
use ocr_serving.Feed.Order.{Later-order}

left_ne : {c : Consumer} → c ≡ left → c ≡ consuming → ⊥
left_ne e h = cc

over_ne : {c : Consumer} → c ≡ left → c ≡ over → ⊥
over_ne e h = cc

closing_not : {p : Producer} → p ≡ producing → p ≡ closing → ⊥
closing_not e h = cc

ended_not : {p : Producer} → p ≡ producing → p ≡ ended → ⊥
ended_not e h = cc

module _ {A : Type 0} (prefetch : ℕ) (broken : Bool) where
  -- The thread has more pages than the queue takes, and nobody takes them.
  pub record IsLeft (a : Channel A) : Type 0 where
    pub gone : a.consumer ≡ left
    pub at_work : a.producer ≡ producing
    pub short : length a.queue ≤ maxsize prefetch
    pub too_many : maxsize prefetch < length a.queue + length a.todo

  Step-IsLeft : {a b : Channel A} → Step prefetch broken a b → IsLeft a → IsLeft b
  Step-IsLeft {a} (put_page x xs at more room) v = record {
    gone = v.gone;
    at_work = v.at_work;
    short = omega (arith, length-append a.queue (page x ∷ []), room);
    too_many = omega (arith, length-append a.queue (page x ∷ []), v.too_many, ap length more);
  }
  Step-IsLeft (put_failure at none_left raises room) v =
      absurd (omega (arith, v.too_many, room, ap length none_left))
  Step-IsLeft (finish at none_left quiet) v =
      absurd (omega (arith, v.too_many, v.short, ap length none_left))
  Step-IsLeft (put_done at room) v = absurd (closing_not v.at_work at)
  Step-IsLeft (get_page x q at first) v = absurd (left_ne v.gone at)
  Step-IsLeft (get_failure q at first) v = absurd (left_ne v.gone at)
  Step-IsLeft (get_done q at first) v = absurd (left_ne v.gone at)
  Step-IsLeft (leave at) v = absurd (left_ne v.gone at)
  Step-IsLeft (join at ends) v = absurd (ended_not v.at_work ends)

  Later-IsLeft : {a b : Channel A} → Later prefetch broken a b → IsLeft a → IsLeft b
  Later-IsLeft now v = v
  Later-IsLeft (after l st) v = Step-IsLeft st (Later-IsLeft l v)

  -- Once the generator is closed while the thread still renders, and more pages are in the queue or to
  -- come than the queue holds, the thread never ends and `await producer` never returns.
  pub left_forever :
      (pages : List A) (a b : Channel A)
      → Later prefetch broken (opened prefetch broken pages) a
      → a.consumer ≡ left
      → a.producer ≡ producing
      → maxsize prefetch < length a.queue + length a.todo
      → Later prefetch broken a b
      → (b.producer ≡ ended → ⊥) × (b.consumer ≡ over → ⊥)
  left_forever pages a b r gone at_work many l =
      let v = Later-IsLeft l (record {
        gone = gone;
        at_work = at_work;
        short = (Later-order prefetch broken pages a r).0;
        too_many = many;
      }) in
      (ended_not v.at_work, over_ne v.gone)
