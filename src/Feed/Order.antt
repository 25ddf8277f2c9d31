-- ===== src/Feed/Order.antt =====
-- The pages come out of the queue as they went in.
use ocr_serving.Base.{
  ℕ, ◌<◌, ◌≤◌, ◌≡◌, ◌⊎◌, inl, inr, refl, ap, sym, ◌∙◌, Bool, true, false, List, [], ◌∷◌, ◌++◌,
  length, length-append, append-nil, append_assoc, arith,
}
use ocr_serving.Feed.{
  Item, Consumer, page, failure, done, Producer, producing, closing, ended, consuming, drained,
  failed, left, over, Channel, maxsize, Step, put_page, put_failure, finish, put_done, get_page,
  get_failure, get_done, leave, join, opened, Later, now, after,
}
use ocr_serving.Feed.Marks.{
  true_ne_false, closing_ne, ended_ne, ended_takes_no, pages_in, behind_mark, marked,
  pages_in-append, unmarked_add, mark_add, no_pages,
}

module _ {A : Type 0} where
  module _ (prefetch : ℕ) (broken : Bool) (pages : List A) where
    pub record Ordered (a : Channel A) : Type 0 where
      pub in_order : a.got ++ (pages_in a.queue ++ a.todo) ≡ pages
      pub short : length a.queue ≤ maxsize prefetch
      pub closed : behind_mark a.queue ≡ []
      pub unmarked : a.producer ≡ producing → marked a.queue ≡ false
      pub all_put : (a.producer ≡ producing → ⊥) → a.todo ≡ []
      pub all_got : (a.consumer ≡ drained) ⊎ (a.consumer ≡ failed) → a.got ≡ pages

    module _ {a : Channel A} (v : Ordered a) where
      put-Ordered :
          (x : A) (xs : List A)
          → a.producer ≡ producing
          → a.todo ≡ x ∷ xs
          → length a.queue < maxsize prefetch
          → Ordered (record a { todo = xs; queue = a.queue ++ page x ∷ [] })
      put-Ordered x xs at more room = record {
        in_order =
            ap (λ ys. a.got ++ ys)
              (ap (λ ys. ys ++ xs) (pages_in-append a.queue (page x ∷ []))
                ∙ (append_assoc (pages_in a.queue) (x ∷ []) xs
                    ∙ ap (λ ys. pages_in a.queue ++ ys) (sym more)))
            ∙ v.in_order;
        short = omega (arith, length-append a.queue (page x ∷ []), room);
        closed = (unmarked_add a.queue x (v.unmarked at)).0;
        unmarked = λ e. (unmarked_add a.queue x (v.unmarked at)).1;
        all_put = λ e. absurd (e at);
        all_got = v.all_got;
      }

      mark-Ordered :
          (m : Item A) (p : Producer)
          → pages_in (m ∷ []) ≡ []
          → a.todo ≡ []
          → (p ≡ producing → ⊥)
          → length a.queue < maxsize prefetch
          → Ordered (record a { queue = a.queue ++ m ∷ []; producer = p })
      mark-Ordered m p no_page none_left behind room = record {
        in_order =
            ap (λ ys. a.got ++ (ys ++ a.todo))
              (pages_in-append a.queue (m ∷ [])
                ∙ (ap (λ ys. pages_in a.queue ++ ys) no_page ∙ append-nil (pages_in a.queue)))
            ∙ v.in_order;
        short = omega (arith, length-append a.queue (m ∷ []), room);
        closed = mark_add a.queue m no_page v.closed;
        unmarked = λ e. absurd (behind e);
        all_put = λ e. none_left;
        all_got = v.all_got;
      }

      get-Ordered :
          (x : A) (q : List (Item A))
          → a.consumer ≡ consuming
          → a.queue ≡ page x ∷ q
          → Ordered (record a { queue = q; got = a.got ++ x ∷ [] })
      get-Ordered x q at first = record {
        in_order =
            append_assoc a.got (x ∷ []) (pages_in q ++ a.todo)
            ∙ (ap (λ r. a.got ++ (pages_in r ++ a.todo)) (sym first) ∙ v.in_order);
        short = omega (arith, v.short, ap length first);
        closed = sym (ap behind_mark first) ∙ v.closed;
        unmarked = λ e. sym (ap marked first) ∙ v.unmarked e;
        all_put = v.all_put;
        all_got = λ e. absurd (ended_takes_no at e);
      }

      head-Ordered :
          (m : Item A) (q : List (Item A)) (c : Consumer)
          → a.queue ≡ m ∷ q
          → marked (m ∷ q) ≡ true
          → behind_mark (m ∷ q) ≡ pages_in q
          → pages_in (m ∷ q) ≡ pages_in q
          → Ordered (record a { queue = q; consumer = c })
      head-Ordered m q c first is_mark behind in_queue = record {
        in_order =
            ap (λ r. a.got ++ (r ++ a.todo)) (sym in_queue ∙ sym (ap pages_in first)) ∙ v.in_order;
        short = omega (arith, v.short, ap length first);
        closed = no_pages q none_behind;
        unmarked = λ e. absurd (stopped e);
        all_put = v.all_put;
        all_got = λ e.
            sym (append-nil a.got)
            ∙ (ap (λ r. a.got ++ r) (sym (ap (λ r. r ++ a.todo) none_in ∙ v.all_put stopped))
                ∙ v.in_order);
      }
        where
          none_behind : pages_in q ≡ []
          none_behind = sym behind ∙ (sym (ap behind_mark first) ∙ v.closed)

          none_in : pages_in a.queue ≡ []
          none_in = ap pages_in first ∙ (in_queue ∙ none_behind)

          stopped : a.producer ≡ producing → ⊥
          stopped e = true_ne_false (sym is_mark ∙ (sym (ap marked first) ∙ v.unmarked e))

      same-Ordered :
          (c : Consumer) → ((c ≡ drained) ⊎ (c ≡ failed) → ⊥) → Ordered (record a { consumer = c })
      same-Ordered c h = record {
        in_order = v.in_order;
        short = v.short;
        closed = v.closed;
        unmarked = v.unmarked;
        all_put = v.all_put;
        all_got = λ e. absurd (h e);
      }

    Step-Ordered : {a b : Channel A} → Step prefetch broken a b → Ordered a → Ordered b
    Step-Ordered (put_page x xs at more room) v = put-Ordered v x xs at more room
    Step-Ordered (put_failure at none_left raises room) v =
        mark-Ordered v failure closing refl none_left closing_ne room
    Step-Ordered (finish at none_left quiet) v = record {
      in_order = v.in_order;
      short = v.short;
      closed = v.closed;
      unmarked = λ e. absurd (closing_ne e);
      all_put = λ e. none_left;
      all_got = v.all_got;
    }
    Step-Ordered {a} (put_done at room) v =
        mark-Ordered v done ended refl (v.all_put (λ e. closing_ne (sym at ∙ e))) ended_ne room
    Step-Ordered (get_page x q at first) v = get-Ordered v x q at first
    Step-Ordered (get_failure q at first) v = head-Ordered v failure q failed first refl refl refl
    Step-Ordered (get_done q at first) v = head-Ordered v done q drained first refl refl refl
    Step-Ordered (leave at) v = same-Ordered v left neither
      where
        neither : (left ≡ drained) ⊎ (left ≡ failed) → ⊥
        neither (inl e) = cc
        neither (inr e) = cc
    Step-Ordered (join at gone) v = same-Ordered v over neither
      where
        neither : (over ≡ drained) ⊎ (over ≡ failed) → ⊥
        neither (inl e) = cc
        neither (inr e) = cc

    Later-Ordered :
        {a : Channel A} → Later prefetch broken (opened prefetch broken pages) a → Ordered a
    unfolding opened
    Later-Ordered now = record {
      in_order = refl;
      short = omega arith;
      closed = refl;
      unmarked = λ e. refl;
      all_put = λ e. absurd (e refl);
      all_got = λ e. absurd (ended_takes_no refl e);
    }
    Later-Ordered (after l st) = Step-Ordered st (Later-Ordered l)

    -- In every state of the queue of pages, in whatever order its two sides run, it holds at most `maxsize`
    -- items, and the pages that were taken, those in it and those to come are the document's, in order.
    pub Later-order :
        (a : Channel A)
        → Later prefetch broken (opened prefetch broken pages) a
        → (length a.queue ≤ maxsize prefetch) × (a.got ++ (pages_in a.queue ++ a.todo) ≡ pages)
    Later-order a l = ((Later-Ordered l).short, (Later-Ordered l).in_order)

    -- When the loop over the pages has met the end of the document, or the exception of the renderer, it
    -- has taken every page that was rendered, in order, and once.
    pub Later-complete :
        (a : Channel A)
        → Later prefetch broken (opened prefetch broken pages) a
        → (a.consumer ≡ drained) ⊎ (a.consumer ≡ failed)
        → a.got ≡ pages
    Later-complete a l e = (Later-Ordered l).all_got e
