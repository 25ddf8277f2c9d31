-- ===== src/Relay/Tokens.antt =====
-- The events of a relay carry the deltas of its page whole and in the order of their numbers.
use ocr_serving.Base.{
  ℕ, suc, ◌+◌, ◌-◌, ◌≡◌, refl, ap, sym, ◌∙◌, subst, Option, none, some, List, [], ◌∷◌, ◌++◌, ◌||◌,
  append_assoc, append-nil, length, leb, Bool-cases, inl, inr, arith,
}
use mathlib.Core.List.{Perm, perm_middle}
use mathlib.Core.List.Perm
use ocr_serving.Base.Text.{Text}
use ocr_serving.Schemas.{StreamEvent}
use ocr_serving.Relay.{
  Relay, joined, new_relay, token_event, flush_from, flush, take_in, relay_delta, Traffic, posted,
  Step, calls, flushes, arrives, raises, Reach, here, next, new_traffic,
}

-- The texts of the events, one after the other.
unfoldable pub contents : List StreamEvent → Text
contents [] = []
contents (e ∷ es) = e.content ++ contents es

-- The events are numbered from `n` on.
abbrev pub Numbered : ℕ → List StreamEvent → Type 0
Numbered n [] = Unit
Numbered n (e ∷ es) = (e.seq ≡ n) × Numbered (suc n) es

contents-append : (xs ys : List StreamEvent) → contents (xs ++ ys) ≡ contents xs ++ contents ys
unfolding contents
contents-append [] ys = refl
contents-append (e ∷ xs) ys =
    ap (λ t. e.content ++ t) (contents-append xs ys) ∙ sym (append_assoc e.content _ _)

joined-append : (ds es : List Text) → joined (ds ++ es) ≡ joined ds ++ joined es
unfolding joined
joined-append [] es = refl
joined-append (d ∷ ds) es = ap (λ t. d ++ t) (joined-append ds es) ∙ sym (append_assoc d _ _)

Numbered-append :
    (n : ℕ) (xs : List StreamEvent) (e : StreamEvent)
    → Numbered n xs
    → e.seq ≡ n + length xs
    → Numbered n (xs ++ e ∷ [])
Numbered-append n [] e h at = (omega (arith, at), tt)
Numbered-append n (x ∷ xs) e h at = (h.0, Numbered-append (suc n) xs e h.1 (omega (arith, at)))

length-posted : (xs : List StreamEvent) (e : StreamEvent) → length (xs ++ e ∷ []) ≡ suc (length xs)
length-posted [] e = refl
length-posted (x ∷ xs) e = ap suc (length-posted xs e)

-- The events that a relay has made, in order, against the text that it was called with.
abbrev Carries : Relay → Text → List StreamEvent → Type 0
Carries r called made =
    (contents made ++ joined r.buf ≡ called) × Numbered 1 made × (length made ≡ r.seq)

flush_from-Carries :
    (b : List Text) (clock : ℕ) (r : Relay) (called : Text) (made : List StreamEvent)
    → r.buf ≡ b
    → Carries r called made
    → Carries (flush_from b clock r).0 called (made ++ posted (flush_from b clock r).1)
unfolding token_event contents joined
flush_from-Carries [] clock r called made e h = subst (Carries r called) (sym (append-nil made)) h
flush_from-Carries (d ∷ ds) clock r called made e (text, numbers, count) = (
  append-nil _
      ∙ (contents-append made (token_event r (joined (d ∷ ds)) ∷ [])
          ∙ (ap (λ t. contents made ++ t) (append-nil _)
              ∙ (ap (λ l. contents made ++ joined l) (sym e) ∙ text))),
  Numbered-append 1 made (token_event r (joined (d ∷ ds))) numbers (omega (arith, count)),
  length-posted made (token_event r (joined (d ∷ ds))) ∙ ap suc count,
)

flush-Carries :
    (clock : ℕ) (r : Relay) (called : Text) (made : List StreamEvent)
    → Carries r called made
    → Carries (flush clock r).0 called (made ++ posted (flush clock r).1)
unfolding flush
flush-Carries clock r called made h = flush_from-Carries r.buf clock r called made refl h

take_in-Carries :
    (d : Text) (r : Relay) (called : Text) (made : List StreamEvent)
    → Carries r called made
    → Carries (take_in d r) (called ++ d) made
unfolding joined
take_in-Carries d r called made (text, numbers, count) = (
  ap (λ t. contents made ++ t)
        (joined-append r.buf (d ∷ []) ∙ ap (λ t. joined r.buf ++ t) (append-nil d))
      ∙ (sym (append_assoc (contents made) (joined r.buf) d) ∙ ap (λ t. t ++ d) text),
  numbers,
  count,
)

relay_delta-Carries :
    (d : Text) (now clock : ℕ) (r : Relay) (called : Text) (made : List StreamEvent)
    → Carries r called made
    → Carries
        (relay_delta d now clock r).0
        (called ++ d)
        (made ++ posted (relay_delta d now clock r).1)
unfolding relay_delta
relay_delta-Carries d now clock r called made h =
    let full = take_in d r in
    let carried = take_in-Carries d r called made h in
    elim (Bool-cases
      (leb full.flush_chars full.size || leb full.flush_interval (now - full.last))) [
        | inl due ↦ rw due (flush-Carries clock full (called ++ d) made carried)
        | inr early ↦ rw early (subst (Carries full (called ++ d)) (sym (append-nil made)) carried)
      ]

-- The events are all somewhere: under way, arrived or lost.
abbrev Kept : Traffic → List StreamEvent → Type 0
Kept w made = Perm (w.flying ++ (w.arrived ++ w.lost)) made

posted-Perm :
    (flying rest made : List StreamEvent) (o : Option StreamEvent)
    → Perm (flying ++ rest) made
    → Perm ((flying ++ posted o) ++ rest) (made ++ posted o)
posted-Perm flying rest made none h =
    subst (λ l. Perm (l ++ rest) (made ++ [])) (sym (append-nil flying))
      (subst (Perm (flying ++ rest)) (sym (append-nil made)) h)
posted-Perm flying rest made (some e) h =
    subst (λ l. Perm l (made ++ e ∷ [])) (sym (append_assoc flying (e ∷ []) rest))
      (Perm.trans (perm_middle flying rest) (
        Perm.trans (Perm.cons e h) (
          subst (λ l. Perm (e ∷ l) (made ++ e ∷ [])) (append-nil made)
            (Perm.symm (perm_middle made [])))))

-- An event that leaves those under way.
landed-Perm :
    (before after rest made flying : List StreamEvent) (e : StreamEvent)
    → flying ≡ before ++ e ∷ after
    → Perm (flying ++ rest) made
    → Perm (e ∷ ((before ++ after) ++ rest)) made
landed-Perm before after rest made flying e at h =
    Perm.trans
      (Perm.symm (
        subst (λ l. Perm ((before ++ e ∷ after) ++ rest) (e ∷ l))
          (sym (append_assoc before after rest))
          (subst (λ l. Perm l (e ∷ (before ++ (after ++ rest))))
            (sym (append_assoc before (e ∷ after) rest)) (perm_middle before (after ++ rest)))))
      (subst (λ l. Perm (l ++ rest) made) at h)

-- What holds of all traffic.
abbrev Whole : Traffic → Type 0
Whole w = (made : List StreamEvent) × Carries w.relay w.called made × Kept w made

Step-Whole : {v w : Traffic} → Step v w → Whole v → Whole w
Step-Whole {v} (calls d now clock) (made, carries, kept) =
    let o = (relay_delta d now clock v.relay).1 in
    (
      made ++ posted o,
      relay_delta-Carries d now clock v.relay v.called made carries,
      posted-Perm v.flying (v.arrived ++ v.lost) made o kept,
    )
Step-Whole {v} (flushes clock) (made, carries, kept) =
    let o = (flush clock v.relay).1 in
    (
      made ++ posted o,
      subst (λ t. Carries (flush clock v.relay).0 t (made ++ posted o)) (sym (append-nil v.called))
          (flush-Carries clock v.relay v.called made carries),
      posted-Perm v.flying (v.arrived ++ v.lost) made o kept,
    )
Step-Whole {v} (arrives e before after at) (made, carries, kept) = (
  made,
  carries,
  Perm.trans (perm_middle (before ++ after) (v.arrived ++ v.lost))
      (landed-Perm before after (v.arrived ++ v.lost) made v.flying e at kept),
)
Step-Whole {v} (raises e before after at) (made, carries, kept) = (
  made,
  carries,
  Perm.trans (Perm.append_left (before ++ after) (perm_middle v.arrived v.lost)) (
      Perm.trans (perm_middle (before ++ after) (v.arrived ++ v.lost))
        (landed-Perm before after (v.arrived ++ v.lost) made v.flying e at kept)),
)

-- However the regions of a page interleave their calls and flushes, and whichever publishes arrive, in
-- whatever order, or raise: the events that are under way, have arrived or are lost are exactly events
-- numbered 1, 2, … whose texts in the order of their numbers, followed by what is in the buffer, are
-- the deltas in the order of the calls.
pub relay_exact :
    (job_id : Text) (page flush_chars flush_interval start : ℕ) (w : Traffic)
    → Reach job_id page flush_chars flush_interval start w
    → (made : List StreamEvent) × (contents made ++ joined w.relay.buf ≡ w.called)
      × Numbered 1 made
      × Perm (w.flying ++ (w.arrived ++ w.lost)) made
unfolding new_traffic new_relay contents joined
relay_exact job_id page flush_chars flush_interval start w r =
    let (made, carries, kept) = reach_whole r in (made, carries.0, carries.1, kept)
  where
    reach_whole : {w : Traffic} → Reach job_id page flush_chars flush_interval start w → Whole w
    reach_whole here = ([], (refl, tt, refl), Perm.nil)
    reach_whole (next r st) = Step-Whole st (reach_whole r)
