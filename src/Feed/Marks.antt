-- ===== src/Feed/Marks.antt =====
-- The pages in a queue, and the marks that end them.
use ocr_serving.Base.{◌≡◌, ◌⊎◌, inl, inr, refl, ap, ◌∙◌, Bool, true, false, List, [], ◌∷◌, ◌++◌}
use ocr_serving.Feed.{
  Item, Consumer, page, failure, done, producing, closing, ended, consuming, drained, failed,
}

pub true_ne_false : true ≡ false → ⊥
true_ne_false e = cc

pub closing_ne : closing ≡ producing → ⊥
closing_ne e = cc

pub ended_ne : ended ≡ producing → ⊥
ended_ne e = cc

pub ended_takes_no : {c : Consumer} → c ≡ consuming → (c ≡ drained) ⊎ (c ≡ failed) → ⊥
ended_takes_no e (inl h) = cc
ended_takes_no e (inr h) = cc

module _ {A : Type 0} where
  -- The pages in a queue, and those behind its first item that is none.
  abbrev pub pages_in : List (Item A) → List A
  pages_in [] = []
  pages_in (page x ∷ q) = x ∷ pages_in q
  pages_in (failure ∷ q) = pages_in q
  pages_in (done ∷ q) = pages_in q

  abbrev pub behind_mark : List (Item A) → List A
  behind_mark [] = []
  behind_mark (page x ∷ q) = behind_mark q
  behind_mark (failure ∷ q) = pages_in q
  behind_mark (done ∷ q) = pages_in q

  abbrev pub marked : List (Item A) → Bool
  marked [] = false
  marked (page x ∷ q) = marked q
  marked (failure ∷ q) = true
  marked (done ∷ q) = true

  pub pages_in-append : (q r : List (Item A)) → pages_in (q ++ r) ≡ pages_in q ++ pages_in r
  pages_in-append [] r = refl
  pages_in-append (page x ∷ q) r = ap (λ xs. x ∷ xs) (pages_in-append q r)
  pages_in-append (failure ∷ q) r = pages_in-append q r
  pages_in-append (done ∷ q) r = pages_in-append q r

  -- A page that is put where there is no mark, and a mark, have no page behind a mark.
  pub unmarked_add :
      (q : List (Item A)) (x : A)
      → marked q ≡ false
      → (behind_mark (q ++ page x ∷ []) ≡ []) × (marked (q ++ page x ∷ []) ≡ false)
  unmarked_add [] x h = (refl, refl)
  unmarked_add (page y ∷ q) x h = unmarked_add q x h
  unmarked_add (failure ∷ q) x h = absurd (true_ne_false h)
  unmarked_add (done ∷ q) x h = absurd (true_ne_false h)

  pub mark_add :
      (q : List (Item A)) (m : Item A)
      → pages_in (m ∷ []) ≡ []
      → behind_mark q ≡ []
      → behind_mark (q ++ m ∷ []) ≡ []
  mark_add [] (page x) e h = refl
  mark_add [] failure e h = refl
  mark_add [] done e h = refl
  mark_add (page y ∷ q) m e h = mark_add q m e h
  mark_add (failure ∷ q) m e h =
      pages_in-append q (m ∷ []) ∙ (ap (λ xs. xs ++ pages_in (m ∷ [])) h ∙ e)
  mark_add (done ∷ q) m e h =
      pages_in-append q (m ∷ []) ∙ (ap (λ xs. xs ++ pages_in (m ∷ [])) h ∙ e)

  pub no_pages : (q : List (Item A)) → pages_in q ≡ [] → behind_mark q ≡ []
  no_pages [] h = refl
  no_pages (page x ∷ q) h = absurd (cons_ne h)
    where
      cons_ne : x ∷ pages_in q ≡ [] → ⊥
      cons_ne e = cc
  no_pages (failure ∷ q) h = h
  no_pages (done ∷ q) h = h
