-- ===== src/Benchmarks/Report/Patch.antt =====
-- A document can be patched again and again.
use ocr_serving.Base.{◌≡◌, refl, ap, sym, ◌∙◌, Option, none, some, [], ◌∷◌, ◌++◌, append_assoc}
use ocr_serving.Base.Text.{Text, codes, starts_with}
use ocr_serving.Benchmarks.Report.{
  begin_mark, end_mark, before_char, split_once, build_block, written, printed, raised, around,
  between, patch, join, kept,
}
use ocr_serving.Benchmarks.Report.Split.{
  some_pair, split_once-text, split_once-replace, split_once-found,
}

-- The block begins with its mark.
build_block-begin :
    (headline serving coldstart batch ops : Text)
    → (body : Text) × (build_block headline serving coldstart batch ops ≡ begin_mark ++ body)
unfolding build_block join kept
build_block-begin [] serving coldstart batch ops = (_, refl)
build_block-begin (c ∷ headline) serving coldstart batch ops = (_, refl)

-- The text of the file after `patch`, from how the text before it is cut.
patch_cut :
    (block text pre rest old post : Text) (ends : Text × Text)
    → split_once begin_mark text ≡ some (pre, rest)
    → split_once end_mark text ≡ some ends
    → split_once end_mark rest ≡ some (old, post)
    → patch block text ≡ written (pre ++ (block ++ post))
unfolding patch
patch_cut block text pre rest old post ends b e r = rw b (rw e (rw r refl))

-- How a text is cut that `patch` rewrites to `out`.
abbrev CutFor : Text → Text → Text → Type 0
CutFor block text out =
    (pre : Text) × (rest : Text) × (old : Text) × (post : Text) × (ends : Text × Text) × (split_once
        begin_mark text
      ≡ some (pre, rest))
    × (split_once end_mark text ≡ some ends)
    × (split_once end_mark rest ≡ some (old, post))
    × (out ≡ pre ++ (block ++ post))

not_printed : {t : Text} → printed ≡ written t → ⊥
not_printed e = cc

not_raised : {t : Text} → raised ≡ written t → ⊥
not_raised e = cc

written_text : {s t : Text} → written s ≡ written t → t ≡ s
written_text e = cc

around_cut :
    (block text out pre rest : Text) (ends : Text × Text) (cut : Option (Text × Text))
    → split_once begin_mark text ≡ some (pre, rest)
    → split_once end_mark text ≡ some ends
    → split_once end_mark rest ≡ cut
    → around pre block cut ≡ written out
    → CutFor block text out
around_cut block text out pre rest ends none b e r h = absurd (not_raised h)
around_cut block text out pre rest ends (some (old, post)) b e r h =
    (pre, rest, old, post, ends, b, e, r, written_text h)

between_cut :
    (block text out : Text) (begins ends : Option (Text × Text))
    → split_once begin_mark text ≡ begins
    → split_once end_mark text ≡ ends
    → between block begins ends ≡ written out
    → CutFor block text out
between_cut block text out none ends b e h = absurd (not_printed h)
between_cut block text out (some (pre, rest)) none b e h = absurd (not_printed h)
between_cut block text out (some (pre, rest)) (some ends) b e h =
    around_cut block text out pre rest ends (split_once end_mark rest) b e refl h

-- What `patch` wrote is cut like that.
written_cut : (block text out : Text) → patch block text ≡ written out → CutFor block text out
unfolding patch
written_cut block text out h =
    between_cut block text out (split_once begin_mark text) (split_once end_mark text) refl refl h

abbrev begin_rest : Text
begin_rest = codes "!-- BENCH:BEGIN -->"

abbrev end_rest : Text
end_rest = codes "!-- BENCH:END -->"

before_text : Text → Option (Text × Text) → Option (Text × Text)
before_text [] cut = cut
before_text (c ∷ u) cut = before_char c (before_text u cut)

before_text-none : (u : Text) → before_text u none ≡ none
unfolding before_text
before_text-none [] = refl
before_text-none (c ∷ u) = ap (before_char c) (before_text-none u)

before_text-some : (u p q : Text) → before_text u (some (p, q)) ≡ some (u ++ p, q)
unfolding before_text
before_text-some [] p q = refl
before_text-some (c ∷ u) p q = ap (before_char c) (before_text-some u p q)

-- No end mark begins in the begin mark.
split_begin :
    (body : Text)
    → split_once end_mark (begin_mark ++ body) ≡ before_text begin_mark (split_once end_mark body)
unfolding split_once starts_with before_text
split_begin body = refl

split_body :
    (body inner : Text) (cut : Option (Text × Text))
    → split_once end_mark body ≡ cut
    → before_text begin_mark cut ≡ some (inner, [])
    → (old : Text) × (split_once end_mark body ≡ some (old, []))
split_body body inner none e h = absurd (none_some (sym (before_text-none begin_mark) ∙ h))
  where
    none_some : {c : Text × Text} → ◌≡◌ {A = Option (Text × Text)} none (some c) → ⊥
    none_some k = cc
split_body body inner (some (old, post)) e h =
    let (first, second) = some_pair (sym (before_text-some begin_mark old post) ∙ h) in
    (old, e ∙ ap (λ (t : Text). some (old, t)) second)

-- A block whose only end mark is its end, once written into a document, can be replaced: writing
-- another block into the result gives what writing that one into the first document would have
-- given. So the documents differ between the marks only, however often they are patched.
pub patch_again :
    (headline serving coldstart batch ops : Text) (inner block text out : Text)
    → split_once end_mark (build_block headline serving coldstart batch ops) ≡ some (inner, [])
    → patch (build_block headline serving coldstart batch ops) text ≡ written out
    → (patch block out ≡ patch block text)
      × ((pre : Text) × (old : Text) × (post : Text) × (text
            ≡ pre ++ (begin_mark ++ (old ++ (end_mark ++ post))))
          × (out ≡ pre ++ (build_block headline serving coldstart batch ops ++ post)))
patch_again headline serving coldstart batch ops inner block text out single h =
    let first_block = build_block headline serving coldstart batch ops in
    let (body, begins) = build_block-begin headline serving coldstart batch ops in
    let (pre, rest, old, post, ends, b, e, r, o) = written_cut first_block text out h in
    let text_lem : text ≡ pre ++ (begin_mark ++ (old ++ (end_mark ++ post))) =
      split_once-text b'<' begin_rest text pre rest b
      ∙ ap (λ t. pre ++ (begin_mark ++ t)) (split_once-text b'<' end_rest rest old post r) in
    let (mine, mine_lem) =
      split_body body inner (split_once end_mark body) refl
        (sym (split_begin body) ∙ (ap (split_once end_mark) (sym begins) ∙ single)) in
    let body_lem : body ≡ mine ++ (end_mark ++ []) =
      split_once-text b'<' end_rest body mine [] mine_lem in
    let out_lem : out ≡ pre ++ (begin_mark ++ (mine ++ (end_mark ++ post))) =
      o
      ∙ ap (λ t. pre ++ t)
          (ap (λ t. t ++ post) (begins ∙ ap (λ t. begin_mark ++ t) body_lem)
            ∙ ap (λ t. begin_mark ++ t) (append_assoc mine end_mark post)) in
    let begins_again =
      split_once-replace b'<' begin_rest text pre rest (mine ++ (end_mark ++ post)) b in
    let ends_again = split_once-replace b'<' end_rest body mine [] post mine_lem in
    let (cut, cut_lem) = split_once-found b'<' end_rest (pre ++ (begin_mark ++ mine)) post in
    (
      patch_cut block out pre (mine ++ (end_mark ++ post)) mine post cut
            (ap (split_once begin_mark) out_lem ∙ begins_again)
            (ap (split_once end_mark)
                (out_lem ∙ sym (append_assoc pre (begin_mark ++ mine) (end_mark ++ post)))
              ∙ cut_lem)
            ends_again
          ∙ sym (patch_cut block text pre rest old post ends b e r),
      (pre, old, post, text_lem, o),
    )
