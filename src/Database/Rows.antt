-- ===== src/Database/Rows.antt =====
-- The rows of `pages`: what the statements of a transaction leave of them.
use ocr_serving.Base.{
  ◌≡◌, refl, ap, sym, ◌∙◌, false, ◌||◌, none, some, List, [], ◌∷◌, ◌++◌, map, append-nil,
  append_assoc, arith, if◌then◌else◌, All,
}
use ocr_serving.Base.Text.{Text, text_eq, text_eq_iff}
use ocr_serving.Base.Sort.{sort_by, insert_sorted}
use ocr_serving.Effects.{ok}
use ocr_serving.Schemas.{PageResult}
use ocr_serving.Schemas.Values.{page_source-value}
use ocr_serving.Worker.{by_index}
use ocr_serving.Database.{
  PageRow, delete_pages, same_key, has_key, insert_pages, pages_of, by_idx, page_row, page_results,
}

-- No two rows have the same primary key.
abbrev pub AreDistinct : List PageRow → Type 0
AreDistinct [] = Unit
AreDistinct (p ∷ ps) = All (λ q. same_key p q ≡ false) ps × AreDistinct ps

-- What `get_result` gives back of a page: no column holds the other fields.
abbrev pub recorded_page : PageResult → PageResult
recorded_page p = record p {
  dpi = 0;
  width = 0;
  height = 0;
  skew_deg = 0;
  duplicate_of = none;
  error = none;
}

has_key-append :
    (p : PageRow) (ps qs : List PageRow) → has_key p (ps ++ qs) ≡ has_key p ps || has_key p qs
unfolding has_key
has_key-append p [] qs = refl
has_key-append p (q ∷ ps) qs = ground (arith, has_key-append p ps qs)

same_key_sym : (p q : PageRow) → same_key p q ≡ same_key q p
same_key_sym p q = ground (arith, text_eq_iff p.job_id q.job_id, text_eq_iff q.job_id p.job_id)

All-has_key :
    (p : PageRow) (rows qs : List PageRow)
    → All (λ q. same_key p q ≡ false) rows
    → All (λ q. has_key q qs ≡ false) rows
    → All (λ q. has_key q (qs ++ p ∷ []) ≡ false) rows
unfolding has_key
All-has_key p [] qs d h = tt
All-has_key p (r ∷ rows) qs d h =
    (ground (arith, has_key-append r qs (p ∷ []), same_key_sym p r), All-has_key p rows qs d.1 h.1)

-- Rows with new and distinct keys are all added, at the end.
pub insert_pages_new :
    (rows qs : List PageRow)
    → AreDistinct rows
    → All (λ q. has_key q qs ≡ false) rows
    → insert_pages rows qs ≡ some (qs ++ rows)
unfolding insert_pages
insert_pages_new [] qs d h = ap some (sym (append-nil qs))
insert_pages_new (p ∷ rows) qs d h = rw h.0 (
    insert_pages_new rows (qs ++ p ∷ []) d.1 (All-has_key p rows qs d.0 h.1)
    ∙ ap some (append_assoc qs (p ∷ []) rows))

pub pages_of-append :
    (id : Text) (ps qs : List PageRow) → pages_of id (ps ++ qs) ≡ pages_of id ps ++ pages_of id qs
unfolding pages_of
pages_of-append id [] qs = refl
pages_of-append id (p ∷ ps) qs = ground (arith, pages_of-append id ps qs)

pub pages_of-delete_pages :
    (id j : Text) (ps : List PageRow)
    → pages_of j (delete_pages id ps) ≡ (if text_eq id j then [] else pages_of j ps)
unfolding pages_of delete_pages
pages_of-delete_pages id j [] = ground arith
pages_of-delete_pages id j (p ∷ ps) = ground (
  arith,
  pages_of-delete_pages id j ps,
  text_eq_iff p.job_id id,
  text_eq_iff p.job_id j,
  text_eq_iff id j,
)

pub pages_of-page_row :
    (id j : Text) (ps : List PageResult)
    → pages_of j (map (page_row id) ps) ≡ (if text_eq id j then map (page_row id) ps else [])
unfolding pages_of
pages_of-page_row id j [] = ground arith
pages_of-page_row id j (p ∷ ps) = ground (arith, pages_of-page_row id j ps)

has_key-delete_pages :
    (id : Text) (p : PageResult) (ps : List PageRow)
    → has_key (page_row id p) (delete_pages id ps) ≡ false
unfolding has_key delete_pages
has_key-delete_pages id p [] = refl
has_key-delete_pages id p (q ∷ ps) =
    ground (arith, has_key-delete_pages id p ps, text_eq_iff q.job_id id, text_eq_iff id q.job_id)

-- After the DELETE no key of the job is taken.
pub page_row-fresh :
    (id : Text) (ps : List PageResult) (pages : List PageRow)
    → All (λ q. has_key q (delete_pages id pages) ≡ false) (map (page_row id) ps)
page_row-fresh id [] pages = tt
page_row-fresh id (p ∷ ps) pages = (has_key-delete_pages id p pages, page_row-fresh id ps pages)

insert_sorted-page_row :
    (id : Text) (p : PageResult) (ps : List PageResult)
    → insert_sorted by_idx (page_row id p) (map (page_row id) ps)
      ≡ map (page_row id) (insert_sorted by_index p ps)
unfolding insert_sorted
insert_sorted-page_row id p [] = refl
insert_sorted-page_row id p (q ∷ ps) = ground (arith, insert_sorted-page_row id p ps)

-- Sorting the rows by `idx` is sorting the pages by their index.
pub sort_by-page_row :
    (id : Text) (ps : List PageResult)
    → sort_by by_idx (map (page_row id) ps) ≡ map (page_row id) (sort_by by_index ps)
unfolding sort_by
sort_by-page_row id [] = refl
sort_by-page_row id (p ∷ ps) =
    ap (insert_sorted by_idx (page_row id p)) (sort_by-page_row id ps)
    ∙ insert_sorted-page_row id p (sort_by by_index ps)

pub page_results-page_row :
    (id : Text) (ps : List PageResult)
    → page_results (map (page_row id) ps) ≡ ok (map recorded_page ps)
unfolding page_results
page_results-page_row id [] = refl
page_results-page_row id (p ∷ ps) =
    rw (page_source-value p.source) (rw (page_results-page_row id ps) refl)
