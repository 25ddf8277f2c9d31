-- ===== src/Database/Atomic.antt =====
-- A save is done whole or not at all, and touches one job.
use ocr_serving.Base.{
  ◌≡◌, refl, ap, Bool, false, some, List, [], ◌∷◌, ◌++◌, map, append-nil, append_assoc, arith,
  Bool-cases, Option-cases, inl, inr, ◌⊎◌,
}
use ocr_serving.Base.Text.{Text, text_eq}
use ocr_serving.Base.Dict.{lookup, lookup-insert}
use ocr_serving.Schemas.{PageResult, OcrResult, Artifacts}
use ocr_serving.Database.{
  PageRow, Tables, Database, is_on, Request, merged, upsert_job, delete_pages, insert_pages,
  pages_of, page_row, job_row, write_pages, transaction, save_result,
}
use ocr_serving.Database.Rows.{pages_of-append, pages_of-delete_pages, pages_of-page_row}
use ocr_serving.Database.RoundTrip.{serves}

insert_pages-append : (rows ps qs : List PageRow) → insert_pages rows ps ≡ some qs → qs ≡ ps ++ rows
unfolding insert_pages
insert_pages-append [] ps qs e = cc (append-nil ps)
insert_pages-append (p ∷ rows) ps qs e =
    ground (arith, insert_pages-append rows (ps ++ p ∷ []) qs, append_assoc ps (p ∷ []) rows)

write_pages-append :
    (refused : Request → Bool) (id : Text) (ps : List PageResult) (pages qs : List PageRow)
    → write_pages refused id ps pages ≡ some qs
    → (qs ≡ pages) ⊎ (qs ≡ delete_pages id pages ++ map (page_row id) ps)
unfolding write_pages
write_pages-append refused id [] pages qs e = inl (cc)
write_pages-append refused id (p ∷ ps) pages qs e =
    inr
      (ground (arith, insert_pages-append (map (page_row id) (p ∷ ps)) (delete_pages id pages) qs))

-- The pages of another job are neither deleted nor added.
write_pages-others :
    (refused : Request → Bool) (id j : Text) (ps : List PageResult) (pages qs : List PageRow)
    → text_eq id j ≡ false
    → write_pages refused id ps pages ≡ some qs
    → pages_of j qs ≡ pages_of j pages
write_pages-others refused id j ps pages qs other e =
    elim (write_pages-append refused id ps pages qs e) [
      | inl same ↦ ap (pages_of j) same
      | inr new ↦
          rw (new, pages_of-append j (delete_pages id pages) (map (page_row id) ps))
            (rw (pages_of-delete_pages id j pages, pages_of-page_row id j ps, other)
              (append-nil (pages_of j pages)))
    ]

-- Two tables hold the same of a job.
abbrev pub AgreeOn : Text → Tables → Tables → Type 0
AgreeOn j t t' = (lookup j t'.jobs ≡ lookup j t.jobs) × (pages_of j t'.pages ≡ pages_of j t.pages)

module _ (dumps : Artifacts → Text) (refused : Request → Bool) where
  upsert_job-others :
      (r : OcrResult) (j : Text) (t : Tables)
      → text_eq r.job_id j ≡ false
      → lookup j (upsert_job r.job_id (job_row dumps r) t.jobs) ≡ lookup j t.jobs
  unfolding upsert_job
  upsert_job-others r j t other =
      rw (lookup-insert r.job_id j (merged (lookup r.job_id t.jobs) (job_row dumps r)) t.jobs)
        (rw other refl)

  transaction-others :
      (r : OcrResult) (j : Text) (t t' : Tables)
      → text_eq r.job_id j ≡ false
      → transaction refused dumps r t ≡ some t'
      → AgreeOn j t t'
  unfolding transaction
  transaction-others r j t t' other e =
      elim (Option-cases (write_pages refused r.job_id r.pages t.pages)) [
        | inl failed ↦ ground (arith, failed)
        | inr (pages, written) ↦ ground (
          arith,
          written,
          upsert_job-others r j t other,
          write_pages-others refused r.job_id j r.pages t.pages pages other written,
        )
      ]

  write_pages-serves :
      (id : Text) (ps : List PageResult) (pages qs : List PageRow)
      → write_pages refused id ps pages ≡ some qs
      → write_pages serves id ps pages ≡ some qs
  unfolding write_pages
  write_pages-serves id [] pages qs e = e
  write_pages-serves id (p ∷ ps) pages qs e = ground arith

  -- A transaction that commits has done what it does when nothing is refused.
  transaction-serves :
      (r : OcrResult) (t t' : Tables)
      → transaction refused dumps r t ≡ some t'
      → transaction serves dumps r t ≡ some t'
  unfolding transaction
  transaction-serves r t t' e = elim (Option-cases (write_pages refused r.job_id r.pages t.pages)) [
    | inl failed ↦ ground (arith, failed)
    | inr (pages, written) ↦
        ground (arith, written, write_pages-serves r.job_id r.pages t.pages pages written)
  ]

  -- Whatever the server refuses, in whichever statement, a save leaves the tables as they were or as
  -- the save leaves them when nothing is refused; and it leaves every other job's row and pages.
  pub save_result_atomic :
      (db : Database) (r : OcrResult) (t : Tables)
      → ((save_result refused dumps db r t ≡ t)
          ⊎ (save_result refused dumps db r t ≡ save_result serves dumps db r t))
        × ((j : Text) → text_eq r.job_id j ≡ false → AgreeOn j t (save_result refused dumps db r t))
  unfolding save_result
  save_result_atomic db r t = elim (Bool-cases (is_on db)) [
    | inl on ↦ rw on (elim (Option-cases (transaction refused dumps r t)) [
      | inl failed ↦ rw failed (inl refl, λ j other. (refl, refl))
      | inr (t', done) ↦
          rw (done, transaction-serves r t t' done)
            (inr refl, λ j other. transaction-others r j t t' other done)
    ])
    | inr off ↦ rw off (inl refl, λ j other. (refl, refl))
  ]
