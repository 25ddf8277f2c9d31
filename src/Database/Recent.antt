-- ===== src/Database/Recent.antt =====
-- The list of recent jobs: whose they are, how many, and in which order.
use ocr_serving.Base.{
  ℕ, suc, zero, ◌≡◌, refl, ap, ◌∙◌, Bool, true, false, ◌||◌, not, Option, none, some, List, [], ◌∷◌,
  ◌++◌, take, drop, length, length-take, min, arith, if◌then◌else◌, sym,
}
use ocr_serving.Base.Text.{Text, text_eq, nonempty}
use ocr_serving.Base.Dict.{Dict}
use ocr_serving.Base.Sort.{sort_by, length-sort_by, sort_by-perm, InSorted, sort_by-InSorted}
use mathlib.Core.List.{Perm}
use ocr_serving.Database.{
  JobRow, Tables, Database, is_on, nulls_last, by_created, of_tenant, selected, recent,
}
use ocr_serving.Database.RoundTrip.{serves}

take-drop {ℓ} : {A : Type ℓ} (n : ℕ) (xs : List A) → take n xs ++ drop n xs ≡ xs
take-drop zero xs = refl
take-drop (suc n) [] = refl
take-drop (suc n) (x ∷ xs) = ap (λ ys. x ∷ ys) (take-drop n xs)

-- The test of the WHERE clause, on a row.
abbrev pub is_wanted : Option Text → JobRow → Bool
is_wanted none row = true
is_wanted (some tenant) row = not (nonempty tenant) || text_eq row.tenant tenant

-- The rows that pass a test.
pub wanted : Option Text → Dict JobRow → Dict JobRow
wanted tenant [] = []
wanted tenant ((j, row) ∷ jobs) =
    let rest = wanted tenant jobs in if is_wanted tenant row then (j, row) ∷ rest else rest

of_tenant-wanted :
    (c : ℕ) (tenant : Text) (jobs : Dict JobRow)
    → of_tenant (c ∷ tenant) jobs ≡ wanted (some (c ∷ tenant)) jobs
unfolding of_tenant wanted
of_tenant-wanted c tenant [] = refl
of_tenant-wanted c tenant ((j, row) ∷ jobs) = ground (arith, of_tenant-wanted c tenant jobs)

wanted-nil : (jobs : Dict JobRow) → wanted (some []) jobs ≡ jobs
unfolding wanted
wanted-nil [] = refl
wanted-nil (row ∷ jobs) = ap (λ rest. row ∷ rest) (wanted-nil jobs)

wanted-none : (jobs : Dict JobRow) → wanted none jobs ≡ jobs
unfolding wanted
wanted-none [] = refl
wanted-none (row ∷ jobs) = ap (λ rest. row ∷ rest) (wanted-none jobs)

selected-wanted :
    (tenant : Option Text) (jobs : Dict JobRow) → selected tenant jobs ≡ wanted tenant jobs
unfolding selected
selected-wanted none jobs = sym (wanted-none jobs)
selected-wanted (some []) jobs = sym (wanted-nil jobs)
selected-wanted (some (c ∷ tenant)) jobs = of_tenant-wanted c tenant jobs

module _ (later : Text → Text → Bool) (total : (x y : Text) → later x y ≡ false → later y x ≡ true)
    (trans : (x y z : Text) → later x y ≡ true → later y z ≡ true → later x z ≡ true) where
  nulls_last_total :
      (x y : Option Text) → nulls_last later x y ≡ false → nulls_last later y x ≡ true
  nulls_last_total (some r) (some s) e = total r s e
  nulls_last_total (some r) none e = cc
  nulls_last_total none (some s) e = refl
  nulls_last_total none none e = cc

  nulls_last_trans :
      (x y z : Option Text)
      → nulls_last later x y ≡ true
      → nulls_last later y z ≡ true
      → nulls_last later x z ≡ true
  nulls_last_trans (some r) (some s) (some t) f g = trans r s t f g
  nulls_last_trans (some r) none (some t) f g = cc
  nulls_last_trans none (some s) (some t) f g = cc
  nulls_last_trans none none (some t) f g = g
  nulls_last_trans (some r) y none f g = refl
  nulls_last_trans none y none f g = refl

  recent-take :
      (db : Database) (tenant : Option Text) (limit : ℕ) (t : Tables)
      → is_on db ≡ true
      → recent later serves db tenant limit t
        ≡ take limit (sort_by (by_created later) (wanted tenant t.jobs))
  unfolding recent
  recent-take db tenant limit t on = rw (on, selected-wanted tenant t.jobs) refl

  -- Over a total and transitive order of time stamps and a server that answers, the list and some
  -- rest are together the jobs of the tenant (all jobs when the tenant is missing or empty), from the
  -- latest to the earliest, those with no time last; the list has `limit` jobs, or all there are.
  pub recent_latest :
      (db : Database) (tenant : Option Text) (limit : ℕ) (t : Tables)
      → is_on db ≡ true
      → let shown = recent later serves db tenant limit t in
        (rest : Dict JobRow) × Perm (shown ++ rest) (wanted tenant t.jobs)
        × InSorted (by_created later) (shown ++ rest)
        × (length shown ≡ min limit (length (wanted tenant t.jobs)))
  recent_latest db tenant limit t on =
      let all : Dict JobRow = sort_by (by_created later) (wanted tenant t.jobs) in
      rw (recent-take db tenant limit t on) (
        drop limit all,
        rw (take-drop limit all) (sort_by-perm (by_created later) (wanted tenant t.jobs)),
        rw (take-drop limit all) (
            sort_by-InSorted (by_created later)
              (λ x y e. nulls_last_total x.1.created_at y.1.created_at e)
              (λ x y z f g. nulls_last_trans x.1.created_at y.1.created_at z.1.created_at f g)
              (wanted tenant t.jobs)),
        length-take limit all
            ∙ ap (min limit) (length-sort_by (by_created later) (wanted tenant t.jobs)),
      )
