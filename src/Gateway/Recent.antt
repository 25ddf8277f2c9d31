-- ===== src/Gateway/Recent.antt =====
-- gateway/main.py: `recent_jobs`, over the database of common/db.py and the keys of common/config.py.
use ocr_serving.Base.{
  ℕ, ◌≡◌, refl, ap, ◌∙◌, sym, subst, Bool, true, false, ◌||◌, ◌&&◌, not, Option, none, some, List,
  [], ◌∷◌, take, arith, if◌then◌else◌, leb, Bool-cases, inl, inr, All, zero, suc,
}
use ocr_serving.Base.Text.{Text, codes, text_eq, text_or, nonempty, eq_of_text_eq}
use ocr_serving.Base.Dict.{Dict, insert}
use ocr_serving.Base.Sort.{sort_by, sort_by-All}
use ocr_serving.Base.Strip.{strip}
use ocr_serving.Config.{Settings, add_key, add_keys, api_key_map, split_on, partition_on}
use ocr_serving.Effects.{ok, other, Env, Exec, World, raise, pure}
use ocr_serving.Gateway.{Principal, find_principal, require_api_key, compare_digest, presented_key}
use ocr_serving.Database.{
  acquire, select_recent, is_on, Database, Tables, JobRow, Request, by_created, of_tenant, selected,
  recent,
}

-- `recent_jobs`: a limit out of `ge=1, le=200` is a validation error.
unfoldable pub recent_jobs :
    (Text → Text → Bool)
    → (Request → Bool)
    → Database
    → Tables
    → Principal
    → ℕ
    → Option (Dict JobRow)
unfolding recent
recent_jobs later refused db t principal limit =
    if leb 1 limit && leb limit 200
    then some (recent later refused db (some principal.tenant) limit t)
    else none

-- Every tenant of the keys has a name.
abbrev pub AreNamed : Dict Text → Type 0
AreNamed keys = All (λ entry. nonempty entry.1 ≡ true) keys

text_or-default : (t : Text) → nonempty (text_or t (codes "default")) ≡ true
text_or-default [] = refl
text_or-default (c ∷ t) = refl

insert-AreNamed :
    (k v : Text) (d : Dict Text) → nonempty v ≡ true → AreNamed d → AreNamed (insert k v d)
unfolding insert
insert-AreNamed k v [] full named = (full, tt)
insert-AreNamed k v ((j, w) ∷ d) full named = elim (Bool-cases (text_eq j k)) [
  | inl same ↦ rw same (full, named.1)
  | inr differ ↦ rw differ (named.0, insert-AreNamed k v d full named.1)
]

add_key-AreNamed : (out : Dict Text) (raw : Text) → AreNamed out → AreNamed (add_key out raw)
unfolding add_key
add_key-AreNamed out raw named =
    let (key, tenant) = partition_on b':' (strip raw) in
    elim (Bool-cases (nonempty (strip raw))) [
      | inl full ↦ rw full (
          insert-AreNamed key (text_or tenant (codes "default")) out (text_or-default tenant) named)
      | inr empty ↦ rw empty named
    ]

add_keys-AreNamed :
    (out : Dict Text) (raws : List Text) → AreNamed out → AreNamed (add_keys out raws)
unfolding add_keys
add_keys-AreNamed out [] named = named
add_keys-AreNamed out (raw ∷ rest) named =
    add_keys-AreNamed (add_key out raw) rest (add_key-AreNamed out raw named)

api_key_map-AreNamed : (api_keys : Text) → AreNamed (api_key_map api_keys)
unfolding api_key_map
api_key_map-AreNamed api_keys = add_keys-AreNamed [] (split_on b',' [] api_keys) tt

of_tenant-All :
    (tenant : Text) (jobs : Dict JobRow) → All (λ e. e.1.tenant ≡ tenant) (of_tenant tenant jobs)
unfolding of_tenant
of_tenant-All tenant [] = tt
of_tenant-All tenant ((j, row) ∷ jobs) = elim (Bool-cases (text_eq row.tenant tenant)) [
  | inl own ↦ rw own (eq_of_text_eq row.tenant tenant own, of_tenant-All tenant jobs)
  | inr foreign ↦ rw foreign (of_tenant-All tenant jobs)
]

All-take : {A : Type 0} (P : A → Type 0) (n : ℕ) (xs : List A) → All P xs → All P (take n xs)
All-take P zero xs h = tt
All-take P (suc n) [] h = tt
All-take P (suc n) (x ∷ xs) h = (h.0, All-take P n xs h.1)

module _ {S : Type 0} (env : Env S) (s : Settings) where
  -- What a step of the loop over the keys returns has a name, where the rest of the loop's does.
  step-AreNamed :
      (key tenant : Text) (compared : Option Bool) (rest : Exec S Principal) (w : World S)
      (p : Principal)
      → nonempty tenant ≡ true
      → ((rest w).0 ≡ ok p → nonempty p.tenant ≡ true)
      → (let step : Exec S Principal = elim compared [
        | none ↦ raise (other (codes "TypeError") [])
        | some same ↦ if same then pure (record { api_key = key; tenant = tenant }) else rest
      ] in
          (step w).0 ≡ ok p)
      → nonempty p.tenant ≡ true
  step-AreNamed key tenant none rest w p full later found = cc
  step-AreNamed key tenant (some true) rest w p full later found =
      ap (λ (t : Text). nonempty t) (sym (same_tenant found)) ∙ full
    where
      same_tenant : {k : Principal} → ok k ≡ ok p → k.tenant ≡ p.tenant
      same_tenant e = cc
  step-AreNamed key tenant (some false) rest w p full later found = later found

  find_principal-AreNamed :
      (presented : Text) (keys : Dict Text) (w : World S) (p : Principal)
      → AreNamed keys
      → (find_principal env s presented keys w).0 ≡ ok p
      → nonempty p.tenant ≡ true
  unfolding find_principal
  find_principal-AreNamed presented [] w p named found = cc
  find_principal-AreNamed presented ((key, tenant) ∷ keys) w p named found =
      step-AreNamed key tenant (compare_digest presented key) (find_principal env s presented keys)
        w p named.0 (find_principal-AreNamed presented keys w p named.1) found

recent-of_tenant :
    (later : Text → Text → Bool) (refused : Request → Bool) (db : Database) (tenant : Text)
    (limit : ℕ) (t : Tables)
    → nonempty tenant ≡ true
    → All (λ e. e.1.tenant ≡ tenant) (recent later refused db (some tenant) limit t)
unfolding recent selected
recent-of_tenant later refused db [] limit t full = cc
recent-of_tenant later refused db (c ∷ tenant) limit t full =
    elim (Bool-cases (not (is_on db) || refused acquire || refused select_recent)) [
      | inl off ↦ rw (off, recent) tt
      | inr on ↦
          rw (on, recent)
            (All-take (λ e. e.1.tenant ≡ c ∷ tenant) limit
              (sort_by (by_created later) (of_tenant (c ∷ tenant) t.jobs))
              (sort_by-All (by_created later) (λ e. e.1.tenant ≡ c ∷ tenant)
                (of_tenant (c ∷ tenant) t.jobs) (of_tenant-All (c ∷ tenant) t.jobs)))
    ]

-- Whoever is let in by the configured keys is shown jobs of the tenant of that key only, whatever the
-- keys say, the tables hold and the server refuses.
pub recent_jobs_own :
    {S : Type 0} (env : Env S) (s : Settings) (api_keys x_api_key authorization : Text)
    (w : World S) (p : Principal) (later : Text → Text → Bool) (refused : Request → Bool)
    (db : Database) (t : Tables) (limit : ℕ) (shown : Dict JobRow)
    → (require_api_key env s (api_key_map api_keys) x_api_key authorization w).0 ≡ ok p
    → recent_jobs later refused db t p limit ≡ some shown
    → All (λ e. e.1.tenant ≡ p.tenant) shown
unfolding require_api_key recent_jobs
recent_jobs_own env s api_keys x_api_key authorization w p later refused db t limit shown entered
      listed =
    let named =
      find_principal-AreNamed env s (presented_key x_api_key authorization) (api_key_map api_keys) w
        p (api_key_map-AreNamed api_keys) entered in
    subst (λ jobs. All (λ e. e.1.tenant ≡ p.tenant) jobs) (listed_jobs listed)
      (recent-of_tenant later refused db p.tenant limit t named)
  where
    listed_jobs :
        recent_jobs later refused db t p limit ≡ some shown
        → recent later refused db (some p.tenant) limit t ≡ shown
    listed_jobs e = ground arith
