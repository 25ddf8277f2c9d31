-- ===== src/Gateway/Intake.antt =====
-- An upload that `submit` turns away leaves nothing behind.
use ocr_serving.Base.{
  ℕ, ◌≡◌, refl, Bool, true, false, Option, none, some, List, ◌∷◌, ◌++◌, All, if◌then◌else◌,
}
use ocr_serving.Base.Text.{Text}
use ocr_serving.Config.{Settings}
use ocr_serving.Storage.{StoredBlob}
use ocr_serving.Effects.{
  Error, Result, ok, err, Call, Env, Exec, World, pure, raise, continue, handled, catch, perform,
  ◌>>=◌, ◌>>◌,
}
use ocr_serving.Effects
use ocr_serving.Effects.Logs.{Preserves, Keeps-pure, Keeps-raise, Preserves-perform, log_rules}
use ocr_serving.Documents.{probe_page_count}
use ocr_serving.Gateway.{
  reject, check_content, quota_used, quota_decision, check_pages, receive, stored_blob,
}

-- Where `m` raises, its last call deleted the upload `key`.
record Deletes {S A : Type 0} (key : Text) (m : Exec S A) : Type 0 where
  at :
      (w : World S) (e : Error)
      → (m w).0 ≡ err e
      → (l : List Call) × ((m w).1.log ≡ Effects.delete_blob key ∷ l)

not_err : {A : Type 0} {a : A} {e : Error} → ok a ≡ err e → ⊥
not_err p = cc

module _ {S A : Type 0} {key : Text} where
  Deletes-pure : (a : A) → Deletes {S = S} key (pure a)
  Deletes-pure a = record { at = λ w e h. absurd (not_err h) }

  Deletes-if :
      (b : Bool) (m n : Exec S A) → Deletes key m → Deletes key n → Deletes key (if b then m else n)
  Deletes-if true m n km kn = km
  Deletes-if false m n km kn = kn

  -- A handler that never raises.
  Deletes-catch : (m : Exec S A) (h : Error → A) → Deletes key (catch m (λ e. pure (h e)))
  Deletes-catch m h = record { at = λ w e. go (m w).0 (m w).1 e }
    where
      go :
          (r : Result A) (w : World S) (e : Error)
          → (handled r (λ x. pure (h x)) w).0 ≡ err e
          → (l : List Call) × ((handled r (λ x. pure (h x)) w).1.log ≡ Effects.delete_blob key ∷ l)
      go (ok a) w e h = absurd (not_err h)
      go (err x) w e h = absurd (not_err h)

module _ {S A B : Type 0} {key : Text} where
  Deletes-bind :
      (m : Exec S A) (f : A → Exec S B)
      → Deletes key m
      → ((a : A) → Deletes key (f a))
      → Deletes key (m >>= f)
  Deletes-bind m f km kf = record { at = λ w e. go (m w).0 (m w).1 e (km.at w) }
    where
      go :
          (r : Result A) (w : World S) (e : Error)
          → ((x : Error) → r ≡ err x → (l : List Call) × (w.log ≡ Effects.delete_blob key ∷ l))
          → (continue r f w).0 ≡ err e
          → (l : List Call) × ((continue r f w).1.log ≡ Effects.delete_blob key ∷ l)
      go (ok a) w e k h = (kf a).at w e h
      go (err x) w e k h = k x refl

-- XADD and HSET with EXPIRE, by which a job comes into being.
abbrev pub creates : Call → Bool
creates (Effects.xadd stream fields maxlen) = true
creates (Effects.hset_expire key fields ttl) = true
creates c = false

abbrev pub Uncreated : List Call → Type 0
Uncreated l = All (λ c. creates c ≡ false) l

module _ {S : Type 0} (env : Env S) (s : Settings) where
  reject-Deletes :
      (key : Text) (code : ℕ) (detail : Text) → Deletes key (reject env s key code detail)
  unfolding reject perform
  reject-Deletes key code detail = record { at = λ w e h. (w.log, go _ _ refl) }
    where
      go :
          (r : Result (Unit {0})) (w : World S) {l : List Call}
          → w.log ≡ l
          → (continue {B = Unit {0}} r (λ a. raise (Effects.http code detail)) w).1.log ≡ l
      go (ok a) w p = p
      go (err x) w p = p

  ruleset intake = (Deletes-pure, Deletes-if, Deletes-bind, reject-Deletes)

  check_content-Deletes :
      (suffix : Text) (blob : StoredBlob) → Deletes blob.key (check_content env s suffix blob)
  unfolding check_content
  check_content-Deletes suffix blob = search intake

  quota_decision-Deletes :
      (key tenant : Text) (pages : ℕ) → Deletes key (quota_decision env s tenant pages)
  unfolding quota_decision quota_used
  quota_decision-Deletes key tenant pages = search (intake, Deletes-catch)

  probe-Deletes : (key path : Text) → Deletes key (probe_page_count env s.max_pages path)
  unfolding probe_page_count
  probe-Deletes key path = search (intake, Deletes-catch)

  check_pages-Deletes :
      (tenant : Text) (blob : StoredBlob) → Deletes blob.key (check_pages env s tenant blob)
  unfolding check_pages
  check_pages-Deletes tenant blob = search (intake, quota_decision-Deletes, probe-Deletes) depth 12

  checks-Deletes :
      (tenant suffix : Text) (blob : StoredBlob)
      → Deletes {A = StoredBlob × ℕ} blob.key (
          check_content env s suffix blob
          >> (check_pages env s tenant blob >>= λ pages. pure (blob, pages)))
  checks-Deletes tenant suffix blob = search (intake, check_content-Deletes, check_pages-Deletes)

  Uncreated-perform :
      {A : Type 0} (answer : Call → S → Result A × S) (c : Call)
      → creates c ≡ false
      → Preserves Uncreated (perform answer c)
  Uncreated-perform answer c e = Preserves-perform answer c (λ l h. (e, h))

  check_content-Uncreated :
      (suffix : Text) (blob : StoredBlob) → Preserves Uncreated (check_content env s suffix blob)
  unfolding check_content reject
  check_content-Uncreated suffix blob = search (log_rules, Uncreated-perform) depth 8

  check_pages-Uncreated :
      (tenant : Text) (blob : StoredBlob) → Preserves Uncreated (check_pages env s tenant blob)
  unfolding check_pages quota_decision quota_used probe_page_count reject
  check_pages-Uncreated tenant blob = search (log_rules, Uncreated-perform) depth 16

  module _ (blobs : Call → S → Result (Option StoredBlob) × S) where
    -- The blob store took the upload. If a check then turns it away, or fails, the last call is
    -- the one that deletes it.
    pub receive_deletes :
        (tenant job_id suffix : Text) (blob : StoredBlob) (w : World S) (s₁ : S) (e : Error)
        → blobs (Effects.put_blob (job_id ++ suffix)) w.state ≡ (ok (some blob), s₁)
        → (receive env s blobs tenant job_id suffix w).0 ≡ err e
        → (l : List Call) × ((receive env s blobs tenant job_id suffix w).1.log
            ≡ Effects.delete_blob blob.key ∷ l)
    unfolding receive stored_blob perform
    receive_deletes tenant job_id suffix blob w s₁ e taken =
        rw taken (λ h. (checks-Deletes tenant suffix blob).at _ e h)

    stored_blob-Uncreated :
        (o : Option StoredBlob) → Preserves Uncreated (stored_blob env s blobs o)
    unfolding stored_blob
    stored_blob-Uncreated none = Keeps-raise _
    stored_blob-Uncreated (some blob) = Keeps-pure blob

    -- Until the upload has passed every check, no job is written and nothing is enqueued.
    pub receive-Uncreated :
        (tenant job_id suffix : Text)
        → Preserves Uncreated (receive env s blobs tenant job_id suffix)
    unfolding receive
    receive-Uncreated tenant job_id suffix =
        search
          (
            log_rules, Uncreated-perform, stored_blob-Uncreated, check_content-Uncreated,
            check_pages-Uncreated,
          )
          depth 8
