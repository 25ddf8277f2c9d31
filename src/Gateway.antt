-- ===== src/Gateway.antt =====
-- gateway/auth.py and gateway/main.py: API keys and the submission of a document; Jobs has the rest of
-- a job's life. A raised HTTPException is the error `http`. The blob store,
-- the limiter's script and PostgreSQL answer through parameters; metrics and logging are left out.
pub mod Jobs
pub mod Intake
pub mod Tenancy
pub mod Ops
pub mod Middleware
pub mod Recent
pub mod Files
use ocr_serving.Base.{
  ℕ, ◌+◌, Bool, true, false, Option, none, some, List, [], ◌∷◌, ◌++◌, ◌||◌, ◌&&◌, not, map, drop,
  All, if◌then◌else◌, ltb, leb, ◌==◌,
}
use ocr_serving.Base.Text.{
  Text, codes, text_eq, text_or, nonempty, to_lower, starts_with, decimal, int_of,
}
use ocr_serving.Base.Dict.{Dict, lookup}
use ocr_serving.Base.Strip.{strip}
use ocr_serving.Schemas.{
  JobStatus, queued, completed, status_value, status_terminal, JobAccepted, JobState, OcrResult,
}
use ocr_serving.Config.{Settings}
use ocr_serving.Filetype.{matches_extension, describe}
use ocr_serving.Storage.{StoredBlob}
use ocr_serving.RateLimit.{LimitDecision, quota_check}
use ocr_serving.Effects.{
  Error, http, other, Result, Env, Exec, pure, raise, catch, perform, ◌>>=◌, ◌>>◌,
}
use ocr_serving.Effects
use ocr_serving.Events.{set_status, get_job, parse_state, request_cancel, get_default}
use ocr_serving.Queue.{enqueue}
use ocr_serving.Documents.{path_suffix, probe_page_count}
use ocr_serving.Postprocess.{is_member}

pub record Principal : Type 0 where
  pub api_key : Text
  pub tenant : Text

abbrev is_ascii : Text → Bool
is_ascii [] = true
is_ascii (c ∷ t) = ltb c 128 && is_ascii t

-- `secrets.compare_digest` of two strings; `none` is its TypeError on characters beyond ASCII.
unfoldable pub compare_digest : Text → Text → Option Bool
unfolding text_eq
compare_digest a b = if is_ascii a && is_ascii b then some (text_eq a b) else none

-- The key that the headers present.
unfoldable pub presented_key : Text → Text → Text
unfolding strip starts_with
presented_key x_api_key authorization =
    let presented = strip x_api_key in
    if not (nonempty presented) && starts_with (to_lower authorization) (codes "bearer ")
    then strip (drop 7 authorization)
    else presented

-- `ALLOWED_SUFFIXES`, sorted.
abbrev pub allowed_suffixes : List Text
allowed_suffixes =
    codes ".bmp"
    ∷ codes ".jpeg"
    ∷ codes ".jpg"
    ∷ codes ".pdf"
    ∷ codes ".png"
    ∷ codes ".tif"
    ∷ codes ".tiff"
    ∷ codes ".webp"
    ∷ []

abbrev unsupported : Text → Text
unsupported suffix =
    codes "unsupported type "
    ++ (text_or suffix (codes "(none)")
        ++ codes "; allowed: ['.bmp', '.jpeg', '.jpg', '.pdf', '.png', '.tif', '.tiff', '.webp']")

unfoldable pub accepted : Text → JobAccepted
accepted job_id = record {
  job_id = job_id;
  status = queued;
  stream_url = codes "/v1/ocr/" ++ (job_id ++ codes "/stream");
  ws_url = codes "/v1/ocr/" ++ (job_id ++ codes "/ws");
  result_url = codes "/v1/ocr/" ++ job_id;
}

-- `_slug`
unfoldable pub slug : ℕ → Text
slug code =
    if code == 400
    then codes "bad_request"
    else if code == 401
    then codes "unauthorized"
    else if code == 404
    then codes "not_found"
    else if code == 409
    then codes "conflict"
    else if code == 413
    then codes "payload_too_large"
    else if code == 415
    then codes "unsupported_media_type"
    else if code == 429
    then codes "too_many_requests"
    else if code == 503
    then codes "unavailable"
    else codes "error"

-- `int(text or 0)` of the quota's counter, 0 if it cannot be read.
abbrev counter : Option Text → ℕ
counter none = 0
counter (some t) = elim (int_of t) [ none ↦ 0 | some n ↦ n ]

module _ {S : Type 0} (env : Env S) (s : Settings) where
  -- The loop of `require_api_key` over the configured keys.
  unfoldable pub find_principal : Text → Dict Text → Exec S Principal
  unfolding compare_digest
  find_principal presented [] = raise (http 401 (codes "invalid or missing API key"))
  find_principal presented ((key, tenant) ∷ keys) =
      let rest = find_principal presented keys in
      elim (compare_digest presented key) [
        | none ↦ raise (other (codes "TypeError") [])
        | some same ↦ if same then pure (record { api_key = key; tenant = tenant }) else rest
      ]

  unfoldable pub require_api_key : Dict Text → Text → Text → Exec S Principal
  unfolding find_principal presented_key
  require_api_key keys x_api_key authorization =
      find_principal (presented_key x_api_key authorization) keys

  -- `limiter` answers `RateLimiter.check`, and `seconds` prints the wait.
  unfoldable pub rate_limited :
      (Effects.Call → S → Result LimitDecision × S) → (ℕ → Text) → Principal → Exec S (Unit {0})
  rate_limited limiter seconds principal = do
    decision ← perform limiter (Effects.take_token principal.api_key)
    if decision.allowed
        then pure tt
        else raise (
            http 429 (
              codes "rate limit exceeded, retry in "
              ++ (seconds decision.retry_after_ms ++ codes "s")))

  -- An upload that is turned away is deleted first.
  unfoldable pub reject : Text → ℕ → Text → Exec S (Unit {0})
  reject key code detail =
      perform env.unit_call (Effects.delete_blob key) >> raise (http code detail)

  -- The empty upload, and the content that does not match its name.
  unfoldable pub check_content : Text → StoredBlob → Exec S (Unit {0})
  unfolding reject matches_extension describe
  check_content suffix blob =
      if blob.size == 0
      then reject blob.key 400 (codes "empty upload")
      else if matches_extension suffix blob.head
      then pure tt
      else reject blob.key 415 (
          codes "content is "
          ++ (describe blob.head
              ++ (codes ", which does not match the " ++ (suffix ++ codes " extension"))))

  -- `PageQuota.used`: the counter of the day, 0 when Redis does not answer.
  unfoldable pub quota_used : Text → Exec S ℕ
  quota_used tenant =
      catch
        (do
          day ← perform env.text_call Effects.today
          found ←
              perform env.optional_call
                (Effects.get (codes "quota:" ++ (tenant ++ (codes ":" ++ day))))
          pure (counter found))
        (λ e. pure 0)

  -- `PageQuota.check`: with no limit, the counter is not read.
  unfoldable pub quota_decision : Text → ℕ → Exec S LimitDecision
  unfolding quota_used quota_check
  quota_decision tenant pages =
      if s.quota_pages_per_day == 0
      then pure (quota_check s.quota_pages_per_day 0 pages)
      else (do used ← quota_used tenant; pure (quota_check s.quota_pages_per_day used pages))

  -- The pages of the upload, which the quota must have room for.
  unfoldable pub check_pages : Text → StoredBlob → Exec S ℕ
  unfolding reject quota_decision probe_page_count
  check_pages tenant blob = do
    pages ← probe_page_count env s.max_pages blob.path
    if pages == 0 then reject blob.key 400 (codes "unreadable or encrypted document") else pure tt
    decision ← quota_decision tenant pages
    if decision.allowed
        then pure tt
        else reject blob.key 429 (
            codes "daily page quota exhausted ("
            ++ (decimal s.quota_pages_per_day ++ codes " pages/day)"))
    pure pages

  -- The state of the new job, its queue entry, and the record of the idempotency key.
  unfoldable pub create_job : Principal → Text → Text → Text → StoredBlob → ℕ → Exec S (Unit {0})
  unfolding set_status enqueue
  create_job principal idem_key filename job_id blob pages = do
    clock ← perform env.text_call Effects.now
    set_status env s job_id queued (
        (codes "filename", some (text_or filename blob.key))
        ∷ (codes "path", some blob.path)
        ∷ (codes "sha256", some blob.sha256)
        ∷ (codes "bytes", some (decimal blob.size))
        ∷ (codes "tenant", some principal.tenant)
        ∷ (codes "page_count", some (decimal pages))
        ∷ (codes "pages_done", some (decimal 0))
        ∷ (codes "attempts", some (decimal 0))
        ∷ (codes "created_at", some clock)
        ∷ [])
    enqueue env s job_id ((codes "tenant", principal.tenant) ∷ [])
    if nonempty idem_key
        then perform env.unit_call (Effects.setex idem_key 86400 job_id)
        else pure tt

  -- `blobs` answers `put_stream`; `none` is its UploadTooLarge.
  module _ (blobs : Effects.Call → S → Result (Option StoredBlob) × S) where
    unfoldable pub stored_blob : Option StoredBlob → Exec S StoredBlob
    stored_blob none =
        raise (http 413 (codes "file exceeds " ++ (decimal s.max_upload_mb ++ codes " MB")))
    stored_blob (some blob) = pure blob

    -- The upload of a new job, up to its acceptance.
    unfoldable pub receive : Text → Text → Text → Exec S (StoredBlob × ℕ)
    unfolding stored_blob check_content check_pages
    receive tenant job_id suffix = do
      found ← perform blobs (Effects.put_blob (job_id ++ suffix))
      blob ← stored_blob found
      check_content suffix blob
      pages ← check_pages tenant blob
      pure (blob, pages)

    unfoldable pub submit_new : Principal → Text → Text → Text → Exec S JobAccepted
    unfolding receive create_job accepted
    submit_new principal idem_key filename suffix = do
      job_id ← perform env.text_call Effects.new_id
      upload ← receive principal.tenant job_id suffix
      create_job principal idem_key filename job_id upload.0 upload.1
      pure (accepted job_id)

    -- `if idem_key and (existing := await r.get(idem_key))`
    unfoldable pub known_job : Text → Exec S (Option Text)
    known_job idem_key =
        if nonempty idem_key then perform env.optional_call (Effects.get idem_key) else pure none

    unfoldable pub submit_found : Option Text → Principal → Text → Text → Text → Exec S JobAccepted
    unfolding submit_new accepted
    submit_found none principal idem_key filename suffix =
        submit_new principal idem_key filename suffix
    submit_found (some []) principal idem_key filename suffix =
        submit_new principal idem_key filename suffix
    submit_found (some (c ∷ job_id)) principal idem_key filename suffix =
        pure (accepted (c ∷ job_id))

    abbrev pub idem_key_of : Text → Text → Text
    idem_key_of tenant [] = []
    idem_key_of tenant (c ∷ key) = codes "idem:" ++ (tenant ++ (codes ":" ++ (c ∷ key)))

    -- `submit` past the limiter.
    unfoldable pub submit : Principal → Text → Text → Exec S JobAccepted
    unfolding submit_found known_job is_member path_suffix
    submit principal filename idempotency_key =
        let suffix = to_lower (path_suffix (text_or filename (codes "upload.bin"))) in
        let idem_key = idem_key_of principal.tenant idempotency_key in
        if is_member suffix allowed_suffixes
        then (do found ← known_job idem_key; submit_found found principal idem_key filename suffix)
        else raise (http 415 (unsupported suffix))
