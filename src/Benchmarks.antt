-- ===== src/Benchmarks.antt =====
-- benchmarks/harness.py: `run_level`, its workers over the shared counter. A step is what one worker
-- does between two points at which the others may run. The engine's client returns always
-- (common/engine.py), so a request that is in flight can end at any time.
pub mod Requests
pub mod Report
use ocr_serving.Base.{
  ℕ, suc, ◌%◌, ◌≡◌, Bool, true, false, List, [], ◌∷◌, ◌++◌, ◌||◌, if◌then◌else◌, ltb,
}
use ocr_serving.Base.Text.{Text, codes, contains, to_lower, lower_char}

-- `counter["next"]`, the workers at the loop's head, the requests in flight and those collected, each
-- by its index, and the workers that have returned.
pub record Level : Type 0 where
  pub next : ℕ
  pub idle : ℕ
  pub busy : List ℕ
  pub collected : List ℕ
  pub returned : ℕ

module _ (concurrency budget : ℕ) where
  -- `counter["next"] = 0`, then `gather` over the workers.
  unfoldable pub launched : Level
  launched = record { next = 0; idle = concurrency; busy = []; collected = []; returned = 0 }

  pub data Step (a : Level) : Level → Type 0 where
    -- under the lock: the index is taken
    takes :
        (n : ℕ)
        → a.idle ≡ suc n
        → ltb a.next budget ≡ true
        → Step a (record a { idle = n; next = suc a.next; busy = a.next ∷ a.busy })
    -- under the lock: nothing is left
    returns :
        (n : ℕ)
        → a.idle ≡ suc n
        → ltb a.next budget ≡ false
        → Step a (record a { idle = n; returned = suc a.returned })
    -- the request of the index `i` has ended
    collects :
        (i : ℕ) (front back : List ℕ)
        → a.busy ≡ front ++ i ∷ back
        → Step a (record a {
          busy = front ++ back;
          collected = a.collected ++ i ∷ [];
          idle = suc a.idle;
        })

  -- What some number of steps leads to.
  pub data Reach : ℕ → Level → Type 0 where
    here : Reach 0 launched
    then_step : {n : ℕ} {a b : Level} → Reach n a → Step a b → Reach (suc n) b

-- `images[index % len(images)]`
abbrev pub image_of : ℕ → ℕ → ℕ
image_of images index = index % images

-- `classify`
unfoldable pub classify : Text → Text
unfolding contains lower_char
classify error =
    let lowered = to_lower error in
    if contains (codes "timeout") lowered
    then codes "timeout"
    else if contains (codes "connect") lowered
    then codes "connection"
    else if contains (codes "429") lowered
    then codes "rate_limited"
    else if contains (codes "503") lowered
    then codes "unavailable"
    else if contains (codes "500") lowered
    then codes "server_error"
    else if contains (codes "400") lowered
    then codes "bad_request"
    else codes "other"
