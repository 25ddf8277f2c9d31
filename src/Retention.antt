-- ===== src/Retention.antt =====
-- common/retention.py: the sweep over the three directories of the blob store.
pub mod Safety
use ocr_serving.Base.{ℕ, ◌+◌, ◌-◌, Bool, List, [], ◌∷◌, if◌then◌else◌, ◌==◌}
use ocr_serving.Base.Text.{Text, codes}
use ocr_serving.Base.Dict.{Dict, insert}
use ocr_serving.Storage.{Files, Purged, purge_older_than, usage_bytes}

pub record SweepResult : Type 0 where
  pub removed : Dict ℕ
  pub freed_bytes : ℕ
  pub remaining_bytes : ℕ

unfoldable pub sum_values : Dict ℕ → ℕ
sum_values [] = 0
sum_values ((k, n) ∷ d) = n + sum_values d

unfoldable pub total_removed : SweepResult → ℕ
unfolding sum_values
total_removed r = sum_values r.removed

-- The directories `uploads_dir`, `results_dir` and `artifacts_dir`.
pub record Disk : Type 0 where
  pub uploads : Files
  pub results : Files
  pub artifacts : Files

abbrev empty_result : SweepResult
empty_result = record { removed = []; freed_bytes = 0; remaining_bytes = 0 }

-- One round of the loop past the purge: an OSError skips the accounting, `max(before - after, 0)`
-- is the truncated difference.
unfoldable pub account : Text → ℕ → Purged → SweepResult → SweepResult
account kind before p r = if p.failed then r else record r {
  removed = insert kind p.removed r.removed;
  freed_bytes = r.freed_bytes + (before - usage_bytes p.files);
  remaining_bytes = r.remaining_bytes + usage_bytes p.files;
}

module _ (locked : Text → Bool) (now : ℕ) where
  -- The three rounds of the loop.
  unfoldable pub sweep_all : ℕ → Disk → SweepResult × Disk
  sweep_all days disk =
      let up = purge_older_than locked now days disk.uploads in
      let res = purge_older_than locked now days disk.results in
      let art = purge_older_than locked now days disk.artifacts in
      (
        account (codes "artifacts") (usage_bytes disk.artifacts) art (
            account (codes "results") (usage_bytes disk.results) res
              (account (codes "uploads") (usage_bytes disk.uploads) up empty_result)),
        record { uploads = up.files; results = res.files; artifacts = art.files },
      )

  -- `sweep(settings, days)`; the caller has put `settings.result_ttl_days` for a missing `days`.
  unfoldable pub sweep : ℕ → Disk → SweepResult × Disk
  unfolding sweep_all
  sweep days disk = if days == 0 then (empty_result, disk) else sweep_all days disk
