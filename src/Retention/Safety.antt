-- ===== src/Retention/Safety.antt =====
-- The sweep deletes nothing that is young, and accounts for every byte.
use ocr_serving.Base.{ℕ, ◌+◌, ◌≡◌, refl, Bool, false, some, arith, Bool-cases, inl, inr, ◌==◌}
use ocr_serving.Base.Text.{Text, text_eq}
use ocr_serving.Base.Dict.{lookup, insert}
use ocr_serving.Storage.{File, Files, is_old, purge_older_than, usage_bytes}
use ocr_serving.Storage.Purge.{purge_keeps_fresh, usage-purge, purge_fresh, purge_removes_old}
use ocr_serving.Retention.{Disk, sweep, sweep_all, account, total_removed}

-- The bytes in use in the three directories.
unfoldable pub usage : Disk → ℕ
usage disk = usage_bytes disk.uploads + usage_bytes disk.results + usage_bytes disk.artifacts

-- The directories of the sweep.
pub data Directory : Type 0 where
  in_uploads in_results in_artifacts : Directory

abbrev pub files_of : Directory → Disk → Files
files_of in_uploads disk = disk.uploads
files_of in_results disk = disk.results
files_of in_artifacts disk = disk.artifacts

module _ (locked : Text → Bool) (now : ℕ) where
  -- A file within the retention window survives the sweep in its directory, whatever OSErrors the
  -- sweep meets there or elsewhere.
  pub sweep_keeps_fresh :
      (days : ℕ) (disk : Disk) (place : Directory) (path : Text) (f : File)
      → is_old now days f ≡ false
      → lookup path (files_of place disk) ≡ some f
      → lookup path (files_of place (sweep locked now days disk).1) ≡ some f
  unfolding sweep sweep_all
  sweep_keeps_fresh days disk place path f fresh there = elim (Bool-cases (days == 0)) [
    | inl off ↦ rw off there
    | inr on ↦ rw on (go place there)
  ]
    where
      go :
          (place : Directory)
          → lookup path (files_of place disk) ≡ some f
          → lookup path (files_of place (sweep_all locked now days disk).1) ≡ some f
      go in_uploads = purge_keeps_fresh locked now days disk.uploads path f fresh
      go in_results = purge_keeps_fresh locked now days disk.results path f fresh
      go in_artifacts = purge_keeps_fresh locked now days disk.artifacts path f fresh

  -- A sweep that is switched on and meets no OSError accounts for every byte: what it reports as
  -- freed and as remaining adds up to what was in use before, and what remains is in use after.
  pub sweep_accounts :
      (days : ℕ) (disk : Disk)
      → (days == 0) ≡ false
      → (purge_older_than locked now days disk.uploads).failed ≡ false
      → (purge_older_than locked now days disk.results).failed ≡ false
      → (purge_older_than locked now days disk.artifacts).failed ≡ false
      → let (r, after) = sweep locked now days disk in
        (r.freed_bytes + r.remaining_bytes ≡ usage disk) × (r.remaining_bytes ≡ usage after)
  unfolding sweep account usage
  sweep_accounts days disk on u r a = ground (
    arith,
    usage-purge locked now days disk.uploads,
    usage-purge locked now days disk.results,
    usage-purge locked now days disk.artifacts,
  )

  -- The sweep is idempotent: right after one that met no OSError, another removes nothing and
  -- leaves the directories as they are.
  pub sweep_idempotent :
      (days : ℕ) (disk : Disk)
      → (purge_older_than locked now days disk.uploads).failed ≡ false
      → (purge_older_than locked now days disk.results).failed ≡ false
      → (purge_older_than locked now days disk.artifacts).failed ≡ false
      → let after = (sweep locked now days disk).1 in
        let again = sweep locked now days after in (total_removed again.0 ≡ 0) × (again.1 ≡ after)
  unfolding sweep account total_removed insert text_eq
  sweep_idempotent days disk u r a = elim (Bool-cases (days == 0)) [
    | inl off ↦ rw off (refl, refl)
    | inr on ↦ rw on (
        rw
          (purge_fresh locked now days (purge_older_than locked now days disk.uploads).files
            (purge_removes_old locked now days disk.uploads u))
          (rw
            (purge_fresh locked now days (purge_older_than locked now days disk.results).files
              (purge_removes_old locked now days disk.results r))
            (rw
              (purge_fresh locked now days (purge_older_than locked now days disk.artifacts).files
                (purge_removes_old locked now days disk.artifacts a))
              (refl, refl))))
  ]
