-- ===== src/Storage/Purge.antt =====
-- What the retention sweep removes from one directory, and what it never touches.
use ocr_serving.Base.{ℕ, ◌+◌, ◌≡◌, refl, Bool, false, some, [], ◌∷◌, All, arith, length}
use ocr_serving.Base.Text.{Text}
use ocr_serving.Base.Dict.{lookup}
use ocr_serving.Storage.{File, Files, is_old, purge_older_than, usage_bytes}

module _ (locked : Text → Bool) (now days : ℕ) where
  -- A file within the retention window is never removed, whatever else is in the directory and
  -- wherever an OSError stops the loop.
  pub purge_keeps_fresh :
      (files : Files) (path : Text) (f : File)
      → is_old now days f ≡ false
      → lookup path files ≡ some f
      → lookup path (purge_older_than locked now days files).files ≡ some f
  unfolding lookup purge_older_than
  purge_keeps_fresh [] path f fresh found = cc
  purge_keeps_fresh ((p, g) ∷ files) path f fresh found =
      ground (arith, purge_keeps_fresh files path f)

  -- A sweep that meets no OSError leaves only files within the retention window.
  pub purge_removes_old :
      (files : Files)
      → (purge_older_than locked now days files).failed ≡ false
      → All (λ e. is_old now days e.1 ≡ false) (purge_older_than locked now days files).files
  unfolding purge_older_than
  purge_removes_old [] h = tt
  purge_removes_old ((p, g) ∷ files) h = ground (arith, purge_removes_old files)

  -- `removed` counts the files that are gone.
  pub purge_counts :
      (files : Files)
      → ((purge_older_than locked now days files).removed
            + length (purge_older_than locked now days files).files
          ≡ length files)
  unfolding purge_older_than
  purge_counts [] = omega arith
  purge_counts ((p, g) ∷ files) = ground (arith, purge_counts files)

  pub usage-purge :
      (files : Files)
      → Prim.Native.Nat.◌≤◌
          (usage_bytes (purge_older_than locked now days files).files)
          (usage_bytes files)
  unfolding purge_older_than usage_bytes
  usage-purge [] = omega arith
  usage-purge ((p, g) ∷ files) = ground (arith, usage-purge files)

  pub purge_fresh :
      (files : Files)
      → All (λ e. is_old now days e.1 ≡ false) files
      → purge_older_than locked now days files
        ≡ record { files = files; removed = 0; failed = false }
  unfolding purge_older_than
  purge_fresh [] h = refl
  purge_fresh ((p, g) ∷ files) h = ground (arith, purge_fresh files h.1)
