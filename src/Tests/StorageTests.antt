-- ===== src/Tests/StorageTests.antt =====
-- Uploads, the retention sweep and the file types, on a few small files.
use ocr_serving.Base.{◌≡◌, refl, Bool, false, some, [], ◌∷◌}
use ocr_serving.Base.Text.{Text, codes, text_eq}
use ocr_serving.Base.Dict.{lookup}
use ocr_serving.Storage.{File, Files}
use ocr_serving.Retention.{Disk, sweep}
use ocr_serving.Retention.Safety.{in_results, files_of, sweep_keeps_fresh}

abbrev old_file : File
old_file = record { content = codes "old"; mtime = 10 }

abbrev new_file : File
new_file = record { content = codes "new"; mtime = 900000 }

abbrev store : Files
store = (codes "b/old", old_file) ∷ (codes "b/new", new_file) ∷ []

abbrev unlocked : Text → Bool
unlocked path = false

abbrev disk : Disk
disk = record { uploads = store; results = store; artifacts = [] }

sweep_keeps_fresh_example :
    lookup (codes "b/new") (files_of in_results (sweep unlocked 1000000 2 disk).1) ≡ some new_file
unfolding lookup text_eq
sweep_keeps_fresh_example =
    sweep_keeps_fresh unlocked 1000000 2 disk in_results (codes "b/new") new_file refl refl
