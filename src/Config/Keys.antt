-- ===== src/Config/Keys.antt =====
-- The Redis keys of two jobs differ, and so do the three keys of one job.
use ocr_serving.Base.{◌≡◌, arith}
use ocr_serving.Base.Text.{Text}
use ocr_serving.Config.{job_key}

pub job_key_injective : (a b : Text) → job_key a ≡ job_key b → a ≡ b
unfolding job_key
job_key_injective a b h = ground arith
