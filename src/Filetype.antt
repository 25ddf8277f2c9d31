-- ===== src/Filetype.antt =====
-- common/filetype.py: the content gate of the uploads. Bytes are numbers below 256; an extension
-- is the text of `Path.suffix`.
pub mod Gate
use ocr_serving.Base.{
  Bool, true, false, Option, none, some, [], ◌∷◌, ◌||◌, ◌&&◌, take, drop, if◌then◌else◌,
}
use ocr_serving.Base.Text.{Text, codes, text_eq, starts_with, to_lower, lower_char}

-- `HEAD_BYTES` is Storage's bound on the head that it keeps.
abbrev pub head_bytes : Prim.Native.Nat.ℕ
head_bytes = 32

pub data Kind : Type 0 where
  pdf png jpeg tiff webp bmp : Kind

-- `EXTENSION_KINDS`, the inverse of `KIND_EXTENSIONS`.
unfoldable pub extension_kind : Text → Option Kind
unfolding text_eq
extension_kind s =
    if text_eq s (codes ".pdf")
    then some pdf
    else if text_eq s (codes ".png")
    then some png
    else if text_eq s (codes ".jpg") || text_eq s (codes ".jpeg")
    then some jpeg
    else if text_eq s (codes ".tif") || text_eq s (codes ".tiff")
    then some tiff
    else if text_eq s (codes ".webp")
    then some webp
    else if text_eq s (codes ".bmp")
    then some bmp
    else none

abbrev pub png_magic : Text
png_magic = 0x89 ∷ 0x50 ∷ 0x4e ∷ 0x47 ∷ 0x0d ∷ 0x0a ∷ 0x1a ∷ 0x0a ∷ []

abbrev pub jpeg_magic : Text
jpeg_magic = 0xff ∷ 0xd8 ∷ 0xff ∷ []

abbrev pub tiff_little : Text
tiff_little = 0x49 ∷ 0x49 ∷ 0x2a ∷ 0x00 ∷ []

abbrev pub tiff_big : Text
tiff_big = 0x4d ∷ 0x4d ∷ 0x00 ∷ 0x2a ∷ []

-- `head[8:12] == b"WEBP"`
abbrev pub is_webp : Text → Bool
is_webp head = starts_with head (codes "RIFF") && text_eq (take 4 (drop 8 head)) (codes "WEBP")

unfoldable pub sniff : Text → Option Kind
sniff head =
    if starts_with head (codes "%PDF-")
    then some pdf
    else if starts_with head png_magic
    then some png
    else if starts_with head jpeg_magic
    then some jpeg
    else if starts_with head tiff_little || starts_with head tiff_big
    then some tiff
    else if is_webp head
    then some webp
    else if starts_with head (codes "BM")
    then some bmp
    else none

abbrev pub kind_eq : Kind → Kind → Bool
kind_eq pdf pdf = true
kind_eq png png = true
kind_eq jpeg jpeg = true
kind_eq tiff tiff = true
kind_eq webp webp = true
kind_eq bmp bmp = true
kind_eq _ _ = false

-- `expected is not None and sniff(head) == expected`
abbrev pub is_kind : Option Kind → Option Kind → Bool
is_kind none found = false
is_kind (some k) none = false
is_kind (some k) (some found) = kind_eq found k

unfoldable pub matches_extension : Text → Text → Bool
matches_extension suffix head = is_kind (extension_kind (to_lower suffix)) (sniff head)

abbrev pub kind_name : Kind → Text
kind_name pdf = codes "pdf"
kind_name png = codes "png"
kind_name jpeg = codes "jpeg"
kind_name tiff = codes "tiff"
kind_name webp = codes "webp"
kind_name bmp = codes "bmp"

unfoldable pub describe : Text → Text
describe head = elim (sniff head) [ none ↦ codes "unrecognised" | some k ↦ kind_name k ]
