-- ===== src/Filetype/Gate.antt =====
-- What `sniff` decides: each kind has its own signature, and no content carries two of them.
use ocr_serving.Base.{
  ℕ, zero, suc, ◌≤◌, ◌≡◌, refl, true, Option, none, some, [], ◌∷◌, ◌||◌, ◌↔◌, take, drop, arith,
  length, Option-cases, inl, inr, ◌+◌,
}
use ocr_serving.Base.Text.{Text, codes, starts_with, to_lower}
use ocr_serving.Filetype.{
  Kind, pdf, png, jpeg, tiff, webp, bmp, png_magic, jpeg_magic, tiff_little, tiff_big, is_webp,
  sniff, head_bytes, extension_kind, matches_extension, kind_eq, is_kind,
}

-- The signature of a kind, stated without the order in which `sniff` tries them.
pub HasSignature : Kind → Text → Type 0
HasSignature pdf head = starts_with head (codes "%PDF-") ≡ true
HasSignature png head = starts_with head png_magic ≡ true
HasSignature jpeg head = starts_with head jpeg_magic ≡ true
HasSignature tiff head = (starts_with head tiff_little || starts_with head tiff_big) ≡ true
HasSignature webp head = is_webp head ≡ true
HasSignature bmp head = starts_with head (codes "BM") ≡ true

signature-sniff : (k : Kind) (head : Text) → HasSignature k head → sniff head ≡ some k
unfolding sniff HasSignature starts_with
signature-sniff pdf head h = ground arith
signature-sniff png [] h = cc
signature-sniff png (c ∷ head) h = ground arith
signature-sniff jpeg [] h = cc
signature-sniff jpeg (c ∷ head) h = ground arith
signature-sniff tiff [] h = cc
signature-sniff tiff (c ∷ head) h = ground arith
signature-sniff webp [] h = cc
signature-sniff webp (c ∷ head) h = ground arith
signature-sniff bmp [] h = cc
signature-sniff bmp (c ∷ head) h = ground arith

sniff-signature : (k : Kind) (head : Text) → sniff head ≡ some k → HasSignature k head
unfolding sniff HasSignature
sniff-signature pdf head h = ground arith
sniff-signature png head h = ground arith
sniff-signature jpeg head h = ground arith
sniff-signature tiff head h = ground arith
sniff-signature webp head h = ground arith
sniff-signature bmp head h = ground arith

-- `sniff` finds a kind exactly when the content starts with that kind's signature: no content
-- carries two signatures, so the order of the tests does not matter.
pub sniff_iff : (k : Kind) (head : Text) → (sniff head ≡ some k) ↔ HasSignature k head
sniff_iff k head = (sniff-signature k head, signature-sniff k head)

eq_of_is_kind : (k : Kind) (o : Option Kind) → is_kind (some k) o ≡ true → o ≡ some k
eq_of_is_kind k none h = cc
eq_of_is_kind k (some j) h = ground arith

kind_eq_refl : (k : Kind) → kind_eq k k ≡ true
kind_eq_refl k = ground arith

-- The gate accepts an upload exactly when its extension claims a kind whose signature the content
-- has; content of another kind, of no kind, or under an unknown extension is rejected.
pub matches_extension_iff :
    (suffix head : Text)
    → (matches_extension suffix head ≡ true)
      ↔ ((k : Kind) × (extension_kind (to_lower suffix) ≡ some k) × HasSignature k head)
unfolding matches_extension
matches_extension_iff suffix head = (accepted, met)
  where
    accepted :
        matches_extension suffix head ≡ true
        → (k : Kind) × (extension_kind (to_lower suffix) ≡ some k) × HasSignature k head
    accepted h = elim (Option-cases (extension_kind (to_lower suffix))) [
      | inl e ↦ cc
      | inr (k, e) ↦ (k, e, sniff-signature k head (eq_of_is_kind k (sniff head) (rw e at h)))
    ]

    met :
        ((k : Kind) × (extension_kind (to_lower suffix) ≡ some k) × HasSignature k head)
        → matches_extension suffix head ≡ true
    met (k, e, s) = rw (e, signature-sniff k head s) (kind_eq_refl k)

starts_with-take : (n : ℕ) (s p : Text) → length p ≤ n → starts_with (take n s) p ≡ starts_with s p
unfolding starts_with
starts_with-take zero s [] h = ground arith
starts_with-take zero s (c ∷ p) h = elim h [ ]
starts_with-take (suc n) [] p h = refl
starts_with-take (suc n) (a ∷ s) [] h = refl
starts_with-take (suc n) (a ∷ s) (c ∷ p) h = rw (starts_with-take n s p (omega arith))

take_shorter : (k n : ℕ) (s : Text) → k ≤ n → take k (take n s) ≡ take k s
take_shorter zero n s h = refl
take_shorter (suc k) zero s h = absurd (omega arith)
take_shorter (suc k) (suc n) [] h = refl
take_shorter (suc k) (suc n) (a ∷ s) h = rw (take_shorter k n s (omega arith))

slice-take : (k d n : ℕ) (s : Text) → d + k ≤ n → take k (drop d (take n s)) ≡ take k (drop d s)
slice-take k zero n s h = take_shorter k n s (omega arith)
slice-take k (suc d) zero s h = absurd (omega arith)
slice-take k (suc d) (suc n) [] h = refl
slice-take k (suc d) (suc n) (a ∷ s) h = slice-take k d n s (omega arith)

-- The first `HEAD_BYTES` bytes of a content decide its kind.
pub sniff-take : (s : Text) → sniff (take head_bytes s) ≡ sniff s
sniff-take s =
    unfold sniff in
    rw (starts_with-take 32 s (codes "%PDF-") (omega arith)) (
      rw (starts_with-take 32 s png_magic (omega arith)) (
        rw (starts_with-take 32 s jpeg_magic (omega arith)) (
          rw (starts_with-take 32 s tiff_little (omega arith)) (
            rw (starts_with-take 32 s tiff_big (omega arith)) (
              rw (starts_with-take 32 s (codes "RIFF") (omega arith)) (
                rw (starts_with-take 32 s (codes "BM") (omega arith))
                  (rw (slice-take 4 8 32 s (omega arith)) refl)))))))
