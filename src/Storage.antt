-- ===== src/Storage.antt =====
-- common/storage.py: `LocalBlobStore`. The files below `base` are a dict from path to content and
-- modification time (in seconds); `sha256` is hashlib's digest of a whole content.
pub mod Upload
pub mod Purge
use ocr_serving.Base.{
  ℕ, suc, ◌+◌, ◌-◌, ◌*◌, Bool, true, false, Option, none, some, List, [], ◌∷◌, ◌++◌, ◌||◌, take,
  length, if◌then◌else◌, ltb, ◌==◌,
}
use ocr_serving.Base.Text.{Text, codes, text_eq, starts_with}
use ocr_serving.Base.Dict.{Dict, lookup, insert, erase}
use ocr_serving.Filetype.{head_bytes}

pub data StoreError : Type 0 where
  illegal_key : StoreError
  upload_too_large : ℕ → StoreError
  interrupted : StoreError
  no_such_file : StoreError

pub data Result {ℓ} (A : Type ℓ) : Type ℓ where
  ok : A → Result A
  err : StoreError → Result A

pub record StoredBlob : Type 0 where
  pub key : Text
  pub path : Text
  pub size : ℕ
  pub sha256 : Text
  pub head : Text

pub record File : Type 0 where
  pub content : Text
  pub mtime : ℕ

abbrev pub Files : Type 0
Files = Dict File

unfoldable pub contains_char : ℕ → Text → Bool
contains_char c [] = false
contains_char c (a ∷ s) = (a == c) || contains_char c s

-- The parts of a path: its pieces between `/`. The empty and `.` pieces, which `Path.parts`
-- leaves out, are no `..` and so do not matter here.
unfoldable pub has_part : Text → Text → Text → Bool
unfolding text_eq
has_part part piece [] = text_eq piece part
has_part part piece (c ∷ s) =
    if c == b'/'
    then text_eq piece part || has_part part [] s
    else has_part part (piece ++ c ∷ []) s

unfoldable pub path_for : Text → Text → Result Text
path_for base key =
    if contains_char b'\\' key || starts_with key (codes "/") || has_part (codes "..") [] key
    then err illegal_key
    else ok (base ++ codes "/" ++ key)

-- What the async iterator of chunks does: it ends, raises, or yields one more chunk.
pub data Feed : Type 0 where
  done : Feed
  broken : Feed
  chunk : Text → Feed → Feed

-- The variables of the loop of `put_stream`; `content` is what was written and hashed.
pub record Progress : Type 0 where
  pub size : ℕ
  pub head : Text
  pub content : Text

abbrev pub start : Progress
start = record { size = 0; head = []; content = [] }

-- `max_bytes is not None and size > max_bytes`
abbrev pub exceeds : Option ℕ → ℕ → Bool
exceeds none size = false
exceeds (some limit) size = ltb limit size

abbrev pub limit_of : Option ℕ → ℕ
limit_of none = 0
limit_of (some limit) = limit

-- One round past the size test.
unfoldable pub take_chunk : Text → Progress → Progress
take_chunk c p = record {
  size = p.size + length c;
  head =
      if ltb (length p.head) head_bytes
      then p.head ++ take (head_bytes - length p.head) c
      else p.head;
  content = p.content ++ c;
}

unfoldable pub consume : Option ℕ → Feed → Progress → Result Progress
consume limit done p = ok p
consume limit broken p = err interrupted
consume limit (chunk c rest) p =
    let more = consume limit rest (take_chunk c p) in
    if exceeds limit (p.size + length c) then err (upload_too_large (limit_of limit)) else more

module _ (sha256 : Text → Text) where
  -- The `except BaseException` of `put_stream`: what was written so far is unlinked.
  unfoldable pub finish : Text → Text → ℕ → Files → Result Progress → Result StoredBlob × Files
  finish key dest now files (ok p) = (
    ok (record { key = key; path = dest; size = p.size; sha256 = sha256 p.content; head = p.head }),
    insert dest (record { content = p.content; mtime = now }) files,
  )
  finish key dest now files (err e) = (err e, erase dest files)

  unfoldable pub put_stream : Text → Text → Feed → Option ℕ → ℕ → Files → Result StoredBlob × Files
  put_stream base key chunks max_bytes now files = elim (path_for base key) [
    | err e ↦ (err e, files)
    | ok dest ↦ finish key dest now files (consume max_bytes chunks start)
  ]

  unfoldable pub put_bytes : Text → Text → Text → ℕ → Files → Result StoredBlob × Files
  put_bytes base key content now files = elim (path_for base key) [
    | err e ↦ (err e, files)
    | ok dest ↦ (
      ok (record {
        key = key;
        path = dest;
        size = length content;
        sha256 = sha256 content;
        head = take head_bytes content;
      }),
      insert dest (record { content = content; mtime = now }) files,
    )
  ]

-- `open(key)`, read whole.
unfoldable pub open_blob : Text → Text → Files → Result Text
open_blob base key files = elim (path_for base key) [
  | err e ↦ err e
  | ok path ↦ elim (lookup path files) [ none ↦ err no_such_file | some f ↦ ok f.content ]
]

-- `delete(key)`
unfoldable pub delete : Text → Text → Files → Result (Unit {0}) × Files
delete base key files = elim (path_for base key) [
  | err e ↦ (err e, files)
  | ok path ↦ (ok tt, erase path files)
]

-- What one `unlink` of the sweep does: `locked` are the paths where it raises an OSError.
pub record Purged : Type 0 where
  pub files : Files
  pub removed : ℕ
  pub failed : Bool

-- `mtime < now - days * 86_400`
abbrev pub is_old : ℕ → ℕ → File → Bool
is_old now days f = ltb (f.mtime + days * 86400) now

-- `purge_older_than`, in the directory's order; an OSError ends the loop.
unfoldable pub purge_older_than : (Text → Bool) → ℕ → ℕ → Files → Purged
purge_older_than locked now days [] = record { files = []; removed = 0; failed = false }
purge_older_than locked now days ((path, f) ∷ files) =
    let rest = purge_older_than locked now days files in
    if is_old now days f
    then (if locked path
        then record { files = (path, f) ∷ files; removed = 0; failed = true }
        else record rest { removed = suc rest.removed })
    else record rest { files = (path, f) ∷ rest.files }

unfoldable pub usage_bytes : Files → ℕ
usage_bytes [] = 0
usage_bytes ((path, f) ∷ files) = length f.content + usage_bytes files
