-- ===== src/Storage/Upload.antt =====
-- What `put_stream` leaves on disk and returns, whatever the chunks' borders.
use ocr_serving.Base.{
  ℕ, ◌+◌, ◌-◌, ◌≡◌, ◌≢◌, refl, ap, Bool, true, false, Option, none, some, [], ◌++◌, take, length,
  length-append, length-take, take-append, append_assoc, if◌then◌else◌, ltb, arith, Bool-cases, inl,
  inr, append-nil,
}
use ocr_serving.Base.Text.{Text, text_eq_iff, text_eq_refl}
use ocr_serving.Base.Dict.{lookup, insert, erase, lookup-insert, lookup-erase}
use ocr_serving.Filetype.{head_bytes}
use ocr_serving.Storage.{
  StoreError, upload_too_large, Result, ok, err, Files, Feed, done, broken, chunk, Progress, start,
  exceeds, limit_of, take_chunk, consume, finish, put_stream, path_for,
}

-- The bytes that a feed yields, and whether it ends without raising.
abbrev pub contents : Feed → Text
contents done = []
contents broken = []
contents (chunk c rest) = c ++ contents rest

abbrev pub complete : Feed → Bool
complete done = true
complete broken = false
complete (chunk c rest) = complete rest

-- The loop's variables once `t` has been read.
abbrev read_so_far : Text → Progress
read_so_far t = record { size = length t; head = take head_bytes t; content = t }

head_step :
    (t c : Text)
    → (if ltb (length (take head_bytes t)) head_bytes
        then take head_bytes t ++ take (head_bytes - length (take head_bytes t)) c
        else take head_bytes t)
      ≡ take head_bytes (t ++ c)
head_step t c = rw (take-append head_bytes t c) (elim (Bool-cases (ltb (length t) head_bytes)) [
  | inl short ↦
      rw (length-take head_bytes t)
        (ground (arith, ap (λ (k : ℕ). take head_bytes t ++ take k c) (short_room t short)))
  | inr long ↦ ground (
    arith,
    length-take head_bytes t,
    append-nil (take head_bytes t),
    ap (λ (k : ℕ). take head_bytes t ++ take k c) (no_room t long),
  )
])
  where
    short_room :
        (t : Text)
        → ltb (length t) head_bytes ≡ true
        → head_bytes - Prim.Native.Nat.min head_bytes (length t) ≡ head_bytes - length t
    short_room t h = ground arith

    no_room : (t : Text) → ltb (length t) head_bytes ≡ false → head_bytes - length t ≡ 0
    no_room t h = ground arith

take_chunk-read : (t c : Text) → take_chunk c (read_so_far t) ≡ read_so_far (t ++ c)
unfolding take_chunk
take_chunk-read t c = cc (length-append t c, head_step t c)

exceeds-append :
    (limit : Option ℕ) (t c : Text)
    → exceeds limit (length t) ≡ true
    → exceeds limit (length (t ++ c)) ≡ true
exceeds-append none t c h = h
exceeds-append (some limit) t c h = ground (arith, length-append t c)

-- The verdict on a whole content.
abbrev pub verdict : Option ℕ → Text → Result Progress
verdict limit t =
    if exceeds limit (length t) then err (upload_too_large (limit_of limit)) else ok (read_so_far t)

consume-complete :
    (limit : Option ℕ) (f : Feed) (t : Text)
    → complete f ≡ true
    → exceeds limit (length t) ≡ false
    → consume limit f (read_so_far t) ≡ verdict limit (t ++ contents f)
unfolding consume
consume-complete limit done t h e = rw (append-nil t) (rw e)
consume-complete limit broken t h e = cc
consume-complete limit (chunk c rest) t h e =
    elim (Bool-cases (exceeds limit (length t + length c))) [
      | inl over ↦
          let far : exceeds limit (length (t ++ (c ++ contents rest))) ≡ true =
            rw (← append_assoc)
              (exceeds-append limit (t ++ c) (contents rest) (rw (length-append t c) over)) in
          rw over (rw far)
      | inr under ↦ rw under (
          rw (take_chunk-read t c) (
            rw (← append_assoc)
              (consume-complete limit rest (t ++ c) h (rw (length-append t c) under))))
    ]

consume-start :
    (limit : Option ℕ) (f : Feed)
    → complete f ≡ true
    → consume limit f start ≡ verdict limit (contents f)
consume-start none f h = consume-complete none f [] h refl
consume-start (some limit) f h = consume-complete (some limit) f [] h (ground arith)

module _ (sha256 : Text → Text) (base key : Text) {dest : Text}
    (legal : path_for base key ≡ ok dest) where
  put_stream-finish :
      (f : Feed) (limit : Option ℕ) (now : ℕ) (files : Files)
      → put_stream sha256 base key f limit now files
        ≡ finish sha256 key dest now files (consume limit f start)
  unfolding put_stream
  put_stream-finish f limit now files = rw (legal, put_stream)

  -- An upload that is read to its end is stored whole if it is within the limit, and the blob
  -- carries its size, its digest and its first `HEAD_BYTES` bytes; over the limit the upload is
  -- refused and nothing stays at its path. How the content was cut into chunks does not matter.
  pub put_stream-complete :
      (f : Feed) (limit : Option ℕ) (now : ℕ) (files : Files)
      → complete f ≡ true
      → put_stream sha256 base key f limit now files ≡ (
          if exceeds limit (length (contents f))
          then (err (upload_too_large (limit_of limit)), erase dest files)
          else (
            ok (record {
              key = key;
              path = dest;
              size = length (contents f);
              sha256 = sha256 (contents f);
              head = take head_bytes (contents f);
            }),
            insert dest (record { content = contents f; mtime = now }) files,
          ))
  unfolding finish
  put_stream-complete f limit now files h =
      ground (arith, put_stream-finish f limit now files, consume-start limit f h)

  put_stream-parts :
      (f : Feed) (limit : Option ℕ) (now : ℕ) (files : Files)
      → let (r, files') = put_stream sha256 base key f limit now files in
        ((j : Text) → j ≢ dest → lookup j files' ≡ lookup j files)
        × ((e : StoreError) → r ≡ err e → lookup dest files' ≡ none)
  unfolding finish
  put_stream-parts f limit now files =
      rw (put_stream-finish f limit now files) (go (consume limit f start))
    where
      go :
          (p : Result Progress)
          → ((j : Text)
              → j ≢ dest
              → lookup j (finish sha256 key dest now files p).1 ≡ lookup j files)
            × ((e : StoreError)
                → (finish sha256 key dest now files p).0 ≡ err e
                → lookup dest (finish sha256 key dest now files p).1 ≡ none)
      go (ok p) = (
        λ j h. ground (
          arith,
          lookup-insert dest j (record { content = p.content; mtime = now }) files,
          text_eq_iff dest j,
        ),
        λ e h. cc,
      )
      go (err x) = (
        λ j h. ground (arith, lookup-erase dest j files, text_eq_iff dest j),
        λ e h. ground (arith, lookup-erase dest dest files, text_eq_refl dest),
      )

  -- Whatever the iterator does and however the upload ends, no other file changes.
  pub put_stream_frame :
      (f : Feed) (limit : Option ℕ) (now : ℕ) (files : Files) (j : Text)
      → j ≢ dest
      → lookup j (put_stream sha256 base key f limit now files).1 ≡ lookup j files
  put_stream_frame f limit now files = (put_stream-parts f limit now files).0

  -- An upload that fails, be it too large or broken off, leaves nothing at its own path.
  pub put_stream_failed :
      (f : Feed) (limit : Option ℕ) (now : ℕ) (files : Files) (e : StoreError)
      → (put_stream sha256 base key f limit now files).0 ≡ err e
      → lookup dest (put_stream sha256 base key f limit now files).1 ≡ none
  put_stream_failed f limit now files = (put_stream-parts f limit now files).1
