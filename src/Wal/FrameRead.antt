-- ===== src/Wal/FrameRead.antt =====
-- What `parse_entry` and `next_valid_frame` find in any byte string.
use distr_hnsw.Common.{
  ℕ, zero, suc, ◌+◌, ◌-◌, ◌≤◌, ◌<◌, ◌≡◌, ◌≢◌, String, refl, inl, inr, true, false, none, some, List,
  [], ◌∷◌, ◌++◌, append-nil, length, drop, slice, ltb, Result, ok, err, length-append,
  take-append_left, length-drop, map_err, ◌>>=◌, >>=-eq-ok, le→ltb, arith, Bool-cases, Option-cases,
}
use distr_hnsw.Wal.Entry.{
  WalError, malformed, Entry, Checksum, min_frame_len, max_frame_len, encode_body, frame_of, encode,
}
use distr_hnsw.Wal.Decode.{decode}
use distr_hnsw.Wal.EntryCodec.{length-encode_body}
use distr_hnsw.Wal.Frame.{
  unreadable, frame_len, frame_error, crc_matches, parse_entry, has_frame, find_frame,
  next_valid_frame,
}
use distr_hnsw.Wal.FrameWritten.{length-frame_of, frame_len-frame_of}

frame_len_bounds :
    (bytes : List ℕ) (len : ℕ)
    → frame_len bytes ≡ some len
    → (min_frame_len ≤ len) × (len ≤ max_frame_len)
unfolding frame_len
frame_len_bounds bytes len h = ground arith

frame_len-append :
    (bytes more : List ℕ) → 4 ≤ length bytes → frame_len (bytes ++ more) ≡ frame_len bytes
unfolding frame_len
frame_len-append bytes more h = rw (
  take-append_left bytes more 4 h,
  le→ltb (length (bytes ++ more)) 4 (omega (arith, length-append bytes more)),
  le→ltb (length bytes) 4 h,
)

nonempty : (xs : List ℕ) → xs ≢ [] → 1 ≤ length xs
nonempty [] h = absurd (h refl)
nonempty (x ∷ xs) h = omega arith

decoded_not_unreadable :
    (r : Result WalError Entry) (n : ℕ) (reason : String)
    → ◌>>=◌ {B = Entry × ℕ} (map_err frame_error r) (λ entry. ok (entry, n))
      ≢ err (unreadable reason)
decoded_not_unreadable (ok e) n reason h = cc
decoded_not_unreadable (err (malformed text)) n reason h = cc
decoded_not_unreadable (err _) n reason h = cc

module _ (c : Checksum) where
  crc_matches-append :
      (bytes more : List ℕ) (len : ℕ)
      → 4 ≤ len
      → 4 + len ≤ length bytes
      → crc_matches c len (bytes ++ more) ≡ crc_matches c len bytes
  unfolding crc_matches
  crc_matches-append bytes more len h fits =
      rw (take-append_left bytes more (4 + len) fits, take-append_left bytes more 8 (omega arith))

  -- An entry takes 36 bytes at least, and never more than there are.
  pub parse_entry_bounds :
      (bytes : List ℕ) (e : Entry) (n : ℕ)
      → parse_entry c bytes ≡ ok (e, n)
      → (36 ≤ n) × (n ≤ length bytes)
  unfolding parse_entry
  parse_entry_bounds bytes e n h = elim (Option-cases (frame_len bytes)) [
    | inl gone ↦ ground (arith, gone)
    | inr (len, found) ↦ ground (arith, frame_len_bounds bytes len found)
  ]

  -- What follows a readable frame does not change what is read from it.
  pub parse_entry-append :
      (bytes more : List ℕ) (e : Entry) (n : ℕ)
      → parse_entry c bytes ≡ ok (e, n)
      → parse_entry c (bytes ++ more) ≡ ok (e, n)
  unfolding parse_entry
  parse_entry-append bytes more e n h = elim (Option-cases (frame_len bytes)) [
    | inl gone ↦ ground (arith, gone)
    | inr (len, found) ↦ ground (
      arith,
      frame_len_bounds bytes len found,
      frame_len-append bytes more,
      crc_matches-append bytes more len,
      take-append_left bytes more (4 + len),
      length-append bytes more,
    )
  ]

  -- A frame whose checksum matches is read or corrupt, and any other is unreadable.
  pub has_frame→readable :
      (bytes : List ℕ) (reason : String)
      → has_frame c bytes ≡ true
      → parse_entry c bytes ≢ err (unreadable reason)
  unfolding has_frame parse_entry
  has_frame→readable bytes reason h p = elim (Option-cases (frame_len bytes)) [
    | inl gone ↦ ground (arith, gone)
    | inr (len, found) ↦ ground (
      arith,
      frame_len_bounds bytes len found,
      decoded_not_unreadable (decode (slice 8 (4 + len) bytes)) (4 + len) reason,
    )
  ]

  pub no_frame→unreadable :
      (bytes : List ℕ)
      → has_frame c bytes ≡ false
      → (reason : String) × (parse_entry c bytes ≡ err (unreadable reason))
  unfolding has_frame parse_entry
  no_frame→unreadable bytes h = elim (Bool-cases (ltb (length bytes) 8)) [
    | inl short ↦ ("short frame", rw short)
    | inr long ↦ elim (Option-cases (frame_len bytes)) [
      | inl gone ↦ ("frame length out of range", rw (long, gone))
      | inr (len, found) ↦ elim (Bool-cases (ltb (length bytes) (4 + len))) [
        | inl past ↦ ("frame runs past the end of the segment", rw (long, found, past))
        | inr fits ↦ ("crc mismatch", ground (arith, found, fits, long))
      ]
    ]
  ]

  find_frame-none :
      (bytes : List ℕ) (count from at : ℕ)
      → find_frame c bytes count from ≡ none
      → from ≤ at
      → at < from + count
      → has_frame c (drop at bytes) ≡ false
  unfolding find_frame
  find_frame-none bytes zero from at h lo hi = absurd (omega arith)
  find_frame-none bytes (suc count) from at h lo hi =
      elim (Bool-cases (has_frame c (drop from bytes))) [
        | inl found ↦ ground (arith, found)
        | inr missing ↦ ground (arith, find_frame-none bytes count (from + 1) at)
      ]

  find_frame-some :
      (bytes : List ℕ) (count from at : ℕ)
      → find_frame c bytes count from ≡ some at
      → (from ≤ at) × (has_frame c (drop at bytes) ≡ true)
  unfolding find_frame
  find_frame-some bytes zero from at h = cc
  find_frame-some bytes (suc count) from at h = elim (Bool-cases (has_frame c (drop from bytes))) [
    | inl found ↦ ground (arith, found)
    | inr missing ↦ ground (arith, find_frame-some bytes count (from + 1) at)
  ]

  has_frame_long : (bytes : List ℕ) → has_frame c bytes ≡ true → 36 ≤ length bytes
  unfolding has_frame
  has_frame_long bytes h = elim (Option-cases (frame_len bytes)) [
    | inl gone ↦ ground (arith, gone)
    | inr (len, found) ↦ ground (arith, frame_len_bounds bytes len found)
  ]

  -- Where `next_valid_frame` finds nothing, no frame starts at `from` or anywhere behind it.
  pub next_valid_frame-none :
      (bytes : List ℕ) (from at : ℕ)
      → next_valid_frame c bytes from ≡ none
      → from ≤ at
      → has_frame c (drop at bytes) ≡ false
  unfolding next_valid_frame
  next_valid_frame-none bytes from at h lo = elim (Bool-cases (has_frame c (drop at bytes))) [
    | inl found ↦ ground (
      arith,
      has_frame_long (drop at bytes) found,
      length-drop at bytes,
      find_frame-none bytes (length bytes - 7 - from) from at h lo,
    )
    | inr missing ↦ missing
  ]

  pub next_valid_frame-some :
      (bytes : List ℕ) (from at : ℕ)
      → next_valid_frame c bytes from ≡ some at
      → (from ≤ at) × (has_frame c (drop at bytes) ≡ true)
  unfolding next_valid_frame
  next_valid_frame-some bytes from at h = find_frame-some bytes _ from at h

  -- Nor does the frame need the bytes behind it.
  pub parse_entry-shrink :
      (bytes more : List ℕ) (e : Entry) (n : ℕ)
      → parse_entry c (bytes ++ more) ≡ ok (e, n)
      → n ≤ length bytes
      → parse_entry c bytes ≡ ok (e, n)
  unfolding parse_entry
  parse_entry-shrink bytes more e n h fits =
      let (long, _) = parse_entry_bounds (bytes ++ more) e n h in
      elim (Option-cases (frame_len bytes)) [
        | inl gone ↦ ground (arith, gone, frame_len-append bytes more)
        | inr (len, found) ↦ ground (
          arith,
          frame_len_bounds bytes len found,
          frame_len-append bytes more,
          crc_matches-append bytes more len,
          take-append_left bytes more (4 + len),
          length-append bytes more,
        )
      ]

  has_frame_fits :
      (bytes : List ℕ)
      → has_frame c bytes ≡ true
      → (len : ℕ) × (frame_len bytes ≡ some len) × (4 + len ≤ length bytes) × (32 ≤ len)
  unfolding has_frame
  has_frame_fits bytes h = elim (Option-cases (frame_len bytes)) [
    | inl gone ↦ ground (arith, gone)
    | inr (len, found) ↦ (len, found, ground (arith, found), (frame_len_bounds bytes len found).0)
  ]

  -- A frame that is cut short cannot be read, wherever the cut is.
  pub parse_entry_cut :
      (e : Entry) (front back : List ℕ)
      → length e.op_id ≡ 16
      → encode c e ≡ ok (front ++ back)
      → back ≢ []
      → (reason : String) × (parse_entry c front ≡ err (unreadable reason))
  unfolding encode
  parse_entry_cut e front back hid h cut = elim (Bool-cases (has_frame c front)) [
    | inr none_there ↦ no_frame→unreadable front none_there
    | inl found ↦
        let (body, hb, eq) = >>=-eq-ok (encode_body e) _ h in
        let (lo, hi) = length-encode_body e body hid hb in
        let (len, at, fits, small) = has_frame_fits front found in
        absurd (
          ground (
            arith,
            eq,
            append-nil (frame_of c body),
            frame_len-frame_of c body [] lo hi,
            frame_len-append front back,
            length-append front back,
            length-frame_of c body,
            nonempty back cut,
          ))
  ]
