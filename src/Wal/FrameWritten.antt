-- ===== src/Wal/FrameWritten.antt =====
-- The frame that `encode` writes, as `parse_entry` reads it.
use distr_hnsw.Common.{
  ℕ, ◌+◌, ◌≤◌, ◌≡◌, refl, sym, true, some, List, ◌++◌, append_assoc, length, slice, ==_refl, ok,
  length-append, take-append, slice-append, map_err, ◌>>=◌, >>=-eq-ok, le→ltb, arith,
}
use distr_hnsw.Common.Bytes.{to_le, length-to_le, from_le-to_le}
use distr_hnsw.Wal.Entry.{
  Entry, Checksum, min_frame_len, max_frame_len, encode_body, frame_of, encode,
}
use distr_hnsw.Wal.Decode.{decode}
use distr_hnsw.Wal.EntryCodec.{IsStorable, decode-encode_body, length-encode_body}
use distr_hnsw.Wal.Frame.{frame_len, frame_error, crc_matches, parse_entry}

module _ (c : Checksum) where
  pub length-frame_of : (body : List ℕ) → length (frame_of c body) ≡ length body + 8
  unfolding frame_of
  length-frame_of body = simp (length-append, length-to_le) (omega arith)

  pub frame_len-frame_of :
      (body rest : List ℕ)
      → min_frame_len ≤ length body + 4
      → length body + 4 ≤ max_frame_len
      → frame_len (frame_of c body ++ rest) ≡ some (length body + 4)
  unfolding frame_len frame_of
  frame_len-frame_of body rest lo hi = rw append_assoc (
      ground (
        arith,
        length-append (to_le 4 (length body + 4)) ((to_le 4 (c.crc32c body) ++ body) ++ rest),
        length-to_le 4 (length body + 4),
        take-append (to_le 4 (length body + 4)) ((to_le 4 (c.crc32c body) ++ body) ++ rest) 4,
        from_le-to_le 4 (length body + 4),
      ))

  -- The two fields behind the length.
  body_of_frame :
      (body rest : List ℕ) (n : ℕ)
      → n ≡ length body + 4
      → slice 8 (4 + n) (frame_of c body ++ rest) ≡ body
  unfolding frame_of
  body_of_frame body rest n h =
      let head = to_le 4 (length body + 4) ++ to_le 4 (c.crc32c body) in
      let two : length head ≡ 8 = simp (length-append, length-to_le) refl in
      simp append_assoc
        (rw (← append_assoc) (slice-append head body rest 8 (4 + n) (sym two) (omega arith)))

  crc_of_frame :
      (body rest : List ℕ) → slice 4 8 (frame_of c body ++ rest) ≡ to_le 4 (c.crc32c body)
  unfolding frame_of
  crc_of_frame body rest =
      let size = length-to_le 4 (length body + 4) in
      let crc = length-to_le 4 (c.crc32c body) in
      simp append_assoc
        (slice-append _ (to_le 4 (c.crc32c body)) (body ++ rest) 4 8 (omega arith) (omega arith))

  crc_matches-frame_of :
      (body rest : List ℕ) (n : ℕ)
      → n ≡ length body + 4
      → crc_matches c n (frame_of c body ++ rest) ≡ true
  unfolding crc_matches
  crc_matches-frame_of body rest n h =
      rw
        (
          body_of_frame body rest n h,
          crc_of_frame body rest,
          from_le-to_le 4 (c.crc32c body) (c.crc32c-lt body),
        )
        (==_refl _)

  parse_entry-frame_of :
      (body rest : List ℕ)
      → min_frame_len ≤ length body + 4
      → length body + 4 ≤ max_frame_len
      → parse_entry c (frame_of c body ++ rest)
        ≡ (map_err frame_error (decode body) >>= λ entry. ok (entry, length body + 8))
  unfolding parse_entry
  parse_entry-frame_of body rest lo hi =
      let whole = length-append (frame_of c body) rest in
      let own = length-frame_of body in
      let size : 4 + (length body + 4) ≡ length body + 8 = omega arith in
      rw (
        le→ltb (length (frame_of c body ++ rest)) 8 (omega arith),
        frame_len-frame_of body rest lo hi,
        le→ltb (length (frame_of c body ++ rest)) (4 + (length body + 4)) (omega arith),
        crc_matches-frame_of body rest (length body + 4) refl,
        body_of_frame body rest (length body + 4) refl,
        size,
      )

  -- The reader takes back the frame that `encode` wrote for a storable entry, whatever follows it.
  pub parse_entry-encode :
      (e : Entry) (frame rest : List ℕ)
      → IsStorable e
      → encode c e ≡ ok frame
      → parse_entry c (frame ++ rest) ≡ ok (e, length frame)
  unfolding encode
  parse_entry-encode e frame rest s h =
      let (body, hb, eq) = >>=-eq-ok (encode_body e) _ h in
      let (lo, hi) = length-encode_body e body s.op_id hb in
      ground (
        arith,
        parse_entry-frame_of body rest lo hi,
        decode-encode_body e body s hb,
        length-frame_of body,
      )
