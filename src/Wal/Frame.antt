-- ===== src/Wal/Frame.antt =====
-- wal.rs: `frame_len`, `parse_entry`, `next_valid_frame`.
use distr_hnsw.Common.{
  ℕ, zero, suc, ◌+◌, ◌-◌, String, Bool, false, not, ◌&&◌, Option, none, some, List, length, take,
  drop, slice, ltb, leb, ◌==◌, if◌then◌else◌, Result, ok, ◌>>=◌, ◌>>◌, refuse, ok_or, map_err,
}
use distr_hnsw.Common.Bytes.{from_le}
use distr_hnsw.Wal.Entry.{WalError, malformed, Entry, Checksum, min_frame_len, max_frame_len}
use distr_hnsw.Wal.Decode.{decode}

-- `unreadable` is a torn tail if nothing valid follows; `corrupt` never is.
pub data FrameError : Type 0 where
  unreadable corrupt : String → FrameError

unfoldable pub frame_len : List ℕ → Option ℕ
frame_len bytes =
    if ltb (length bytes) 4
    then none
    else let len = from_le (take 4 bytes) in
      if leb min_frame_len len && leb len max_frame_len then some len else none

abbrev pub frame_error : WalError → FrameError
frame_error (malformed reason) = corrupt reason
frame_error _ = corrupt "entry body"

module _ (c : Checksum) where
  -- whether the checksum field matches the body of a frame with the length field `len`
  unfoldable pub crc_matches : ℕ → List ℕ → Bool
  crc_matches len bytes = c.crc32c (slice 8 (4 + len) bytes) == from_le (slice 4 8 bytes)

  -- The entry at the start of `bytes`, and the length of its frame.
  unfoldable pub parse_entry : List ℕ → Result FrameError (Entry × ℕ)
  parse_entry bytes = do
    refuse (ltb (length bytes) 8) (unreadable "short frame")
    len ← ok_or (frame_len bytes) (unreadable "frame length out of range")
    refuse (ltb (length bytes) (4 + len)) (unreadable "frame runs past the end of the segment")
    refuse (not (crc_matches len bytes)) (unreadable "crc mismatch")
    entry ← map_err frame_error (decode (slice 8 (4 + len) bytes))
    ok (entry, 4 + len)

  -- the test of `next_valid_frame` at one offset
  unfoldable pub has_frame : List ℕ → Bool
  has_frame rest = elim (frame_len rest) [
    | none ↦ false
    | some len ↦ leb (4 + len) (length rest) && crc_matches len rest
  ]

  -- `find` over `count` offsets from `at` on
  unfoldable pub find_frame : List ℕ → ℕ → ℕ → Option ℕ
  find_frame bytes zero at = none
  find_frame bytes (suc count) at =
      let later = find_frame bytes count (at + 1) in
      if has_frame (drop at bytes) then some at else later

  -- The offsets are `from..len - 7`, where the difference saturates.
  unfoldable pub next_valid_frame : List ℕ → ℕ → Option ℕ
  next_valid_frame bytes from = find_frame bytes (length bytes - 7 - from) from
