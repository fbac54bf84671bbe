-- ===== src/Lib.antt =====
-- distr-hnsw: the durable core of the vector index's partition, and the store's grants, formats and trust.
--
-- The repository is an object store with a vector index. A partition of the index, in
-- crates/distr-hnsw-index, is a state machine over a write-ahead log: a write is checked, appended to
-- the log, synced, applied to the memory, and only then acknowledged; a start loads the newest
-- snapshot and replays the log behind it. This library models that path,
-- and of the object store the signed grants, the encrypted objects, the trust of agents and the scopes
-- of API keys.
--
-- Common: numbers, lists, results, byte strings and byte maps. A byte string is a list of numbers, an
--   `f32` is its bit pattern, and a `u64` stands as a natural number with its bound as a hypothesis
--   where the bound matters, and wraps where the readers of the log count and where a key's index is
--   cast. Common.Reader is the decoder's cursor (`Reader` of wal.rs, grant.rs and format.rs), with rules in
--   Common.Readings, Common.Yields and Common.Takes for what a decoder that succeeds has read, and
--   Common.Int is the `i64` arithmetic.
-- Wal: crates/distr-hnsw-index/src/wal.rs.
--   Wal.Entry, Wal.Decode: `Entry::encode` and `Entry::decode`. The CRC is the field `crc32c` of a
--     record `Checksum`, any function with 32-bit results.
--   Wal.Frame: `frame_len`, `parse_entry`, `next_valid_frame`.
--   Wal.Segment: `encode_header`, `decode_header`, `read_segment`, `truncate_torn_tail`. The read
--     loop walks the bytes that are left one by one and counts those of a read frame that are still
--     to be passed over, so it ends with the bytes and needs no fuel.
--   Wal.Writer: `WalWriter` with `append_unsynced`, `sync`, `rotate`, `poison` and `create_segment`.
--     The files are in the state. What the file system does in a call is the argument `Outcome`, so a
--     theorem for all outcomes covers every failure that the source handles.
--   Wal.Open: `WalWriter::open`, over the segments that `list_segments` gives.
--   The other files of Wal are proofs: EntryCodec, FrameWritten, FrameRead, SegmentHeader,
--     SegmentRead, SegmentSound, SegmentRepair, Recovery, WriterLaws, WriterRuns, Durability.
-- Partition: crates/distr-hnsw-index/src/partition.rs.
--   Partition.Window: `IdempotencyWindow`; `record` is `remember` here.
--   Partition.Index: what `Partition` uses of `Hnsw`, as a record of operations and laws, which
--     Hnsw.Instance fills.
--   Partition.State: the memory of `Partition`, and `apply`, which the live path and recovery share.
--   Partition.Mutate: `upsert`, `delete`, `mutate`, `sync_and_apply`, with the failure points.
--     `normalize` and the memory budget's test, both in floating point, are parameters.
--   Partition.Replay: the loop of `recover` over the entries of a segment.
--   Partition.Compaction: `capture_compaction`, `CompactionInput::build`, and the state that
--     `finish_compaction` stages; Partition.CatchUp: its loop over the log, the segments taken as one
--     sequence of entries, up to the snapshot and the swap.
--   The other files of Partition are proofs: WindowLaws, WindowRestore, Consistent (the invariant),
--     Upsert, Delete, Apply, View (what a client sees), Agree (memory and log), Retry, CaptureLaws,
--     Compacted.
-- Hnsw: crates/distr-hnsw-index/src/hnsw.rs, the graph over the rows.
--   Hnsw.Graph: `Hnsw` with `tombstone`, `level_for`, `neighbours`, `set_neighbours`. The words of masks
--     are the list of their bits. Distances, the normal form of a row and the geometric draw of a level
--     are floating point and the record `Kernel`, any functions.
--   Hnsw.Linking: `select_heuristic`, `link_back`, `greedy_closest`, `search_layer` and the links of
--     `insert`. The two loops have one more than the number of slots as fuel.
--   Hnsw.Index: `insert` (`insert_vector` here), whose panic at 2^32 slots is an error of its own, and
--     `build_parallel`, where the links that its threads and the repair of orphans leave are an argument.
--   Hnsw.Laws, Hnsw.Instance and Hnsw.Bounds are proofs; Hnsw.Sample is a small index for the runs.
-- Oracle: crates/distr-hnsw-index/src/oracle.rs. Oracle.TopK: `TopK` and `search`, with the distance
--   function as a parameter and NaN as a distance of its own; Oracle.Exact and Oracle.Best: the proofs.
-- Grant: crates/distr-hnsw/src/grant.rs, the signed permissions that a portal gives to clients and an
--   agent checks, and the sets of the portals' keys.
--   Grant.Primitives: what grant.rs takes of other libraries, as a record of operations and laws:
--     BLAKE3, Ed25519, hex and base64. A random nonce is an argument.
--   Grant.Types, Grant.Body: `Grant` with `encode_body` and `decode_body`.
--   Grant.Keys, Grant.Signed: `KeySet` (its `encode_body` and `decode_body` are `encode_keys` and
--     `decode_keys` here), `PortalSigner`, `SignedKeySet` (`KeySet::sign` is `sign_set`).
--   Grant.Verify: `issue`, `sign_grant`, `verify`, `token_from_header`. Times are integers in the `i64`
--     range; `issue` adds with wrap-around, as a release build does.
--   The other files of Grant are proofs: BodyCodec, Canonical, Decoded, KeysCodec, Rotation, Admitted,
--     Accepted, Issued. Grant.Sample fills the record of libraries for the runs.
-- Format: crates/distr-hnsw/src/crypto.rs and format.rs, the encrypted objects that agents store.
--   Format.Crypto: `wrap_key`, `unwrap_key`, `encrypt_chunk`, `decrypt_chunk`. The cipher is the record
--     `Aead` of operations and laws. Random keys and nonces are arguments.
--   Format.Types, Format.Encode: `encode_payload`, `encode_manifest`, `encode_deletion_marker`; `seal` is
--     what the last two share. Format.Decode, Format.Objects: the decoders; `open_object` is shared.
--   The other files of Format are proofs: Chunks, Envelope, PayloadCodec, RoundTrip, Sound, Kinds.
--     Format.Sample is a stand-in for the cipher.
-- Trust: crates/distr-hnsw/src/trust.rs, which key set an agent trusts, over the key sets of Grant.
--   Trust.Store: `TrustStore` with its three files in the state: `open` is `open_store` here,
--     `arm_join_token`, `reset_and_arm`, `join`, `update`. What the file system does in a change of a file
--     is the argument `Outcome`. Reading a file succeeds, and a text file stands as its text.
--   The other files of Trust are proofs: Parsed, Runs (a run as a relation of steps), Join.
-- Access: crates/distr-hnsw/src/auth.rs, the scopes of API keys. Access.Scopes: `CollectionScope` with
--   `from_str` and its text, and `Scopes` with `new` (`new_scopes` here), `parse`, its text and `allows`.
--   Access.Order and Access.RoundTrip are proofs.
-- The Examples of each part hold runs on small inputs.
--
-- Not modelled: naming and listing the segments, snapshots, the searches of a partition and of the
-- graph; the file of the master key, session tokens and the secrets of API keys, whose code is the
-- random source's and the file system's; the metadata store, lifecycle and backup, most of which is SQL and calls of services; the network
-- services, the command line, the benchmarks and the prototype.
pub mod Common
pub mod Wal
pub mod Partition
pub mod Hnsw
pub mod Oracle
pub mod Grant
pub mod Format
pub mod Trust
pub mod Access
