-- ===== src/Wal/EntryCodec.antt =====
-- What `Entry::encode` writes, and that `Entry::decode` reads it back.
use distr_hnsw.Common.{
  ℕ, ◌+◌, ◌*◌, ◌^◌, ◌≤◌, ◌<◌, ◌≡◌, refl, sym, ap, false, List, [], ◌∷◌, ◌++◌, length, All, ltb,
  ◌==◌, ok, length-append, arith,
}
use distr_hnsw.Common.Bytes.{to_le, length-to_le, from_le-to_le}
use distr_hnsw.Common.Reader.{
  uint, take_bytes, pure, ◌>>=◌, ◌>>◌, Reads, Reads-bind, Reads-skip, Reads-last, Reads-pure,
  Reads-uint, Reads-take, Reads-refuse, Reads-finish,
}
use distr_hnsw.Wal.Entry.{
  Operation, upsert, delete, Entry, max_key_len, max_payload_len, max_dims, min_frame_len,
  max_frame_len, is_empty, bad_key, key_checked, vector_bytes, chunks_of_4, upsert_bytes,
  delete_bytes, encode_operation, encode_body, truncated,
}
use distr_hnsw.Wal.Decode.{upsert_reader, operation_reader, entry_reader, decode}

abbrev pub IsWord : ℕ → Type 0
IsWord v = v < 2 ^ 32

abbrev pub HasWords : Operation → Type 0
HasWords (upsert key payload vector) = All IsWord vector
HasWords (delete key) = Unit

-- The ranges of the fields' Rust types: `u64`, `[u8; 16]`, and 32-bit patterns.
pub record IsStorable (e : Entry) : Type 0 where
  pub seq : e.seq < 2 ^ 64
  pub op_id : length e.op_id ≡ 16
  pub words : HasWords e.operation

pub length-vector_bytes : (vs : List ℕ) → length (vector_bytes vs) ≡ length vs * 4
unfolding vector_bytes
length-vector_bytes [] = omega arith
length-vector_bytes (v ∷ vs) =
    omega
      (arith, length-append (to_le 4 v) (vector_bytes vs), length-to_le 4 v, length-vector_bytes vs)

chunks_of_4-to_le :
    (v : ℕ) (rest : List ℕ) → v < 2 ^ 32 → chunks_of_4 (to_le 4 v ++ rest) ≡ v ∷ chunks_of_4 rest
unfolding to_le chunks_of_4
chunks_of_4-to_le v rest h = ap (λ t. t ∷ chunks_of_4 rest) (from_le-to_le 4 v h)

chunks_of_4-vector_bytes : (vs : List ℕ) → All IsWord vs → chunks_of_4 (vector_bytes vs) ≡ vs
unfolding vector_bytes
chunks_of_4-vector_bytes [] h = unfold chunks_of_4 in refl
chunks_of_4-vector_bytes (v ∷ vs) (hv, hs) =
    rw (chunks_of_4-to_le v (vector_bytes vs) hv) (ap (λ t. v ∷ t) (chunks_of_4-vector_bytes vs hs))

-- The checks that a successful `encode` has passed.
upsert_accepted :
    (key payload vector bytes : List ℕ)
    → encode_operation (upsert key payload vector) ≡ ok bytes
    → (bad_key key ≡ false)
      × (length key ≤ max_key_len)
      × (1 ≤ length key)
      × (length payload ≤ max_payload_len)
      × (is_empty vector ≡ false)
      × (length vector ≤ max_dims)
      × (upsert_bytes key payload vector ≡ bytes)
unfolding encode_operation
upsert_accepted key payload vector bytes h = ground arith

delete_accepted :
    (key bytes : List ℕ)
    → encode_operation (delete key) ≡ ok bytes
    → (bad_key key ≡ false)
      × (length key ≤ max_key_len)
      × (1 ≤ length key)
      × (delete_bytes key ≡ bytes)
unfolding encode_operation
delete_accepted key bytes h = ground arith

zero_test : (v : List ℕ) → is_empty v ≡ false → (length v == 0) ≡ false
zero_test [] h = cc
zero_test (x ∷ xs) h = ground arith

payload_fits : (n : ℕ) → n ≤ max_payload_len → (ltb max_payload_len n ≡ false) × (n < 256 ^ 4)
payload_fits n h = ground arith

dims_fit : (n : ℕ) → n ≤ max_dims → (ltb max_dims n ≡ false) × (n < 256 ^ 4)
dims_fit n h = ground arith

Reads-upsert_reader :
    (key payload vector : List ℕ)
    → length payload ≤ max_payload_len
    → is_empty vector ≡ false
    → length vector ≤ max_dims
    → All IsWord vector
    → Reads
        (upsert_reader key)
        (upsert key payload vector)
        (to_le 4 (length payload) ++ (payload ++ (to_le 4 (length vector) ++ vector_bytes vector)))
unfolding upsert_reader
Reads-upsert_reader key payload vector hp he hv hw =
    let (p_test, p_lt) = payload_fits (length payload) hp in
    let (d_test, d_lt) = dims_fit (length vector) hv in
    Reads-bind _ (Reads-uint _ 4 (length payload) p_lt) (
      Reads-skip _ (Reads-refuse _ _ p_test) (
        Reads-bind _ (Reads-take _ _ payload refl) (
          Reads-bind _ (Reads-uint _ 4 (length vector) d_lt) (
            Reads-skip _ (Reads-refuse _ _ (rw (zero_test vector he) d_test)) (
              Reads-last _ (Reads-take _ _ (vector_bytes vector) (sym (length-vector_bytes vector)))
                (rw (chunks_of_4-vector_bytes vector hw) (Reads-pure _)))))))

Reads-key_checked : (key : List ℕ) → bad_key key ≡ false → Reads (key_checked key) tt []
unfolding key_checked
Reads-key_checked key h = record { at = λ rest. rw h }

-- The key, its length, and the code that stands before them, with the operation behind.
Reads-operation :
    (o : Operation) (bytes : List ℕ)
    → HasWords o
    → encode_operation o ≡ ok bytes
    → (f : Operation → Entry)
    → Reads
        (do
          op ← uint truncated 1
          key_len ← uint truncated 2
          key ← take_bytes truncated key_len
          key_checked key
          operation ← operation_reader op key
          pure (f operation))
        (f o)
        bytes
unfolding operation_reader
Reads-operation (upsert key payload vector) bytes hw h f =
    let (good, short, _, hp, he, hv, e) = upsert_accepted key payload vector bytes h in
    rw (← e) (
      Reads-bind _ (Reads-uint _ 1 1 (omega arith)) (
        Reads-bind _ (Reads-uint _ 2 (length key) (omega arith)) (
          Reads-bind _ (Reads-take _ _ key refl) (
            Reads-skip _ (Reads-key_checked key good)
              (Reads-last _ (Reads-upsert_reader key payload vector hp he hv hw) (Reads-pure _))))))
Reads-operation (delete key) bytes hw h f =
    let (good, short, _, e) = delete_accepted key bytes h in
    rw (← e) (
      Reads-bind _ (Reads-uint _ 1 2 (omega arith)) (
        Reads-bind _ (Reads-uint _ 2 (length key) (omega arith)) (
          Reads-last _ (Reads-take _ _ key refl) (
            Reads-skip _ (Reads-key_checked key good)
              (Reads-skip _ (Reads-pure (delete key)) (Reads-pure _))))))

encode_body_parts :
    (e : Entry) (body : List ℕ)
    → encode_body e ≡ ok body
    → (bytes : List ℕ) × (encode_operation e.operation ≡ ok bytes)
      × (to_le 8 e.seq ++ (e.op_id ++ bytes) ≡ body)
unfolding encode_body
encode_body_parts e body h = ground arith

-- `decode` returns every storable entry from the body that `encode` wrote for it.
pub decode-encode_body :
    (e : Entry) (body : List ℕ) → IsStorable e → encode_body e ≡ ok body → decode body ≡ ok e
unfolding decode entry_reader
decode-encode_body e body s h =
    let (bytes, ho, eq) = encode_body_parts e body h in
    rw (← eq) (
      Reads-finish _ (
        Reads-bind _ (Reads-uint _ 8 e.seq s.seq) (
          Reads-bind _ (Reads-take _ 16 e.op_id (sym s.op_id))
            (Reads-operation e.operation bytes s.words ho _))))

length-upsert_bytes :
    (key payload vector : List ℕ)
    → length (upsert_bytes key payload vector)
      ≡ 1 + 2 + length key + 4 + length payload + 4 + length vector * 4
length-upsert_bytes key payload vector =
    simp (length-append, length-to_le, length-vector_bytes) (omega arith)

length-delete_bytes : (key : List ℕ) → length (delete_bytes key) ≡ 1 + 2 + length key
length-delete_bytes key = simp (length-append, length-to_le) (omega arith)

length-encode_operation :
    (o : Operation) (bytes : List ℕ)
    → encode_operation o ≡ ok bytes
    → (4 ≤ length bytes) × (length bytes + 28 ≤ max_frame_len)
length-encode_operation (upsert key payload vector) bytes h =
    let (_, short, long, hp, _, hv, e) = upsert_accepted key payload vector bytes h in
    omega (arith, length-upsert_bytes key payload vector, ap length e)
length-encode_operation (delete key) bytes h =
    let (_, short, long, e) = delete_accepted key bytes h in
    omega (arith, length-delete_bytes key, ap length e)

-- The length field that `encode` writes lies in the range that the reader accepts.
pub length-encode_body :
    (e : Entry) (body : List ℕ)
    → length e.op_id ≡ 16
    → encode_body e ≡ ok body
    → (min_frame_len ≤ length body + 4) × (length body + 4 ≤ max_frame_len)
length-encode_body e body hid h =
    let (bytes, ho, eq) = encode_body_parts e body h in
    let whole = length-append (to_le 8 e.seq) (e.op_id ++ bytes) in
    omega (
      arith,
      ap length eq,
      whole,
      length-append e.op_id bytes,
      length-to_le 8 e.seq,
      length-encode_operation e.operation bytes ho,
    )
