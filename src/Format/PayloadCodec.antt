-- ===== src/Format/PayloadCodec.antt =====
-- A manifest's payload: what `encode_payload` writes, `decode_payload` reads back.
use distr_hnsw.Common.{
  ℕ, ◌+◌, ◌*◌, ◌-◌, ◌/◌, ◌^◌, ◌≤◌, ◌<◌, ◌≡◌, refl, sym, ap, ◌∙◌, true, not, List, [], ◌∷◌, ◌++◌,
  length, length-append, le→ltb, ==_iff, ok, arith,
}
use distr_hnsw.Common.Bytes.{to_le, length-to_le}
use distr_hnsw.Common.Reader.{
  Reads, Reads-bind, Reads-skip, Reads-last, Reads-pure, Reads-uint, Reads-take, Reads-refuse,
  Reads-finish,
}
use distr_hnsw.Grant.Primitives.{Primitives, is_hash, is_utf8}
use distr_hnsw.Format.Crypto.{nonce_len}
use distr_hnsw.Format.Types.{ChunkRecord, ManifestPayload, max_field_len}
use distr_hnsw.Format.Encode.{chunk_bytes, chunks_bytes, encode_payload}
use distr_hnsw.Format.Decode.{chunk_reader, chunks_reader, payload_reader, decode_payload}
use distr_hnsw.Format.Envelope.{push_bytes-eq, Reads-field}

pub record IsChunk (expected : ℕ) (c : ChunkRecord) : Type 0 where
  pub ordinal : c.ordinal ≡ expected
  pub plaintext_len : c.plaintext_len < 2 ^ 32
  pub nonce : length c.nonce ≡ nonce_len
  pub hash : is_hash c.ciphertext_hash ≡ true
  pub ciphertext_len : c.ciphertext_len < 2 ^ 32

-- The chunks in order, numbered from `i`.
abbrev pub AreChunks : ℕ → List ChunkRecord → Type 0
AreChunks i [] = Unit
AreChunks i (c ∷ cs) = IsChunk i c × AreChunks (i + 1) cs

-- The ranges of the fields' types, and the space that they leave in the 16 MiB of a sealed payload.
pub record IsPayload (p : ManifestPayload) : Type 0 where
  pub name : is_utf8 p.name ≡ true
  pub plaintext_len : p.plaintext_len < 2 ^ 64
  pub plaintext_hash : length p.plaintext_hash ≡ 32
  pub key_nonce : length p.content_key.nonce ≡ nonce_len
  pub chunks : AreChunks 0 p.chunks
  pub fits :
      length p.name + length p.content_key.ciphertext + 68 * length p.chunks + 92 ≤ max_field_len

module _ (x : Primitives) where
  -- The bytes of a chunk, and that they are read as the chunk.
  pub record Chunked (i : ℕ) (c : ChunkRecord) : Type 0 where
    pub bytes : List ℕ
    pub written : chunk_bytes x c ≡ ok bytes
    pub size : length bytes ≡ 68
    pub read : Reads (chunk_reader x i) c bytes

  chunk_Chunked : (i : ℕ) (c : ChunkRecord) → i < 2 ^ 32 → IsChunk i c → Chunked i c
  unfolding chunk_bytes chunk_reader
  chunk_Chunked i c low is =
      let (raw, at, raw_size, _, back) = x.hex_decode-hash c.ciphertext_hash is.hash in
      record {
        bytes =
            to_le 4 c.ordinal
            ++ (to_le 4 c.plaintext_len ++ (c.nonce ++ (raw ++ to_le 4 c.ciphertext_len)));
        written = rw at refl;
        size = omega (
          arith,
          length-append (to_le 4 c.ordinal)
              (to_le 4 c.plaintext_len ++ (c.nonce ++ (raw ++ to_le 4 c.ciphertext_len))),
          length-append (to_le 4 c.plaintext_len) (c.nonce ++ (raw ++ to_le 4 c.ciphertext_len)),
          length-append c.nonce (raw ++ to_le 4 c.ciphertext_len),
          length-append raw (to_le 4 c.ciphertext_len),
          length-to_le 4 c.ordinal,
          length-to_le 4 c.plaintext_len,
          length-to_le 4 c.ciphertext_len,
          is.nonce,
          raw_size,
        );
        read = Reads-bind _ (Reads-uint _ 4 c.ordinal (omega (arith, is.ordinal))) (
            Reads-skip _ (Reads-refuse _ _ (ap not ((==_iff c.ordinal i).1 is.ordinal))) (
              Reads-bind _ (Reads-uint _ 4 c.plaintext_len is.plaintext_len) (
                Reads-bind _ (Reads-take _ 24 c.nonce (sym is.nonce)) (
                  Reads-bind _ (Reads-take _ 32 raw (sym raw_size)) (
                    Reads-skip _ (Reads-refuse _ _ (ap not (ap is_hash back ∙ is.hash))) (
                      Reads-last _ (Reads-uint _ 4 c.ciphertext_len is.ciphertext_len)
                        (rw back (Reads-pure c))))))));
      }

  pub record AllChunked (i : ℕ) (cs : List ChunkRecord) : Type 0 where
    pub bytes : List ℕ
    pub written : chunks_bytes x cs ≡ ok bytes
    pub size : length bytes ≡ 68 * length cs
    pub read : Reads (chunks_reader x (length cs) i) cs bytes

  chunks_AllChunked :
      (i : ℕ) (cs : List ChunkRecord) → i + length cs ≤ 2 ^ 32 → AreChunks i cs → AllChunked i cs
  unfolding chunks_bytes chunks_reader
  chunks_AllChunked i [] low are = record {
    bytes = [];
    written = refl;
    size = refl;
    read = Reads-pure [];
  }
  chunks_AllChunked i (c ∷ cs) low (here, later) =
      let one = chunk_Chunked i c (omega (arith, low)) here in
      let rest = chunks_AllChunked (i + 1) cs (omega (arith, low)) later in
      record {
        bytes = one.bytes ++ rest.bytes;
        written = rw (one.written, rest.written) refl;
        size = omega (arith, length-append one.bytes rest.bytes, one.size, rest.size);
        read = Reads-bind _ one.read (Reads-last _ rest.read (Reads-pure (c ∷ cs)));
      }

  -- A payload whose fields are in the ranges of their types, with a UTF-8 name and its chunks numbered
  -- from 0, and which leaves 16 bytes of 16 MiB, is written and read back.
  pub decode_payload-encode_payload :
      (p : ManifestPayload)
      → IsPayload p
      → (bytes : List ℕ) × (encode_payload x p ≡ ok bytes)
        × (length bytes + 16 ≤ max_field_len)
        × (decode_payload x bytes ≡ ok p)
  unfolding encode_payload decode_payload payload_reader
  decode_payload-encode_payload p i =
      let n = length p.chunks in
      let ct = p.content_key.ciphertext in
      let name_fits : length p.name ≤ max_field_len = omega (arith, i.fits) in
      let ct_fits : length ct ≤ max_field_len = omega (arith, i.fits) in
      let all = chunks_AllChunked 0 p.chunks (omega (arith, i.fits)) i.chunks in
      let name = to_le 4 (length p.name) ++ p.name in
      let ciphertext = to_le 4 (length ct) ++ ct in
      let tail = to_le 4 n ++ all.bytes in
      (
        name
            ++ (to_le 8 p.plaintext_len
                ++ (p.plaintext_hash ++ (p.content_key.nonce ++ (ciphertext ++ tail)))),
        rw (push_bytes-eq p.name name_fits, push_bytes-eq ct ct_fits)
            (rw (le→ltb (2 ^ 32 - 1) n (omega (arith, i.fits))) (rw (all.written) refl)),
        omega (
          arith,
          i.fits,
          length-append name (
              to_le 8 p.plaintext_len
              ++ (p.plaintext_hash ++ (p.content_key.nonce ++ (ciphertext ++ tail)))),
          length-append (to_le 8 p.plaintext_len)
              (p.plaintext_hash ++ (p.content_key.nonce ++ (ciphertext ++ tail))),
          length-append p.plaintext_hash (p.content_key.nonce ++ (ciphertext ++ tail)),
          length-append p.content_key.nonce (ciphertext ++ tail),
          length-append ciphertext tail,
          length-append (to_le 4 n) all.bytes,
          length-append (to_le 4 (length p.name)) p.name,
          length-append (to_le 4 (length ct)) ct,
          length-to_le 4 (length p.name),
          length-to_le 4 (length ct),
          length-to_le 4 n,
          length-to_le 8 p.plaintext_len,
          all.size,
          i.plaintext_hash,
          i.key_nonce,
        ),
        Reads-finish _ (
            Reads-bind _ (Reads-field p.name name_fits) (
              Reads-skip _ (Reads-refuse _ _ (ap not i.name)) (
                Reads-bind _ (Reads-uint _ 8 p.plaintext_len i.plaintext_len) (
                  Reads-bind _ (Reads-take _ 32 p.plaintext_hash (sym i.plaintext_hash)) (
                    Reads-bind _ (Reads-take _ 24 p.content_key.nonce (sym i.key_nonce)) (
                      Reads-bind _ (Reads-field ct ct_fits) (
                        Reads-bind _ (Reads-uint _ 4 n (omega (arith, i.fits))) (
                          Reads-skip _
                            (Reads-refuse _ _
                              (le→ltb (max_field_len / 64) n (omega (arith, i.fits))))
                            (Reads-last _ all.read (Reads-pure p)))))))))),
      )
