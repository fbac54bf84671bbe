-- ===== src/Format/Envelope.antt =====
-- What is sealed is opened again.
use distr_hnsw.Common.{
  ℕ, ◌+◌, ◌-◌, ◌^◌, ◌≤◌, ◌<◌, ◌≡◌, refl, sym, ap, ◌∙◌, not, List, ◌++◌, length, length-append, take,
  take-append, le→ltb, bytes_eq_refl, ok, arith,
}
use distr_hnsw.Common.Bytes.{to_le}
use distr_hnsw.Common.Reader.{
  Reads, Reads-bind, Reads-skip, Reads-last, Reads-pure, Reads-uint, Reads-take, Reads-refuse,
  Reads-finish,
}
use distr_hnsw.Grant.Types.{Bytes}
use distr_hnsw.Format.Crypto.{Aead, key_len, nonce_len, WrappedKey}
use distr_hnsw.Format.Chunks.{unwrap_key-wrap_key}
use distr_hnsw.Format.Types.{max_field_len}
use distr_hnsw.Format.Encode.{Drawn, push_bytes, clear_header, seal}
use distr_hnsw.Format.Decode.{field, header_reader, sealed_reader}
use distr_hnsw.Format.Objects.{open_object}

pub record IsDrawn (d : Drawn) : Type 0 where
  pub key : length d.key ≡ key_len
  pub key_nonce : length d.key_nonce ≡ nonce_len
  pub payload_nonce : length d.payload_nonce ≡ nonce_len

pub push_bytes-eq :
    (bytes : List ℕ)
    → length bytes ≤ max_field_len
    → push_bytes bytes ≡ ok (to_le 4 (length bytes) ++ bytes)
unfolding push_bytes
push_bytes-eq bytes h = rw (le→ltb max_field_len (length bytes) h) refl

pub Reads-field :
    (bytes : List ℕ)
    → length bytes ≤ max_field_len
    → Reads field bytes (to_le 4 (length bytes) ++ bytes)
unfolding field
Reads-field bytes h = Reads-bind _ (Reads-uint _ 4 (length bytes) (omega (arith, h))) (
    Reads-skip _ (Reads-refuse _ _ (le→ltb max_field_len (length bytes) h))
      (Reads-take _ _ bytes refl))

Reads-header :
    (magic : List ℕ) (file_id : Bytes) (generation : ℕ)
    → length magic ≡ 4
    → length file_id ≡ 16
    → generation < 2 ^ 64
    → Reads (header_reader magic) (file_id, generation) (clear_header magic file_id generation)
unfolding header_reader clear_header
Reads-header magic file_id generation size id_size low =
    Reads-bind _ (Reads-take _ 4 magic (sym size)) (
      Reads-skip _ (Reads-refuse _ _ (ap not (bytes_eq_refl magic))) (
        Reads-bind _ (Reads-uint _ 2 1 (omega arith)) (
          Reads-skip _ (Reads-refuse _ _ refl) (
            Reads-bind _ (Reads-take _ 16 file_id (sym id_size))
              (Reads-last _ (Reads-uint _ 8 generation low) (Reads-pure (file_id, generation)))))))

Reads-sealed :
    (w : WrappedKey) (nonce encrypted : List ℕ)
    → length w.nonce ≡ nonce_len
    → length w.ciphertext ≤ max_field_len
    → length nonce ≡ nonce_len
    → length encrypted ≤ max_field_len
    → Reads sealed_reader
        (record { wrapped = w; payload_nonce = nonce; payload = encrypted })
        (w.nonce
          ++ ((to_le 4 (length w.ciphertext) ++ w.ciphertext)
              ++ (nonce ++ (to_le 4 (length encrypted) ++ encrypted))))
unfolding sealed_reader
Reads-sealed w nonce encrypted a b c d = Reads-bind _ (Reads-take _ 24 w.nonce (sym a)) (
    Reads-bind _ (Reads-field w.ciphertext b) (
      Reads-bind _ (Reads-take _ 24 nonce (sym c))
        (Reads-last _ (Reads-field encrypted d) (Reads-pure _))))

module _ (a : Aead) where
  -- A payload of at most 16 MiB less 16 bytes is sealed, and opened with the same master key, purpose
  -- and magic to the same file, generation and payload.
  pub open_object-seal :
      (magic purpose : List ℕ) (master file_id : Bytes) (generation : ℕ) (d : Drawn)
      (payload : List ℕ)
      → length magic ≡ 4
      → length file_id ≡ 16
      → generation < 2 ^ 64
      → IsDrawn d
      → length payload + 16 ≤ max_field_len
      → (bytes : List ℕ) × (seal a magic purpose master file_id generation d (ok payload)
          ≡ ok bytes)
        × (open_object a magic purpose master bytes
            ≡ ok (record { file_id = file_id; generation = generation; plaintext = payload }))
  unfolding seal open_object
  open_object-seal magic purpose master file_id generation d payload size id_size low drawn fits =
      let header = clear_header magic file_id generation in
      let (w, wrapped, same_nonce, w_size, unwrapped) =
        unwrap_key-wrap_key a d.key_nonce master purpose file_id generation d.key drawn.key in
      let (c, encrypted) =
        a.encrypt_total d.key d.payload_nonce header payload (omega (arith, fits)) in
      let c_fits : length c ≤ max_field_len =
        omega (arith, fits, a.length-encrypt d.key d.payload_nonce header payload c encrypted) in
      let w_fits : length w.ciphertext ≤ max_field_len = omega (arith, w_size) in
      let rest =
        w.nonce
        ++ ((to_le 4 (length w.ciphertext) ++ w.ciphertext)
            ++ (d.payload_nonce ++ (to_le 4 (length c) ++ c))) in
      let nonce_size : length w.nonce ≡ nonce_len = ap length same_nonce ∙ drawn.key_nonce in
      let cut : take (length (header ++ rest) - length rest) (header ++ rest) ≡ header =
        take-append header rest _ (omega (arith, length-append header rest)) in
      (
        header ++ rest,
        rw (wrapped, encrypted, push_bytes-eq w.ciphertext w_fits, push_bytes-eq c c_fits) refl,
        rw ((Reads-header magic file_id generation size id_size low).at rest) (
            rw
              (Reads-finish _
                (Reads-sealed w d.payload_nonce c nonce_size w_fits drawn.payload_nonce c_fits))
              (rw
                (unwrapped, cut, a.decrypt-encrypt d.key d.payload_nonce header payload c encrypted)
                refl)),
      )
