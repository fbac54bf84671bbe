-- ===== src/Grant/Sample.antt =====
-- Stand-ins for the libraries of grant.rs that satisfy what it relies on, for the runs in Examples: a
-- digest that cuts its input to 32 bytes, and a signature that is the signer's key and the digest.
use distr_hnsw.Common.{
  ℕ, zero, suc, ◌+◌, ◌-◌, ◌*◌, ◌/◌, ◌%◌, ◌<◌, ◌≡◌, refl, sym, ap, ◌∙◌, subst, true, false, ◌&&◌,
  ◌||◌, Option, none, some, List, [], ◌∷◌, ◌++◌, map, length, take, drop, length-append,
  length-take, take-append-drop, All, All-append, ltb, leb, ◌==◌, bytes_eq, bytes_eq_refl,
  if◌then◌else◌, Bool-cases, Option-cases, inl, inr, ==_iff, arith,
}
use distr_hnsw.Common.Bytes.{IsByte}
use distr_hnsw.Common.Readings.{All-split}
use distr_hnsw.Grant.Primitives.{Primitives, is_hash, within, all_hex, is_whitespace}

abbrev nibble : ℕ → ℕ
nibble n = if ltb n 10 then 48 + n else 87 + n

abbrev from_nibble : ℕ → ℕ
from_nibble c = if leb c 57 then c - 48 else c - 87

-- two digits for each byte
abbrev pub to_hex : List ℕ → List ℕ
to_hex [] = []
to_hex (b ∷ bs) = nibble (b / 16) ∷ nibble (b % 16) ∷ to_hex bs

abbrev push : ℕ → Option (List ℕ) → Option (List ℕ)
push b none = none
push b (some bs) = some (b ∷ bs)

abbrev pub of_hex : List ℕ → Option (List ℕ)
of_hex [] = some []
of_hex (a ∷ []) = none
of_hex (a ∷ b ∷ rest) = push (16 * from_nibble a + from_nibble b) (of_hex rest)

pub of_hex-to_hex : (bytes : List ℕ) → All IsByte bytes → of_hex (to_hex bytes) ≡ some bytes
of_hex-to_hex [] h = refl
of_hex-to_hex (b ∷ bs) (here, later) = ground (arith, of_hex-to_hex bs later, here)

digits :
    (a b : ℕ)
    → (within 48 57 a || within 97 102 a) ≡ true
    → (within 48 57 b || within 97 102 b) ≡ true
    → (16 * from_nibble a + from_nibble b < 256)
      × (nibble ((16 * from_nibble a + from_nibble b) / 16) ≡ a)
      × (nibble ((16 * from_nibble a + from_nibble b) % 16) ≡ b)
digits a b h k = (ground (arith, h, k), ground (arith, h, k), ground (arith, h, k))

pub of_hex_hash :
    (n : ℕ) (text : List ℕ)
    → length text ≡ n + n
    → all_hex text ≡ true
    → (bytes : List ℕ) × (of_hex text ≡ some bytes)
      × (length bytes ≡ n)
      × All IsByte bytes
      × (to_hex bytes ≡ text)
of_hex_hash zero [] size h = ([], refl, refl, tt, refl)
of_hex_hash zero (a ∷ rest) size h = absurd (omega arith)
of_hex_hash (suc n) [] size h = absurd (omega arith)
of_hex_hash (suc n) (a ∷ []) size h = absurd (omega arith)
of_hex_hash (suc n) (a ∷ b ∷ rest) size h =
    let first : (within 48 57 a || within 97 102 a) ≡ true = ground (arith, h) in
    let second : (within 48 57 b || within 97 102 b) ≡ true = ground (arith, h) in
    let (bytes, at, len, low, back) =
      of_hex_hash n rest (omega (arith, size)) (ground (arith, h)) in
    let (byte, one, two) = digits a b first second in
    (
      (16 * from_nibble a + from_nibble b) ∷ bytes,
      ap (push _) at,
      ap suc len,
      (byte, low),
      ap (λ c. c ∷ nibble ((16 * from_nibble a + from_nibble b) % 16) ∷ to_hex bytes) one
          ∙ ap (λ c. a ∷ c ∷ to_hex bytes) two
          ∙ ap (λ t. a ∷ b ∷ t) back,
    )

pub hash_length : (text : List ℕ) → is_hash text ≡ true → length text ≡ 64
unfolding is_hash
hash_length text h = ground (arith, h)

pub hash_digits : (text : List ℕ) → is_hash text ≡ true → all_hex text ≡ true
unfolding is_hash
hash_digits text h = ground (arith, h)

-- two letters for each byte
abbrev pub to_letters : List ℕ → List ℕ
to_letters [] = []
to_letters (b ∷ bs) = (65 + b / 16) ∷ (65 + b % 16) ∷ to_letters bs

abbrev pub of_letters : List ℕ → Option (List ℕ)
of_letters [] = some []
of_letters (a ∷ []) = none
of_letters (a ∷ b ∷ rest) =
    let later = push (16 * (a - 65) + (b - 65)) (of_letters rest) in
    if within 65 80 a && within 65 80 b then later else none

pub of_letters-to_letters :
    (bytes : List ℕ) → All IsByte bytes → of_letters (to_letters bytes) ≡ some bytes
of_letters-to_letters [] h = refl
of_letters-to_letters (b ∷ bs) (here, later) = ground (arith, of_letters-to_letters bs later, here)

pub of_letters_bytes : (text bytes : List ℕ) → of_letters text ≡ some bytes → All IsByte bytes
of_letters_bytes [] [] h = tt
of_letters_bytes [] (b ∷ bs) h = cc
of_letters_bytes (a ∷ []) bytes h = cc
of_letters_bytes (a ∷ b ∷ rest) bytes h = elim (Bool-cases (within 65 80 a && within 65 80 b)) [
  | inr out ↦ absurd (ground (arith, out, h))
  | inl inside ↦ elim (Option-cases (of_letters rest)) [
    | inl failed ↦ absurd (ground (arith, failed, inside, h))
    | inr (bs, read) ↦
        subst (All IsByte) {x = (16 * (a - 65) + (b - 65)) ∷ bs} (ground (arith, read, inside, h))
          (ground (arith, inside), of_letters_bytes rest bs read)
  ]
]

pub to_letters_visible :
    (bytes : List ℕ) → All IsByte bytes → All (λ c. is_whitespace c ≡ false) (to_letters bytes)
to_letters_visible [] h = tt
to_letters_visible (b ∷ bs) (here, later) =
    (ground (arith, here), (ground arith, to_letters_visible bs later))

abbrev low : ℕ → ℕ
low b = b % 256

abbrev zeros : ℕ → List ℕ
zeros zero = []
zeros (suc n) = 0 ∷ zeros n

-- 32 bytes of a byte string
unfoldable pub digest : List ℕ → List ℕ
digest bytes = take 32 (map low bytes ++ zeros 32)

pub length-digest : (bytes : List ℕ) → length (digest bytes) ≡ 32
unfolding digest
length-digest bytes =
    omega
      (arith, length-take 32 (map low bytes ++ zeros 32), length-append (map low bytes) (zeros 32))

low_bytes : (bytes : List ℕ) → All IsByte (map low bytes)
low_bytes [] = tt
low_bytes (b ∷ bs) = (omega arith, low_bytes bs)

zero_bytes : (n : ℕ) → All IsByte (zeros n)
zero_bytes zero = tt
zero_bytes (suc n) = (omega arith, zero_bytes n)

pub digest_bytes : (bytes : List ℕ) → All IsByte (digest bytes)
unfolding digest
digest_bytes bytes =
    let whole = map low bytes ++ zeros 32 in
    (All-split IsByte (take 32 whole) (drop 32 whole) (
      subst (All IsByte) (sym (take-append-drop 32 whole))
        (All-append IsByte (map low bytes) (zeros 32) (low_bytes bytes) (zero_bytes 32)))).0

abbrev pub sample : Primitives
sample = record {
  hex_encode = to_hex;
  hex_decode = of_hex;
  hex_decode-encode = of_hex-to_hex;
  hex_decode-hash = λ text h. of_hex_hash 32 text (hash_length text h) (hash_digits text h);
  base64_encode = to_letters;
  base64_decode = of_letters;
  base64_decode-encode = of_letters-to_letters;
  base64_bytes = of_letters_bytes;
  base64_visible = to_letters_visible;
  blake3 = digest;
  length-blake3 = length-digest;
  blake3_bytes = digest_bytes;
  public_key = digest;
  is_key = λ key. length key == 32;
  sign = λ seed message. digest seed ++ digest message;
  verifies = λ key message signature. bytes_eq signature (key ++ digest message);
  length-public_key = length-digest;
  is_key-public_key = λ seed. (==_iff _ _).1 (length-digest seed);
  length-sign = λ seed message. omega (
    arith,
    length-append (digest seed) (digest message),
    length-digest seed,
    length-digest message,
  );
  sign_bytes = λ seed message.
      All-append IsByte (digest seed) (digest message) (digest_bytes seed) (digest_bytes message);
  verifies-sign = λ seed message. bytes_eq_refl (digest seed ++ digest message);
}
