-- ===== src/Grant/Primitives.antt =====
-- What grant.rs takes from other libraries: BLAKE3, Ed25519, hex and base64, with what it relies on;
-- and of the standard library, UTF-8 checking and `str::trim`. A text is the list of its scalar
-- values, except for agent ids, which stand as their UTF-8 bytes.
use distr_hnsw.Common.{
  ℕ, ◌-◌, ◌<◌, ◌≡◌, Bool, true, false, ◌&&◌, ◌||◌, Option, none, some, List, [], ◌∷◌, length, All,
  leb, ◌==◌, if◌then◌else◌,
}

abbrev pub within : ℕ → ℕ → ℕ → Bool
within lo hi b = leb lo b && leb b hi

-- `ObjectHash::parse`: 64 lowercase hexadecimal digits.
abbrev pub all_hex : List ℕ → Bool
all_hex [] = true
all_hex (b ∷ bs) = (within 48 57 b || within 97 102 b) && all_hex bs

unfoldable pub is_hash : List ℕ → Bool
is_hash text = (length text == 64) && all_hex text

-- `char::is_whitespace`
abbrev pub is_whitespace : ℕ → Bool
is_whitespace c =
    within 9 13 c
    || (c == 32)
    || (c == 133)
    || (c == 160)
    || (c == 5760)
    || within 8192 8202 c
    || within 8232 8233 c
    || (c == 8239)
    || (c == 8287)
    || (c == 12288)

-- `str::trim`
unfoldable pub trim_start : List ℕ → List ℕ
trim_start [] = []
trim_start (c ∷ cs) = let rest = trim_start cs in if is_whitespace c then rest else c ∷ cs

unfoldable pub trim_end : List ℕ → List ℕ
trim_end [] = []
trim_end (c ∷ cs) = elim (trim_end cs) [
  | [] ↦ if is_whitespace c then [] else c ∷ []
  | d ∷ ds ↦ c ∷ d ∷ ds
]

unfoldable pub trim : List ℕ → List ℕ
trim s = trim_start (trim_end s)

-- The decoder of `str::from_utf8`: how many bytes the character still has, and the range of the next.
pub record Utf8State : Type 0 where
  pub left : ℕ
  pub lo : ℕ
  pub hi : ℕ

abbrev pub expect_bytes : ℕ → ℕ → ℕ → Option Utf8State
expect_bytes n lo hi = some (record { left = n; lo = lo; hi = hi })

abbrev pub utf8_lead : ℕ → Option Utf8State
utf8_lead b =
    if leb b 127
    then expect_bytes 0 128 191
    else if within 194 223 b
    then expect_bytes 1 128 191
    else if b == 224
    then expect_bytes 2 160 191
    else if b == 237
    then expect_bytes 2 128 159
    else if within 225 239 b
    then expect_bytes 2 128 191
    else if b == 240
    then expect_bytes 3 144 191
    else if within 241 243 b
    then expect_bytes 3 128 191
    else if b == 244
    then expect_bytes 3 128 143
    else none

abbrev pub utf8_next : Utf8State → ℕ → Option Utf8State
utf8_next s b =
    if s.left == 0
    then utf8_lead b
    else if within s.lo s.hi b
    then expect_bytes (s.left - 1) 128 191
    else none

abbrev pub utf8_from : Option Utf8State → List ℕ → Bool
utf8_from none bs = false
utf8_from (some s) [] = s.left == 0
utf8_from (some s) (b ∷ bs) = utf8_from (utf8_next s b) bs

unfoldable pub is_utf8 : List ℕ → Bool
is_utf8 bs = utf8_from (expect_bytes 0 128 191) bs

pub record Primitives : Type 0 where
  -- the `hex` crate
  pub hex_encode : List ℕ → List ℕ
  pub hex_decode : List ℕ → Option (List ℕ)
  pub hex_decode-encode :
      (bytes : List ℕ) → All (λ b. b < 256) bytes → hex_decode (hex_encode bytes) ≡ some bytes
  pub hex_decode-hash :
      (text : List ℕ)
      → is_hash text ≡ true
      → (bytes : List ℕ) × (hex_decode text ≡ some bytes)
        × (length bytes ≡ 32)
        × All (λ b. b < 256) bytes
        × (hex_encode bytes ≡ text)
  -- the `base64` crate's engine `URL_SAFE_NO_PAD`
  pub base64_encode : List ℕ → List ℕ
  pub base64_decode : List ℕ → Option (List ℕ)
  pub base64_decode-encode :
      (bytes : List ℕ) → All (λ b. b < 256) bytes → base64_decode (base64_encode bytes) ≡ some bytes
  pub base64_bytes :
      (text bytes : List ℕ) → base64_decode text ≡ some bytes → All (λ b. b < 256) bytes
  pub base64_visible :
      (bytes : List ℕ)
      → All (λ b. b < 256) bytes
      → All (λ c. is_whitespace c ≡ false) (base64_encode bytes)
  -- the `blake3` crate
  pub blake3 : List ℕ → List ℕ
  pub length-blake3 : (bytes : List ℕ) → length (blake3 bytes) ≡ 32
  pub blake3_bytes : (bytes : List ℕ) → All (λ b. b < 256) (blake3 bytes)
  -- the `ed25519_dalek` crate: the verification key of a seed, the test of `VerifyingKey::from_bytes`,
  -- and signatures
  pub public_key : List ℕ → List ℕ
  pub is_key : List ℕ → Bool
  pub sign : List ℕ → List ℕ → List ℕ
  pub verifies : List ℕ → List ℕ → List ℕ → Bool
  pub length-public_key : (seed : List ℕ) → length (public_key seed) ≡ 32
  pub is_key-public_key : (seed : List ℕ) → is_key (public_key seed) ≡ true
  pub length-sign : (seed message : List ℕ) → length (sign seed message) ≡ 64
  pub sign_bytes : (seed message : List ℕ) → All (λ b. b < 256) (sign seed message)
  pub verifies-sign :
      (seed message : List ℕ) → verifies (public_key seed) message (sign seed message) ≡ true
