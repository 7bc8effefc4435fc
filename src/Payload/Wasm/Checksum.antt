-- ===== src/Payload/Wasm/Checksum.antt =====
-- payload/wasm_checksum.go. SHA-256 and the reading of JSON strings are parameters.
use chain_stresser.Common.{
  ℕ, ◌+◌, ◌-◌, ◌*◌, ◌/◌, ◌%◌, ◌≤◌, ◌<◌, ◌≡◌, ◌≢◌, refl, ◌⊎◌, inl, inr, ==_iff, Bool-cases, arith,
  not, ◌&&◌, Option, none, some, [], ◌∷◌, ◌++◌, Result, ok, err, ◌>>=◌, if◌then◌else◌, ltb, leb,
  ◌==◌, length, take, All,
}
use chain_stresser.Common.Bytes.{Bytes, eq_bytes}

pub data ChecksumError : Type 0 where
  nil_or_empty : ChecksumError
  shorter_than_4 : ChecksumError
  no_magic_number : ChecksumError
  bad_json : ChecksumError
  odd_length : ChecksumError
  invalid_byte : ChecksumError
  wrong_number_of_bytes : ChecksumError

abbrev pub wasm_checksum_len : ℕ
wasm_checksum_len = 32

-- `WasmCreateChecksum`
unfoldable pub wasm_create_checksum : (Bytes → Bytes) → Bytes → Result ChecksumError Bytes
wasm_create_checksum sha256 wasm =
    if length wasm == 0
    then err nil_or_empty
    else if ltb (length wasm) 4
    then err shorter_than_4
    else if not (eq_bytes (take 4 wasm) (0 ∷ 97 ∷ 115 ∷ 109 ∷ []))
    then err no_magic_number
    else ok (sha256 wasm)

-- encoding/hex: a digit, written in lower case and read in either.
abbrev pub hex_digit : ℕ → ℕ
hex_digit n = if ltb n 10 then 48 + n else 87 + n

abbrev pub from_hex_char : ℕ → Option ℕ
from_hex_char c =
    if leb 48 c && leb c 57
    then some (c - 48)
    else if leb 97 c && leb c 102
    then some (c - 87)
    else if leb 65 c && leb c 70
    then some (c - 55)
    else none

unfoldable pub encode_to_string : Bytes → Bytes
encode_to_string [] = []
encode_to_string (b ∷ bs) = hex_digit (b / 16) ∷ hex_digit (b % 16) ∷ encode_to_string bs

abbrev pub digit_result : Option ℕ → Result ChecksumError ℕ
digit_result none = err invalid_byte
digit_result (some d) = ok d

-- A single digit at the end is looked at before its lack of company is.
unfoldable pub decode_string : Bytes → Result ChecksumError Bytes
decode_string [] = ok []
decode_string (c ∷ []) = digit_result (from_hex_char c) >>= λ _. err odd_length
decode_string (c ∷ d ∷ s) = do
  high ← digit_result (from_hex_char c)
  low ← digit_result (from_hex_char d)
  rest ← decode_string s
  ok ((high * 16 + low) ∷ rest)

-- `MarshalJSON`; a string of hexadecimal digits is quoted as it is.
unfoldable pub marshal_json : Bytes → Bytes
unfolding encode_to_string
marshal_json cs = 34 ∷ encode_to_string cs ++ 34 ∷ []

abbrev pub read_string : Option Bytes → Result ChecksumError Bytes
read_string none = err bad_json
read_string (some s) = ok s

-- `UnmarshalJSON`; `json_string` is `json.Unmarshal` into a string.
unfoldable pub unmarshal_json : (Bytes → Option Bytes) → Bytes → Result ChecksumError Bytes
unfolding decode_string
unmarshal_json json_string input = do
  hex_string ← read_string (json_string input)
  bytes ← decode_string hex_string
  if not (length bytes == wasm_checksum_len) then err wrong_number_of_bytes else ok bytes

abbrev pub IsByte : ℕ → Type 0
IsByte b = b < 256

-- A digit or a lower-case letter from a to f, none of which JSON escapes.
abbrev pub IsHexDigit : ℕ → Type 0
IsHexDigit c = ((48 ≤ c) × (c ≤ 57)) ⊎ ((97 ≤ c) × (c ≤ 102))

digit_back : (n : ℕ) → n < 16 → from_hex_char (hex_digit n) ≡ some n
digit_back n h = ground arith

digit-IsHexDigit : (n : ℕ) → n < 16 → IsHexDigit (hex_digit n)
digit-IsHexDigit n h = ground arith

encode-IsHexDigit : (bs : Bytes) → All IsByte bs → All IsHexDigit (encode_to_string bs)
unfolding encode_to_string
encode-IsHexDigit [] h = tt
encode-IsHexDigit (b ∷ bs) (hb, h) = (
  digit-IsHexDigit (b / 16) (omega arith),
  (digit-IsHexDigit (b % 16) (omega arith), encode-IsHexDigit bs h),
)

byte_back : (b : ℕ) → b / 16 * 16 + b % 16 ≡ b
byte_back b = omega arith

decode-encode : (bs : Bytes) → All IsByte bs → decode_string (encode_to_string bs) ≡ ok bs
unfolding decode_string encode_to_string
decode-encode [] h = refl
decode-encode (b ∷ bs) (hb, h) =
    rw
      (
        digit_back (b / 16) (omega arith),
        digit_back (b % 16) (omega arith),
        decode-encode bs h,
        byte_back b,
      )
      refl

-- A checksum that is written as JSON is read back when it has 32 bytes, and refused for its length
-- otherwise. JSON reads back a quoted string of hexadecimal digits.
pub unmarshal-marshal :
    (json_string : Bytes → Option Bytes) (cs : Bytes)
    → ((s : Bytes) → All IsHexDigit s → json_string (34 ∷ s ++ 34 ∷ []) ≡ some s)
    → All IsByte cs
    → (length cs ≡ 32 → unmarshal_json json_string (marshal_json cs) ≡ ok cs)
      × (length cs ≢ 32 → unmarshal_json json_string (marshal_json cs) ≡ err wrong_number_of_bytes)
unfolding unmarshal_json marshal_json
unmarshal-marshal json_string cs reads bytes = (
  λ right.
      rw
        (
          reads (encode_to_string cs) (encode-IsHexDigit cs bytes),
          decode-encode cs bytes,
          (==_iff (length cs) 32).1 right,
        )
        refl,
  λ wrong. elim (Bool-cases (length cs == 32)) [
    | inl right ↦ absurd (wrong ((==_iff (length cs) 32).0 right))
    | inr differ ↦
        rw
          (reads (encode_to_string cs) (encode-IsHexDigit cs bytes), decode-encode cs bytes, differ)
          refl
  ],
)
