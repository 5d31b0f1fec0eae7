-- ===== src/Thrift/Codec/Reader.antt =====
-- `Reader` of src/thrift/codec.rs: a cursor over a byte slice. A method is an action that moves the
-- cursor or fails; after an error the caller drops the reader, so no cursor comes back with one.
-- A signed integer is its two's complement bit pattern: `i32` is a number below 2 ^ 32, which is
-- negative from 2 ^ 31 on. An `f64` is the pattern that `to_bits` gives.
pub mod Safe
pub mod Reads
use harborsql.Base.{
  ℕ, zero, suc, ◌+◌, ◌-◌, ◌*◌, ◌^◌, Bool, true, false, not, ◌&&◌, [], ◌∷◌, length, drop, take,
  Bytes, ltb, leb, ◌==◌, if◌then◌else◌,
}
use harborsql.Thrift.Protocol.{t_stop, valid_field_type}
use harborsql.Thrift.Result.{
  Result, Error, ok, err, stuck, unexpected_end, negative_length, invalid_utf8, unsupported_type,
}

pub record Reader : Type 0 where
  pub buffer : Bytes
  pub position : ℕ

-- Reader::new
abbrev pub new : Bytes → Reader
new bytes = record { buffer = bytes; position = 0 }

abbrev pub Parse {ℓ} : Type ℓ → Type ℓ
Parse A = Reader → Result (A × Reader)

infixl 10 ◌>>=◌ ◌>>◌
unfoldable pub ◌>>=◌ {ℓ κ} : {A : Type ℓ} {B : Type κ} → Parse A → (A → Parse B) → Parse B
◌>>=◌ m f r = elim (m r) [ ok (a, r') ↦ f a r' | err e ↦ err e | stuck ↦ stuck ]

abbrev pub ◌>>◌ {ℓ κ} : {A : Type ℓ} {B : Type κ} → Parse A → Parse B → Parse B
m >> n = m >>= λ _. n

unfoldable pub pure {ℓ} : {A : Type ℓ} → A → Parse A
pure a r = ok (a, r)

unfoldable pub fail {ℓ} : {A : Type ℓ} → Error → Parse A
fail e r = err e

-- Bytes that the cursor has not reached.
abbrev pub remaining : Reader → ℕ
remaining r = length r.buffer - r.position

byte_at : Bytes → ℕ → ℕ
byte_at [] i = 0
byte_at (b ∷ bs) zero = b
byte_at (b ∷ bs) (suc i) = byte_at bs i

pub read_u8 : Parse ℕ
unfolding byte_at
read_u8 r =
    if leb (length r.buffer) r.position
    then err unexpected_end
    else ok (byte_at r.buffer r.position, record r { position = r.position + 1 })

pub read_exact : ℕ → Parse Bytes
read_exact n r =
    if ltb (length r.buffer) (r.position + n)
    then err unexpected_end
    else ok (take n (drop r.position r.buffer), record r { position = r.position + n })

-- The big-endian value of a byte sequence: `from_be_bytes`.
unfoldable pub from_be : ℕ → Bytes → ℕ
from_be acc [] = acc
from_be acc (b ∷ bs) = from_be (acc * 256 + b) bs

pub read_i16 : Parse ℕ
read_i16 = do bytes ← read_exact 2; pure (from_be 0 bytes)

pub read_i32 : Parse ℕ
read_i32 = do bytes ← read_exact 4; pure (from_be 0 bytes)

pub read_i64 : Parse ℕ
read_i64 = do bytes ← read_exact 8; pure (from_be 0 bytes)

pub read_double : Parse ℕ
read_double = read_i64

pub read_binary : Parse Bytes
read_binary = do len ← read_i32; if leb (2 ^ 31) len then fail negative_length else read_exact len

-- What the bytes read so far of a UTF-8 text ask of the next one: it starts a character, or it is
-- in a range and `more` continuation bytes follow it.
pub data Utf8 : Type 0 where
  boundary invalid : Utf8
  within : ℕ → ℕ → ℕ → Utf8

between : ℕ → ℕ → ℕ → Bool
between lo hi b = leb lo b && leb b hi

-- The first byte of a character. There are no overlong forms, no surrogates and nothing past U+10FFFF.
utf8_start : ℕ → Utf8
unfolding between
utf8_start b =
    if leb b 0x7f
    then boundary
    else if between 0xc2 0xdf b
    then within 0 0x80 0xbf
    else if b == 0xe0
    then within 1 0xa0 0xbf
    else if b == 0xed
    then within 1 0x80 0x9f
    else if between 0xe1 0xef b
    then within 1 0x80 0xbf
    else if b == 0xf0
    then within 2 0x90 0xbf
    else if between 0xf1 0xf3 b
    then within 2 0x80 0xbf
    else if b == 0xf4
    then within 2 0x80 0x8f
    else invalid

utf8_next : Utf8 → ℕ → Utf8
unfolding utf8_start
utf8_next boundary b = utf8_start b
utf8_next invalid b = invalid
utf8_next (within zero lo hi) b = if between lo hi b then boundary else invalid
utf8_next (within (suc more) lo hi) b = if between lo hi b then within more 0x80 0xbf else invalid

utf8_run : Utf8 → Bytes → Bool
unfolding utf8_next
utf8_run boundary [] = true
utf8_run _ [] = false
utf8_run state (b ∷ bs) = utf8_run (utf8_next state b) bs

-- The test that `String::from_utf8` makes.
unfoldable pub utf8_valid : Bytes → Bool
unfolding utf8_run
utf8_valid = utf8_run boundary

-- A `String` is its UTF-8 bytes.
pub read_string : Parse Bytes
read_string = do bytes ← read_binary; if utf8_valid bytes then pure bytes else fail invalid_utf8

pub read_field_begin : Parse (ℕ × ℕ)
unfolding valid_field_type
read_field_begin = do
  field_type ← read_u8
  if field_type == t_stop then pure (t_stop, 0) else do
    if not (valid_field_type field_type)
        then fail (unsupported_type field_type)
        else do field_id ← read_i16; pure (field_type, field_id)
