-- ===== src/Results/Nulls/Bits.antt =====
-- Single bits of bytes and of byte sequences.
use harborsql.Base.{
  ℕ, zero, suc, ◌+◌, ◌*◌, ◌/◌, ◌%◌, ◌^◌, ◌<◌, ◌≡◌, refl, ap, ◌∙◌, Bool, ◌&&◌, Option, some, [], ◌∷◌,
  Bytes, length, All, bit_or, arith, ◌==◌, if◌then◌else◌,
}
use harborsql.Base.Table.{equal_below, equal_below→eq}
use harborsql.Results.Nulls.{or_at}

-- Bit `k` of a byte, as 0 or 1.
abbrev pub bit : ℕ → ℕ → ℕ
bit b k = b / 2 ^ k % 2

or_table :
    (i : ℕ)
    → i < 16384
    → bit (bit_or (i / 64) (2 ^ (i / 8 % 8))) (i % 8)
      ≡ (if i % 8 == i / 8 % 8 then 1 else bit (i / 64) (i % 8))
unfolding equal_below
or_table i h =
    equal_below→eq 16384 (λ i. bit (bit_or (i / 64) (2 ^ (i / 8 % 8))) (i % 8))
      (λ i. if i % 8 == i / 8 % 8 then 1 else bit (i / 64) (i % 8)) i refl h

at_index :
    (i b j k : ℕ)
    → i / 64 ≡ b
    → i / 8 % 8 ≡ j
    → i % 8 ≡ k
    → i < 16384
    → bit (bit_or b (2 ^ j)) k ≡ (if k == j then 1 else bit b k)
at_index i b j k eb ej ek h = rw (← eb) (rw (← ej) (rw (← ek) (or_table i h)))

bit-bit_or :
    (b j k : ℕ)
    → b < 256
    → j < 8
    → k < 8
    → bit (bit_or b (2 ^ j)) k ≡ (if k == j then 1 else bit b k)
bit-bit_or b j k hb hj hk =
    at_index (b * 64 + j * 8 + k) b j k (omega arith) (omega arith) (omega arith) (omega arith)

byte_table : (i : ℕ) → i < 2048 → bit_or (i / 8) (2 ^ (i % 8)) / 256 ≡ 0
unfolding equal_below
byte_table i h = equal_below→eq 2048 (λ i. bit_or (i / 8) (2 ^ (i % 8)) / 256) (λ i. 0) i refl h

byte_at_index : (i b j : ℕ) → i / 8 ≡ b → i % 8 ≡ j → i < 2048 → bit_or b (2 ^ j) / 256 ≡ 0
byte_at_index i b j eb ej h = rw (← eb) (rw (← ej) (byte_table i h))

bit_or-lt : (b j : ℕ) → b < 256 → j < 8 → bit_or b (2 ^ j) < 256
bit_or-lt b j hb hj =
    let e = byte_at_index (b * 8 + j) b j (omega arith) (omega arith) (omega arith) in
    omega (arith, e)

abbrev pub byte_of : Bytes → ℕ → ℕ
byte_of [] i = 0
byte_of (b ∷ bs) zero = b
byte_of (b ∷ bs) (suc i) = byte_of bs i

-- Bit `i` of the bytes, as 0 or 1; within a byte the lowest bit comes first.
abbrev pub bit_of : Bytes → ℕ → ℕ
bit_of nulls i = bit (byte_of nulls (i / 8)) (i % 8)

abbrev pub AreBytes : Bytes → Type 0
AreBytes = All (λ b. b < 256)

-- The bytes that an action leaves, with the bits that `set` says set and the others as they were.
pub record Sets (set : ℕ → Bool) (nulls : Bytes) (out : Option Bytes) : Type 0 where
  pub left : Bytes
  pub is_left : out ≡ some left
  pub same_length : length left ≡ length nulls
  pub bytes : AreBytes left
  pub bits : (i : ℕ) → bit_of left i ≡ (if set i then 1 else bit_of nulls i)

-- The same by byte and by bit.
record SetsByte (index j : ℕ) (nulls : Bytes) (out : Option Bytes) : Type 0 where
  left : Bytes
  is_left : out ≡ some left
  same_length : length left ≡ length nulls
  bytes : AreBytes left
  bits :
      (m k : ℕ)
      → k < 8
      → bit (byte_of left m) k ≡ (if (m == index) && (k == j) then 1 else bit (byte_of nulls m) k)

or_at-SetsByte :
    (index j : ℕ) (nulls : Bytes)
    → j < 8
    → AreBytes nulls
    → index < length nulls
    → SetsByte index j nulls (or_at index (2 ^ j) nulls)
unfolding or_at
or_at-SetsByte index j [] hj h lt = absurd (omega (arith, lt))
or_at-SetsByte zero j (b ∷ bs) hj h lt = record {
  left = bit_or b (2 ^ j) ∷ bs;
  is_left = refl;
  same_length = refl;
  bytes = (bit_or-lt b j h.0 hj, h.1);
  bits = λ m k hk. first_byte b bs j m k hj h.0 hk;
}
  where
    first_byte :
        (b : ℕ) (bs : Bytes) (j m k : ℕ)
        → j < 8
        → b < 256
        → k < 8
        → bit (byte_of (bit_or b (2 ^ j) ∷ bs) m) k
          ≡ (if (m == 0) && (k == j) then 1 else bit (byte_of (b ∷ bs) m) k)
    first_byte b bs j zero k hj hb hk = bit-bit_or b j k hb hj hk
    first_byte b bs j (suc m) k hj hb hk = ground arith
or_at-SetsByte (suc index) j (b ∷ bs) hj h lt =
    let rest = or_at-SetsByte index j bs hj h.1 (omega (arith, lt)) in
    rw rest.is_left (record {
      left = b ∷ rest.left;
      is_left = refl;
      same_length = omega (arith, rest.same_length);
      bytes = (h.0, rest.bytes);
      bits = λ m k hk. later_byte b bs rest.left j index (rest.bits) m k hk;
    })
  where
    later_byte :
        (b : ℕ) (bs left : Bytes) (j index : ℕ)
        → ((m k : ℕ)
            → k < 8
            → bit (byte_of left m) k
              ≡ (if (m == index) && (k == j) then 1 else bit (byte_of bs m) k))
        → (m k : ℕ) → k < 8
        → bit (byte_of (b ∷ left) m) k
          ≡ (if (m == suc index) && (k == j) then 1 else bit (byte_of (b ∷ bs) m) k)
    later_byte b bs left j index f zero k hk = ground arith
    later_byte b bs left j index f (suc m) k hk = ground (arith, f m k hk)

pub or_at-Sets :
    (page_row : ℕ) (nulls : Bytes)
    → AreBytes nulls
    → page_row < 8 * length nulls
    → Sets (λ i. i == page_row) nulls (or_at (page_row / 8) (2 ^ (page_row % 8)) nulls)
or_at-Sets page_row nulls h lt =
    let s =
      or_at-SetsByte (page_row / 8) (page_row % 8) nulls (omega arith) h (omega (arith, lt)) in
    record {
      left = s.left;
      is_left = s.is_left;
      same_length = s.same_length;
      bytes = s.bytes;
      bits = λ i.
          s.bits (i / 8) (i % 8) (omega arith)
          ∙ ap (λ t. if t then 1 else bit_of nulls i) (same_bit i page_row);
    }
  where
    same_bit : (i p : ℕ) → ((i / 8 == p / 8) && (i % 8 == p % 8)) ≡ (i == p)
    same_bit i p = ground arith
