-- ===== src/Thrift/Uuids.antt =====
-- What the code uses of the `uuid` crate. A `Uuid` stands for 16 bytes, and `from_slice` reads back
-- the bytes that `as_bytes` gives.
use harborsql.Base.{ℕ, ◌≡◌, refl, Option, none, some, [], ◌∷◌, length, Bytes}

pub record Uuids : Type 1 where
  pub Uuid : Type 0
  pub from_slice : Bytes → Option Uuid
  pub as_bytes : Uuid → Bytes
  pub to_string : Uuid → Bytes
  pub from_slice-as_bytes : (u : Uuid) → from_slice (as_bytes u) ≡ some u
  pub length-as_bytes : (u : Uuid) → length (as_bytes u) ≡ 16

-- A library that meets this: four numbers, each with the three bytes behind it.
record Word : Type 0 where
  a : ℕ
  b : ℕ
  c : ℕ
  d : ℕ

record Sixteen : Type 0 where
  w : Word
  x : Word
  y : Word
  z : Word

bytes_of : Sixteen → Bytes
bytes_of u =
    u.w.a ∷ u.w.b ∷ u.w.c ∷ u.w.d ∷ u.x.a ∷ u.x.b ∷ u.x.c ∷ u.x.d ∷ u.y.a ∷ u.y.b ∷ u.y.c ∷ u.y.d
    ∷ u.z.a ∷ u.z.b ∷ u.z.c ∷ u.z.d ∷ []

from_bytes : Bytes → Option Sixteen
from_bytes (a ∷ b ∷ c ∷ d ∷ e ∷ f ∷ g ∷ h ∷ i ∷ j ∷ k ∷ l ∷ m ∷ n ∷ o ∷ p ∷ []) = some (record {
  w = record { a = a; b = b; c = c; d = d };
  x = record { a = e; b = f; c = g; d = h };
  y = record { a = i; b = j; c = k; d = l };
  z = record { a = m; b = n; c = o; d = p };
})
from_bytes _ = none

from_bytes-bytes_of : (u : Sixteen) → from_bytes (bytes_of u) ≡ some u
unfolding from_bytes bytes_of
from_bytes-bytes_of u = refl

length-bytes_of : (u : Sixteen) → length (bytes_of u) ≡ 16
unfolding bytes_of
length-bytes_of u = refl

pub plain_uuids : Uuids
plain_uuids = record {
  Uuid = Sixteen;
  from_slice = from_bytes;
  as_bytes = bytes_of;
  to_string = bytes_of;
  from_slice-as_bytes = from_bytes-bytes_of;
  length-as_bytes = length-bytes_of;
}

pub an_id : plain_uuids.Uuid
unfolding plain_uuids
an_id = record {
  w = record { a = 0; b = 1; c = 2; d = 3 };
  x = record { a = 4; b = 5; c = 6; d = 7 };
  y = record { a = 8; b = 9; c = 10; d = 11 };
  z = record { a = 12; b = 13; c = 14; d = 15 };
}
