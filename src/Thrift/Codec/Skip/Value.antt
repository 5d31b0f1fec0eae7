-- ===== src/Thrift/Codec/Skip/Value.antt =====
-- Values of the Thrift binary protocol as trees, their encoding, and the limits that skipping sets.
-- This is the protocol that the code speaks, and no code of the program.
use harborsql.Base.{ℕ, suc, ◌+◌, ◌^◌, ◌≤◌, ◌<◌, ◌≡◌, true, [], ◌∷◌, ◌++◌, length, Bytes}
use harborsql.Thrift.Protocol.{
  t_stop, t_bool, t_byte, t_i16, t_i32, t_i64, t_double, t_string, t_struct, t_map, t_set, t_list,
  valid_field_type,
}
use harborsql.Thrift.Codec.Reader.Reads.{binary, field_begin}
use harborsql.Thrift.Codec.Writer.{be16, be32, be64}
use harborsql.Thrift.Codec.Skip.{max_container_elements, max_skip_depth}

mutual
  pub data Value : Type 0 where
    bool byte i16 i32 i64 double : ℕ → Value
    string : Bytes → Value
    struct : Fields → Value
    map : ℕ → ℕ → Pairs → Value
    list set : ℕ → Items → Value

  pub data Items : Type 0 where
    nil : Items
    cons : Value → Items → Items

  pub data Pairs : Type 0 where
    no_pair : Pairs
    pair : Value → Value → Pairs → Pairs

  pub data Fields : Type 0 where
    end : Fields
    field : ℕ → Value → Fields → Fields

abbrev pub type_of : Value → ℕ
type_of (bool b) = t_bool
type_of (byte b) = t_byte
type_of (i16 v) = t_i16
type_of (i32 v) = t_i32
type_of (i64 v) = t_i64
type_of (double v) = t_double
type_of (string v) = t_string
type_of (struct fs) = t_struct
type_of (map k v ps) = t_map
type_of (list t xs) = t_list
type_of (set t xs) = t_set

abbrev pub count_items : Items → ℕ
count_items nil = 0
count_items (cons v xs) = suc (count_items xs)

abbrev pub count_pairs : Pairs → ℕ
count_pairs no_pair = 0
count_pairs (pair k v ps) = suc (count_pairs ps)

unfoldable mutual
  pub encode : Value → Bytes
  encode (bool b) = b ∷ []
  encode (byte b) = b ∷ []
  encode (i16 v) = be16 v
  encode (i32 v) = be32 v
  encode (i64 v) = be64 v
  encode (double v) = be64 v
  encode (string v) = binary v
  encode (struct fs) = encode_fields fs
  encode (map k v ps) = k ∷ v ∷ (be32 (count_pairs ps) ++ encode_pairs ps)
  encode (list t xs) = t ∷ (be32 (count_items xs) ++ encode_items xs)
  encode (set t xs) = t ∷ (be32 (count_items xs) ++ encode_items xs)

  pub encode_items : Items → Bytes
  encode_items nil = []
  encode_items (cons v xs) = encode v ++ encode_items xs

  pub encode_pairs : Pairs → Bytes
  encode_pairs no_pair = []
  encode_pairs (pair k v ps) = (encode k ++ encode v) ++ encode_pairs ps

  pub encode_fields : Fields → Bytes
  encode_fields end = t_stop ∷ []
  encode_fields (field id v fs) = field_begin (type_of v) id ++ (encode v ++ encode_fields fs)

-- The value is one of the protocol, and skipping accepts it at nesting depth `d`.
abbrev mutual
  pub Fits : ℕ → Value → Type 0
  Fits d (bool b) = d ≤ max_skip_depth
  Fits d (byte b) = d ≤ max_skip_depth
  Fits d (i16 v) = (d ≤ max_skip_depth) × (v < 2 ^ 16)
  Fits d (i32 v) = (d ≤ max_skip_depth) × (v < 2 ^ 32)
  Fits d (i64 v) = (d ≤ max_skip_depth) × (v < 2 ^ 64)
  Fits d (double v) = (d ≤ max_skip_depth) × (v < 2 ^ 64)
  Fits d (string v) = (d ≤ max_skip_depth) × (length v < 2 ^ 31)
  Fits d (struct fs) = (d + 1 ≤ max_skip_depth) × FitsFields (d + 1 + 1) fs
  Fits d (map k v ps) =
      (d ≤ max_skip_depth)
      × (valid_field_type k ≡ true)
      × (valid_field_type v ≡ true)
      × (count_pairs ps ≤ max_container_elements)
      × FitsPairs (d + 1) k v ps
  Fits d (list t xs) =
      (d ≤ max_skip_depth)
      × (valid_field_type t ≡ true)
      × (count_items xs ≤ max_container_elements)
      × FitsItems (d + 1) t xs
  Fits d (set t xs) =
      (d ≤ max_skip_depth)
      × (valid_field_type t ≡ true)
      × (count_items xs ≤ max_container_elements)
      × FitsItems (d + 1) t xs

  pub FitsItems : ℕ → ℕ → Items → Type 0
  FitsItems d t nil = Unit
  FitsItems d t (cons v xs) = (type_of v ≡ t) × Fits d v × FitsItems d t xs

  pub FitsPairs : ℕ → ℕ → ℕ → Pairs → Type 0
  FitsPairs d k v no_pair = Unit
  FitsPairs d k v (pair a b ps) =
      (type_of a ≡ k) × (type_of b ≡ v) × Fits d a × Fits d b × FitsPairs d k v ps

  pub FitsFields : ℕ → Fields → Type 0
  FitsFields d end = Unit
  FitsFields d (field id v fs) = (id < 2 ^ 16) × Fits d v × FitsFields d fs
