-- ===== src/Thrift/Responses/Trees.antt =====
-- Writers that write whole values and whole structs of the protocol, at a nesting depth.
use harborsql.Base.{
  ℕ, suc, ◌+◌, ◌%◌, ◌^◌, ◌≤◌, ◌<◌, ◌≡◌, refl, sym, ap, append-nil, Bool, [], ◌∷◌, Bytes, length,
  arith, if◌then◌else◌,
}
use harborsql.Thrift.Protocol.{t_bool, t_i32, t_i64, t_string, t_struct, t_list, valid_field_type}
use harborsql.Thrift.Codec.Skip.{max_skip_depth, max_container_elements}
use harborsql.Thrift.Codec.Skip.Value.{
  Value, Fields, Items, end, field, nil, cons, type_of, count_items, encode, encode_items,
  encode_fields, Fits, FitsItems, FitsFields, i32, i64, string, bool, struct, list,
}
use harborsql.Thrift.Codec.Writer.{
  Write, ◌⨾◌, write_stop, write_bool, write_i32, write_i64, write_binary, write_string, write_field,
  write_list_begin, write_raw, push, be32,
}
use harborsql.Thrift.Codec.Writer.Writes.{
  Writes, Writes-raw, Writes-then, Writes-i32, Writes-i64, Writes-string, Writes-bytes,
  Writes-struct, Writes-stop, Writes-field,
}

pub record IsValue (d t : ℕ) (w : Write) : Type 0 where
  pub value : Value
  pub type : type_of value ≡ t
  pub fits : Fits d value
  pub writes : Writes w (encode value)

pub record IsStruct (d : ℕ) (w : Write) : Type 0 where
  pub fields : Fields
  pub fits : FitsFields d fields
  pub writes : Writes w (encode_fields fields)

-- The length of a text fits an `i32`.
abbrev pub IsText : Bytes → Type 0
IsText v = length v < 2 ^ 31

pub IsStruct-stop : (d : ℕ) → IsStruct d write_stop
IsStruct-stop d = record { fields = end; fits = tt; writes = Writes-stop }

pub IsStruct-field :
    (d t id : ℕ) (w rest : Write)
    → id < 2 ^ 16
    → IsValue d t w
    → IsStruct d rest
    → IsStruct d (write_field t id w ⨾ rest)
IsStruct-field d t id w rest h v s = record {
  fields = field id v.value s.fields;
  fits = (h, v.fits, s.fits);
  writes = rw (← v.type) (Writes-field id v.value w rest s.fields v.writes s.writes);
}

module _ (d : ℕ) (h : d ≤ max_skip_depth) where
  pub IsValue-i32 : (v : ℕ) → v < 2 ^ 32 → IsValue d t_i32 (write_i32 v)
  IsValue-i32 v w = record { value = i32 v; type = refl; fits = (h, w); writes = Writes-i32 v }

  pub IsValue-i64 : (v : ℕ) → v < 2 ^ 64 → IsValue d t_i64 (write_i64 v)
  IsValue-i64 v w = record { value = i64 v; type = refl; fits = (h, w); writes = Writes-i64 v }

  pub IsValue-bool : (b : Bool) → IsValue d t_bool (write_bool b)
  unfolding write_bool encode
  IsValue-bool b = record {
    value = bool (if b then 1 else 0);
    type = refl;
    fits = h;
    writes = Writes-raw _;
  }

  pub IsValue-string : (v : Bytes) → IsText v → IsValue d t_string (write_string v)
  IsValue-string v w = record {
    value = string v;
    type = refl;
    fits = (h, w);
    writes = Writes-string v w;
  }

  pub IsValue-bytes : (v : Bytes) → IsText v → IsValue d t_string (write_binary v)
  IsValue-bytes v w = record {
    value = string v;
    type = refl;
    fits = (h, w);
    writes = Writes-bytes v w;
  }

pub IsValue-struct :
    (d : ℕ) (w : Write) → d + 1 ≤ max_skip_depth → IsStruct (d + 1 + 1) w → IsValue d t_struct w
IsValue-struct d w h s = record {
  value = struct s.fields;
  type = refl;
  fits = (h, s.fits);
  writes = Writes-struct w s.fields s.writes;
}

-- The elements of a list of structs, one writer after the other.
pub record AreStructs (d n : ℕ) (w : Write) : Type 0 where
  pub items : Items
  pub count : count_items items ≡ n
  pub fits : FitsItems d t_struct items
  pub writes : Writes w (encode_items items)

pub AreStructs-nil : (d : ℕ) → AreStructs d 0 (λ w. w)
unfolding encode
AreStructs-nil d = record {
  items = nil;
  count = refl;
  fits = tt;
  writes = record { at = λ b. sym (append-nil b.buffer) };
}

pub AreStructs-cons :
    (d n : ℕ) (w rest : Write)
    → IsValue d t_struct w
    → AreStructs d n rest
    → AreStructs d (suc n) (w ⨾ rest)
unfolding encode
AreStructs-cons d n w rest v s = record {
  items = cons v.value s.items;
  count = ap suc s.count;
  fits = (v.type, v.fits, s.fits);
  writes = Writes-then w rest _ _ v.writes s.writes;
}

pub IsValue-list :
    (d n : ℕ) (w : Write)
    → d ≤ max_skip_depth
    → n ≤ max_container_elements
    → AreStructs (d + 1) n w
    → IsValue d t_list (write_list_begin t_struct n ⨾ w)
unfolding write_list_begin encode write_i32
IsValue-list d n w h le s =
    let e : n % 2 ^ 32 ≡ count_items s.items = omega (arith, s.count) in
    let head : Writes (push t_struct ⨾ write_raw (be32 (n % 2 ^ 32)))
        (t_struct ∷ be32 (n % 2 ^ 32)) =
      Writes-then _ _ (t_struct ∷ []) _ (Writes-raw _) (Writes-raw _) in
    record {
      value = list t_struct s.items;
      type = refl;
      fits = (h, unfold valid_field_type in refl, omega (arith, s.count), s.fits);
      writes = rw (← e) (Writes-then _ w _ (encode_items s.items) head s.writes);
    }
