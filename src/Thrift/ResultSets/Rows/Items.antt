-- ===== src/Thrift/ResultSets/Rows/Items.antt =====
-- The values of a column as the elements of a list of the protocol: `write_column_values` of
-- src/thrift/result_encoding.rs.
use harborsql.Base.{
  ℕ, suc, ◌+◌, ◌%◌, ◌^◌, ◌≤◌, ◌<◌, ◌≡◌, refl, sym, ap, ◌∙◌, append_assoc, append-nil, true, List,
  [], ◌∷◌, ◌++◌, length, All, arith, leb, Bool-cases, inl, inr,
}
use harborsql.Error.Outcome.{Result, ok, err, ◌>>=◌, Returns, Returns-bind, Returns-any}
use harborsql.Thrift.Protocol.{t_list, t_double, valid_field_type}
use harborsql.Thrift.Codec.Skip.{max_skip_depth, max_container_elements}
use harborsql.Thrift.Codec.Skip.Value.{
  Items, nil, cons, list, double, count_items, encode, encode_items, FitsItems,
}
use harborsql.Thrift.Codec.Writer.{
  Write, ◌⨾◌, write_double, write_i32, write_list_begin, write_raw, push, be32,
}
use harborsql.Thrift.Codec.Writer.Writes.{Writes, Writes-raw, Writes-then}
use harborsql.Thrift.Responses.Trees.{
  IsValue, IsText, IsValue-i32, IsValue-i64, IsValue-bool, IsValue-string, IsValue-bytes,
}
use harborsql.Thrift.ResultSets.Encoders.{
  DataType, PhysicalType, bool, i32, i64, f64, string, binary_values, int8, int16, int32, int64,
  uint8, uint16, uint32, uint64, float32, float64,
}
use harborsql.Thrift.ResultSets.Values
use harborsql.Thrift.ResultSets.Values.Display
use harborsql.Thrift.ResultSets.Values.{Slot, null, Formats}
use harborsql.Thrift.ResultSets.Rows

-- `n` elements of the type `t`, one writer after the other.
pub record AreItems (d t n : ℕ) (w : Write) : Type 0 where
  pub items : Items
  pub count : count_items items ≡ n
  pub fits : FitsItems d t items
  pub writes : Writes w (encode_items items)

pub AreItems-nil : (d t : ℕ) → AreItems d t 0 (λ w. w)
unfolding encode
AreItems-nil d t = record {
  items = nil;
  count = refl;
  fits = tt;
  writes = record { at = λ b. sym (append-nil b.buffer) };
}

pub AreItems-cons :
    (d t n : ℕ) (w rest : Write)
    → IsValue d t w
    → AreItems d t n rest
    → AreItems d t (suc n) (w ⨾ rest)
unfolding encode
AreItems-cons d t n w rest v s = record {
  items = cons v.value s.items;
  count = ap suc s.count;
  fits = (v.type, v.fits, s.fits);
  writes = Writes-then w rest _ _ v.writes s.writes;
}

append_items : Items → Items → Items
append_items nil ys = ys
append_items (cons x xs) ys = cons x (append_items xs ys)

count-append_items :
    (xs ys : Items) → count_items (append_items xs ys) ≡ count_items xs + count_items ys
unfolding append_items
count-append_items nil ys = omega arith
count-append_items (cons x xs) ys = omega (arith, count-append_items xs ys)

FitsItems-append_items :
    (d t : ℕ) (xs ys : Items)
    → FitsItems d t xs
    → FitsItems d t ys
    → FitsItems d t (append_items xs ys)
unfolding append_items
FitsItems-append_items d t nil ys h k = k
FitsItems-append_items d t (cons x xs) ys h k = (h.0, h.1, FitsItems-append_items d t xs ys h.2 k)

encode-append_items :
    (xs ys : Items) → encode_items (append_items xs ys) ≡ encode_items xs ++ encode_items ys
unfolding append_items encode
encode-append_items nil ys = refl
encode-append_items (cons x xs) ys =
    ap (λ bs. encode x ++ bs) (encode-append_items xs ys)
    ∙ sym (append_assoc (encode x) (encode_items xs) (encode_items ys))

pub AreItems-append :
    (d t m n : ℕ) (w rest : Write)
    → AreItems d t m w
    → AreItems d t n rest
    → AreItems d t (m + n) (w ⨾ rest)
AreItems-append d t m n w rest a b = record {
  items = append_items a.items b.items;
  count = omega (arith, count-append_items a.items b.items, a.count, b.count);
  fits = FitsItems-append_items d t a.items b.items a.fits b.fits;
  writes = rw (encode-append_items a.items b.items) (Writes-then w rest _ _ a.writes b.writes);
}

pub IsValue-items :
    (d t n : ℕ) (w : Write)
    → d ≤ max_skip_depth
    → valid_field_type t ≡ true
    → n ≤ max_container_elements
    → AreItems (d + 1) t n w
    → IsValue d t_list (write_list_begin t n ⨾ w)
unfolding write_list_begin encode write_i32
IsValue-items d t n w h valid le s =
    let e : n % 2 ^ 32 ≡ count_items s.items = omega (arith, s.count, le) in
    let head : Writes (push t ⨾ write_raw (be32 (n % 2 ^ 32))) (t ∷ be32 (n % 2 ^ 32)) =
      Writes-then _ _ (t ∷ []) _ (Writes-raw _) (Writes-raw _) in
    record {
      value = list t s.items;
      type = refl;
      fits = (h, valid, omega (arith, s.count, le), s.fits);
      writes = rw (← e) (Writes-then _ w _ (encode_items s.items) head s.writes);
    }

IsValue-double : (d v : ℕ) → d ≤ max_skip_depth → v < 2 ^ 64 → IsValue d t_double (write_double v)
unfolding write_double encode
IsValue-double d v h w = record {
  value = double v;
  type = refl;
  fits = (h, w);
  writes = Writes-raw _;
}

below_32 : (m : Result ℕ) → Returns (λ v. v < 2 ^ 32) (do n ← m; ok (n % 2 ^ 32))
below_32 (ok n) = omega arith
below_32 (err e) = tt

below_64 : (m : Result ℕ) (g : ℕ → ℕ) → Returns (λ v. v < 2 ^ 64) (do n ← m; ok (g n % 2 ^ 64))
below_64 (ok n) g = omega arith
below_64 (err e) g = tt

i32-lt :
    (type : DataType) (slot : Slot)
    → Returns (λ v. v < 2 ^ 32) (Values.arrow_value_to_i32 type slot)
unfolding Values.arrow_value_to_i32 Values.i32_of Values.unexpected_value_type
i32-lt type null = omega arith
i32-lt int8 slot = below_32 (Values.number_of _ slot)
i32-lt int16 slot = below_32 (Values.number_of _ slot)
i32-lt int32 slot = below_32 (Values.number_of _ slot)
i32-lt _ slot = tt

checked_u64-lt : (n : ℕ) → n < 2 ^ 64 → Returns (λ v. v < 2 ^ 64) (Values.checked_u64 n)
unfolding Values.checked_u64
checked_u64-lt n h = elim (Bool-cases (leb (2 ^ 63) n)) [ inl e ↦ rw e tt | inr e ↦ rw e h ]

i64-lt :
    (type : DataType) (slot : Slot)
    → Returns (λ v. v < 2 ^ 64) (Values.arrow_value_to_i64 type slot)
unfolding Values.arrow_value_to_i64 Values.i64_of Values.unexpected_value_type
i64-lt type null = omega arith
i64-lt int64 slot = below_64 (Values.number_of _ slot) (λ n. n)
i64-lt uint8 slot = below_64 (Values.number_of _ slot) (λ n. n)
i64-lt uint16 slot = below_64 (Values.number_of _ slot) (λ n. n)
i64-lt uint32 slot = below_64 (Values.number_of _ slot) (λ n. n)
i64-lt uint64 slot =
    Returns-bind (λ v. v < 2 ^ 64) (λ v. v < 2 ^ 64) (Values.i64_of _ slot) _
      (below_64 (Values.number_of _ slot) (λ n. n)) checked_u64-lt
i64-lt _ slot = tt

f64-lt :
    (f : Formats) (type : DataType) (slot : Slot)
    → Returns (λ v. v < 2 ^ 64) (Values.arrow_value_to_f64 f type slot)
unfolding Values.arrow_value_to_f64 Values.unexpected_value_type
f64-lt f type null = omega arith
f64-lt f float32 slot = below_64 (Values.float_of _ slot) f.f64_of_f32
f64-lt f float64 slot = below_64 (Values.float_of _ slot) (λ n. n)
f64-lt f _ slot = tt

-- The text or the bytes of a value are not too long for the protocol.
unfoldable pub IsShort : Formats → DataType → Slot → Type 0
IsShort f type slot =
    Returns IsText (Display.arrow_value_to_string f type slot)
    × Returns IsText (Values.arrow_value_to_binary type slot)

module _ (f : Formats) (d : ℕ) (h : d ≤ max_skip_depth) where
  write_value-IsValue :
      (p : PhysicalType) (type : DataType) (slot : Slot)
      → IsShort f type slot
      → Returns (IsValue d (Rows.value_type p)) (Rows.write_value f p type slot)
  unfolding Rows.write_value Rows.value_type IsShort
  write_value-IsValue bool type slot s =
      Returns-bind (λ _. Unit {0}) _ _ _ (Returns-any (Values.arrow_value_to_bool type slot))
        (λ v _. IsValue-bool d h v)
  write_value-IsValue i32 type slot s =
      Returns-bind (λ v. v < 2 ^ 32) _ _ _ (i32-lt type slot) (λ v w. IsValue-i32 d h v w)
  write_value-IsValue i64 type slot s =
      Returns-bind (λ v. v < 2 ^ 64) _ _ _ (i64-lt type slot) (λ v w. IsValue-i64 d h v w)
  write_value-IsValue f64 type slot s =
      Returns-bind (λ v. v < 2 ^ 64) _ _ _ (f64-lt f type slot) (λ v w. IsValue-double d v h w)
  write_value-IsValue string type slot s =
      Returns-bind IsText _ _ _ s.0 (λ v w. IsValue-string d h v w)
  write_value-IsValue binary_values type slot s =
      Returns-bind IsText _ _ _ s.1 (λ v w. IsValue-bytes d h v w)

  pub write_slots-AreItems :
      (p : PhysicalType) (type : DataType) (slots : List Slot)
      → All (IsShort f type) slots
      → Returns (AreItems d (Rows.value_type p) (length slots)) (Rows.write_slots f p type slots)
  unfolding Rows.write_slots
  write_slots-AreItems p type [] s = AreItems-nil d _
  write_slots-AreItems p type (slot ∷ slots) s =
      Returns-bind (IsValue d (Rows.value_type p)) _ _ _ (write_value-IsValue p type slot s.0)
        (λ w v.
          Returns-bind (AreItems d (Rows.value_type p) (length slots)) _ _ _
            (write_slots-AreItems p type slots s.1) (λ ws a. AreItems-cons d _ _ w ws v a))
