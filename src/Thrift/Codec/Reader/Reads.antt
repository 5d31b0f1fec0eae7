-- ===== src/Thrift/Codec/Reader/Reads.antt =====
-- Actions that read exactly given bytes, whatever follows them in the buffer.
use harborsql.Base.{
  ℕ, zero, suc, ◌+◌, ◌^◌, ◌≤◌, ◌<◌, ◌≡◌, refl, sym, ap, ◌∙◌, Bool, true, false, arith, [], ◌∷◌,
  ◌++◌, length, drop, length-append, length-drop, drop-drop, drop-append, take-append, append_assoc,
  Bytes, leb, ltb, le→ltb, ◌==◌, not, append-nil, if◌then◌else◌,
}
use harborsql.Thrift.Protocol.{t_stop, valid_field_type}
use harborsql.Thrift.Result.{ok}
use harborsql.Thrift.Codec.Writer.{be16, be32, be64}
use harborsql.Thrift.Codec.Reader.Safe.{IsValid}
use harborsql.Thrift.Codec.Reader.{
  Reader, Parse, ◌>>=◌, pure, byte_at, read_u8, read_exact, from_be, read_i16, read_i32, read_i64,
  read_double, read_binary, read_string, utf8_valid, read_field_begin, remaining,
}

pub valid-ne-stop : (t : ℕ) → valid_field_type t ≡ true → (t == t_stop) ≡ false
unfolding valid_field_type
valid-ne-stop t h = ground arith

-- What the cursor has not reached.
abbrev pub rest : Reader → Bytes
rest r = drop r.position r.buffer

abbrev pub advance : ℕ → Reader → Reader
advance n r = record r { position = r.position + n }

pub record Reads {ℓ} {A : Type ℓ} (m : Parse A) (bytes : Bytes) (a : A) : Type ℓ where
  pub at :
      (r : Reader) (tail : Bytes)
      → IsValid r
      → rest r ≡ bytes ++ tail
      → m r ≡ ok (a, advance (length bytes) r)

pub rest-advance :
    (r : Reader) (bytes tail : Bytes)
    → rest r ≡ bytes ++ tail
    → rest (advance (length bytes) r) ≡ tail
rest-advance r bytes tail h =
    sym (drop-drop (length bytes) r.position r.buffer)
    ∙ ap (drop (length bytes)) h
    ∙ drop-append bytes tail

advance-advance :
    (r : Reader) (xs ys : Bytes)
    → advance (length ys) (advance (length xs) r) ≡ advance (length (xs ++ ys)) r
advance-advance r xs ys =
    ap (λ (n : ℕ). record r { position = n }) (omega (arith, length-append {0} xs ys))

pub length-rest : (r : Reader) → length (rest r) ≡ remaining r
length-rest r = length-drop r.position r.buffer

pub room :
    (r : Reader) (bytes tail : Bytes)
    → IsValid r
    → rest r ≡ bytes ++ tail
    → r.position + length bytes ≤ length r.buffer
room r bytes tail v h =
    omega
      (arith, v.within, length-rest r, ap (λ (b : Bytes). length b) h, length-append {0} bytes tail)

pub IsValid-advance :
    (r : Reader) (bytes tail : Bytes)
    → IsValid r
    → rest r ≡ bytes ++ tail
    → IsValid (advance (length bytes) r)
IsValid-advance r bytes tail v h = record { within = room r bytes tail v h }

module _ {ℓ} {A : Type ℓ} where
  pub Reads-pure : (a : A) → Reads (pure a) [] a
  unfolding pure
  Reads-pure a = record {
    at = λ r tail v h. ap (λ (n : ℕ). ok (a, record r { position = n })) (omega arith);
  }

  pub Reads-if_true :
      (b : Bool) (m m' : Parse A) {bytes : Bytes} {a : A}
      → b ≡ true
      → Reads m bytes a
      → Reads (if b then m else m') bytes a
  Reads-if_true true m m' e h = h
  Reads-if_true false m m' e h = cc

  pub Reads-if_false :
      (b : Bool) (m m' : Parse A) {bytes : Bytes} {a : A}
      → b ≡ false
      → Reads m' bytes a
      → Reads (if b then m else m') bytes a
  Reads-if_false false m m' e h = h
  Reads-if_false true m m' e h = cc

module _ {ℓ κ} {A : Type ℓ} {B : Type κ} where
  pub Reads-bind :
      (m : Parse A) (f : A → Parse B) (xs ys : Bytes) (a : A) (b : B)
      → Reads m xs a
      → Reads (f a) ys b
      → Reads (m >>= f) (xs ++ ys) b
  unfolding ◌>>=◌
  Reads-bind m f xs ys a b h h' = record {
    at = λ r tail v e.
        let e' : rest r ≡ xs ++ (ys ++ tail) = e ∙ append_assoc xs ys tail in
        rw (h.at r (ys ++ tail) v e', ◌>>=◌)
          (h'.at (advance (length xs) r) tail (IsValid-advance r xs (ys ++ tail) v e')
              (rest-advance r xs (ys ++ tail) e')
            ∙ ap (λ (r' : Reader). ok (b, r')) (advance-advance r xs ys));
  }

  -- One step of a block, from a given cursor.
  pub Reads-step :
      (m : Parse A) (f : A → Parse B) (bytes tail : Bytes) (a : A) (r : Reader)
      → Reads m bytes a
      → IsValid r
      → rest r ≡ bytes ++ tail
      → (m >>= f) r ≡ f a (advance (length bytes) r)
  unfolding ◌>>=◌
  Reads-step m f bytes tail a r h v e = rw (h.at r tail v e, ◌>>=◌)

  -- The last step reads nothing.
  pub Reads-last :
      (m : Parse A) (f : A → Parse B) (bytes : Bytes) (a : A) (b : B)
      → Reads m bytes a
      → Reads (f a) [] b
      → Reads (m >>= f) bytes b
  Reads-last m f bytes a b h h' =
      let both : Reads (m >>= f) (bytes ++ []) b = Reads-bind m f bytes [] a b h h' in
      rw append-nil at both

byte_at-drop :
    (i : ℕ) (bs : Bytes) (b : ℕ) (tail : Bytes)
    → drop i bs ≡ b ∷ tail
    → (byte_at bs i ≡ b) × (i < length bs)
unfolding byte_at
byte_at-drop zero (c ∷ bs) b tail h = ground arith
byte_at-drop zero [] b tail h = cc
byte_at-drop (suc i) (c ∷ bs) b tail h = ground (arith, byte_at-drop i bs b tail h)
byte_at-drop (suc i) [] b tail h = cc

pub Reads-read_u8 : (b : ℕ) → Reads read_u8 (b ∷ []) b
unfolding read_u8
Reads-read_u8 b = record {
  at = λ r tail v h. ground (arith, byte_at-drop r.position r.buffer b tail h);
}

pub Reads-read_exact : (bytes : Bytes) → Reads (read_exact (length bytes)) bytes bytes
unfolding read_exact
Reads-read_exact bytes = record {
  at = λ r tail v h.
      let fits : ltb (length r.buffer) (r.position + length bytes) ≡ false =
        le→ltb _ _ (room r bytes tail v h) in
      rw (fits, h, take-append bytes tail);
}

-- A pattern that has `to_be_bytes` for its bytes is read back.
module _ (v : ℕ) where
  from_be-be16 : v < 2 ^ 16 → from_be 0 (be16 v) ≡ v
  unfolding from_be be16
  from_be-be16 h = omega arith

  from_be-be32 : v < 2 ^ 32 → from_be 0 (be32 v) ≡ v
  unfolding from_be be32
  from_be-be32 h = omega arith

  from_be-be64 : v < 2 ^ 64 → from_be 0 (be64 v) ≡ v
  unfolding from_be be64
  from_be-be64 h = omega arith

-- What reads `bytes` and goes on by a pure step reads `bytes`.
Reads-map {ℓ κ} :
    {A : Type ℓ} {B : Type κ} (m : Parse A) (f : A → B) (bytes : Bytes) (a : A) (b : B)
    → f a ≡ b
    → Reads m bytes a
    → Reads (m >>= λ x. pure (f x)) bytes b
Reads-map m f bytes a b e h = rw (← e) (Reads-last m _ bytes a (f a) h (Reads-pure (f a)))

module _ (v : ℕ) where
  pub Reads-read_i16 : v < 2 ^ 16 → Reads read_i16 (be16 v) v
  unfolding read_i16
  Reads-read_i16 h =
      Reads-map _ _ _ _ _ (from_be-be16 v h) (unfold be16 in Reads-read_exact (be16 v))

  pub Reads-read_i32 : v < 2 ^ 32 → Reads read_i32 (be32 v) v
  unfolding read_i32
  Reads-read_i32 h =
      Reads-map _ _ _ _ _ (from_be-be32 v h) (unfold be32 in Reads-read_exact (be32 v))

  pub Reads-read_i64 : v < 2 ^ 64 → Reads read_i64 (be64 v) v
  unfolding read_i64
  Reads-read_i64 h =
      Reads-map _ _ _ _ _ (from_be-be64 v h) (unfold be64 in Reads-read_exact (be64 v))

  pub Reads-read_double : v < 2 ^ 64 → Reads read_double (be64 v) v
  unfolding read_double
  Reads-read_double h = Reads-read_i64 h

-- The bytes of a length-prefixed value.
abbrev pub binary : Bytes → Bytes
binary value = be32 (length value) ++ value

pub Reads-read_binary :
    (value : Bytes) → length value < 2 ^ 31 → Reads read_binary (binary value) value
unfolding read_binary
Reads-read_binary value h =
    Reads-bind _ _ _ _ _ _ (Reads-read_i32 (length value) (omega arith))
      (Reads-if_false (leb (2 ^ 31) (length value)) _ _ (ground arith) (Reads-read_exact value))

pub Reads-read_string :
    (value : Bytes)
    → length value < 2 ^ 31
    → utf8_valid value ≡ true
    → Reads read_string (binary value) value
unfolding read_string
Reads-read_string value h ok_utf8 =
    Reads-last _ _ _ _ _ (Reads-read_binary value h)
      (Reads-if_true (utf8_valid value) _ _ ok_utf8 (Reads-pure value))

pub Reads-field_stop : Reads read_field_begin (t_stop ∷ []) (t_stop, 0)
unfolding read_field_begin
Reads-field_stop = Reads-last {B = ℕ × ℕ} _ _ _ _ _ (Reads-read_u8 t_stop) (Reads-pure (t_stop, 0))

-- The beginning of a field: its type and its id.
abbrev pub field_begin : ℕ → ℕ → Bytes
field_begin t id = t ∷ be16 id

pub Reads-field_begin :
    (t id : ℕ)
    → valid_field_type t ≡ true
    → id < 2 ^ 16
    → Reads read_field_begin (field_begin t id) (t, id)
unfolding read_field_begin
Reads-field_begin t id e h =
    Reads-bind _ _ (t ∷ []) (be16 id) t (t, id) (Reads-read_u8 t)
      (Reads-if_false (t == t_stop) _ _ (valid-ne-stop t e) (
        Reads-if_false (not (valid_field_type t)) _ _ (ap not e)
          (Reads-map _ _ _ _ _ refl (Reads-read_i16 id h))))
