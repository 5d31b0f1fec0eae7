-- ===== src/Thrift/Codec/Reader/Safe.antt =====
-- Actions that end, never move the cursor back and never move it past the end of the buffer.
use harborsql.Base.{
  ℕ, ◌+◌, ◌≤◌, ◌≡◌, refl, ◌∙◌, Bool, true, false, arith, length, leb, ltb, Bool-cases, inl, inr,
  if◌then◌else◌,
}
use harborsql.Thrift.Result.{Result, Error, ok, err, stuck}
use harborsql.Thrift.Codec.Reader.{
  Reader, Parse, ◌>>=◌, pure, fail, read_u8, read_exact, read_i16, read_i32, read_i64, read_double,
  read_binary, read_string, read_field_begin,
}

pub record IsValid (r : Reader) : Type 0 where
  pub within : r.position ≤ length r.buffer

-- `r'` is `r` at least `n` bytes further on.
pub record Advances (n : ℕ) (r r' : Reader) : Type 0 where
  pub same_buffer : r'.buffer ≡ r.buffer
  pub forward : r.position + n ≤ r'.position
  pub within : r'.position ≤ length r'.buffer

abbrev pub Outcome {ℓ} : {A : Type ℓ} → ℕ → Reader → Result (A × Reader) → Type 0
Outcome n r (ok (a, r')) = Advances n r r'
Outcome n r (err e) = Unit
Outcome n r stuck = ⊥

-- `m` ends, and reads at least `n` bytes when it succeeds, all of them in the buffer.
pub record SafeBy {ℓ} {A : Type ℓ} (n : ℕ) (m : Parse A) : Type 0 where
  pub at : (r : Reader) → IsValid r → Outcome n r (m r)

abbrev pub Safe {ℓ} : {A : Type ℓ} → Parse A → Type 0
Safe m = SafeBy 0 m

pub Advances-refl : (r : Reader) → IsValid r → Advances 0 r r
Advances-refl r v = record { same_buffer = refl; forward = omega arith; within = v.within }

Outcome-trans {ℓ} :
    {A : Type ℓ} (n k j : ℕ) {r r' : Reader} (o : Result (A × Reader))
    → Advances n r r'
    → j ≤ n + k
    → Outcome k r' o
    → Outcome j r o
Outcome-trans n k j (ok (a, r'')) h le o = record {
  same_buffer = o.same_buffer ∙ h.same_buffer;
  forward = omega arith;
  within = o.within;
}
Outcome-trans n k j (err e) h le o = tt
Outcome-trans n k j stuck h le o = o

module _ {ℓ} {A : Type ℓ} where
  Outcome-weaken :
      (n k : ℕ) (r : Reader) (o : Result (A × Reader)) → k ≤ n → Outcome n r o → Outcome k r o
  Outcome-weaken n k r (ok (a, r')) le o = record {
    same_buffer = o.same_buffer;
    forward = omega arith;
    within = o.within;
  }
  Outcome-weaken n k r (err e) le o = tt
  Outcome-weaken n k r stuck le o = o

  pub Safe-weaken : (n k : ℕ) (m : Parse A) → k ≤ n → SafeBy n m → SafeBy k m
  Safe-weaken n k m le s = record { at = λ r v. Outcome-weaken n k r (m r) le (s.at r v) }

  pub Safe-pure : (a : A) → Safe (pure a)
  unfolding pure
  Safe-pure a = record { at = Advances-refl }

  pub Safe-fail : (n : ℕ) (e : Error) → SafeBy n (fail {A = A} e)
  unfolding fail
  Safe-fail n e = record { at = λ r v. tt }

  pub Safe-if :
      (n : ℕ) (b : Bool) (m m' : Parse A)
      → (b ≡ true → SafeBy n m)
      → (b ≡ false → SafeBy n m')
      → SafeBy n (if b then m else m')
  Safe-if n true m m' s s' = s refl
  Safe-if n false m m' s s' = s' refl

  pub Outcome-if :
      (n : ℕ) (b : Bool) (m m' : Parse A) (r : Reader)
      → (b ≡ true → Outcome n r (m r))
      → (b ≡ false → Outcome n r (m' r))
      → Outcome n r ((if b then m else m') r)
  Outcome-if n true m m' r h h' = h refl
  Outcome-if n false m m' r h h' = h' refl

module _ {ℓ κ} {A : Type ℓ} {B : Type κ} where
  -- The rest of a block may use where the cursor is.
  pub bind-Outcome :
      (n k j : ℕ) (m : Parse A) (f : A → Parse B) (r : Reader)
      → j ≤ n + k
      → Outcome n r (m r)
      → ((a : A) (r' : Reader) → Advances n r r' → Outcome k r' (f a r'))
      → Outcome j r ((m >>= f) r)
  unfolding ◌>>=◌
  bind-Outcome n k j m f r le h hf = go (m r) h
    where
      go : (o : Result (A × Reader)) → Outcome n r o → Outcome j r ((◌>>=◌ (λ _. o) f) r)
      go (ok (a, r')) h = Outcome-trans n k j (f a r') h le (hf a r' h)
      go (err e) h = tt
      go stuck h = h

  pub SafeBy-bind :
      (n k j : ℕ) (m : Parse A) (f : A → Parse B)
      → j ≤ n + k
      → SafeBy n m
      → ((a : A) → SafeBy k (f a))
      → SafeBy j (m >>= f)
  SafeBy-bind n k j m f le s sf = record {
    at = λ r v.
        bind-Outcome n k j m f r le (s.at r v)
          λ a r' h. (sf a).at r' (record { within = h.within });
  }

  pub Safe-bind : (m : Parse A) (f : A → Parse B) → Safe m → ((a : A) → Safe (f a)) → Safe (m >>= f)
  Safe-bind m f s sf = SafeBy-bind 0 0 0 m f (omega arith) s sf

pub read_u8-SafeBy : SafeBy 1 read_u8
unfolding read_u8
read_u8-SafeBy = record {
  at = λ r v. elim (Bool-cases (leb (length r.buffer) r.position)) [
    | inl e ↦ rw e tt
    | inr e ↦ rw e (record { same_buffer = refl; forward = omega arith; within = ground arith })
  ];
}

pub read_exact-SafeBy : (n : ℕ) → SafeBy n (read_exact n)
unfolding read_exact
read_exact-SafeBy n = record {
  at = λ r v. elim (Bool-cases (ltb (length r.buffer) (r.position + n))) [
    | inl e ↦ rw e tt
    | inr e ↦ rw e (record { same_buffer = refl; forward = omega arith; within = ground arith })
  ];
}

pub ruleset basic = (Safe-pure, Safe-fail, Safe-if, Safe-bind)

pub Safe-read_exact : (n : ℕ) → Safe (read_exact n)
Safe-read_exact n = Safe-weaken n 0 _ (omega arith) (read_exact-SafeBy n)

pub Safe-read_u8 : Safe read_u8
Safe-read_u8 = Safe-weaken 1 0 _ (omega arith) read_u8-SafeBy

pub Safe-read_i16 : Safe read_i16
unfolding read_i16
Safe-read_i16 = search (basic, Safe-read_exact)

pub Safe-read_i32 : Safe read_i32
unfolding read_i32
Safe-read_i32 = search (basic, Safe-read_exact)

pub Safe-read_i64 : Safe read_i64
unfolding read_i64
Safe-read_i64 = search (basic, Safe-read_exact)

pub Safe-read_double : Safe read_double
unfolding read_double
Safe-read_double = Safe-read_i64

pub Safe-read_binary : Safe read_binary
unfolding read_binary
Safe-read_binary = search (basic, Safe-read_exact, Safe-read_i32)

pub Safe-read_string : Safe read_string
unfolding read_string
Safe-read_string = search (basic, Safe-read_binary)

pub read_field_begin-SafeBy : SafeBy 1 read_field_begin
unfolding read_field_begin
read_field_begin-SafeBy =
    SafeBy-bind 1 0 1 _ _ (omega arith) read_u8-SafeBy λ t. search (basic, Safe-read_i16)

pub ruleset safe_rules = (
  basic, Safe-read_u8, Safe-read_i16, Safe-read_i32, Safe-read_i64, Safe-read_double,
  Safe-read_binary, Safe-read_string,
)
