-- ===== src/Thrift/Codec/Skip/Safe.antt =====
-- The end of skipping and of loops over fields, and the cursor: src/thrift/codec.rs, src/thrift.rs.
use harborsql.Base.{
  ℕ, zero, suc, ◌+◌, ◌≤◌, ◌<◌, Bool, arith, length, ltb, ◌==◌, ap, ◌∙◌, Bytes, ltb→le, Bool-cases,
  inl, inr, if◌then◌else◌,
}
use harborsql.Thrift.Protocol.{t_stop}
use harborsql.Thrift.Result.{Position, Container, stop_in_value, unsupported_type}
use harborsql.Thrift.Codec.Reader.{Reader, Parse, ◌>>=◌, remaining, read_field_begin, pure, fail}
use harborsql.Thrift.Codec.Reader.Safe.{
  IsValid, Advances, Outcome, Safe, Outcome-if, safe_rules, Safe-if, Safe-bind, Safe-pure,
  Safe-fail, Safe-read_u8, Safe-read_i16, Safe-read_i32, Safe-read_i64, Safe-read_double,
  Safe-read_binary, bind-Outcome, read_field_begin-SafeBy,
}
use harborsql.Thrift.Codec.Skip.{
  Skip, fields_loop, read_fields, repeat, check_depth, read_container_element_type,
  read_container_size, skip_fields_with, skip_map_with, skip_list_with, skip_value_with,
  skip_at_depth, skip_remaining_struct_fields_at_depth, skip_remaining_struct_fields, skip,
  max_skip_depth,
}

pub shrinks :
    (fuel : ℕ) (r r' r'' : Reader)
    → remaining r < suc fuel
    → Advances 1 r r'
    → Advances 0 r' r''
    → remaining r'' < fuel
shrinks fuel r r' r'' h a a' = omega (
  arith,
  a'.forward,
  a'.within,
  a.forward,
  ap (λ (b : Bytes). length b) (a'.same_buffer ∙ a.same_buffer),
)

module _ {ℓ} {S : Type ℓ} (field : S → ℕ → ℕ → Parse S)
    (field-Safe : (s : S) (t id : ℕ) → Safe (field s t id)) where
  fields_loop-Outcome :
      (fuel : ℕ) (s : S) (r : Reader)
      → IsValid r
      → remaining r < fuel
      → Outcome 0 r (fields_loop fuel field s r)
  unfolding fields_loop
  fields_loop-Outcome zero s r v h = absurd (omega arith)
  fields_loop-Outcome (suc fuel) s r v h =
      bind-Outcome 1 0 0 read_field_begin _ r (omega arith) (read_field_begin-SafeBy.at r v)
        λ (t, id) r' a.
          Outcome-if 0 (t == t_stop) _ _ r'
            (λ _. (Safe-pure s).at r' (record { within = a.within }))
            λ _.
              bind-Outcome 0 0 0 (field s t id) _ r' (omega arith)
                ((field-Safe s t id).at r' (record { within = a.within }))
                λ s' r'' a'.
                  fields_loop-Outcome fuel s' r'' (record { within = a'.within })
                    (shrinks fuel r r' r'' h a a')

  -- The loop ends: each round reads a byte at least.
  pub Safe-read_fields : (s : S) → Safe (read_fields field s)
  unfolding read_fields
  Safe-read_fields s = record {
    at = λ r v. fields_loop-Outcome (suc (remaining r)) s r v (omega arith);
  }

pub Safe-repeat : (n : ℕ) (body : Skip) → Safe body → Safe (repeat n body)
unfolding repeat
Safe-repeat zero body s = Safe-pure tt
Safe-repeat (suc n) body s = Safe-bind body _ s λ _. Safe-repeat n body s

Safe-read_container_element_type :
    (position : Position) → Safe (read_container_element_type position)
unfolding read_container_element_type
Safe-read_container_element_type position = search safe_rules

Safe-read_container_size : (kind : Container) → Safe (read_container_size kind)
unfolding read_container_size
Safe-read_container_size kind = search safe_rules

-- What follows `check_depth` may use that the depth is allowed.
Safe-check_depth :
    (depth : ℕ) (m : Skip) → (depth ≤ max_skip_depth → Safe m) → Safe (check_depth depth >>= λ _. m)
unfolding check_depth ◌>>=◌ pure fail
Safe-check_depth depth m s = elim (Bool-cases (ltb max_skip_depth depth)) [
  | inl e ↦ rw e (record { at = λ r v. tt })
  | inr e ↦ rw e (record { at = λ r v. (s (ltb→le _ _ e)).at r v })
]

module _ (call : ℕ → ℕ → Skip) (depth : ℕ) where
  Safe-skip_fields_with :
      ((t : ℕ) → depth ≤ max_skip_depth → Safe (call t (depth + 1)))
      → Safe (skip_fields_with call depth)
  unfolding skip_fields_with
  Safe-skip_fields_with s = Safe-check_depth depth _ λ le. Safe-read_fields _ (λ _ t _. s t le) tt

  Safe-skip_map_with : ((t : ℕ) → Safe (call t (depth + 1))) → Safe (skip_map_with call depth)
  unfolding skip_map_with
  Safe-skip_map_with s =
      search (safe_rules, Safe-read_container_element_type, Safe-read_container_size, Safe-repeat)
        depth 9

  Safe-skip_list_with : ((t : ℕ) → Safe (call t (depth + 1))) → Safe (skip_list_with call depth)
  unfolding skip_list_with
  Safe-skip_list_with s =
      search (safe_rules, Safe-read_container_element_type, Safe-read_container_size, Safe-repeat)

either : (b : Bool) (m m' : Skip) → Safe m → Safe m' → Safe (if b then m else m')
either b m m' s s' = Safe-if 0 _ _ _ (λ _. s) (λ _. s')

ignore-Safe : (m : Parse ℕ) → Safe m → (let n : Skip = m >>= (λ _. pure tt) in Safe n)
ignore-Safe m s = Safe-bind m _ s λ _. Safe-pure tt

Safe-skip_value_with :
    (call : ℕ → ℕ → Skip) (t depth : ℕ)
    → ((u : ℕ) → Safe (call u (depth + 1)))
    → ((u : ℕ) → depth + 1 ≤ max_skip_depth → Safe (call u (depth + 1 + 1)))
    → Safe (skip_value_with call t depth)
unfolding skip_value_with
Safe-skip_value_with call t depth s s' = either _ _ _ (Safe-fail 0 stop_in_value) (
    either _ _ _ (ignore-Safe _ Safe-read_u8) (
      either _ _ _ (ignore-Safe _ Safe-read_i16) (
        either _ _ _ (ignore-Safe _ Safe-read_i32) (
          either _ _ _ (ignore-Safe _ Safe-read_i64) (
            either _ _ _ (ignore-Safe _ Safe-read_double) (
              either _ _ _ (Safe-bind _ _ Safe-read_binary λ _. Safe-pure tt) (
                either _ _ _ (Safe-skip_fields_with call (depth + 1) s') (
                  either _ _ _ (Safe-skip_map_with call depth s) (
                    either _ _ _ (Safe-skip_list_with call depth s)
                      (Safe-fail 0 (unsupported_type t)))))))))))

-- 34 levels of calls are enough, since `check_depth` refuses depth 33.
Safe-skip_at_depth :
    (levels t depth : ℕ) → 34 ≤ levels + depth → depth ≤ 33 → Safe (skip_at_depth levels t depth)
unfolding skip_at_depth
Safe-skip_at_depth zero t depth h h' = absurd (omega arith)
Safe-skip_at_depth (suc levels) t depth h h' = Safe-check_depth depth _ λ le.
    Safe-skip_value_with _ t depth
      (λ u. Safe-skip_at_depth levels u (depth + 1) (omega arith) (omega arith))
      (λ u le'. Safe-skip_at_depth levels u (depth + 1 + 1) (omega arith) (omega arith))

pub Safe-skip : (t : ℕ) → Safe (skip t)
unfolding skip
Safe-skip t = Safe-skip_at_depth 34 t 0 (omega arith) (omega arith)

-- For every field type, also an invalid one, and a cursor inside its buffer: `skip` gives a result, and when
-- that is no error the cursor is in the same buffer, not before where it was and not past the end.
pub skip-Outcome : (t : ℕ) (r : Reader) → IsValid r → Outcome 0 r (skip t r)
skip-Outcome t r v = (Safe-skip t).at r v

pub Safe-skip_remaining_struct_fields : Safe skip_remaining_struct_fields
unfolding skip_remaining_struct_fields skip_remaining_struct_fields_at_depth
Safe-skip_remaining_struct_fields =
    Safe-skip_fields_with _ 0 λ t le. Safe-skip_at_depth 34 t 1 (omega arith) (omega arith)
