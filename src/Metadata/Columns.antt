-- ===== src/Metadata/Columns.antt =====
-- The types of columns as drivers are told them: `column_metadata_rows` of src/engine/metadata/mod.rs and
-- what it calls. A number of 32 bits with a sign is the number of its bits.
pub mod Rows
use harborsql.Base.{
  ℕ, zero, suc, ◌+◌, ◌-◌, ◌*◌, ◌^◌, ◌%◌, Bool, true, false, not, ◌&&◌, ◌||◌, Option, none, some,
  List, [], ◌∷◌, map, Str, ascii, split, trim, to_ascii_uppercase, leb, ltb, ◌==◌, if◌then◌else◌,
}
use harborsql.Base.Text.{bytes_eq}
use harborsql.Metadata.Infos.{ColumnInfo, or_else, nonempty}

unfoldable pub one_of : List Str → Str → Bool
one_of [] t = false
one_of (name ∷ names) t = bytes_eq t name || one_of names t

-- The negative number of 32 bits.
unfoldable pub negative : ℕ → ℕ
negative n = (2 ^ 32 - n) % 2 ^ 32

unfoldable pub column_type_name : ColumnInfo → Str
column_type_name column = elim (nonempty (or_else column.type_text column.type_name)) [
  | none ↦ ascii "STRING"
  | some value ↦ map to_ascii_uppercase value
]

-- `split(['(', '<']).next()`
unfoldable pub before_bracket : Str → Str
before_bracket [] = []
before_bracket (c ∷ t) = let rest = before_bracket t in if c == 40 || c == 60 then [] else c ∷ rest

unfoldable pub base_type_name : Str → Str
base_type_name type_name = trim (before_bracket type_name)

-- The arms of a `match` on the base name: the value of the first that lists it.
unfoldable pub first_arm {ℓ} : {A : Type ℓ} → List (List Str × A) → A → Str → A
first_arm [] default name = default
first_arm ((names, value) ∷ arms) default name =
    let rest = first_arm arms default name in if one_of names name then value else rest

abbrev boolean_names : List Str
boolean_names = ascii "BOOLEAN" ∷ ascii "BOOL" ∷ []

abbrev byte_names : List Str
byte_names = ascii "BYTE" ∷ ascii "TINYINT" ∷ []

abbrev short_names : List Str
short_names = ascii "SHORT" ∷ ascii "SMALLINT" ∷ []

abbrev long_names : List Str
long_names = ascii "LONG" ∷ ascii "BIGINT" ∷ []

abbrev timestamp_names : List Str
timestamp_names = ascii "TIMESTAMP" ∷ ascii "TIMESTAMP_NTZ" ∷ []

abbrev pub decimal_names : List Str
decimal_names = ascii "DECIMAL" ∷ ascii "NUMERIC" ∷ []

abbrev text_names : List Str
text_names = ascii "STRING" ∷ ascii "VARCHAR" ∷ ascii "CHAR" ∷ []

unfoldable pub jdbc_data_type : Str → ℕ
jdbc_data_type type_name =
    first_arm
      ((boolean_names, 16)
        ∷ (byte_names, negative 6)
        ∷ (short_names, 5)
        ∷ (ascii "INT" ∷ ascii "INTEGER" ∷ [], 4)
        ∷ (long_names, negative 5)
        ∷ (ascii "FLOAT" ∷ [], 6)
        ∷ (ascii "DOUBLE" ∷ [], 8)
        ∷ (ascii "DATE" ∷ [], 91)
        ∷ (timestamp_names, 93)
        ∷ (ascii "BINARY" ∷ [], negative 2)
        ∷ (decimal_names, 3)
        ∷ (ascii "ARRAY" ∷ [], 2003)
        ∷ (ascii "STRUCT" ∷ [], 2002)
        ∷ (ascii "MAP" ∷ [], 2000)
        ∷ [])
      12 (base_type_name type_name)

-- `parse::<i32>` of digits: their number, if every character is a digit.
unfoldable pub digits : ℕ → Str → Option ℕ
digits n [] = some n
digits n (c ∷ t) =
    let rest = digits (n * 10 + (c - 48)) t in if leb 48 c && leb c 57 then rest else none

unfoldable pub unsigned : ℕ → Str → Option ℕ
unsigned limit [] = none
unsigned limit (c ∷ t) = elim (digits 0 (c ∷ t)) [
  | none ↦ none
  | some n ↦ if leb n limit then some n else none
]

unfoldable pub parse_i32 : Str → Option ℕ
parse_i32 [] = none
parse_i32 (c ∷ t) =
    if c == 43
    then unsigned (2 ^ 31 - 1) t
    else if c == 45
    then (elim (unsigned (2 ^ 31) t) [ none ↦ none | some n ↦ some (negative n) ])
    else unsigned (2 ^ 31 - 1) (c ∷ t)

-- What follows the first such character, and what comes before it.
unfoldable pub after : ℕ → Str → Option Str
after sep [] = none
after sep (c ∷ t) = let rest = after sep t in if c == sep then some t else rest

unfoldable pub before : ℕ → Str → Option Str
before sep [] = none
before sep (c ∷ t) =
    let rest = before sep t in
    if c == sep then some [] else (elim rest [ none ↦ none | some u ↦ some (c ∷ u) ])

-- `collect` of options: a list, unless one is missing.
unfoldable pub collect : List (Option ℕ) → Option (List ℕ)
collect [] = some []
collect (none ∷ rest) = none
collect (some n ∷ rest) = elim (collect rest) [ none ↦ none | some ns ↦ some (n ∷ ns) ]

unfoldable pub parse_decimal_parts : Str → Option (List ℕ)
parse_decimal_parts type_name = elim (after 40 type_name) [
  | none ↦ none
  | some behind ↦ elim (before 41 behind) [
    | none ↦ none
    | some inside ↦
        let parts = split 44 inside in
        collect (map (λ part. parse_i32 (trim part)) (parts.0 ∷ parts.1))
  ]
]

unfoldable pub get_part : ℕ → Option (List ℕ) → Option ℕ
get_part n none = none
get_part n (some []) = none
get_part zero (some (p ∷ ps)) = some p
get_part (suc n) (some (p ∷ ps)) = get_part n (some ps)

unfoldable pub parse_precision : Str → Option ℕ
parse_precision type_name = get_part 0 (parse_decimal_parts type_name)

unfoldable pub parse_scale : Str → Option ℕ
parse_scale type_name = get_part 1 (parse_decimal_parts type_name)

unfoldable pub column_size : Str → ColumnInfo → Option ℕ
column_size type_name column =
    first_arm
      ((decimal_names, or_else column.type_precision (parse_precision type_name))
        ∷ (byte_names, some 3)
        ∷ (short_names, some 5)
        ∷ (ascii "INT" ∷ ascii "INTEGER" ∷ ascii "DATE" ∷ [], some 10)
        ∷ (long_names, some 19)
        ∷ (ascii "FLOAT" ∷ [], some 7)
        ∷ (ascii "DOUBLE" ∷ [], some 15)
        ∷ (timestamp_names, some 29)
        ∷ (ascii "BOOLEAN" ∷ ascii "BOOL" ∷ ascii "BINARY" ∷ [], some 1)
        ∷ (text_names, some 255)
        ∷ (ascii "ARRAY" ∷ ascii "MAP" ∷ ascii "STRUCT" ∷ [], some 255)
        ∷ [])
      none (base_type_name type_name)

unfoldable pub decimal_digits : Str → ColumnInfo → Option ℕ
decimal_digits type_name column =
    first_arm
      ((decimal_names, or_else (or_else column.type_scale (parse_scale type_name)) (some 0))
        ∷ (timestamp_names, some 9)
        ∷ [])
      (some 0) (base_type_name type_name)

unfoldable pub num_prec_radix : Str → Option ℕ
num_prec_radix type_name =
    first_arm
      ((
        ascii "BYTE"
            ∷ ascii "TINYINT"
            ∷ ascii "SHORT"
            ∷ ascii "SMALLINT"
            ∷ ascii "INT"
            ∷ ascii "INTEGER"
            ∷ ascii "LONG"
            ∷ ascii "BIGINT"
            ∷ ascii "FLOAT"
            ∷ ascii "DOUBLE"
            ∷ ascii "DECIMAL"
            ∷ ascii "NUMERIC"
            ∷ [],
        some 10,
      )
        ∷ [])
      (some 0) (base_type_name type_name)

unfoldable pub sql_datetime_sub : Str → Option ℕ
sql_datetime_sub type_name =
    first_arm ((ascii "DATE" ∷ [], some 91) ∷ (timestamp_names, some 93) ∷ []) none
      (base_type_name type_name)

unfoldable pub char_octet_length : Str → Option ℕ
char_octet_length type_name =
    first_arm ((text_names, some 255) ∷ (ascii "BINARY" ∷ [], some 32767) ∷ []) none
      (base_type_name type_name)
