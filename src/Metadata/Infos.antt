-- ===== src/Metadata/Infos.antt =====
-- What Unity Catalog tells of catalogs, schemas, tables and columns: the answers in src/unity.rs, and what
-- src/engine/metadata/mod.rs reads from them. A number of 32 bits with a sign is the number of its bits.
use harborsql.Base.{
  ℕ, Bool, true, false, not, Option, none, some, List, [], ◌∷◌, ◌++◌, map, Str, ascii, split, join,
  is_empty, to_ascii_lowercase, to_ascii_uppercase, if◌then◌else◌,
}
use harborsql.Base.Text.{bytes_eq}

pub record ColumnInfo : Type 0 where
  pub name : Str
  pub position : Option ℕ
  pub type_name : Option Str
  pub type_text : Option Str
  pub type_precision : Option ℕ
  pub type_scale : Option ℕ
  pub nullable : Option Bool
  pub comment : Option Str

pub record TableInfo : Type 0 where
  pub table_id : Option Str
  pub full_name : Str
  pub name : Option Str
  pub catalog_name : Option Str
  pub schema_name : Option Str
  pub table_type : Option Str
  pub data_source_format : Option Str
  pub storage_location : Option Str
  pub comment : Option Str
  pub owner : Option Str
  pub created_at : Option ℕ
  pub created_by : Option Str
  pub updated_at : Option ℕ
  pub updated_by : Option Str
  pub columns : List ColumnInfo

pub record CatalogInfo : Type 0 where
  pub name : Str
  pub catalog_type : Option Str

pub record SchemaInfo : Type 0 where
  pub name : Str
  pub full_name : Option Str

-- The functions on an option that the code uses.
unfoldable pub unwrap_or {ℓ} : {A : Type ℓ} → A → Option A → A
unwrap_or default none = default
unwrap_or default (some a) = a

unfoldable pub or_else {ℓ} : {A : Type ℓ} → Option A → Option A → Option A
or_else none other = other
or_else (some a) other = some a

unfoldable pub is_some {ℓ} : {A : Type ℓ} → Option A → Bool
is_some none = false
is_some (some a) = true

-- `.filter(|value| !value.is_empty())`
unfoldable pub nonempty : Option Str → Option Str
nonempty none = none
nonempty (some []) = none
nonempty (some (c ∷ t)) = some (c ∷ t)

last_of : Str → List Str → Str
last_of t [] = t
last_of t (u ∷ ts) = last_of u ts

-- `rsplit('.').next()`, which never fails.
unfoldable pub last_part : Str → Str
unfolding last_of
last_part t = let parts = split 46 t in last_of parts.0 parts.1

unfoldable pub schema_name : SchemaInfo → Str
schema_name schema =
    if is_empty schema.name
    then (elim schema.full_name [ none ↦ [] | some full_name ↦ last_part full_name ])
    else schema.name

unfoldable pub table_name : TableInfo → Str
table_name table = unwrap_or (last_part table.full_name) table.name

unfoldable pub is_view_like : TableInfo → Bool
is_view_like table = elim table.table_type [
  | none ↦ false
  | some table_type ↦ bytes_eq (map to_ascii_uppercase table_type) (ascii "VIEW")
]

unfoldable pub is_table_like : TableInfo → Bool
is_table_like table = not (is_view_like table)

-- A line of `table_information`, for a value that is there and not empty.
line : Str → Option Str → List Str
line label none = []
line label (some []) = []
line label (some (c ∷ t)) = (label ++ (c ∷ t)) ∷ []

lower : Option Str → Option Str
lower none = none
lower (some t) = some (map to_ascii_lowercase t)

unfoldable pub table_information : TableInfo → Str
unfolding line lower
table_information table = join (10 ∷ []) (
    line (ascii "Catalog: ") table.catalog_name
    ++ (line (ascii "Database: ") table.schema_name
        ++ (((ascii "Table: " ++ table_name table) ∷ [])
            ++ (line (ascii "Type: ") table.table_type
                ++ (line (ascii "Provider: ") (lower table.data_source_format)
                    ++ (line (ascii "Comment: ") table.comment
                        ++ line (ascii "Created By: ") table.created_by))))))
