-- ===== src/Metadata/Names/Agreement.antt =====
-- `resolve_table` of src/engine/metadata/mod.rs, next to what the two names of SHOW COLUMNS say.
use harborsql.Base.{
  ◌≡◌, refl, ap, subst, [], ◌∷◌, Bool, true, false, not, Bool-cases, inl, inr, ◌↔◌, Option, none,
  some, Str, bytes_eq_iff, bytes_eq→eq,
}
use harborsql.Base.Text.{bytes_eq}
use harborsql.Error.Outcome.{ok, bind_steps}
use harborsql.Metadata.Statements.{ObjectName}
use harborsql.Metadata.Infos.{unwrap_or, or_else}
use harborsql.Metadata.Names
use harborsql.Metadata.Names.{ResolvedTable}

-- What two names that may be missing settle, where nothing is named the default.
abbrev pub Settles : Str → Option Str → Option Str → Str → Type 0
Settles default none none x = default ≡ x
Settles default (some a) none x = a ≡ x
Settles default none (some b) x = b ≡ x
Settles default (some a) (some b) x = (a ≡ b) × (a ≡ x)

not-false : (b : Bool) → not b ≡ false → b ≡ true
not-false true h = refl
not-false false h = absurd cc

eq→bytes_eq : (a b : Str) → a ≡ b → bytes_eq a b ≡ true
eq→bytes_eq a b = (bytes_eq_iff a b).1

Settles-iff :
    (default : Str) (a b : Option Str) (x : Str)
    → ((Names.differ a b ≡ false) × (unwrap_or default (or_else a b) ≡ x)) ↔ Settles default a b x
unfolding Names.differ unwrap_or or_else
Settles-iff default none none x = (λ h. h.1, λ h. (refl, h))
Settles-iff default (some a) none x = (λ h. h.1, λ h. (refl, h))
Settles-iff default none (some b) x = (λ h. h.1, λ h. (refl, h))
Settles-iff default (some a) (some b) x = (
  λ h. (bytes_eq→eq a b (not-false (bytes_eq a b) h.0), h.1),
  λ h. (rw (eq→bytes_eq a b h.0) refl, h.1),
)

-- What the name of a table says: its catalog and its schema, if they are named, and its own name.
pub data SaysTable : ObjectName → Option Str → Option Str → Str → Type 0 where
  one_part : {table : Str} → SaysTable (table ∷ []) none none table
  two_parts : {schema table : Str} → SaysTable (schema ∷ table ∷ []) none (some schema) table
  three_parts :
      {catalog schema table : Str}
      → SaysTable (catalog ∷ schema ∷ table ∷ []) (some catalog) (some schema) table

-- What the name of a schema beside it says, if there is one.
pub data SaysSchema : Option ObjectName → Option Str → Option Str → Type 0 where
  no_name : SaysSchema none none none
  only_schema : {schema : Str} → SaysSchema (some (schema ∷ [])) none (some schema)
  both_parts :
      {catalog schema : Str}
      → SaysSchema (some (catalog ∷ schema ∷ [])) (some catalog) (some schema)

table_parts-SaysTable :
    (name : ObjectName) (t : Option Str × Option Str × Str)
    → Names.table_parts name ≡ ok t
    → SaysTable name t.0 t.1 t.2
unfolding Names.table_parts
table_parts-SaysTable [] t h = absurd cc
table_parts-SaysTable (table ∷ []) t h =
    let e : (none, none, table) ≡ t = cc in
    subst (λ t. SaysTable (table ∷ []) t.0 t.1 t.2) e one_part
table_parts-SaysTable (schema ∷ table ∷ []) t h =
    let e : (none, some schema, table) ≡ t = cc in
    subst (λ t. SaysTable (schema ∷ table ∷ []) t.0 t.1 t.2) e two_parts
table_parts-SaysTable (catalog ∷ schema ∷ table ∷ []) t h =
    let e : (some catalog, some schema, table) ≡ t = cc in
    subst (λ t. SaysTable (catalog ∷ schema ∷ table ∷ []) t.0 t.1 t.2) e three_parts
table_parts-SaysTable (a ∷ b ∷ c ∷ d ∷ name) t h = absurd cc

SaysTable-table_parts :
    (name : ObjectName) (c s : Option Str) (t : Str)
    → SaysTable name c s t
    → Names.table_parts name ≡ ok (c, s, t)
unfolding Names.table_parts
SaysTable-table_parts _ _ _ _ one_part = refl
SaysTable-table_parts _ _ _ _ two_parts = refl
SaysTable-table_parts _ _ _ _ three_parts = refl

schema_parts-SaysSchema :
    (name : Option ObjectName) (s : Option Str × Option Str)
    → Names.schema_parts name ≡ ok s
    → SaysSchema name s.0 s.1
unfolding Names.schema_parts
schema_parts-SaysSchema none s h =
    let e : (none, none) ≡ s = cc in subst (λ s. SaysSchema none s.0 s.1) e no_name
schema_parts-SaysSchema (some []) s h = absurd cc
schema_parts-SaysSchema (some (schema ∷ [])) s h =
    let e : (none, some schema) ≡ s = cc in
    subst (λ s. SaysSchema (some (schema ∷ [])) s.0 s.1) e only_schema
schema_parts-SaysSchema (some (catalog ∷ schema ∷ [])) s h =
    let e : (some catalog, some schema) ≡ s = cc in
    subst (λ s. SaysSchema (some (catalog ∷ schema ∷ [])) s.0 s.1) e both_parts
schema_parts-SaysSchema (some (a ∷ b ∷ c ∷ name)) s h = absurd cc

SaysSchema-schema_parts :
    (name : Option ObjectName) (c s : Option Str)
    → SaysSchema name c s
    → Names.schema_parts name ≡ ok (c, s)
unfolding Names.schema_parts
SaysSchema-schema_parts _ _ _ no_name = refl
SaysSchema-schema_parts _ _ _ only_schema = refl
SaysSchema-schema_parts _ _ _ both_parts = refl

-- The table that the names say.
pub record IsResolved (table_name : ObjectName) (schema_name : Option ObjectName)
    (default_catalog default_schema : Str) (r : ResolvedTable) : Type 0 where
  pub catalog : Option Str
  pub schema : Option Str
  pub catalog_beside : Option Str
  pub schema_beside : Option Str
  pub table_says : SaysTable table_name catalog schema r.table
  pub schema_says : SaysSchema schema_name catalog_beside schema_beside
  pub catalogs : Settles default_catalog catalog catalog_beside r.catalog
  pub schemas : Settles default_schema schema schema_beside r.schema

resolve_parts-Settles :
    (dc ds : Str) (t : Option Str × Option Str × Str) (s : Option Str × Option Str)
    (r : ResolvedTable)
    → Names.resolve_parts dc ds t s ≡ ok r
    → Settles dc t.0 s.0 r.catalog × Settles ds t.1 s.1 r.schema × (t.2 ≡ r.table)
unfolding Names.resolve_parts
resolve_parts-Settles dc ds t s r = elim (Bool-cases (Names.differ t.1 s.1)) [
  | inl e ↦ rw e (λ h. absurd cc)
  | inr e ↦ rw e (elim (Bool-cases (Names.differ t.0 s.0)) [
    | inl f ↦ rw f (λ h. absurd cc)
    | inr f ↦ rw f (λ h.
        let same : record {
          catalog = unwrap_or dc (or_else t.0 s.0);
          schema = unwrap_or ds (or_else t.1 s.1);
          table = t.2;
        }
            ≡ r =
          cc in
        (
          (Settles-iff dc t.0 s.0 r.catalog).0 (f, ap (λ (x : ResolvedTable). x.catalog) same),
          (Settles-iff ds t.1 s.1 r.schema).0 (e, ap (λ (x : ResolvedTable). x.schema) same),
          ap (λ (x : ResolvedTable). x.table) same,
        ))
  ])
]

Settles-resolve_parts :
    (dc ds : Str) (t : Option Str × Option Str × Str) (s : Option Str × Option Str)
    (r : ResolvedTable)
    → Settles dc t.0 s.0 r.catalog
    → Settles ds t.1 s.1 r.schema
    → t.2 ≡ r.table
    → Names.resolve_parts dc ds t s ≡ ok r
unfolding Names.resolve_parts
Settles-resolve_parts dc ds t s r c d e =
    let x = (Settles-iff dc t.0 s.0 r.catalog).1 c in
    let y = (Settles-iff ds t.1 s.1 r.schema).1 d in rw (y.0, x.0, x.1, y.1, e) refl

-- SHOW COLUMNS reads a table exactly where its name has one to three parts and the name beside it, if there is
-- one, has one or two, and they do not contradict each other. The parts are the catalog, the schema and the
-- table, and beside it the catalog and the schema; where there are fewer, the first ones are missing. The
-- catalog and the schema of the table are those that either name gives, the same if both do, and the defaults
-- where neither does.
pub resolve_table_iff :
    (table_name : ObjectName) (schema_name : Option ObjectName)
    (default_catalog default_schema : Str) (r : ResolvedTable)
    → (Names.resolve_table table_name schema_name default_catalog default_schema ≡ ok r)
      ↔ IsResolved table_name schema_name default_catalog default_schema r
unfolding Names.resolve_table
resolve_table_iff table_name schema_name dc ds r = (
  λ h.
      let (t, et, ht) = bind_steps (Names.table_parts table_name) _ r h in
      let (s, es, hs) = bind_steps (Names.schema_parts schema_name) _ r ht in
      let (catalogs, schemas, own) = resolve_parts-Settles dc ds t s r hs in
      record {
        catalog = t.0;
        schema = t.1;
        catalog_beside = s.0;
        schema_beside = s.1;
        table_says =
            subst (SaysTable table_name t.0 t.1) own (table_parts-SaysTable table_name t et);
        schema_says = schema_parts-SaysSchema schema_name s es;
        catalogs = catalogs;
        schemas = schemas;
      },
  λ h.
      rw
        (
          SaysTable-table_parts table_name h.catalog h.schema r.table h.table_says,
          SaysSchema-schema_parts schema_name h.catalog_beside h.schema_beside h.schema_says,
        )
        (Settles-resolve_parts dc ds (h.catalog, h.schema, r.table)
          (h.catalog_beside, h.schema_beside) r h.catalogs h.schemas refl),
)
