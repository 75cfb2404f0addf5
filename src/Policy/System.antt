-- ===== src/Policy/System.antt =====
-- Which table entries count as system tables.
use sql_proxy_service.Prelude.{
  ◌≡◌, ◌↔◌, ◌⊎◌, inl, inr, true, [], ◌∷◌, ◌++◌, arith, if◌then◌else◌, Bool-cases, Bytes, codes,
  bytes_eq, bytes_eq_iff,
}
use sql_proxy_service.Text.{
  ascii_lower, ascii_lower_idem, ascii_lower-append, ascii_lower-Free, starts_with, starts_with_iff,
  dot, Free,
}
use sql_proxy_service.Text.Qualifier.{find-append, find-Free, take-append_length, drop-suc-length}
use sql_proxy_service.Policy.{schema_part, table_part, is_catalog_schema, is_system_table}

parts-qualified :
    (schema table : Bytes)
    → Free dot schema
    → (schema_part (schema ++ dot ∷ table) ≡ schema) × (table_part (schema ++ dot ∷ table) ≡ table)
unfolding schema_part table_part
parts-qualified schema table h = (
  ground (arith, find-append dot schema table h, take-append_length schema (dot ∷ table)),
  ground (arith, find-append dot schema table h, drop-suc-length dot schema table),
)

parts-plain : (name : Bytes) → Free dot name → (schema_part name ≡ []) × (table_part name ≡ name)
unfolding schema_part table_part
parts-plain name h = (ground (arith, find-Free dot name h), ground (arith, find-Free dot name h))

lower-qualified :
    (schema table : Bytes)
    → ascii_lower (schema ++ dot ∷ table) ≡ ascii_lower schema ++ dot ∷ ascii_lower table
unfolding ascii_lower
lower-qualified schema table = ascii_lower-append schema (dot ∷ table)

-- A name that begins with "pg_", in any case.
abbrev pub HasPgPrefix : Bytes → Type 0
HasPgPrefix name = (rest : Bytes) × (ascii_lower name ≡ codes "pg_" ++ rest)

abbrev pub IsCatalogSchema : Bytes → Type 0
IsCatalogSchema schema =
    (ascii_lower schema ≡ codes "pg_catalog") ⊎ (ascii_lower schema ≡ codes "information_schema")

is_catalog_schema_iff :
    (s : Bytes)
    → (is_catalog_schema s ≡ true) ↔ ((s ≡ codes "pg_catalog") ⊎ (s ≡ codes "information_schema"))
unfolding is_catalog_schema
is_catalog_schema_iff s = (
  λ h.
      ground
        (arith, bytes_eq_iff s (codes "pg_catalog"), bytes_eq_iff s (codes "information_schema")),
  λ h.
      ground
        (arith, bytes_eq_iff s (codes "pg_catalog"), bytes_eq_iff s (codes "information_schema")),
)

-- The test on the two parts, as a statement.
test_iff :
    (s t : Bytes)
    → ((if is_catalog_schema s then true else starts_with (codes "pg_") t) ≡ true) ↔ (
        ((s ≡ codes "pg_catalog") ⊎ (s ≡ codes "information_schema"))
        ⊎ ((rest : Bytes) × (t ≡ codes "pg_" ++ rest)))
test_iff s t = elim (Bool-cases (is_catalog_schema s)) [
  | inl h ↦ ((λ _. inl ((is_catalog_schema_iff s).0 h)), (λ _. rw h))
  | inr h ↦ (
    (λ e. inr ((starts_with_iff (codes "pg_") t).0 (rw h at e))),
    (λ e. elim e [
      | inl c ↦ rw ((is_catalog_schema_iff s).1 c)
      | inr p ↦ rw h ((starts_with_iff (codes "pg_") t).1 p)
    ]),
  )
]

-- A table in a schema is a system table exactly if, in any case of the letters, the schema is a
-- catalog schema or the table's name begins with "pg_".
pub is_system_table-qualified :
    (schema table : Bytes)
    → Free dot schema
    → (is_system_table (schema ++ dot ∷ table) ≡ true)
      ↔ (IsCatalogSchema schema ⊎ HasPgPrefix table)
unfolding is_system_table
is_system_table-qualified schema table h =
    let parts =
      parts-qualified (ascii_lower schema) (ascii_lower table) (ascii_lower-Free schema h) in
    rw (lower-qualified schema table, parts.0, parts.1)
      (test_iff (ascii_lower schema) (ascii_lower table))

-- An unqualified one is exactly if its name begins with "pg_".
is_system_table-plain :
    (name : Bytes) → Free dot name → (is_system_table name ≡ true) ↔ HasPgPrefix name
unfolding is_system_table is_catalog_schema bytes_eq
is_system_table-plain name h =
    let parts = parts-plain (ascii_lower name) (ascii_lower-Free name h) in
    rw (parts.0, parts.1) (starts_with_iff (codes "pg_") (ascii_lower name))

-- The deny rule does not depend on the case of the letters.
is_system_table-ascii_lower :
    (name : Bytes) → is_system_table (ascii_lower name) ≡ is_system_table name
unfolding is_system_table
is_system_table-ascii_lower name = rw ascii_lower_idem
