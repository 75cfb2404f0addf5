-- ===== src/Http/Fields.antt =====
-- The text under `sql` in a JSON object, and what `find` makes of it.
use sql_proxy_service.Prelude.{
  ◌≡◌, refl, sym, ◌≢◌, ◌⊎◌, inl, inr, Option, none, some, List, [], ◌∷◌, Bool-cases, Bytes, codes,
  bytes_eq, bytes_eq_iff,
}
use sql_proxy_service.Http.{Field, no_text, find_field}

-- The first entry under `sql` is a text.
pub data HoldsText (sql : Bytes) : List (Bytes × Field) → Type 0 where
  found :
      {k : Bytes} {v : Field} {fields : List (Bytes × Field)}
      → k ≡ codes "sql"
      → v ≡ Field.text sql
      → HoldsText sql ((k, v) ∷ fields)
  later :
      {k : Bytes} {v : Field} {fields : List (Bytes × Field)}
      → k ≢ codes "sql"
      → HoldsText sql fields
      → HoldsText sql ((k, v) ∷ fields)

HoldsText-head :
    {sql k : Bytes} {v : Field} {fields : List (Bytes × Field)}
    → HoldsText sql ((k, v) ∷ fields)
    → k ≡ codes "sql"
    → v ≡ Field.text sql
HoldsText-head (found e t) same = t
HoldsText-head (later n h) same = absurd (n same)

HoldsText-tail :
    {sql k : Bytes} {v : Field} {fields : List (Bytes × Field)}
    → HoldsText sql ((k, v) ∷ fields)
    → k ≢ codes "sql"
    → HoldsText sql fields
HoldsText-tail (found e t) other = absurd (other e)
HoldsText-tail (later n h) other = h

not-HoldsText : (sql : Bytes) → ¬ HoldsText sql []
not-HoldsText sql h = elim h [ ]

-- What the search for the key finds.
abbrev pub FieldCases : List (Bytes × Field) → Option Field → Type 0
FieldCases fields result =
    ((sql : Bytes) × (result ≡ some (Field.text sql)) × HoldsText sql fields)
    ⊎ (((result ≡ none) ⊎ (result ≡ some no_text)) × ((sql : Bytes) → ¬ HoldsText sql fields))

head_cases :
    (k : Bytes) (v : Field) (fields : List (Bytes × Field))
    → k ≡ codes "sql"
    → FieldCases ((k, v) ∷ fields) (some v)
head_cases k (Field.text sql) fields same = inl (sql, refl, found same refl)
head_cases k no_text fields same = inr (inr refl, (λ sql h. cc (HoldsText-head h same)))

pub find_field_cases :
    (fields : List (Bytes × Field)) → FieldCases fields (find_field (codes "sql") fields)
unfolding find_field
find_field_cases [] = inr (inl refl, not-HoldsText)
find_field_cases ((k, v) ∷ fields) = elim (Bool-cases (bytes_eq (codes "sql") k)) [
  | inl same ↦ rw same (head_cases k v fields (sym ((bytes_eq_iff (codes "sql") k).0 same)))
  | inr different ↦
      let other : k ≢ codes "sql" = λ e. cc (different, (bytes_eq_iff (codes "sql") k).1 (sym e)) in
      elim (find_field_cases fields) [
        | inl (sql, e, h) ↦ inl (sql, rw (different, e) refl, later other h)
        | inr (e, h) ↦ inr (rw different e, (λ sql g. h sql (HoldsText-tail g other)))
      ]
]
