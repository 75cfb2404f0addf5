-- ===== src/Analyzer/Tables.antt =====
-- The table list: each name once, in the order of its first mention; and blank input.
use sql_proxy_service.Prelude.{
  ℕ, ◌≡◌, refl, sym, ap, ◌∙◌, ◌↔◌, inl, inr, true, List, [], ◌∷◌, ◌++◌, map, arith, ◌==◌,
  Bool-cases, any, All, Bytes, occurs, dedup, remaining, Distinct, remaining-without_of_occurs,
  remaining-append, remaining-nil, dedup-Distinct, occurs-dedup,
}
use sql_proxy_service.Analysis.{TableRef}
use sql_proxy_service.Analyzer.{
  whitespace, find_first_not_of, is_blank, qualified_name, normalized_from, normalized_tables,
}
use mathlib.Core.List.{append_assoc, append-nil}

normalized_from_lem :
    (acc : List Bytes) (tables : List TableRef)
    → normalized_from acc tables ≡ acc ++ remaining acc (dedup (map qualified_name tables))
unfolding normalized_from
normalized_from_lem acc [] = sym (append-nil acc)
normalized_from_lem acc (t ∷ ts) = elim (Bool-cases (occurs (qualified_name t) acc)) [
  | inl old ↦
      rw (old, normalized_from_lem acc ts)
        (ap (◌++◌ acc) (sym (remaining-without_of_occurs (qualified_name t) acc (dedup names) old)))
  | inr new ↦
      rw (new, normalized_from_lem (acc ++ qualified_name t ∷ []) ts)
        (rw append_assoc (
          ap (λ l. acc ++ qualified_name t ∷ l)
            (remaining-append (qualified_name t) acc (dedup names))))
]
  where
    names : List Bytes
    names = map qualified_name ts

-- The list of table names is the list of the qualified names in written order, of which each is
-- kept at its first mention only.
normalized_tables-dedup :
    (tables : List TableRef) → normalized_tables tables ≡ dedup (map qualified_name tables)
unfolding normalized_tables
normalized_tables-dedup tables =
    normalized_from_lem [] tables ∙ remaining-nil (dedup (map qualified_name tables))

-- No name stands twice in the table list, and exactly the names that the statement mentions
-- stand in it.
pub normalized_tables_complete :
    (tables : List TableRef)
    → Distinct (normalized_tables tables)
      × ((name : Bytes)
          → occurs name (normalized_tables tables) ≡ occurs name (map qualified_name tables))
normalized_tables_complete tables = rw normalized_tables-dedup (
  dedup-Distinct (map qualified_name tables),
  λ name. occurs-dedup name (map qualified_name tables),
)

abbrev pub IsSpace : ℕ → Type 0
IsSpace c = any (λ b. b == c) whitespace ≡ true

-- Input is blank exactly when each of its bytes is one of the six white-space bytes.
is_blank_iff : (sql : Bytes) → (is_blank sql ≡ true) ↔ All IsSpace sql
unfolding is_blank find_first_not_of
is_blank_iff [] = ((λ h. tt), (λ h. refl))
is_blank_iff (c ∷ s) =
    ((λ h. ground (arith, (is_blank_iff s).0)), (λ h. ground (arith, (is_blank_iff s).1 h.1)))
