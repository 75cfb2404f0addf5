-- ===== src/Parser/Projection.antt =====
-- The projection of a select: one arm for each entry.
use sql_proxy_service.Prelude.{
  ◌≡◌, refl, sym, ◌↔◌, Bool, true, false, not, ◌||◌, Option, none, some, List, [], ◌∷◌, ◌++◌, arith,
  if◌then◌else◌, any, Bytes, codes, bytes_eq_iff,
}
use mathlib.Core.List.{append_assoc, append-nil}
use sql_proxy_service.Analysis.{ParsedStatement}
use sql_proxy_service.Syntax.{ExprType, Expr}
use sql_proxy_service.Parser.{
  is_star, is_column_ref, has_star_argument, is_count_star, copy_or_empty, column_text, project,
  project_all,
}
use sql_proxy_service.Text.{ascii_lower}

-- The four kinds of entries.
abbrev pub is_entry : (Expr → Bool) → Option Expr → Bool
is_entry p none = false
is_entry p (some e) = p e

abbrev pub is_plain : Expr → Bool
is_plain e = is_column_ref e.type

abbrev pub is_wildcard : Expr → Bool
is_wildcard e = is_star e.type

abbrev pub is_computed : Expr → Bool
is_computed e = not (is_wildcard e || is_plain e || is_count_star e)

-- The texts of the plain columns, in written order.
unfoldable pub plain_columns : List (Option Expr) → List Bytes
plain_columns [] = []
plain_columns (none ∷ l) = plain_columns l
plain_columns (some e ∷ l) = if is_plain e then column_text e ∷ plain_columns l else plain_columns l

-- What the translation of the entries of a select list adds to a statement.
pub record Projects (l : List (Option Expr)) (before after : ParsedStatement) : Type 0 where
  pub columns : after.projection_columns ≡ before.projection_columns ++ plain_columns l
  pub wildcard :
      after.has_wildcard_projection
      ≡ (any (is_entry is_wildcard) l || before.has_wildcard_projection)
  pub count_star :
      after.has_safe_count_star_projection
      ≡ (any (is_entry is_count_star) l || before.has_safe_count_star_projection)
  pub computed :
      after.has_computed_projection
      ≡ (any (is_entry is_computed) l || before.has_computed_projection)
  pub tables : after.tables ≡ before.tables
  pub type : after.type ≡ before.type
  pub features : after.unsupported_features ≡ before.unsupported_features

pub count_star-function : (e : Expr) → is_count_star e ≡ true → e.type ≡ ExprType.function_ref
unfolding is_count_star
count_star-function e h = ground arith

-- A plain column and a star set their own flag only, what `is_count_star` accepts the safe one only,
-- and everything else the computed one only; the texts of the plain columns are kept in written order,
-- and the type, the tables and the notes are left alone.
pub project_all-Projects :
    (l : List (Option Expr)) (out : ParsedStatement) → Projects l out (project_all l out)
unfolding project_all plain_columns
project_all-Projects [] out = record {
  columns = sym (append-nil out.projection_columns);
  wildcard = refl;
  count_star = refl;
  computed = refl;
  tables = refl;
  type = refl;
  features = refl;
}
project_all-Projects (none ∷ l) out =
    let h = project_all-Projects l out in
    record {
      columns = h.columns;
      wildcard = h.wildcard;
      count_star = h.count_star;
      computed = h.computed;
      tables = h.tables;
      type = h.type;
      features = h.features;
    }
project_all-Projects (some e ∷ l) out =
    let h = project_all-Projects l (project (some e) out) in
    let calls = count_star-function e in
    record {
      columns = ground (
        arith,
        h.columns,
        append_assoc out.projection_columns (column_text e ∷ []) (plain_columns l),
      );
      wildcard = ground (arith, h.wildcard);
      count_star = ground (arith, h.count_star, calls);
      computed = ground (arith, h.computed, calls);
      tables = ground (arith, h.tables);
      type = ground (arith, h.type);
      features = ground (arith, h.features);
    }

has_star_argument_iff :
    (l : Option (List (Option ExprType)))
    → (has_star_argument l ≡ true) ↔ (l ≡ some (some ExprType.star ∷ []))
has_star_argument_iff none = ((λ h. cc), (λ h. cc))
has_star_argument_iff (some []) = ((λ h. cc), (λ h. cc))
has_star_argument_iff (some (none ∷ l)) = ((λ h. cc), (λ h. cc))
has_star_argument_iff (some (some t ∷ [])) = ((λ h. ground arith), (λ h. ground arith))
has_star_argument_iff (some (some t ∷ u ∷ l)) = ((λ h. cc), (λ h. cc))

-- A select-list entry is taken for a row count exactly if it is a call of a function named COUNT, in
-- any case of the letters, without DISTINCT and without a window, whose only argument is the star.
pub is_count_star_iff :
    (e : Expr)
    → (is_count_star e ≡ true) ↔ (
        (e.type ≡ ExprType.function_ref)
        × (ascii_lower (copy_or_empty e.name) ≡ codes "count")
        × (e.distinct ≡ false)
        × (e.has_window ≡ false)
        × (e.expr_list ≡ some (some ExprType.star ∷ [])))
unfolding is_count_star
is_count_star_iff e =
    let named = bytes_eq_iff (ascii_lower (copy_or_empty e.name)) (codes "count") in
    let starred = has_star_argument_iff e.expr_list in
    ((λ h. ground (arith, named, starred)), (λ h. ground (arith, named, starred)))
