-- ===== src/Classifier/Shapes.antt =====
-- What each shape of projection is attributed by.
use sql_proxy_service.Prelude.{
  ℕ, zero, suc, ◌+◌, ◌≡◌, refl, ◌↔◌, ◌⊎◌, inl, inr, Bool, true, false, some, List, [], ◌∷◌, ◌++◌,
  arith, if◌then◌else◌, Bool-cases, length, get_elem?, Bytes,
}
use sql_proxy_service.Text.{dot, Free}
use sql_proxy_service.Text.Qualifier.{rfind-Free, rfind-append, drop-suc-length}
use sql_proxy_service.Analysis.{SqlAnalysis, AnalysisStatus, StatementClass}
use sql_proxy_service.Execution.{ColumnInfo}
use sql_proxy_service.Classifier.{
  not_pii, Mappings, strip_qualifier, positional_shape, wildcard_shape, count_star_only_shape,
  classify_source, projection_source, classify_columns, classify,
}
use sql_proxy_service.Classifier.Columns.{is_attributable, classify_cases}

-- A select that was analysed, and the three projections that can be attributed.
pub record IsAnalysedSelect (a : SqlAnalysis) : Type 0 where
  pub analysed : a.status ≡ AnalysisStatus.ok
  pub select : a.statement_class ≡ StatementClass.select
  pub plain : a.has_computed_projection ≡ false

abbrev pub IsColumnList : SqlAnalysis → List ColumnInfo → Type 0
IsColumnList a l =
    (a.has_wildcard_projection ≡ false)
    × (a.has_safe_count_star_projection ≡ false)
    × (length a.projection_columns ≡ length l)

abbrev pub IsStar : SqlAnalysis → Type 0
IsStar a =
    (a.has_wildcard_projection ≡ true)
    × (a.has_safe_count_star_projection ≡ false)
    × (a.projection_columns ≡ [])

abbrev pub IsUngroupedCount : SqlAnalysis → Type 0
IsUngroupedCount a =
    (a.has_wildcard_projection ≡ false)
    × (a.has_safe_count_star_projection ≡ true)
    × (a.has_group_by ≡ false)
    × (a.projection_columns ≡ [])

pub positional_shape_iff :
    (a : SqlAnalysis) (c : ColumnInfo) (l : List ColumnInfo)
    → (positional_shape a (c ∷ l) ≡ true) ↔ (IsAnalysedSelect a × IsColumnList a (c ∷ l))
unfolding positional_shape
positional_shape_iff a c l = ((λ h. ground arith), (λ h. ground arith))

wildcard_shape_iff : (a : SqlAnalysis) → (wildcard_shape a ≡ true) ↔ (IsAnalysedSelect a × IsStar a)
unfolding wildcard_shape
wildcard_shape_iff a = ((λ h. ground arith), (λ h. ground arith))

count_star_only_shape_iff :
    (a : SqlAnalysis) → (count_star_only_shape a ≡ true) ↔ (IsAnalysedSelect a × IsUngroupedCount a)
unfolding count_star_only_shape
count_star_only_shape_iff a = ((λ h. ground arith), (λ h. ground arith))

is_attributable_iff :
    (a : SqlAnalysis) (c : ColumnInfo) (l : List ColumnInfo)
    → (is_attributable a (c ∷ l) ≡ true)
      ↔ (IsAnalysedSelect a × (IsColumnList a (c ∷ l) ⊎ IsStar a ⊎ IsUngroupedCount a))
is_attributable_iff a c l = (
  (λ h. ground (
    arith,
    (positional_shape_iff a c l).0,
    (wildcard_shape_iff a).0,
    (count_star_only_shape_iff a).0,
  )),
  (λ h. elim h.1 [
    | inl p ↦ ground (arith, (positional_shape_iff a c l).1 (h.0, p))
    | inr (inl p) ↦ ground (arith, (wildcard_shape_iff a).1 (h.0, p))
    | inr (inr p) ↦ ground (arith, (count_star_only_shape_iff a).1 (h.0, p))
  ]),
)

-- A non-empty result is fully attributed exactly if the statement is an analysed select without a
-- computed projection that is either a list of as many columns as the result has, or a star alone,
-- or an ungrouped COUNT(*) alone.
pub fully_attributed_iff :
    (m : Mappings) (a : SqlAnalysis) (c : ColumnInfo) (l : List ColumnInfo)
    → ((classify m a (c ∷ l)).fully_attributed ≡ true)
      ↔ (IsAnalysedSelect a × (IsColumnList a (c ∷ l) ⊎ IsStar a ⊎ IsUngroupedCount a))
fully_attributed_iff m a c l = elim (Bool-cases (is_attributable a (c ∷ l))) [
  | inl h ↦ rw (classify_cases m a c l, h) ((λ _. (is_attributable_iff a c l).0 h), (λ _. refl))
  | inr h ↦
      rw (classify_cases m a c l, h) ((λ e. cc), (λ e. cc (h, (is_attributable_iff a c l).1 e)))
]

-- The shapes exclude one another.
positional-ne-count_star :
    (a : SqlAnalysis) (l : List ColumnInfo)
    → positional_shape a l ≡ true
    → count_star_only_shape a ≡ false
unfolding positional_shape count_star_only_shape
positional-ne-count_star a l h = ground arith

wildcard-ne-others :
    (a : SqlAnalysis) (l : List ColumnInfo)
    → wildcard_shape a ≡ true
    → (count_star_only_shape a ≡ false) × (positional_shape a l ≡ false)
unfolding positional_shape count_star_only_shape wildcard_shape
wildcard-ne-others a l h = (ground arith, ground arith)

module _ (m : Mappings) (a : SqlAnalysis) where
  get_elem?-classify_columns :
      (counts positional : Bool) (i j k : ℕ) (l : List ColumnInfo) (c : ColumnInfo)
      → i + j ≡ k
      → get_elem? l j ≡ some c
      → get_elem? (classify_columns m a counts positional i l) j
        ≡ some (
            if counts
            then not_pii
            else classify_source m
                (if positional then projection_source a.projection_columns k else c.name))
  unfolding classify_columns
  get_elem?-classify_columns counts positional i j k [] c e h = cc
  get_elem?-classify_columns counts positional i zero k (x ∷ l) c e h =
      let same : i ≡ k = omega arith in ground arith
  get_elem?-classify_columns counts positional i (suc j) k (x ∷ l) c e h =
      get_elem?-classify_columns counts positional (suc i) j k l c (omega arith) h

  get_elem?-classify :
      (l : List ColumnInfo) (j : ℕ) (c : ColumnInfo)
      → is_attributable a l ≡ true
      → get_elem? l j ≡ some c
      → get_elem? (classify m a l).columns j
        ≡ some (
            if count_star_only_shape a
            then not_pii
            else classify_source m
                (if positional_shape a l then projection_source a.projection_columns j else c.name))
  get_elem?-classify [] j c h e = cc
  get_elem?-classify (x ∷ l) j c h e =
      rw (classify_cases m a x l, h)
        (get_elem?-classify_columns (count_star_only_shape a) (positional_shape a (x ∷ l)) 0 j j
          (x ∷ l) c (omega arith) e)

  -- In a list of columns, result column `j` is classified by the name that stands at place `j` of
  -- the select list, its qualifier taken off. The names of the result columns, which aliases
  -- choose, play no part.
  pub classify-positional :
      (l : List ColumnInfo) (j : ℕ) (c : ColumnInfo) (name : Bytes)
      → positional_shape a l ≡ true
      → get_elem? l j ≡ some c
      → get_elem? a.projection_columns j ≡ some name
      → get_elem? (classify m a l).columns j ≡ some (classify_source m (strip_qualifier name))
  unfolding projection_source
  classify-positional l j c name h e f =
      ground (arith, get_elem?-classify l j c, positional-ne-count_star a l)

  -- Under a star alone, each result column is classified by the name that the database gives it.
  classify-wildcard :
      (l : List ColumnInfo) (j : ℕ) (c : ColumnInfo)
      → wildcard_shape a ≡ true
      → get_elem? l j ≡ some c
      → get_elem? (classify m a l).columns j ≡ some (classify_source m c.name)
  classify-wildcard l j c h e = ground (arith, get_elem?-classify l j c, wildcard-ne-others a l)

  -- In an ungrouped COUNT(*) no column is personal data, whatever the columns are called.
  classify-count_star :
      (l : List ColumnInfo) (j : ℕ) (c : ColumnInfo)
      → count_star_only_shape a ≡ true
      → get_elem? l j ≡ some c
      → get_elem? (classify m a l).columns j ≡ some not_pii
  classify-count_star l j c h e = ground (arith, get_elem?-classify l j c)

-- A qualifier is taken off whole: what stands behind the last dot is left, and a name without a
-- dot is left as it is.
pub strip_qualifier_lem :
    (qualifier name : Bytes)
    → Free dot name
    → (strip_qualifier (qualifier ++ dot ∷ name) ≡ name) × (strip_qualifier name ≡ name)
unfolding strip_qualifier
strip_qualifier_lem qualifier name h = (
  ground (arith, rfind-append dot qualifier name h, drop-suc-length dot qualifier name),
  ground (arith, rfind-Free dot name h),
)
