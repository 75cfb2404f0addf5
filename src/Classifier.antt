-- ===== src/Classifier.antt =====
-- `src/core/data_classifier.cpp` and `src/core/data_classification.h`: which result columns carry
-- which kind of personal data, from the analysis and the column names alone.
pub mod Config
pub mod Shapes
pub mod Columns
mod Examples
use sql_proxy_service.Prelude.{
  ℕ, suc, Bool, true, false, not, ◌&&◌, Option, none, some, List, [], ◌∷◌, ◌++◌, ◌==◌,
  if◌then◌else◌, length, get_elem?, drop, replicate, is_empty, Bytes, codes, bytes_eq, Fault, ok,
  threw,
}
use sql_proxy_service.Text.{ascii_lower, rfind, dot}
use sql_proxy_service.Analysis.{SqlAnalysis, AnalysisStatus, StatementClass}
use sql_proxy_service.Execution.{ColumnInfo}

pub data PiiCategory : Type 0 where
  email phone credit_card : PiiCategory

pub data ColumnDataClass : Type 0 where
  not_classified_as_pii pii unattributed : ColumnDataClass

pub record ColumnClassification : Type 0 where
  pub data_class : ColumnDataClass
  pub pii_category : Option PiiCategory

pub record ClassificationResult : Type 0 where
  pub columns : List ColumnClassification
  pub fully_attributed : Bool

-- `ColumnClassification{}`
abbrev pub default_classification : ColumnClassification
default_classification = record { data_class = ColumnDataClass.unattributed; pii_category = none }

-- "customers.email" becomes "email".
unfoldable pub strip_qualifier : Bytes → Bytes
strip_qualifier name = elim (rfind dot name) [ none ↦ name | some d ↦ drop (suc d) name ]

-- `pii(category)`
abbrev pub pii_column : PiiCategory → ColumnClassification
pii_column category = record { data_class = ColumnDataClass.pii; pii_category = some category }

abbrev pub not_pii : ColumnClassification
not_pii = record { data_class = ColumnDataClass.not_classified_as_pii; pii_category = none }

-- `ClassificationConfig`, and the map that the constructor builds: its keys are lowered.
abbrev pub Mappings : Type 0
Mappings = List (Bytes × PiiCategory)

abbrev pub default_classification_config : Mappings
default_classification_config =
    (codes "email", PiiCategory.email)
    ∷ (codes "phone", PiiCategory.phone)
    ∷ (codes "credit_card", PiiCategory.credit_card)
    ∷ []

-- `normalized_mappings_.find`
unfoldable pub find_mapping : Bytes → Mappings → Option PiiCategory
find_mapping key [] = none
find_mapping key ((k, category) ∷ m) = if bytes_eq k key then some category else find_mapping key m

-- The loop of the constructor: `emplace` inserts unless the key is there, and then it throws.
pub build_mappings : Mappings → Mappings → Fault Mappings
build_mappings built [] = ok built
build_mappings built ((name, category) ∷ config) =
    let rest = build_mappings (built ++ (ascii_lower name, category) ∷ []) config in
    elim (find_mapping (ascii_lower name) built) [ none ↦ rest | some _ ↦ threw ]

-- `DataClassifier(config)`
unfoldable pub data_classifier : Mappings → Fault Mappings
unfolding build_mappings
data_classifier config = build_mappings [] config

abbrev is_ok : AnalysisStatus → Bool
is_ok AnalysisStatus.ok = true
is_ok _ = false

abbrev is_select : StatementClass → Bool
is_select StatementClass.select = true
is_select _ = false

abbrev pub analyzable : SqlAnalysis → Bool
analyzable analysis = is_ok analysis.status && is_select analysis.statement_class

unfoldable pub positional_shape : SqlAnalysis → List ColumnInfo → Bool
positional_shape analysis result_columns =
    analyzable analysis
    && not analysis.has_wildcard_projection
    && not analysis.has_computed_projection
    && not analysis.has_safe_count_star_projection
    && not (is_empty analysis.projection_columns)
    && (length analysis.projection_columns == length result_columns)

unfoldable pub wildcard_shape : SqlAnalysis → Bool
wildcard_shape analysis =
    analyzable analysis
    && analysis.has_wildcard_projection
    && is_empty analysis.projection_columns
    && not analysis.has_computed_projection
    && not analysis.has_safe_count_star_projection

unfoldable pub count_star_only_shape : SqlAnalysis → Bool
count_star_only_shape analysis =
    analyzable analysis
    && analysis.has_safe_count_star_projection
    && not analysis.has_wildcard_projection
    && not analysis.has_computed_projection
    && not analysis.has_group_by
    && is_empty analysis.projection_columns

-- `find` on the map, and its use.
unfoldable pub classify_source : Mappings → Bytes → ColumnClassification
classify_source mappings source = elim (find_mapping (ascii_lower source) mappings) [
  | none ↦ not_pii
  | some category ↦ pii_column category
]

-- `strip_qualifier(projection_columns[i])`. The index is in range where this is read.
unfoldable pub projection_source : List Bytes → ℕ → Bytes
projection_source projection i = elim (get_elem? projection i) [
  | none ↦ []
  | some name ↦ strip_qualifier name
]

-- The loop over the result columns from index `i` on.
unfoldable pub classify_columns :
    Mappings → SqlAnalysis → Bool → Bool → ℕ → List ColumnInfo → List ColumnClassification
classify_columns mappings analysis counts positional i [] = []
classify_columns mappings analysis counts positional i (column ∷ columns) =
    (if counts
      then not_pii
      else classify_source mappings
          (if positional then projection_source analysis.projection_columns i else column.name))
    ∷ classify_columns mappings analysis counts positional (suc i) columns

unfoldable pub classify : Mappings → SqlAnalysis → List ColumnInfo → ClassificationResult
classify mappings analysis result_columns =
    let positional = positional_shape analysis result_columns in
    let wildcard = wildcard_shape analysis in
    let counts = count_star_only_shape analysis in
    if is_empty result_columns
    then record { columns = []; fully_attributed = true }
    else if not positional && not wildcard && not counts
    then record {
      columns = replicate (length result_columns) default_classification;
      fully_attributed = false;
    }
    else record {
      columns = classify_columns mappings analysis counts positional 0 result_columns;
      fully_attributed = true;
    }
