-- ===== src/Classifier/Examples.antt =====
-- Concrete results for the classifier.
use sql_proxy_service.Prelude.{◌≡◌, ◌↔◌, ◌⊎◌, true, [], ◌∷◌, codes, ok, threw, Distinct}
use sql_proxy_service.Prelude.Int.{pos}
use sql_proxy_service.Analysis.{
  StatementType, StatementClass, AnalysisStatus, SqlAnalysis, default_analysis,
}
use sql_proxy_service.Execution.{ColumnType, ColumnInfo}
use sql_proxy_service.Classifier.{
  PiiCategory, Mappings, default_classification_config, data_classifier, classify,
}
use sql_proxy_service.Classifier.Shapes.{
  IsAnalysedSelect, IsColumnList, IsStar, IsUngroupedCount, fully_attributed_iff,
}
use sql_proxy_service.Classifier.Config.{keys, lowered, data_classifier_iff}

-- `SELECT c.email AS contact FROM customers c`
abbrev aliased : SqlAnalysis
aliased = record default_analysis {
  status = AnalysisStatus.ok;
  statement_type = StatementType.select;
  statement_class = StatementClass.select;
  statement_count = pos 1;
  tables = codes "customers" ∷ [];
  projection_columns = codes "c.email" ∷ [];
}

-- `SELECT * FROM customers`
abbrev star : SqlAnalysis
star = record aliased { projection_columns = []; has_wildcard_projection = true }

-- `SELECT COUNT(*) AS email FROM customers`
abbrev counted : SqlAnalysis
counted = record aliased { projection_columns = []; has_safe_count_star_projection = true }

abbrev contact : ColumnInfo
contact = record { name = codes "contact"; type = ColumnType.text }

abbrev email : ColumnInfo
email = record { name = codes "Email"; type = ColumnType.text }

abbrev mappings : Mappings
mappings = default_classification_config

fully_attributed_iff_example : ((classify mappings star (email ∷ [])).fully_attributed ≡ true) ↔ (
    IsAnalysedSelect star × (IsColumnList star (email ∷ []) ⊎ IsStar star ⊎ IsUngroupedCount star))
fully_attributed_iff_example = fully_attributed_iff mappings star email []

-- Two names that differ in case only.
abbrev clashing : Mappings
clashing = (codes "Email", PiiCategory.email) ∷ (codes "EMAIL", PiiCategory.phone) ∷ []

data_classifier_iff_example :
    (Distinct (keys (lowered clashing)) ↔ (data_classifier clashing ≡ ok (lowered clashing)))
    × (¬ Distinct (keys (lowered clashing)) → data_classifier clashing ≡ threw)
data_classifier_iff_example = data_classifier_iff clashing
