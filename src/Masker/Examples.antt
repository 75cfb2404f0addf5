-- ===== src/Masker/Examples.antt =====
-- Concrete values and results for the masker.
use sql_proxy_service.Prelude.{
  ◌≤◌, ◌<◌, ◌≡◌, refl, ◌↔◌, ◌⊎◌, true, false, none, some, List, [], ◌∷◌, length, all, Bytes, codes,
}
use sql_proxy_service.Prelude.Int.{pos}
use sql_proxy_service.Analysis.{
  StatementType, StatementClass, AnalysisStatus, SqlAnalysis, default_analysis,
}
use sql_proxy_service.Execution.{ColumnType, Cell, ExecutionStatus, ExecutionResult, default_result}
use sql_proxy_service.Classifier.{
  PiiCategory, ColumnClassification, ClassificationResult, pii_column, not_pii,
}
use sql_proxy_service.Masker.{
  full_redaction, mask_email, mask_phone, mask_credit_card, mask_value, digits, mask,
}
use sql_proxy_service.Masker.Email.{IsAddress, masked_address, mask_email_cases}
use sql_proxy_service.Masker.Digits.{
  ShowsLastFour, is_card_byte, mask_phone_cases, mask_credit_card_cases,
}
use sql_proxy_service.Masker.Unchanged.{IsMaskedAddress, mask_value-fixed_iff}
use sql_proxy_service.Masker.Result.{Outcome, mask-Outcome}

abbrev address : Bytes
address = codes "dana@example.com"

mask_email_test : mask_email address ≡ codes "d***@example.com"
unfolding mask_email
mask_email_test = refl

mask_email_cases_example :
    ((a : IsAddress address) × (mask_email address ≡ masked_address a))
    ⊎ (¬ IsAddress address × (mask_email address ≡ full_redaction))
mask_email_cases_example = mask_email_cases address

mask_phone_cases_example :
    ((length (digits (codes "052-1234567")) < 7)
      × (mask_phone (codes "052-1234567") ≡ full_redaction))
    ⊎ ((7 ≤ length (digits (codes "052-1234567")))
        × ShowsLastFour
            (codes "***")
            3
            (digits (codes "052-1234567"))
            (mask_phone (codes "052-1234567")))
mask_phone_cases_example = mask_phone_cases (codes "052-1234567")

abbrev card : Bytes
card = codes "4111 1111 1111 1111"

mask_credit_card_cases_example :
    (((all is_card_byte card ≡ false) ⊎ (length (digits card) < 12))
      × (mask_credit_card card ≡ full_redaction))
    ⊎ ((all is_card_byte card ≡ true)
        × (12 ≤ length (digits card))
        × ShowsLastFour (codes "****") 8 (digits card) (mask_credit_card card))
mask_credit_card_cases_example = mask_credit_card_cases card

mask_value-fixed_iff_example :
    (mask_value PiiCategory.email (codes "d***@x.org") ≡ codes "d***@x.org") ↔ (
      (codes "d***@x.org" ≡ full_redaction)
      ⊎ ((PiiCategory.email ≡ PiiCategory.email) × IsMaskedAddress (codes "d***@x.org")))
mask_value-fixed_iff_example = mask_value-fixed_iff PiiCategory.email (codes "d***@x.org")

-- `SELECT id, email FROM customers`
abbrev two_columns : SqlAnalysis
two_columns = record default_analysis {
  status = AnalysisStatus.ok;
  statement_type = StatementType.select;
  statement_class = StatementClass.select;
  statement_count = pos 1;
  tables = codes "customers" ∷ [];
  projection_columns = codes "id" ∷ codes "email" ∷ [];
}

abbrev rows : List (List Cell)
rows = (some (codes "1") ∷ some address ∷ []) ∷ (some (codes "2") ∷ none ∷ []) ∷ []

abbrev result : ExecutionResult
result = record default_result {
  status = ExecutionStatus.ok;
  has_result_set = true;
  columns =
      record { name = codes "id"; type = ColumnType.integer }
      ∷ record { name = codes "email"; type = ColumnType.text }
      ∷ [];
  rows = rows;
  row_count = pos 2;
}

abbrev classes : List ColumnClassification
classes = not_pii ∷ pii_column PiiCategory.email ∷ []

abbrev classification : ClassificationResult
classification = record { columns = classes; fully_attributed = true }

mask-Outcome_example : Outcome result classification (mask result classification)
mask-Outcome_example = mask-Outcome result classification
