-- ===== src/Answer.antt =====
-- `src/core/proxy_service.h` and the top of `src/core/proxy_service.cpp`: what the service answers,
-- and the conversions that make an answer or its audit record.
use sql_proxy_service.Prelude.{
  ℕ, ◌+◌, Bool, true, false, not, none, some, List, [], ◌∷◌, map, if◌then◌else◌, Bytes, codes,
  Fault, ok, threw,
}
use sql_proxy_service.Prelude.Int.{ℤ, pos, negsuc}
use sql_proxy_service.Policy.{RejectReason}
use sql_proxy_service.Execution.{Cell, ExecutionResult}
use sql_proxy_service.Classifier.{PiiCategory, ColumnClassification, ClassificationResult}
use sql_proxy_service.Masker.{is_pii}
use sql_proxy_service.Audit.{PiiSummary}

pub record MaskedQueryResult : Type 0 where
  pub column_names : List Bytes
  pub rows : List (List Cell)

pub data ServiceFailure : Type 0 where
  empty_input unparseable_sql policy_rejected database_unavailable : ServiceFailure
  query_failed masking_refused internal_error : ServiceFailure

-- `to_string(ServiceFailure)`
unfoldable pub service_failure_name : ServiceFailure → Bytes
service_failure_name ServiceFailure.empty_input = codes "empty_sql"
service_failure_name ServiceFailure.unparseable_sql = codes "invalid_sql"
service_failure_name ServiceFailure.policy_rejected = codes "policy_rejected"
service_failure_name ServiceFailure.database_unavailable = codes "database_unavailable"
service_failure_name ServiceFailure.query_failed = codes "query_failed"
service_failure_name ServiceFailure.masking_refused = codes "masking_refused"
service_failure_name ServiceFailure.internal_error = codes "internal_error"

-- The variant of `ServiceResult`; a `WriteResult` is its number of affected rows.
pub data ServiceResult : Type 0 where
  success : MaskedQueryResult → ServiceResult
  write_success : ℕ → ServiceResult
  failure : ServiceFailure → ServiceResult

abbrev pub succeeded : ServiceResult → Bool
succeeded (ServiceResult.failure f) = false
succeeded _ = true

-- A negative count throws.
unfoldable pub checked_count : ℤ → Fault ℕ
checked_count (pos n) = ok n
checked_count (negsuc n) = threw

-- One round of the loop of `summarize`.
abbrev pub count_column : PiiSummary → ColumnClassification → PiiSummary
count_column s c = if not (is_pii c.data_class) then s else elim c.pii_category [
  | none ↦ s
  | some PiiCategory.email ↦ record s { email_columns = s.email_columns + 1 }
  | some PiiCategory.phone ↦ record s { phone_columns = s.phone_columns + 1 }
  | some PiiCategory.credit_card ↦ record s { credit_card_columns = s.credit_card_columns + 1 }
]

unfoldable pub summarize_from : PiiSummary → List ColumnClassification → PiiSummary
summarize_from s [] = s
summarize_from s (c ∷ columns) = summarize_from (count_column s c) columns

unfoldable pub summarize : ClassificationResult → PiiSummary
unfolding summarize_from
summarize classification =
    summarize_from (record { email_columns = 0; phone_columns = 0; credit_card_columns = 0 })
      classification.columns

unfoldable pub to_masked_result : ExecutionResult → MaskedQueryResult
to_masked_result r = record { column_names = map (λ c. c.name) r.columns; rows = r.rows }

unfoldable pub client_failure_for : RejectReason → ServiceFailure
client_failure_for RejectReason.empty_input = ServiceFailure.empty_input
client_failure_for _ = ServiceFailure.policy_rejected
