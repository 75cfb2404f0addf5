-- ===== src/Audit/Record.antt =====
-- The factories of `AuditRecord`, which refuse invalid combinations by throwing.
use sql_proxy_service.Prelude.{ℕ, Bool, true, false, ◌||◌, List, [], Bytes, Fault, ok, threw}
use sql_proxy_service.Prelude.Int.{ℤ}
use sql_proxy_service.Policy.{RejectReason}
use sql_proxy_service.Audit.{
  SuccessDetails, WriteSuccessDetails, PolicyRejectedDetails, DatabaseFailureDetails,
  MaskingRefusedDetails, Details, AuditRecord, audit_record, is_select, is_insert,
}

-- The throw of `require_select` and its companions, before the record is built.
abbrev pub require : {A : Type 0} → Bool → A → Fault A
require true a = ok a
require false a = threw

-- The factories: timestamp, request id, details, table names.
module _ (timestamp_ms : ℤ) (request_id : ℕ) where
  unfoldable pub success : SuccessDetails → List Bytes → Fault AuditRecord
  success d tables =
      require (is_select d.statement_type)
        (audit_record timestamp_ms request_id (Details.success d) tables)

  unfoldable pub write_success : WriteSuccessDetails → List Bytes → Fault AuditRecord
  write_success d tables =
      require (is_insert d.statement_type)
        (audit_record timestamp_ms request_id (Details.write_success d) tables)

  unfoldable pub parsing_failure : AuditRecord
  parsing_failure = audit_record timestamp_ms request_id Details.parsing_failure []

  abbrev pub is_real_rejection : RejectReason → Bool
  is_real_rejection RejectReason.none = false
  is_real_rejection RejectReason.not_evaluated = false
  is_real_rejection RejectReason.unparseable_sql = false
  is_real_rejection _ = true

  unfoldable pub policy_rejected : PolicyRejectedDetails → List Bytes → Fault AuditRecord
  policy_rejected d tables =
      require (is_real_rejection d.reason)
        (audit_record timestamp_ms request_id (Details.policy_rejected d) tables)

  unfoldable pub database_failure : DatabaseFailureDetails → List Bytes → Fault AuditRecord
  database_failure d tables =
      require (is_select d.statement_type || is_insert d.statement_type)
        (audit_record timestamp_ms request_id (Details.database_failure d) tables)

  unfoldable pub masking_refused : MaskingRefusedDetails → List Bytes → Fault AuditRecord
  masking_refused d tables =
      require (is_select d.statement_type)
        (audit_record timestamp_ms request_id (Details.masking_refused d) tables)

  unfoldable pub internal_failure : AuditRecord
  internal_failure = audit_record timestamp_ms request_id Details.internal_failure []
