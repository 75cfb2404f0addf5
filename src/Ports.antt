-- ===== src/Ports.antt =====
-- The ports of `src/ports/` as the service sees them: three components behind interfaces, and the
-- system clock. Each answers from a world of its own, which it changes; each but the clock may
-- throw. `src/ports/audit_repository.h` gives the answers of the audit repository.
use sql_proxy_service.Prelude.{Bytes, codes, Action}
use sql_proxy_service.Prelude.Int.{ℤ}
use sql_proxy_service.Analysis.{ParseResult}
use sql_proxy_service.Execution.{ExecutionResult}
use sql_proxy_service.Audit.{AuditRecord}

pub data AuditAppendResult : Type 0 where
  ok open_failure write_failure : AuditAppendResult

-- `to_string(AuditAppendResult)`
unfoldable pub append_result_name : AuditAppendResult → Bytes
append_result_name AuditAppendResult.ok = codes "OK"
append_result_name AuditAppendResult.open_failure = codes "OPEN_FAILURE"
append_result_name AuditAppendResult.write_failure = codes "WRITE_FAILURE"

-- `ISqlParser`, `IQueryExecutor`, `IAuditRepository` and `std::chrono::system_clock`.
pub record Ports (W : Type 0) : Type 0 where
  pub parse : Bytes → Action W ParseResult
  pub execute : Bytes → Action W ExecutionResult
  pub append : AuditRecord → Action W AuditAppendResult
  pub now : W → ℤ × W
