-- ===== src/Service.antt =====
-- `src/core/proxy_service.h` and `src/core/proxy_service.cpp`: the pipeline of one request. The
-- state holds the world behind the ports, the calls made of them in order, the counter and the
-- lines of the system log. `handle` runs under one mutex, so a run of the service is a sequence
-- of complete requests.
pub mod Processed
pub mod Release
pub mod Delivery
pub mod Calls
pub mod Audited
pub mod Runs
pub mod Threads
pub mod Serial
pub mod Progress
mod Examples
use sql_proxy_service.Prelude.{
  ◌>>=◌, ℕ, ◌+◌, ◌%◌, ◌^◌, Bool, true, false, not, Option, none, some, List, [], ◌∷◌, ◌++◌, ◌==◌,
  if◌then◌else◌, length, Bytes, codes, Fault, ok, threw, Action, lift, bind,
}
use sql_proxy_service.Prelude.Int.{ℤ}
use sql_proxy_service.Analysis.{StatementType, ParseResult, SqlAnalysis}
use sql_proxy_service.Analyzer.{analyze}
use sql_proxy_service.Policy.{RejectReason, PolicyDecision, evaluate}
use sql_proxy_service.Execution.{ExecutionStatus, ExecutionResult}
use sql_proxy_service.Classifier.{ClassificationResult, Mappings, classify}
use sql_proxy_service.Masker.{MaskingFailureReason, MaskingOutcome, masked, failed, mask}
use sql_proxy_service.Audit.{DbFailureCategory, AuditRecord}
use sql_proxy_service.Audit.Record
use sql_proxy_service.Answer.{
  ServiceFailure, ServiceResult, succeeded, checked_count, summarize, to_masked_result,
  client_failure_for,
}
use sql_proxy_service.Ports.{AuditAppendResult, append_result_name, Ports}

pub record Processing : Type 0 where
  pub result : ServiceResult
  pub audit : AuditRecord

pub data Event : Type 0 where
  parsed executed : Bytes → Event
  appended : AuditRecord → Event

-- `log` is `none` while the logger is null.
pub record State (W : Type 0) : Type 0 where
  pub world : W
  pub events : List Event
  pub next_request_id : ℕ
  pub log : Option (List Bytes)

abbrev pub is_unparseable : RejectReason → Bool
is_unparseable RejectReason.unparseable_sql = true
is_unparseable _ = false

abbrev pub is_insert : StatementType → Bool
is_insert StatementType.insert = true
is_insert _ = false

-- The stages of `process` behind the analysis, at a time and under an id.
module _ (timestamp_ms : ℤ) (request_id : ℕ) where
  -- `!decision.allowed`
  unfoldable pub rejected : SqlAnalysis → RejectReason → Fault Processing
  rejected a reason =
      if is_unparseable reason
      then ok (record {
        result = ServiceResult.failure ServiceFailure.unparseable_sql;
        audit = Record.parsing_failure timestamp_ms request_id;
      })
      else do
        count ← checked_count a.statement_count
        audit ←
            Record.policy_rejected timestamp_ms request_id
              (record {
                reason = reason;
                statement_type = a.statement_type;
                statement_count = count;
              })
              a.tables
        ok (record { result = ServiceResult.failure (client_failure_for reason); audit = audit })

  abbrev pub internal : Processing
  internal = record {
    result = ServiceResult.failure ServiceFailure.internal_error;
    audit = Record.internal_failure timestamp_ms request_id;
  }

  -- The `catch (...)` of `handle`.
  abbrev pub caught : Fault Processing → Processing
  caught (ok x) = x
  caught threw = internal

  unfoldable pub database_failed :
      SqlAnalysis → ServiceFailure → DbFailureCategory → Fault Processing
  database_failed a reason category = do
    audit ←
        Record.database_failure timestamp_ms request_id
          (record { category = category; statement_type = a.statement_type }) a.tables
    ok (record { result = ServiceResult.failure reason; audit = audit })

  -- The authorised write.
  unfoldable pub written : SqlAnalysis → ExecutionResult → Fault Processing
  written a e = do
    affected ← checked_count e.affected_rows
    if not (affected == 1) then ok internal else do
      audit ←
          Record.write_success timestamp_ms request_id
            (record { statement_type = a.statement_type; affected_rows = affected }) a.tables
      ok (record { result = ServiceResult.write_success affected; audit = audit })

  -- The result of the masker becomes the answer to a read.
  unfoldable pub released :
      SqlAnalysis → ℕ → ℕ → ClassificationResult → MaskingOutcome → Fault Processing
  released a row_count column_count k (masked r) = do
    audit ←
        Record.success timestamp_ms request_id
          (record {
            statement_type = a.statement_type;
            row_count = row_count;
            column_count = column_count;
            pii = summarize k;
          })
          a.tables
    ok (record { result = ServiceResult.success (to_masked_result r); audit = audit })
  released a row_count column_count k (failed MaskingFailureReason.unattributed_column) = do
    audit ←
        Record.masking_refused timestamp_ms request_id
          (record { statement_type = a.statement_type; column_count = column_count }) a.tables
    ok (record { result = ServiceResult.failure ServiceFailure.masking_refused; audit = audit })
  released a row_count column_count k (failed _) = ok internal

  unfoldable pub read : Mappings → SqlAnalysis → ExecutionResult → Fault Processing
  read m a e = do
    row_count ← checked_count e.row_count
    let k = classify m a e.columns
    released a row_count (length e.columns) k (mask e k)

  -- `process` behind the call of the executor.
  unfoldable pub finish :
      ExecutionStatus → Mappings → SqlAnalysis → ExecutionResult → Fault Processing
  finish ExecutionStatus.connection_failure m a e =
      database_failed a ServiceFailure.database_unavailable DbFailureCategory.connection_failure
  finish ExecutionStatus.execution_failure m a e =
      database_failed a ServiceFailure.query_failed DbFailureCategory.execution_failure
  finish ExecutionStatus.ok m a e = if is_insert a.statement_type then written a e else read m a e

-- The `catch (...)` of `append_safely`.
abbrev pub append_answer : Fault AuditAppendResult → AuditAppendResult
append_answer (ok r) = r
append_answer threw = AuditAppendResult.write_failure

abbrev pub audit_failure_line : AuditAppendResult → Bytes
audit_failure_line r = codes "audit persistence failed (" ++ append_result_name r ++ codes ")"

module _ {W : Type 0} where
  -- `log->error(…)`, if there is a logger.
  abbrev pub log_error : Bytes → State W → State W
  log_error line s = record s {
    log = elim s.log [ none ↦ none | some lines ↦ some (lines ++ line ∷ []) ];
  }

  -- The second half of `handle`.
  unfoldable pub answer : Processing → AuditAppendResult → State W → ServiceResult × State W
  answer x AuditAppendResult.ok s = (x.result, s)
  answer x other s = (
    if succeeded x.result then ServiceResult.failure ServiceFailure.internal_error else x.result,
    log_error (audit_failure_line other) s,
  )

module _ {W : Type 0} (ports : Ports W) where
  -- The calls of the ports, each noted.
  unfoldable pub call_parse : Bytes → Action (State W) ParseResult
  call_parse sql s =
      let (r, w) = ports.parse sql s.world in
      (r, record s { world = w; events = s.events ++ parsed sql ∷ [] })

  unfoldable pub call_execute : Bytes → Action (State W) ExecutionResult
  call_execute sql s =
      let (r, w) = ports.execute sql s.world in
      (r, record s { world = w; events = s.events ++ executed sql ∷ [] })

  module _ (mappings : Mappings) where
    -- `process` behind the policy decision.
    unfoldable pub decided :
        Bytes → ℤ → ℕ → SqlAnalysis → PolicyDecision → Action (State W) Processing
    decided sql t id a d =
        if not d.allowed
        then lift (rejected t id a d.reason)
        else bind (call_execute sql) (λ e. lift (finish t id e.status mappings a e))

    unfoldable pub process : Bytes → ℤ → ℕ → Action (State W) Processing
    process sql t id = bind (analyze call_parse sql) (λ a. decided sql t id a (evaluate a))

    -- The first half of `handle`: time, id, and the pipeline with its `catch (...)`.
    unfoldable pub processed : Bytes → State W → Processing × State W
    processed sql s =
        let (t, w) = ports.now s.world in
        let id = s.next_request_id in
        let started = record s { world = w; next_request_id = (id + 1) % 2 ^ 64 } in
        let (r, s') = process sql t id started in (caught t id r, s')

  -- A throwing repository is a failing one.
  unfoldable pub append_safely : AuditRecord → State W → AuditAppendResult × State W
  append_safely audit s =
      let (r, w) = ports.append audit s.world in
      (append_answer r, record s { world = w; events = s.events ++ appended audit ∷ [] })

  module _ (mappings : Mappings) where
    unfoldable pub handle : Bytes → State W → ServiceResult × State W
    handle sql s =
        let (x, s₁) = processed mappings sql s in
        let (appended_answer, s₂) = append_safely x.audit s₁ in answer x appended_answer s₂

    -- Requests one after another, in the order in which they take the mutex.
    unfoldable pub serve : List Bytes → State W → List ServiceResult × State W
    serve [] s = ([], s)
    serve (sql ∷ requests) s =
        let (r, s₁) = handle sql s in let (rs, s₂) = serve requests s₁ in (r ∷ rs, s₂)
