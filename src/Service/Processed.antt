-- ===== src/Service/Processed.antt =====
-- The client's answer and the audit record of one request, before the record is appended.
use sql_proxy_service.Prelude.{
  ℕ, ◌≡◌, refl, ◌≢◌, ◌⊎◌, inl, inr, arith, Bool-cases, length, length-map, Bytes, Fault, ok, threw,
  ◌>>=◌, Action-cases,
}
use sql_proxy_service.Prelude.Int.{ℤ, pos, negsuc}
use sql_proxy_service.Analysis.{StatementType, SqlAnalysis}
use sql_proxy_service.Analyzer.{analyze}
use sql_proxy_service.Policy.{RejectReason, PolicyDecision, evaluate}
use sql_proxy_service.Execution.{ColumnInfo, ExecutionStatus, ExecutionResult}
use sql_proxy_service.Classifier.{Mappings, ClassificationResult, classify}
use sql_proxy_service.Masker.{MaskingOutcome, MaskingFailureReason, masked, failed, mask}
use sql_proxy_service.Audit.{DbFailureCategory, Details, audit_record}
use sql_proxy_service.Audit.Record
use sql_proxy_service.Service.{
  Processing, rejected, internal, caught, database_failed, written, released, read, finish, State,
  call_parse, call_execute, decided, process, processed,
}
use sql_proxy_service.Answer.{
  ServiceFailure, ServiceResult, checked_count, to_masked_result, client_failure_for,
}
use sql_proxy_service.Ports.{Ports}

-- The answer and the record tell the same story about the request.
abbrev pub Agrees : ServiceResult → Details → Type 0
Agrees (ServiceResult.success q) (Details.success d) =
    (d.statement_type ≡ StatementType.select) × (d.column_count ≡ length q.column_names)
Agrees (ServiceResult.write_success n) (Details.write_success d) =
    (d.statement_type ≡ StatementType.insert) × (n ≡ 1) × (d.affected_rows ≡ 1)
Agrees (ServiceResult.failure f) Details.parsing_failure = f ≡ ServiceFailure.unparseable_sql
Agrees (ServiceResult.failure f) (Details.policy_rejected d) =
    (d.reason ≢ RejectReason.none)
    × (d.reason ≢ RejectReason.not_evaluated)
    × (d.reason ≢ RejectReason.unparseable_sql)
    × (((d.reason ≡ RejectReason.empty_input) × (f ≡ ServiceFailure.empty_input))
        ⊎ ((d.reason ≢ RejectReason.empty_input) × (f ≡ ServiceFailure.policy_rejected)))
Agrees (ServiceResult.failure f) (Details.database_failure d) =
    ((d.category ≡ DbFailureCategory.connection_failure)
      × (f ≡ ServiceFailure.database_unavailable))
    ⊎ ((d.category ≡ DbFailureCategory.execution_failure) × (f ≡ ServiceFailure.query_failed))
Agrees (ServiceResult.failure f) (Details.masking_refused d) =
    (d.statement_type ≡ StatementType.select) × (f ≡ ServiceFailure.masking_refused)
Agrees (ServiceResult.failure f) Details.internal_failure = f ≡ ServiceFailure.internal_error
Agrees _ _ = ⊥

module _ (t : ℤ) (id : ℕ) where
  -- The record of the request at this time and under this id.
  abbrev pub IsSound : Processing → Type 0
  IsSound x =
      (x.audit.timestamp_ms ≡ t) × (x.audit.request_id ≡ id) × Agrees x.result x.audit.details

  abbrev pub Sound : Fault Processing → Type 0
  Sound threw = Unit
  Sound (ok x) = IsSound x

  internal-IsSound : IsSound (internal t id)
  unfolding Record.internal_failure audit_record
  internal-IsSound = ground arith

  rejected-Sound : (a : SqlAnalysis) (reason : RejectReason) → Sound (rejected t id a reason)
  unfolding rejected checked_count client_failure_for Record.policy_rejected Record.parsing_failure
      audit_record
  rejected-Sound a reason = ground arith

  database_failed-Sound :
      (a : SqlAnalysis)
      → Sound (
          database_failed t id a ServiceFailure.database_unavailable
            DbFailureCategory.connection_failure)
        × Sound
            (database_failed t id a ServiceFailure.query_failed DbFailureCategory.execution_failure)
  unfolding database_failed Record.database_failure audit_record
  database_failed-Sound a = (ground arith, ground arith)

  written-Sound : (a : SqlAnalysis) (e : ExecutionResult) → Sound (written t id a e)
  unfolding written checked_count Record.write_success Record.internal_failure audit_record
  written-Sound a e = ground arith

  -- As many names as the masked result has columns.
  released-Sound :
      (a : SqlAnalysis) (n c : ℕ) (k : ClassificationResult) (o : MaskingOutcome)
      → ((r : ExecutionResult) → o ≡ masked r → length r.columns ≡ c)
      → Sound (released t id a n c k o)
  unfolding released to_masked_result Record.success Record.masking_refused Record.internal_failure
      audit_record
  released-Sound a n c k (masked r) h =
      ground (arith, h r refl, length-map (λ (i : ColumnInfo). i.name) r.columns)
  released-Sound a n c k (failed MaskingFailureReason.unattributed_column) h = ground arith
  released-Sound a n c k (failed MaskingFailureReason.structural_mismatch) h = ground arith
  released-Sound a n c k (failed MaskingFailureReason.invalid_classification) h = ground arith

  columns-mask :
      (e r : ExecutionResult) (k : ClassificationResult)
      → mask e k ≡ masked r
      → length r.columns ≡ length e.columns
  unfolding mask
  columns-mask e r k h = ground arith

  read-Sound : (m : Mappings) (a : SqlAnalysis) (e : ExecutionResult) → Sound (read t id m a e)
  unfolding read checked_count
  read-Sound m a e =
      let k = classify m a e.columns in
      counted e.row_count
        (λ n. released-Sound a n (length e.columns) k (mask e k) (λ r h. columns-mask e r k h))
    where
      counted :
          (z : ℤ)
          → ((n : ℕ)
              → Sound (
                  released t id a n
                    (length e.columns)
                    (classify m a e.columns)
                    (mask e (classify m a e.columns))))
          → Sound (
              checked_count z >>= λ n.
              released t id a n
                (length e.columns)
                (classify m a e.columns)
                (mask e (classify m a e.columns)))
      counted (pos n) h = h n
      counted (negsuc n) h = tt

  finish-Sound :
      (status : ExecutionStatus) (m : Mappings) (a : SqlAnalysis) (e : ExecutionResult)
      → Sound (finish t id status m a e)
  unfolding finish
  finish-Sound ExecutionStatus.ok m a e = ground (arith, written-Sound a e, read-Sound m a e)
  finish-Sound ExecutionStatus.connection_failure m a e = (database_failed-Sound a).0
  finish-Sound ExecutionStatus.execution_failure m a e = (database_failed-Sound a).1

  caught-IsSound : (r : Fault Processing) → Sound r → IsSound (caught t id r)
  caught-IsSound (ok x) h = h
  caught-IsSound threw h = internal-IsSound

module _ {W : Type 0} (ports : Ports W) (m : Mappings) (sql : Bytes) where
  decided-Sound :
      (t : ℤ) (id : ℕ) (a : SqlAnalysis) (d : PolicyDecision) (s : State W)
      → Sound t id (decided ports m sql t id a d s).0
  unfolding decided
  decided-Sound t id a d s = elim (Bool-cases d.allowed) [
    | inr denied ↦ rw denied (rejected-Sound t id a d.reason)
    | inl allowed ↦ rw allowed (elim (Action-cases (call_execute ports sql s)) [
      | inl (s', e) ↦ rw e tt
      | inr (e, s', h) ↦ rw h (finish-Sound t id e.status m a e)
    ])
  ]

  process-Sound : (t : ℤ) (id : ℕ) (s : State W) → Sound t id (process ports m sql t id s).0
  unfolding process
  process-Sound t id s = elim (Action-cases (analyze (call_parse ports) sql s)) [
    | inl (s', e) ↦ rw e tt
    | inr (a, s', e) ↦ rw e (decided-Sound t id a (evaluate a) s')
  ]

  -- Whatever the ports answer, the audit record of a request carries the time at which it began and
  -- the id that the counter then held, and its outcome agrees with the client's answer.
  pub processed-IsSound :
      (s : State W) → IsSound (ports.now s.world).0 s.next_request_id (processed ports m sql s).0
  unfolding processed
  processed-IsSound s =
      let t = (ports.now s.world).0 in
      caught-IsSound t s.next_request_id _ (process-Sound t s.next_request_id _)
