-- ===== src/Service/Delivery.antt =====
-- When a request does not end in an internal error.
use sql_proxy_service.Prelude.{
  ℕ, ◌^◌, ◌<◌, ◌≡◌, refl, sym, ap, ◌∙◌, subst, ◌≢◌, ◌⊎◌, inl, inr, Bool, true, false, arith,
  if◌then◌else◌, Bool-cases, length, Bytes, Fault, ok, threw,
}
use sql_proxy_service.Prelude.Int.{ℤ, pos, to_int32_small}
use sql_proxy_service.Analysis.{
  StatementType, StatementClass, AnalysisStatus, SqlAnalysis, ParseResult, default_analysis,
  statement_class_of,
}
use sql_proxy_service.Analyzer.{is_blank, analysis_of_parse}
use sql_proxy_service.Analyzer.Outcomes.{
  IsCoherent, analysis_of_parse-Reports, analysis_of_parse-IsCoherent, analyze_invokes_parser,
}
use sql_proxy_service.Policy.{RejectReason, evaluate, evaluate_status}
use sql_proxy_service.Policy.Permission.{IsPermitted, evaluate_iff}
use sql_proxy_service.Policy.Rules.{evaluate-IsFinished}
use sql_proxy_service.Execution.{ExecutionStatus, ExecutionResult}
use sql_proxy_service.Classifier.{Mappings, ClassificationResult, classify}
use sql_proxy_service.Masker.{MaskingFailureReason, masked, failed}
use sql_proxy_service.Masker.Result.{IsRectangular, mask-classify}
use sql_proxy_service.Audit.{DbFailureCategory}
use sql_proxy_service.Audit.Record
use sql_proxy_service.Ports.{AuditAppendResult, Ports}
use sql_proxy_service.Service.{
  Processing, State, caught, rejected, database_failed, written, released, read, finish, call_parse,
  call_execute, decided, process, processed, answer, append_safely, handle,
}
use sql_proxy_service.Answer.{ServiceFailure, ServiceResult, checked_count, client_failure_for}
use sql_proxy_service.Service.Audited.{persistence}
use sql_proxy_service.Service.Calls.{clocked, parsed_state, analyze-ok}

-- What a permitted statement needs of the executor's answer: it never counts below zero, every row
-- is as wide as the result, and a successful insert changed the one row.
pub record IsHealthy (a : SqlAnalysis) (e : ExecutionResult) : Type 0 where
  pub rows : ℕ
  pub counted : e.row_count ≡ pos rows
  pub rectangular : IsRectangular e
  pub one_row :
      e.status ≡ ExecutionStatus.ok
      → a.statement_type ≡ StatementType.insert
      → e.affected_rows ≡ pos 1

abbrev Delivers : Fault Processing → Type 0
Delivers threw = ⊥
Delivers (ok x) = x.result ≢ ServiceResult.failure ServiceFailure.internal_error

-- The statement types that the service executes.
abbrev IsExecutable : SqlAnalysis → Type 0
IsExecutable a =
    (a.statement_type ≡ StatementType.select) ⊎ (a.statement_type ≡ StatementType.insert)

select_of_class :
    (t : StatementType) → statement_class_of t ≡ StatementClass.select → t ≡ StatementType.select
unfolding statement_class_of
select_of_class t h = ground arith

permitted-IsExecutable : (a : SqlAnalysis) → IsCoherent a → IsPermitted a → IsExecutable a
permitted-IsExecutable a h (single, inl r) =
    inl (select_of_class a.statement_type (cc (h.class_of_type, r.class)))
permitted-IsExecutable a h (single, inr r) = inr r.type

module _ (t : ℤ) (id : ℕ) (a : SqlAnalysis) where
  rejected-Delivers :
      (reason : RejectReason) (n : ℕ)
      → a.statement_count ≡ pos n
      → reason ≢ RejectReason.none
      → reason ≢ RejectReason.not_evaluated
      → Delivers (rejected t id a reason)
  unfolding rejected checked_count Record.policy_rejected client_failure_for
  rejected-Delivers reason n h u v = ground arith

  database_failed-Delivers :
      IsExecutable a
      → (f : ServiceFailure) (c : DbFailureCategory) → f ≢ ServiceFailure.internal_error
      → Delivers (database_failed t id a f c)
  unfolding database_failed Record.database_failure
  database_failed-Delivers h f c g = ground arith

  module _ (m : Mappings) (e : ExecutionResult) (healthy : IsHealthy a e) where
    written-Delivers :
        e.status ≡ ExecutionStatus.ok
        → a.statement_type ≡ StatementType.insert
        → Delivers (written t id a e)
    unfolding written checked_count Record.write_success
    written-Delivers o h = ground (arith, healthy.one_row o h)

    released-Delivers :
        a.statement_type ≡ StatementType.select
        → (n c : ℕ) (k : ClassificationResult) (r : ExecutionResult) (all : Bool)
        → Delivers (
            released t id a n c k
              (if all then masked r else failed MaskingFailureReason.unattributed_column))
    unfolding released Record.success Record.masking_refused
    released-Delivers h n c k r true = ground arith
    released-Delivers h n c k r false = ground arith

    read-Delivers : a.statement_type ≡ StatementType.select → Delivers (read t id m a e)
    unfolding read checked_count
    read-Delivers h =
        let k = classify m a e.columns in
        rw (mask-classify m a e healthy.rectangular, healthy.counted)
          (released-Delivers h healthy.rows (length e.columns) k _ k.fully_attributed)

    finish-Delivers :
        IsExecutable a
        → (status : ExecutionStatus) → e.status ≡ status
        → Delivers (finish t id status m a e)
    unfolding finish
    finish-Delivers h ExecutionStatus.connection_failure o =
        database_failed-Delivers h _ _ (λ g. cc)
    finish-Delivers h ExecutionStatus.execution_failure o = database_failed-Delivers h _ _ (λ g. cc)
    finish-Delivers (inl h) ExecutionStatus.ok o = ground (arith, read-Delivers h)
    finish-Delivers (inr h) ExecutionStatus.ok o = ground (arith, written-Delivers o h)

module _ {W : Type 0} (ports : Ports W) (sql : Bytes) (w : W) where
  -- The ports serve the request: none throws, the parser's statements number no more than an `int`
  -- holds, and what the executor answers to a permitted statement is healthy.
  pub record Serves : Type 0 where
    pub statement : ParseResult
    pub parsed : (ports.parse sql w).0 ≡ ok statement
    pub few : length statement.statements < 2 ^ 31
    pub executed :
        IsPermitted (analysis_of_parse statement)
        → (e : ExecutionResult) × IsHealthy (analysis_of_parse statement) e
          × ((ports.execute sql (ports.parse sql w).1).0 ≡ ok e)

analysis_of_parse-counted :
    (p : ParseResult)
    → length p.statements < 2 ^ 31
    → (analysis_of_parse p).statement_count ≡ pos (length p.statements)
analysis_of_parse-counted p h =
    (analysis_of_parse-Reports p).counted ∙ to_int32_small (length p.statements) h

module _ {W : Type 0} (ports : Ports W) (m : Mappings) (sql : Bytes) (t : ℤ) (id : ℕ) where
  refused-Delivers :
      (a : SqlAnalysis) (n : ℕ) (s : State W)
      → a.statement_count ≡ pos n
      → (evaluate a).allowed ≡ false
      → Delivers (decided ports m sql t id a (evaluate a) s).0
  unfolding decided
  refused-Delivers a n s h refusal =
      let f = evaluate-IsFinished a in
      rw refusal
        (rejected-Delivers t id a (evaluate a).reason n h (f.rejected_reason refusal) f.evaluated)

  permitted-Delivers :
      (a : SqlAnalysis) (s : State W) (e : ExecutionResult)
      → IsExecutable a
      → IsHealthy a e
      → (evaluate a).allowed ≡ true
      → (ports.execute sql s.world).0 ≡ ok e
      → Delivers (decided ports m sql t id a (evaluate a) s).0
  unfolding decided call_execute
  permitted-Delivers a s e h healthy allowed ran =
      rw (allowed, ran) (finish-Delivers t id a m e healthy h e.status refl)

  parsed-Delivers :
      (s : State W) (h : Serves ports sql s.world) (a : SqlAnalysis)
      → a ≡ analysis_of_parse h.statement
      → Delivers (decided ports m sql t id a (evaluate a) (parsed_state ports sql s)).0
  parsed-Delivers s h a same = elim (Bool-cases (evaluate a).allowed) [
    | inr refusal ↦
        refused-Delivers a (length h.statement.statements) (parsed_state ports sql s)
          (ap (λ (x : SqlAnalysis). x.statement_count) same
            ∙ analysis_of_parse-counted h.statement h.few)
          refusal
    | inl allowed ↦
        let permitted = (evaluate_iff a).0 allowed in
        let (e, healthy, ran) = h.executed (subst IsPermitted same permitted) in
        let coherent = analysis_of_parse-IsCoherent h.statement h.statement.statements refl in
        permitted-Delivers a (parsed_state ports sql s) e
          (permitted-IsExecutable a (subst IsCoherent (sym same) coherent) permitted)
          (subst (λ x. IsHealthy x e) (sym same) healthy) allowed ran
  ]

  process-Delivers :
      (s : State W)
      → (is_blank sql ≡ false → Serves ports sql s.world)
      → Delivers (process ports m sql t id s).0
  unfolding process evaluate evaluate_status
  process-Delivers s serves = elim (Bool-cases (is_blank sql)) [
    | inl blank ↦ rw ((analyze_invokes_parser (call_parse ports) sql s).0 blank) (
        refused-Delivers (record default_analysis { status = AnalysisStatus.empty_input }) 0 s refl
          refl)
    | inr text ↦
        let h = serves text in
        rw (analyze-ok ports sql s h.statement text h.parsed) (parsed-Delivers s h _ refl)
  ]

caught-Delivers :
    (t : ℤ) (id : ℕ) (r : Fault Processing)
    → Delivers r
    → (caught t id r).result ≢ ServiceResult.failure ServiceFailure.internal_error
caught-Delivers t id (ok x) h = h
caught-Delivers t id threw h = absurd h

module _ {W : Type 0} (ports : Ports W) (m : Mappings) (sql : Bytes) (s : State W) where
  -- If no port throws, the executor's answer to a permitted statement is healthy, the parser reports
  -- fewer than 2 ^ 31 statements and the repository persists the record, then the request is not
  -- answered by an internal error.
  pub handle-delivers :
      (is_blank sql ≡ false → Serves ports sql (clocked ports m sql s))
      → persistence ports m sql s ≡ AuditAppendResult.ok
      → (handle ports m sql s).0 ≢ ServiceResult.failure ServiceFailure.internal_error
  unfolding handle answer append_safely processed
  handle-delivers serves persisted = rw persisted (
      caught-Delivers (ports.now s.world).0 s.next_request_id _
        (process-Delivers ports m sql (ports.now s.world).0 s.next_request_id _ serves))
