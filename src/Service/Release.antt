-- ===== src/Service/Release.antt =====
-- What a client of a read is shown: the executor's rows, masked.
use sql_proxy_service.Prelude.{
  ℕ, ◌≡◌, refl, ap, subst, inl, inr, true, map, arith, Bool-cases, length, all, All, Bytes, Fault,
  ok, threw, Fault-cases,
}
use sql_proxy_service.Prelude.Int.{ℤ}
use sql_proxy_service.Analysis.{SqlAnalysis, ParseResult}
use sql_proxy_service.Analyzer.{is_blank, analysis_of_parse}
use sql_proxy_service.Analyzer.Outcomes.{analyze_invokes_parser}
use sql_proxy_service.Policy.{RejectReason, PolicyDecision, evaluate, evaluate_status}
use sql_proxy_service.Policy.Permission.{IsPermitted, evaluate_iff}
use sql_proxy_service.Execution.{ColumnInfo, ExecutionStatus, ExecutionResult}
use sql_proxy_service.Classifier.{Mappings, ClassificationResult, classify}
use sql_proxy_service.Classifier.Columns.{IsAttributed}
use sql_proxy_service.Masker.{MaskingFailureReason, MaskingOutcome, masked, failed, mask}
use sql_proxy_service.Masker.Rows.{masked_row}
use sql_proxy_service.Masker.Result.{
  Outcome, IsRectangular, masked_result, mask-Outcome, mismatched, invalid, refused,
}
use sql_proxy_service.Audit.{DbFailureCategory}
use sql_proxy_service.Audit.Record
use sql_proxy_service.Ports.{AuditAppendResult, Ports}
use sql_proxy_service.Service.{
  Processing, State, caught, rejected, database_failed, written, released, read, finish, call_parse,
  call_execute, decided, process, processed, answer, append_safely, handle,
}
use sql_proxy_service.Answer.{
  MaskedQueryResult, ServiceFailure, ServiceResult, checked_count, to_masked_result,
}
use sql_proxy_service.Service.Calls.{clocked, parsed_state, analyze-threw, analyze-ok}

-- A result of the executor with every row masked under the classification of its columns, none of
-- which is unattributed.
pub record IsMasked (m : Mappings) (a : SqlAnalysis) (e : ExecutionResult) (q : MaskedQueryResult)
    : Type 0 where
  pub rectangular : IsRectangular e
  pub attributed : All IsAttributed (classify m a e.columns).columns
  pub names : q.column_names ≡ map (λ (c : ColumnInfo). c.name) e.columns
  pub rows : q.rows ≡ map (masked_row (classify m a e.columns).columns) e.rows

-- Rows that are shown have the property.
abbrev Shows : (MaskedQueryResult → Type 0) → ServiceResult → Type 0
Shows P (ServiceResult.success q) = P q
Shows P _ = Unit

abbrev Showing : (MaskedQueryResult → Type 0) → Fault Processing → Type 0
Showing P threw = Unit
Showing P (ok x) = Shows P x.result

Shows-of :
    (P : MaskedQueryResult → Type 0) (r : ServiceResult) {q : MaskedQueryResult}
    → Shows P r
    → r ≡ ServiceResult.success q
    → P q
Shows-of P r h e = subst (Shows P) e h

module _ (a : SqlAnalysis) (t : ℤ) (id : ℕ) (P : MaskedQueryResult → Type 0) where
  rejected-Showing : (reason : RejectReason) → Showing P (rejected t id a reason)
  unfolding rejected checked_count Record.policy_rejected
  rejected-Showing reason = ground arith

module _ (m : Mappings) (a : SqlAnalysis) (e : ExecutionResult) where
  released-IsMasked :
      (o : MaskingOutcome) (r : ExecutionResult)
      → Outcome e (classify m a e.columns) o
      → o ≡ masked r
      → IsMasked m a e (to_masked_result r)
  unfolding to_masked_result
  released-IsMasked o r (mismatched n h) g = cc
  released-IsMasked o r (invalid l n h) g = cc
  released-IsMasked o r (refused l v f h) g = cc
  released-IsMasked o r (Outcome.released l v f all h) g =
      let k = classify m a e.columns in
      let same : r ≡ masked_result e k = cc (g, h) in
      record {
        rectangular = l.1;
        attributed = all;
        names = ap (λ (x : ExecutionResult). map (λ (c : ColumnInfo). c.name) x.columns) same;
        rows = ap (λ (x : ExecutionResult). x.rows) same;
      }

  module _ (t : ℤ) (id : ℕ) (P : MaskedQueryResult → Type 0) where
    written-Showing : Showing P (written t id a e)
    unfolding written checked_count Record.write_success
    written-Showing = ground arith

    database_failed-Showing :
        (f : ServiceFailure) (c : DbFailureCategory) → Showing P (database_failed t id a f c)
    unfolding database_failed Record.database_failure
    database_failed-Showing f c = ground arith

    released-Showing :
        (n c : ℕ) (k : ClassificationResult) (o : MaskingOutcome)
        → ((r : ExecutionResult) → o ≡ masked r → P (to_masked_result r))
        → Showing P (released t id a n c k o)
    unfolding released Record.success Record.masking_refused
    released-Showing n c k (masked r) h = ground (arith, h r refl)
    released-Showing n c k (failed MaskingFailureReason.unattributed_column) h = ground arith
    released-Showing n c k (failed MaskingFailureReason.structural_mismatch) h = ground arith
    released-Showing n c k (failed MaskingFailureReason.invalid_classification) h = ground arith

    module _
        (shown : (q : MaskedQueryResult)
          → e.status ≡ ExecutionStatus.ok
          → IsMasked m a e q
          → P q) where
      read-Showing : e.status ≡ ExecutionStatus.ok → Showing P (read t id m a e)
      unfolding read
      read-Showing fine = elim (Fault-cases (checked_count e.row_count)) [
        | inl h ↦ rw h tt
        | inr (n, h) ↦
            let k = classify m a e.columns in
            rw h (
              released-Showing n (length e.columns) k (mask e k) (λ r g.
                shown (to_masked_result r) fine
                  (released-IsMasked (mask e k) r (mask-Outcome e k) g)))
      ]

      finish-Showing :
          (status : ExecutionStatus) → e.status ≡ status → Showing P (finish t id status m a e)
      unfolding finish
      finish-Showing ExecutionStatus.ok h = ground (arith, written-Showing, read-Showing h)
      finish-Showing ExecutionStatus.connection_failure h = database_failed-Showing _ _
      finish-Showing ExecutionStatus.execution_failure h = database_failed-Showing _ _

module _ {W : Type 0} (ports : Ports W) (m : Mappings) (sql : Bytes) (w : W) where
  -- The rows are those of one permitted statement as the executor answered it, masked.
  pub record IsRelease (q : MaskedQueryResult) : Type 0 where
    pub statement : ParseResult
    pub parsed : (ports.parse sql w).0 ≡ ok statement
    pub permitted : IsPermitted (analysis_of_parse statement)
    pub rows : ExecutionResult
    pub executed : (ports.execute sql (ports.parse sql w).1).0 ≡ ok rows
    pub finished : rows.status ≡ ExecutionStatus.ok
    pub is_masked : IsMasked m (analysis_of_parse statement) rows q

module _ {W : Type 0} (ports : Ports W) (m : Mappings) (sql : Bytes) (t : ℤ) (id : ℕ) where
  decided-Showing :
      (P : MaskedQueryResult → Type 0) (a : SqlAnalysis) (d : PolicyDecision) (s : State W)
      → ((e : ExecutionResult) (q : MaskedQueryResult)
          → d.allowed ≡ true
          → (ports.execute sql s.world).0 ≡ ok e
          → e.status ≡ ExecutionStatus.ok
          → IsMasked m a e q
          → P q)
      → Showing P (decided ports m sql t id a d s).0
  unfolding decided call_execute
  decided-Showing P a d s shown = elim (Bool-cases d.allowed) [
    | inr refusal ↦ rw refusal (rejected-Showing a t id P d.reason)
    | inl allowed ↦ elim (Fault-cases (ports.execute sql s.world).0) [
      | inl h ↦ rw (allowed, h) tt
      | inr (e, h) ↦
          rw (allowed, h) (finish-Showing m a e t id P (λ q. shown e q allowed h) e.status refl)
    ]
  ]

  process-Showing :
      (P : MaskedQueryResult → Type 0) (s : State W)
      → ((q : MaskedQueryResult) → IsRelease ports m sql s.world q → P q)
      → Showing P (process ports m sql t id s).0
  unfolding process evaluate evaluate_status
  process-Showing P s shown = elim (Bool-cases (is_blank sql)) [
    | inl blank ↦
        rw ((analyze_invokes_parser (call_parse ports) sql s).0 blank)
          (decided-Showing P _ _ s (λ e q allowed _ _ _. absurd cc))
    | inr text ↦ elim (Fault-cases (ports.parse sql s.world).0) [
      | inl e ↦ rw (analyze-threw ports sql s text e) tt
      | inr (p, e) ↦ rw (analyze-ok ports sql s p text e) (
          decided-Showing P (analysis_of_parse p) (evaluate (analysis_of_parse p))
            (parsed_state ports sql s)
            (λ rows q allowed ran fine is_masked. shown q (record {
              statement = p;
              parsed = e;
              permitted = (evaluate_iff (analysis_of_parse p)).0 allowed;
              rows = rows;
              executed = ran;
              finished = fine;
              is_masked = is_masked;
            })))
    ]
  ]

  caught-Shows :
      (P : MaskedQueryResult → Type 0) (r : Fault Processing)
      → Showing P r
      → Shows P (caught t id r).result
  caught-Shows P (ok x) h = h
  caught-Shows P threw h = tt

answer-success :
    {W : Type 0} (x : Processing) (r : AuditAppendResult) (s : State W) (q : MaskedQueryResult)
    → (answer x r s).0 ≡ ServiceResult.success q
    → x.result ≡ ServiceResult.success q
unfolding answer
answer-success x AuditAppendResult.ok s q h = h
answer-success x AuditAppendResult.open_failure s q h = ground arith
answer-success x AuditAppendResult.write_failure s q h = ground arith

module _ {W : Type 0} (ports : Ports W) (m : Mappings) (sql : Bytes) (s : State W) where
  -- If the service answers a read with rows, then they are the executor's rows for this very text,
  -- each row masked cell by cell; the text parsed to a permitted statement, every column is
  -- attributed, and the executor ran in the world that the parser left.
  pub handle-IsRelease :
      (q : MaskedQueryResult)
      → (handle ports m sql s).0 ≡ ServiceResult.success q
      → IsRelease ports m sql (clocked ports m sql s) q
  unfolding handle processed append_safely
  handle-IsRelease q h =
      let t = (ports.now s.world).0 in
      let P = IsRelease ports m sql (clocked ports m sql s) in
      let shown = process-Showing ports m sql t s.next_request_id P _ (λ q r. r) in
      Shows-of P _ (caught-Shows ports m sql t s.next_request_id P _ shown)
        (answer-success _ _ _ q h)
