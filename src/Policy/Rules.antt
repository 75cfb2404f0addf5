-- ===== src/Policy/Rules.antt =====
-- The policy as its table of rules, first match wins, and what decisions look like.
use sql_proxy_service.Prelude.{
  ◌≡◌, refl, ◌≢◌, ◌↔◌, Bool, true, false, not, ◌&&◌, List, [], ◌∷◌, arith, if◌then◌else◌, is_empty,
  any,
}
use sql_proxy_service.Analysis.{StatementClass, SqlAnalysis, AnalysisStatus}
use sql_proxy_service.Policy.{
  RejectReason, PolicyDecision, reject, allow, is_one, is_insert, is_system_table,
  is_allowed_order_insert, targets_insert_table, evaluate_dml, evaluate_select, evaluate_class,
  evaluate_status, evaluate,
}

-- A rule: which analyses it concerns, and its answer.
pub record Rule : Type 0 where
  pub applies : SqlAnalysis → Bool
  pub answer : PolicyDecision

-- The first rule that applies decides; none would mean that the decision was never made.
unfoldable pub first_match : List Rule → SqlAnalysis → PolicyDecision
first_match [] a = reject RejectReason.not_evaluated
first_match (r ∷ rules) a = if r.applies a then r.answer else first_match rules a

abbrev has_status : AnalysisStatus → AnalysisStatus → Bool
has_status AnalysisStatus.ok AnalysisStatus.ok = true
has_status AnalysisStatus.empty_input AnalysisStatus.empty_input = true
has_status AnalysisStatus.parse_error AnalysisStatus.parse_error = true
has_status AnalysisStatus.multiple_statements AnalysisStatus.multiple_statements = true
has_status _ _ = false

abbrev has_class : StatementClass → StatementClass → Bool
has_class StatementClass.select StatementClass.select = true
has_class StatementClass.dml StatementClass.dml = true
has_class StatementClass.ddl StatementClass.ddl = true
has_class StatementClass.unknown StatementClass.unknown = true
has_class _ _ = false

abbrev rule : (SqlAnalysis → Bool) → PolicyDecision → Rule
rule applies answer = record { applies = applies; answer = answer }

-- R1 to R11 in the order of the source.
abbrev pub policy_rules : List Rule
policy_rules =
    rule (λ a. has_status AnalysisStatus.empty_input a.status) (reject RejectReason.empty_input)
    ∷ rule (λ a. has_status AnalysisStatus.parse_error a.status)
        (reject RejectReason.unparseable_sql)
    ∷ rule (λ a. has_status AnalysisStatus.multiple_statements a.status)
        (reject RejectReason.multiple_statements)
    ∷ rule (λ a. not (is_one a.statement_count)) (reject RejectReason.multiple_statements)
    ∷ rule (λ a. has_class StatementClass.unknown a.statement_class)
        (reject RejectReason.unsupported_statement_type)
    ∷ rule (λ a. has_class StatementClass.ddl a.statement_class)
        (reject RejectReason.ddl_not_allowed)
    ∷ rule (λ a. has_class StatementClass.dml a.statement_class && not (is_insert a.statement_type))
        (reject RejectReason.dml_not_allowed)
    ∷ rule (λ a. has_class StatementClass.dml a.statement_class && not (targets_insert_table a))
        (reject RejectReason.insert_target_not_allowed)
    ∷ rule (λ a. has_class StatementClass.dml a.statement_class && not (is_allowed_order_insert a))
        (reject RejectReason.unsupported_insert_shape)
    ∷ rule (λ a. has_class StatementClass.dml a.statement_class) allow
    ∷ rule (λ a. not (is_empty a.unsupported_features))
        (reject RejectReason.unsupported_sql_feature)
    ∷ rule (λ a. any is_system_table a.tables) (reject RejectReason.system_table_access)
    ∷ rule (λ a. a.has_wildcard_projection && not (is_empty a.projection_columns))
        (reject RejectReason.unattributable_projection)
    ∷ rule (λ a. true) allow
    ∷ []

evaluate_class-first_match :
    (a : SqlAnalysis) (s : AnalysisStatus) (c : StatementClass)
    → a.status ≡ s
    → a.statement_class ≡ c
    → evaluate a ≡ first_match policy_rules a
unfolding evaluate evaluate_status evaluate_class evaluate_dml evaluate_select first_match
evaluate_class-first_match a AnalysisStatus.ok StatementClass.select e f = ground arith
evaluate_class-first_match a AnalysisStatus.ok StatementClass.dml e f = ground arith
evaluate_class-first_match a AnalysisStatus.ok StatementClass.ddl e f = ground arith
evaluate_class-first_match a AnalysisStatus.ok StatementClass.unknown e f = ground arith
evaluate_class-first_match a AnalysisStatus.empty_input c e f = ground arith
evaluate_class-first_match a AnalysisStatus.parse_error c e f = ground arith
evaluate_class-first_match a AnalysisStatus.multiple_statements c e f = ground arith

-- The nested switches and tests of `evaluate` are the table of rules R1 to R11, of which the first
-- that applies decides.
pub evaluate-first_match : (a : SqlAnalysis) → evaluate a ≡ first_match policy_rules a
evaluate-first_match a = evaluate_class-first_match a a.status a.statement_class refl refl

-- A decision is well formed: an allowed one carries the reason `None`, a rejected one carries a
-- reason that is neither `None` nor the sentinel `NotEvaluated`.
pub record IsFinished (d : PolicyDecision) : Type 0 where
  pub allowed_reason : d.allowed ≡ true → d.reason ≡ RejectReason.none
  pub rejected_reason : d.allowed ≡ false → d.reason ≢ RejectReason.none
  pub evaluated : d.reason ≢ RejectReason.not_evaluated

first_match-IsFinished : (a : SqlAnalysis) → IsFinished (first_match policy_rules a)
unfolding first_match
first_match-IsFinished a = ground arith

-- Every decision of the policy carries the reason `None` exactly if it allows, and never the
-- sentinel `NotEvaluated`.
pub evaluate-IsFinished : (a : SqlAnalysis) → IsFinished (evaluate a)
evaluate-IsFinished a = rw evaluate-first_match (first_match-IsFinished a)

first_match-unparseable :
    (a : SqlAnalysis)
    → ((first_match policy_rules a).reason ≡ RejectReason.unparseable_sql)
      ↔ (a.status ≡ AnalysisStatus.parse_error)
unfolding first_match
first_match-unparseable a = ground arith

-- The reason `UNPARSEABLE_SQL` is given exactly for a failed parse.
unparseable_iff :
    (a : SqlAnalysis)
    → ((evaluate a).reason ≡ RejectReason.unparseable_sql) ↔ (a.status ≡ AnalysisStatus.parse_error)
unparseable_iff a = rw evaluate-first_match (first_match-unparseable a)
