-- ===== src/Policy/Permission.antt =====
-- What the policy allows, stated without its rules, and that it allows exactly this.
use sql_proxy_service.Prelude.{
  ◌≡◌, refl, ◌↔◌, ◌⊎◌, inl, inr, true, false, List, [], ◌∷◌, arith, All, none_iff, Bytes, codes,
  bytes_eq_iff,
}
use sql_proxy_service.Prelude.Int.{pos}
use sql_proxy_service.Analysis.{
  StatementType, StatementClass, SqlAnalysis, AnalysisStatus, InsertSource, InsertValueKind,
}
use sql_proxy_service.Policy.{
  is_system_table, insert_target_table, are_order_columns, are_order_values,
  is_allowed_order_insert, is_target, targets_insert_table, evaluate_dml, evaluate_select,
  evaluate_class, evaluate_status, evaluate,
}

-- One analysed statement.
pub record IsSingle (a : SqlAnalysis) : Type 0 where
  pub analysed : a.status ≡ AnalysisStatus.ok
  pub single : a.statement_count ≡ pos 1

-- A read that the analysis understood completely: no catalog table, and no star beside a column.
pub record IsPlainRead (a : SqlAnalysis) : Type 0 where
  pub class : a.statement_class ≡ StatementClass.select
  pub understood : a.unsupported_features ≡ []
  pub user_tables : All (λ t. is_system_table t ≡ false) a.tables
  pub unmixed : (a.has_wildcard_projection ≡ false) ⊎ (a.projection_columns ≡ [])

-- `INSERT INTO orders (customer_id, amount) VALUES (<+int>, <+number>)`
pub record IsOrderInsert (a : SqlAnalysis) : Type 0 where
  pub class : a.statement_class ≡ StatementClass.dml
  pub type : a.statement_type ≡ StatementType.insert
  pub target : a.tables ≡ insert_target_table ∷ []
  pub understood : a.unsupported_features ≡ []
  pub source : a.insert_source ≡ InsertSource.values
  pub columns : a.affected_columns ≡ codes "customer_id" ∷ codes "amount" ∷ []
  pub amount : InsertValueKind
  pub values : a.insert_value_kinds ≡ InsertValueKind.positive_integer_literal ∷ amount ∷ []
  pub positive :
      (amount ≡ InsertValueKind.positive_integer_literal)
      ⊎ (amount ≡ InsertValueKind.positive_decimal_literal)

abbrev pub IsPermitted : SqlAnalysis → Type 0
IsPermitted a = IsSingle a × (IsPlainRead a ⊎ IsOrderInsert a)

are_order_columns_iff :
    (l : List Bytes)
    → (are_order_columns l ≡ true) ↔ (l ≡ codes "customer_id" ∷ codes "amount" ∷ [])
unfolding are_order_columns
are_order_columns_iff [] = ((λ h. cc), (λ h. cc))
are_order_columns_iff (x ∷ []) = ((λ h. cc), (λ h. cc))
are_order_columns_iff (x ∷ y ∷ []) = (
  λ h. ground (arith, bytes_eq_iff x (codes "customer_id"), bytes_eq_iff y (codes "amount")),
  λ h. ground (arith, bytes_eq_iff x (codes "customer_id"), bytes_eq_iff y (codes "amount")),
)
are_order_columns_iff (x ∷ y ∷ z ∷ l) = ((λ h. cc), (λ h. cc))

is_target_iff : (l : List Bytes) → (is_target l ≡ true) ↔ (l ≡ insert_target_table ∷ [])
unfolding is_target
is_target_iff [] = ((λ h. cc), (λ h. cc))
is_target_iff (x ∷ []) = (
  λ h. ground (arith, bytes_eq_iff x insert_target_table),
  λ h. ground (arith, bytes_eq_iff x insert_target_table),
)
is_target_iff (x ∷ y ∷ l) = ((λ h. cc), (λ h. cc))

abbrev AreOrderValues : List InsertValueKind → Type 0
AreOrderValues l =
    (amount : InsertValueKind) × (l ≡ InsertValueKind.positive_integer_literal ∷ amount ∷ [])
    × ((amount ≡ InsertValueKind.positive_integer_literal)
        ⊎ (amount ≡ InsertValueKind.positive_decimal_literal))

AreOrderValues-of_test : (l : List InsertValueKind) → are_order_values l ≡ true → AreOrderValues l
unfolding are_order_values
AreOrderValues-of_test [] h = cc
AreOrderValues-of_test (x ∷ []) h = ground arith
AreOrderValues-of_test (x ∷ y ∷ []) h = (y, ground arith, ground arith)
AreOrderValues-of_test (x ∷ y ∷ z ∷ l) h = ground arith

are_order_values_of : (l : List InsertValueKind) → AreOrderValues l → are_order_values l ≡ true
unfolding are_order_values
are_order_values_of l (amount, e, inl i) = rw (e, i)
are_order_values_of l (amount, e, inr d) = rw (e, d)

evaluate_select_iff :
    (a : SqlAnalysis)
    → a.statement_class ≡ StatementClass.select
    → ((evaluate_select a).allowed ≡ true) ↔ IsPlainRead a
unfolding evaluate_select
evaluate_select_iff a h = (
  λ e. ground (arith, none_iff is_system_table a.tables),
  λ r. ground (arith, (none_iff is_system_table a.tables).1 r.user_tables),
)

IsOrderInsert-of_evaluate_dml :
    (a : SqlAnalysis)
    → a.statement_class ≡ StatementClass.dml
    → (evaluate_dml a).allowed ≡ true
    → IsOrderInsert a
unfolding evaluate_dml is_allowed_order_insert targets_insert_table
IsOrderInsert-of_evaluate_dml a h e =
    let values : are_order_values a.insert_value_kinds ≡ true = ground arith in
    let (amount, shape, positive) = AreOrderValues-of_test a.insert_value_kinds values in
    record {
      class = h;
      type = ground arith;
      target = (is_target_iff a.tables).0 (ground arith);
      understood = ground arith;
      source = ground arith;
      columns = (are_order_columns_iff a.affected_columns).0 (ground arith);
      amount = amount;
      values = shape;
      positive = positive;
    }

evaluate_dml_of_IsOrderInsert :
    (a : SqlAnalysis) → IsOrderInsert a → (evaluate_dml a).allowed ≡ true
unfolding evaluate_dml is_allowed_order_insert targets_insert_table
evaluate_dml_of_IsOrderInsert a r = ground (
  arith,
  (is_target_iff a.tables).1 r.target,
  (are_order_columns_iff a.affected_columns).1 r.columns,
  are_order_values_of a.insert_value_kinds (r.amount, r.values, r.positive),
)

IsPermitted-by_class :
    (a : SqlAnalysis) (c : StatementClass)
    → IsSingle a
    → a.statement_class ≡ c
    → (evaluate_class c a).allowed ≡ true
    → IsPermitted a
unfolding evaluate_class
IsPermitted-by_class a StatementClass.select single e h =
    (single, inl ((evaluate_select_iff a e).0 h))
IsPermitted-by_class a StatementClass.dml single e h =
    (single, inr (IsOrderInsert-of_evaluate_dml a e h))
IsPermitted-by_class a StatementClass.ddl single e h = cc
IsPermitted-by_class a StatementClass.unknown single e h = cc

IsSingle-of_evaluate : (a : SqlAnalysis) → (evaluate a).allowed ≡ true → IsSingle a
unfolding evaluate evaluate_status
IsSingle-of_evaluate a h = ground arith

evaluate-single : (a : SqlAnalysis) → IsSingle a → evaluate a ≡ evaluate_class a.statement_class a
unfolding evaluate evaluate_status
evaluate-single a h = ground arith

IsPermitted-of_evaluate : (a : SqlAnalysis) → (evaluate a).allowed ≡ true → IsPermitted a
IsPermitted-of_evaluate a h =
    let single = IsSingle-of_evaluate a h in
    IsPermitted-by_class a a.statement_class single refl (rw (evaluate-single a single) at h)

evaluate_of_IsPermitted : (a : SqlAnalysis) → IsPermitted a → (evaluate a).allowed ≡ true
unfolding evaluate_class
evaluate_of_IsPermitted a (single, inl r) =
    ground (arith, evaluate-single a single, (evaluate_select_iff a r.class).1 r)
evaluate_of_IsPermitted a (single, inr r) =
    ground (arith, evaluate-single a single, evaluate_dml_of_IsOrderInsert a r)

-- The policy allows an analysis exactly if it is of one statement that is a plain read or the one
-- authorised insert into `orders`.
pub evaluate_iff : (a : SqlAnalysis) → ((evaluate a).allowed ≡ true) ↔ IsPermitted a
evaluate_iff a = (IsPermitted-of_evaluate a, evaluate_of_IsPermitted a)
