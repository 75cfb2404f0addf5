-- ===== src/Masker/Result.antt =====
-- What `mask` returns for every input, and for what the classifier hands it.
use sql_proxy_service.Prelude.{
  ◌≡◌, ap, ◌↔◌, ◌⊎◌, inl, inr, Bool, true, false, not, List, map, arith, ◌==◌, if◌then◌else◌,
  Bool-cases, length, any, All, All_mono, none_iff,
}
use sql_proxy_service.Analysis.{SqlAnalysis}
use sql_proxy_service.Execution.{Cell, ExecutionResult}
use sql_proxy_service.Classifier.{ColumnClassification, ClassificationResult, Mappings, classify}
use sql_proxy_service.Classifier.Columns.{HasCategoryIfPii, IsAttributed, classify-IsWellFormed}
use sql_proxy_service.Masker.{
  MaskingFailureReason, MaskingOutcome, masked, failed, is_unattributed, is_inconsistent, differ,
  mask_columns, mask,
}
use sql_proxy_service.Masker.Rows.{masked_row, mask_columns-rows}

-- Every row is as wide as the list of columns.
abbrev pub IsRectangular : ExecutionResult → Type 0
IsRectangular r = All (λ row. length row ≡ length r.columns) r.rows

-- The classification is for this result, and keeps its own contract.
abbrev pub LinesUp : ExecutionResult → ClassificationResult → Type 0
LinesUp r k = (length k.columns ≡ length r.columns) × IsRectangular r

pub record IsValid (k : ClassificationResult) : Type 0 where
  pub categories : All HasCategoryIfPii k.columns
  pub flag : (k.fully_attributed ≡ true) ↔ All IsAttributed k.columns

abbrev pub masked_result : ExecutionResult → ClassificationResult → ExecutionResult
masked_result r k = record r { rows = map (masked_row k.columns) r.rows }

-- The four outcomes, each with the condition for it.
pub data Outcome (r : ExecutionResult) (k : ClassificationResult) (o : MaskingOutcome)
    : Type 0 where
  mismatched : ¬ LinesUp r k → o ≡ failed MaskingFailureReason.structural_mismatch → Outcome r k o
  invalid :
      LinesUp r k
      → ¬ IsValid k
      → o ≡ failed MaskingFailureReason.invalid_classification
      → Outcome r k o
  refused :
      LinesUp r k
      → IsValid k
      → k.fully_attributed ≡ false
      → o ≡ failed MaskingFailureReason.unattributed_column
      → Outcome r k o
  released :
      LinesUp r k
      → IsValid k
      → k.fully_attributed ≡ true
      → All IsAttributed k.columns
      → o ≡ masked (masked_result r k)
      → Outcome r k o

inconsistent_iff : (c : ColumnClassification) → (is_inconsistent c ≡ false) ↔ HasCategoryIfPii c
inconsistent_iff c = (λ h. ground arith, λ h. ground arith)

unattributed_iff :
    (c : ColumnClassification) → (is_unattributed c.data_class ≡ false) ↔ IsAttributed c
unattributed_iff c = (λ h. ground arith, λ h. ground arith)

consistent_iff :
    (l : List ColumnClassification) → (any is_inconsistent l ≡ false) ↔ All HasCategoryIfPii l
consistent_iff l = (
  (λ h.
      All_mono (λ c. is_inconsistent c ≡ false) HasCategoryIfPii (λ c. (inconsistent_iff c).0) l
        ((none_iff is_inconsistent l).0 h)),
  (λ h. (none_iff is_inconsistent l).1 (
      All_mono HasCategoryIfPii (λ c. is_inconsistent c ≡ false) (λ c. (inconsistent_iff c).1) l
        h)),
)

attributed_iff :
    (l : List ColumnClassification)
    → (any (λ c. is_unattributed c.data_class) l ≡ false) ↔ All IsAttributed l
attributed_iff l = (
  (λ h.
      All_mono (λ c. is_unattributed c.data_class ≡ false) IsAttributed
        (λ c. (unattributed_iff c).0) l ((none_iff (λ c. is_unattributed c.data_class) l).0 h)),
  (λ h. (none_iff (λ c. is_unattributed c.data_class) l).1 (
      All_mono IsAttributed (λ c. is_unattributed c.data_class ≡ false)
        (λ c. (unattributed_iff c).1) l h)),
)

IsRectangular-iff :
    (r : ExecutionResult)
    → (any (λ row. not (length row == length r.columns)) r.rows ≡ false) ↔ IsRectangular r
IsRectangular-iff r = (
  (λ h.
      All_mono (λ row. not (length row == length r.columns) ≡ false)
        (λ row. length row ≡ length r.columns) (λ row e. ground arith) r.rows
        ((none_iff (λ row. not (length row == length r.columns)) r.rows).0 h)),
  (λ h. (none_iff (λ row. not (length row == length r.columns)) r.rows).1 (
      All_mono (λ row. length row ≡ length r.columns)
        (λ row. not (length row == length r.columns) ≡ false) (λ row e. ground arith) r.rows h)),
)

abbrev any_unattributed : ClassificationResult → Bool
any_unattributed k = any (λ c. is_unattributed c.data_class) k.columns

flag_iff :
    (k : ClassificationResult)
    → (differ k.fully_attributed (not (any_unattributed k)) ≡ false)
      ↔ ((k.fully_attributed ≡ true) ↔ All IsAttributed k.columns)
flag_iff k = elim (Bool-cases (any_unattributed k)) [
  | inl some_open ↦ (
    (λ h. ((λ e. ground arith), (λ all. cc ((attributed_iff k.columns).1 all, some_open)))),
    (λ f. elim (Bool-cases k.fully_attributed) [
      | inl e ↦ cc ((attributed_iff k.columns).1 (f.0 e), some_open)
      | inr e ↦ ground arith
    ]),
  )
  | inr all_closed ↦
      let all = (attributed_iff k.columns).0 all_closed in
      ((λ h. ((λ e. all), (λ _. ground arith))), (λ f. ground (arith, f.1 all)))
]

mask-valid :
    (r : ExecutionResult) (k : ClassificationResult)
    → LinesUp r k
    → mask r k ≡ (
        if any is_inconsistent k.columns
        then failed MaskingFailureReason.invalid_classification
        else if differ k.fully_attributed (not (any_unattributed k))
        then failed MaskingFailureReason.invalid_classification
        else if any_unattributed k
        then failed MaskingFailureReason.unattributed_column
        else masked (record r { rows = mask_columns 0 k.columns r.rows }))
unfolding mask
mask-valid r k h = ground (arith, (IsRectangular-iff r).1 h.1)

mask-mismatched :
    (r : ExecutionResult) (k : ClassificationResult)
    → LinesUp r k ⊎ (¬ LinesUp r k × (mask r k ≡ failed MaskingFailureReason.structural_mismatch))
unfolding mask
mask-mismatched r k = elim (Bool-cases (length k.columns == length r.columns)) [
  | inr e ↦ inr ((λ h. ground arith), ground arith)
  | inl e ↦ elim (Bool-cases (any (λ row. not (length row == length r.columns)) r.rows)) [
    | inr fits ↦ inl (ground arith, (IsRectangular-iff r).0 fits)
    | inl ragged ↦ inr ((λ h. cc ((IsRectangular-iff r).1 h.1, ragged)), ground arith)
  ]
]

released_rows :
    (r : ExecutionResult) (k : ClassificationResult)
    → LinesUp r k
    → any is_inconsistent k.columns ≡ false
    → record r { rows = mask_columns 0 k.columns r.rows } ≡ masked_result r k
released_rows r k h e =
    ap (λ (rows : List (List Cell)). record r { rows = rows })
      (mask_columns-rows k.columns r.rows ((none_iff is_inconsistent k.columns).0 e) (rw h.0 h.1))

mask-lined_up :
    (r : ExecutionResult) (k : ClassificationResult) → LinesUp r k → Outcome r k (mask r k)
mask-lined_up r k h = elim (Bool-cases (any is_inconsistent k.columns)) [
  | inl broken ↦
      invalid h (λ v. cc ((consistent_iff k.columns).1 v.categories, broken))
        (ground (arith, mask-valid r k h))
  | inr sound ↦ elim (Bool-cases (differ k.fully_attributed (not (any_unattributed k)))) [
    | inl wrong ↦
        invalid h (λ v. cc ((flag_iff k).1 v.flag, wrong)) (ground (arith, mask-valid r k h))
    | inr right ↦
        let v : IsValid k = record {
          categories = (consistent_iff k.columns).0 sound;
          flag = (flag_iff k).0 right;
        } in
        elim (Bool-cases (any_unattributed k)) [
          | inl open_column ↦ refused h v (ground arith) (ground (arith, mask-valid r k h))
          | inr closed ↦
              released h v (ground arith) ((attributed_iff k.columns).0 closed)
                (ground (arith, mask-valid r k h, released_rows r k h sound))
        ]
  ]
]

-- Every input has exactly the outcome that its condition says: misaligned shapes, a broken
-- classification and an unattributed column are refused with their own reason, in this order;
-- anything else is released with every row masked cell by cell and all other fields unchanged.
pub mask-Outcome : (r : ExecutionResult) (k : ClassificationResult) → Outcome r k (mask r k)
mask-Outcome r k = elim (mask-mismatched r k) [
  | inl h ↦ mask-lined_up r k h
  | inr (n, e) ↦ mismatched n e
]

by_outcome :
    (r : ExecutionResult) (k : ClassificationResult) (o : MaskingOutcome)
    → LinesUp r k
    → IsValid k
    → Outcome r k o
    → o ≡ (
        if k.fully_attributed
        then masked (masked_result r k)
        else failed MaskingFailureReason.unattributed_column)
by_outcome r k o h v (mismatched n e) = absurd (n h)
by_outcome r k o h v (invalid _ n e) = absurd (n v)
by_outcome r k o h v (refused _ _ f e) = rw f e
by_outcome r k o h v (released _ _ f _ e) = rw f e

-- On a rectangular result the classifier's own answer never counts as broken: the result is
-- released, masked cell by cell, if every column is attributed, and refused for an unattributed
-- column otherwise.
pub mask-classify :
    (m : Mappings) (a : SqlAnalysis) (r : ExecutionResult)
    → IsRectangular r
    → mask r (classify m a r.columns) ≡ (
        if (classify m a r.columns).fully_attributed
        then masked (masked_result r (classify m a r.columns))
        else failed MaskingFailureReason.unattributed_column)
mask-classify m a r wide =
    let k = classify m a r.columns in
    let w = classify-IsWellFormed m a r.columns in
    let v : IsValid k = record { categories = w.categories; flag = w.flag } in
    by_outcome r k (mask r k) (w.one_each, wide) v (mask-Outcome r k)
