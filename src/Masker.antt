-- ===== src/Masker.antt =====
-- `src/core/pii_masker.cpp`: the transformation of one value, and of a whole result. A result is
-- validated before any cell is touched.
pub mod Email
pub mod Digits
pub mod Unchanged
pub mod Rows
pub mod Result
mod Examples
use sql_proxy_service.Prelude.{
  ℕ, zero, suc, ◌-◌, Bool, true, false, not, ◌&&◌, ◌||◌, Option, none, some, List, [], ◌∷◌, ◌++◌,
  map, ltb, leb, ◌==◌, if◌then◌else◌, length, drop, any, Bytes, codes,
}
use sql_proxy_service.Execution.{Cell, ExecutionResult}
use sql_proxy_service.Classifier.{
  PiiCategory, ColumnDataClass, ColumnClassification, ClassificationResult,
}

abbrev pub full_redaction : Bytes
full_redaction = codes "***"

abbrev pub at : ℕ
at = b'@'

-- The loop of `mask_email`: `at_count` and `at_pos` from index `i` on.
pub scan_at : ℕ → ℕ → ℕ → Bytes → ℕ × ℕ
scan_at i at_count at_pos [] = (at_count, at_pos)
scan_at i at_count at_pos (c ∷ value) =
    scan_at (suc i) (if c == at then suc at_count else at_count) (if c == at then i else at_pos)
      value

-- `string(1, value[0])`, unless the first byte is not ASCII.
abbrev pub kept_byte : Bytes → Bytes
kept_byte [] = []
kept_byte (c ∷ value) = if leb 0x80 c then [] else c ∷ []

unfoldable pub mask_email : Bytes → Bytes
unfolding scan_at
mask_email value =
    let (at_count, at_pos) = scan_at 0 0 0 value in
    if not (at_count == 1) || at_pos == 0 || at_pos == length value - 1
    then full_redaction
    else kept_byte value ++ codes "***@" ++ drop (suc at_pos) value

abbrev pub is_digit : ℕ → Bool
is_digit c = leb b'0' c && leb c b'9'

-- The loop of `mask_phone`.
unfoldable pub digits : Bytes → Bytes
digits [] = []
digits (c ∷ value) = if is_digit c then c ∷ digits value else digits value

-- `digits.substr(digits.size() - 4)`
abbrev pub last_four : Bytes → Bytes
last_four s = drop (length s - 4) s

unfoldable pub mask_phone : Bytes → Bytes
unfolding digits
mask_phone value =
    let d = digits value in if ltb (length d) 7 then full_redaction else codes "***" ++ last_four d

-- The loop of `mask_credit_card`; `none` is its early return.
unfoldable pub card_digits : Bytes → Option Bytes
card_digits [] = some []
card_digits (c ∷ value) =
    let rest = card_digits value in
    if c == b' ' || c == b'-'
    then rest
    else if ltb c b'0' || ltb b'9' c
    then none
    else elim rest [ none ↦ none | some d ↦ some (c ∷ d) ]

unfoldable pub mask_credit_card : Bytes → Bytes
unfolding card_digits
mask_credit_card value = elim (card_digits value) [
  | none ↦ full_redaction
  | some d ↦ if ltb (length d) 12 then full_redaction else codes "****" ++ last_four d
]

unfoldable pub mask_value : PiiCategory → Bytes → Bytes
mask_value PiiCategory.email value = mask_email value
mask_value PiiCategory.phone value = mask_phone value
mask_value PiiCategory.credit_card value = mask_credit_card value

pub data MaskingFailureReason : Type 0 where
  unattributed_column structural_mismatch invalid_classification : MaskingFailureReason

-- `to_string(MaskingFailureReason)`
pub masking_failure_name : MaskingFailureReason → Bytes
masking_failure_name MaskingFailureReason.unattributed_column = codes "UNATTRIBUTED_COLUMN"
masking_failure_name MaskingFailureReason.structural_mismatch = codes "STRUCTURAL_MISMATCH"
masking_failure_name MaskingFailureReason.invalid_classification = codes "INVALID_CLASSIFICATION"

-- `MaskingOutcome`: a failure carries no result.
pub data MaskingOutcome : Type 0 where
  masked : ExecutionResult → MaskingOutcome
  failed : MaskingFailureReason → MaskingOutcome

abbrev pub is_pii : ColumnDataClass → Bool
is_pii ColumnDataClass.pii = true
is_pii _ = false

abbrev pub is_unattributed : ColumnDataClass → Bool
is_unattributed ColumnDataClass.unattributed = true
is_unattributed _ = false

abbrev pub has_value {ℓ} : {A : Type ℓ} → Option A → Bool
has_value none = false
has_value (some a) = true

-- Two Booleans differ.
abbrev pub differ : Bool → Bool → Bool
differ true b = not b
differ false b = b

abbrev pub is_inconsistent : ColumnClassification → Bool
is_inconsistent c = differ (is_pii c.data_class) (has_value c.pii_category)

-- A cell that is NULL or empty is skipped.
unfoldable pub mask_cell : PiiCategory → Cell → Cell
mask_cell category none = none
mask_cell category (some []) = some []
mask_cell category (some (b ∷ value)) = some (mask_value category (b ∷ value))

-- `row[col] = …`
unfoldable pub mask_at : ℕ → PiiCategory → List Cell → List Cell
mask_at col category [] = []
mask_at zero category (cell ∷ row) = mask_cell category cell ∷ row
mask_at (suc col) category (cell ∷ row) = cell ∷ mask_at col category row

-- One round of the outer loop of phase 2; a column that is not PII is passed over.
unfoldable pub mask_column : ℕ → ColumnClassification → List (List Cell) → List (List Cell)
mask_column col c rows =
    if not (is_pii c.data_class)
    then rows
    else elim c.pii_category [ none ↦ rows | some category ↦ map (mask_at col category) rows ]

unfoldable pub mask_columns : ℕ → List ColumnClassification → List (List Cell) → List (List Cell)
mask_columns col [] rows = rows
mask_columns col (c ∷ classes) rows = mask_columns (suc col) classes (mask_column col c rows)

unfoldable pub mask : ExecutionResult → ClassificationResult → MaskingOutcome
mask result classification =
    let column_count = length result.columns in
    let any_unattributed = any (λ c. is_unattributed c.data_class) classification.columns in
    if not (length classification.columns == column_count)
    then failed MaskingFailureReason.structural_mismatch
    else if any (λ row. not (length row == column_count)) result.rows
    then failed MaskingFailureReason.structural_mismatch
    else if any is_inconsistent classification.columns
    then failed MaskingFailureReason.invalid_classification
    else if differ classification.fully_attributed (not any_unattributed)
    then failed MaskingFailureReason.invalid_classification
    else if any_unattributed
    then failed MaskingFailureReason.unattributed_column
    else masked (record result { rows = mask_columns 0 classification.columns result.rows })
