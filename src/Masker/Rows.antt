-- ===== src/Masker/Rows.antt =====
-- The column loop of `mask` is the masking of each row, cell by cell.
use sql_proxy_service.Prelude.{
  zero, get_elem?, ℕ, suc, ◌≡◌, refl, ap, inl, inr, false, not, none, some, List, [], ◌∷◌, ◌++◌,
  map, arith, if◌then◌else◌, Option-cases, length, length-append, All,
}
use mathlib.Core.List.{append_assoc}
use sql_proxy_service.Execution.{Cell}
use sql_proxy_service.Classifier.{PiiCategory, ColumnClassification}
use sql_proxy_service.Masker.{
  is_pii, is_inconsistent, mask_value, mask_cell, mask_at, mask_column, mask_columns,
}

-- What a cell of a column becomes.
abbrev pub masked_cell : ColumnClassification → Cell → Cell
masked_cell c none = none
masked_cell c (some []) = some []
masked_cell c (some (b ∷ value)) = elim c.pii_category [
  | none ↦ some (b ∷ value)
  | some category ↦ some (mask_value category (b ∷ value))
]

-- A row and the classifications, in step.
unfoldable pub masked_row : List ColumnClassification → List Cell → List Cell
masked_row (c ∷ classes) (cell ∷ row) = masked_cell c cell ∷ masked_row classes row
masked_row _ row = row

-- A cell with nothing to hide behind: the loop at one column, on one row.
mask_at_if : ℕ → ColumnClassification → List Cell → List Cell
mask_at_if col c row =
    if not (is_pii c.data_class)
    then row
    else elim c.pii_category [ none ↦ row | some category ↦ mask_at col category row ]

mask_column-map :
    (col : ℕ) (c : ColumnClassification) (rows : List (List Cell))
    → mask_column col c rows ≡ map (mask_at_if col c) rows
unfolding mask_column mask_at_if
mask_column-map col c [] = ground arith
mask_column-map col c (row ∷ rows) = ground (arith, mask_column-map col c rows)

masked_from : ℕ → List ColumnClassification → List Cell → List Cell
masked_from col [] row = row
masked_from col (c ∷ classes) row = masked_from (suc col) classes (mask_at_if col c row)

mask_columns-nil :
    (col : ℕ) (classes : List ColumnClassification) → mask_columns col classes [] ≡ []
unfolding mask_columns
mask_columns-nil col [] = refl
mask_columns-nil col (c ∷ classes) =
    rw (mask_column-map col c []) (mask_columns-nil (suc col) classes)

mask_columns-cons :
    (col : ℕ) (classes : List ColumnClassification) (row : List Cell) (rows : List (List Cell))
    → mask_columns col classes (row ∷ rows)
      ≡ masked_from col classes row ∷ mask_columns col classes rows
unfolding mask_columns masked_from
mask_columns-cons col [] row rows = refl
mask_columns-cons col (c ∷ classes) row rows =
    rw (mask_column-map col c (row ∷ rows), mask_column-map col c rows)
      (mask_columns-cons (suc col) classes (mask_at_if col c row) (map (mask_at_if col c) rows))

mask_at-append :
    (category : PiiCategory) (done row : List Cell) (cell : Cell)
    → mask_at (length done) category (done ++ cell ∷ row) ≡ done ++ mask_cell category cell ∷ row
unfolding mask_at
mask_at-append category [] row cell = refl
mask_at-append category (x ∷ done) row cell = ap (◌∷◌ x) (mask_at-append category done row cell)

masked_cell_lem :
    (c : ColumnClassification) (category : PiiCategory) (cell : Cell)
    → c.pii_category ≡ some category
    → masked_cell c cell ≡ mask_cell category cell
unfolding mask_cell
masked_cell_lem c category none e = refl
masked_cell_lem c category (some []) e = refl
masked_cell_lem c category (some (b ∷ value)) e = ground arith

masked_cell-none :
    (c : ColumnClassification) (cell : Cell) → c.pii_category ≡ none → masked_cell c cell ≡ cell
masked_cell-none c none e = refl
masked_cell-none c (some []) e = refl
masked_cell-none c (some (b ∷ value)) e = ground arith

mask_at_if-append :
    (c : ColumnClassification) (done row : List Cell) (cell : Cell)
    → is_inconsistent c ≡ false
    → mask_at_if (length done) c (done ++ cell ∷ row) ≡ done ++ masked_cell c cell ∷ row
unfolding mask_at_if
mask_at_if-append c done row cell h = elim (Option-cases c.pii_category) [
  | inl e ↦ ground (arith, masked_cell-none c cell e)
  | inr (category, e) ↦
      ground (arith, masked_cell_lem c category cell e, mask_at-append category done row cell)
]

-- The columns before `col` are done.
masked_from-append :
    (classes : List ColumnClassification) (done row : List Cell)
    → All (λ c. is_inconsistent c ≡ false) classes
    → length row ≡ length classes
    → masked_from (length done) classes (done ++ row) ≡ done ++ masked_row classes row
unfolding masked_from masked_row mask_at_if
masked_from-append [] done row h e = refl
masked_from-append (c ∷ classes) done [] h e = absurd (omega arith)
masked_from-append (c ∷ classes) done (cell ∷ row) h e =
    let x = masked_cell c cell in
    let first = mask_at_if-append c done row cell h.0 in
    let next = masked_from-append classes (done ++ x ∷ []) row h.1 (omega arith) in
    let count : length (done ++ x ∷ []) ≡ suc (length done) =
      omega (arith, length-append done (x ∷ [])) in
    cc (
      first,
      next,
      count,
      append_assoc done (x ∷ []) row,
      append_assoc done (x ∷ []) (masked_row classes row),
    )

-- On rows as wide as the list of classifications, the loop over columns and rows masks each row
-- cell by cell.
pub mask_columns-rows :
    (classes : List ColumnClassification) (rows : List (List Cell))
    → All (λ c. is_inconsistent c ≡ false) classes
    → All (λ row. length row ≡ length classes) rows
    → mask_columns 0 classes rows ≡ map (masked_row classes) rows
mask_columns-rows classes [] h w = mask_columns-nil 0 classes
mask_columns-rows classes (row ∷ rows) h w = cc (
  mask_columns-cons 0 classes row rows,
  masked_from-append classes [] row h w.0,
  mask_columns-rows classes rows h w.1,
)

length-masked_row :
    (classes : List ColumnClassification) (row : List Cell)
    → length (masked_row classes row) ≡ length row
unfolding masked_row
length-masked_row [] row = refl
length-masked_row (c ∷ classes) [] = refl
length-masked_row (c ∷ classes) (cell ∷ row) = ap suc (length-masked_row classes row)

-- Cell `j` of a masked row is the masked cell `j`, under the classification of column `j`.
get_elem?-masked_row :
    (classes : List ColumnClassification) (row : List Cell) (j : ℕ) (c : ColumnClassification)
    (cell : Cell)
    → get_elem? classes j ≡ some c
    → get_elem? row j ≡ some cell
    → get_elem? (masked_row classes row) j ≡ some (masked_cell c cell)
unfolding masked_row
get_elem?-masked_row [] row j c cell h e = cc
get_elem?-masked_row (k ∷ classes) [] j c cell h e = cc
get_elem?-masked_row (k ∷ classes) (x ∷ row) zero c cell h e = ground arith
get_elem?-masked_row (k ∷ classes) (x ∷ row) (suc j) c cell h e =
    get_elem?-masked_row classes row j c cell h e
