-- ===== src/Postgres/Table.antt =====
-- The table that a driver result becomes.
use sql_proxy_service.Prelude.{
  ℕ, zero, suc, ◌+◌, ◌<◌, ◌≤◌, ◌≡◌, ◌≢◌, subst, ◌↔◌, refl, inl, inr, ltb_iff, ◌==◌, ==_iff,
  Bool-cases, false, [], ◌∷◌, sym, ap, ◌∙◌, true, false, Option, none, some, List, arith, length,
  get_elem?, All,
}
use sql_proxy_service.Prelude.Int.{pos}
use sql_proxy_service.Execution.{Cell, ColumnType, ColumnInfo, ExecutionResult}
use sql_proxy_service.Masker.Result.{IsRectangular}
use sql_proxy_service.Postgres.{
  DriverResult, collect, column_info, cell, column_type_from_oid, translate,
}

module _ {A : Type 0} (f : ℕ → A) where
  length-collect : (c n : ℕ) → length (collect f c n) ≡ n
  unfolding collect
  length-collect c zero = refl
  length-collect c (suc n) = ap suc (length-collect (c + 1) n)

  get_elem?-collect : (c n i : ℕ) → i < n → get_elem? (collect f c n) i ≡ some (f (c + i))
  unfolding collect
  get_elem?-collect c zero i h = absurd (omega (arith, h))
  get_elem?-collect c (suc n) zero h = ap (λ k. some (f k)) (omega arith)
  get_elem?-collect c (suc n) (suc i) h =
      get_elem?-collect (c + 1) n i (omega (arith, h)) ∙ ap (λ k. some (f k)) (omega arith)

  collected : (n i : ℕ) → i < n → get_elem? (collect f 0 n) i ≡ some (f i)
  collected n i h = get_elem?-collect 0 n i h ∙ ap (λ k. some (f k)) (omega arith)

  All-collect : (P : A → Type 0) → ((c : ℕ) → P (f c)) → (c n : ℕ) → All P (collect f c n)
  unfolding collect
  All-collect P h c zero = tt
  All-collect P h c (suc n) = (h c, All-collect P h (c + 1) n)

-- The cell in a row and a column of a result.
abbrev pub in_row : Option (List Cell) → ℕ → Option Cell
in_row none c = none
in_row (some row) c = get_elem? row c

abbrev pub cell_at : ExecutionResult → ℕ → ℕ → Option Cell
cell_at r i c = in_row (get_elem? r.rows i) c

-- The object ids of PostgreSQL's built-in types, and the type that the port shows for each.
pub data IsTyped : ℕ → ColumnType → Type 0 where
  text : IsTyped 25 ColumnType.text
  varchar : IsTyped 1043 ColumnType.text
  bpchar : IsTyped 1042 ColumnType.text
  int8 : IsTyped 20 ColumnType.integer
  int2 : IsTyped 21 ColumnType.integer
  int4 : IsTyped 23 ColumnType.integer
  float4 : IsTyped 700 ColumnType.float
  float8 : IsTyped 701 ColumnType.float
  numeric : IsTyped 1700 ColumnType.numeric
  bool : IsTyped 16 ColumnType.boolean
  timestamp : IsTyped 1114 ColumnType.timestamp
  timestamptz : IsTyped 1184 ColumnType.timestamp
  date : IsTyped 1082 ColumnType.date
  unknown :
      {oid : ℕ}
      → All
          (λ known. oid ≢ known)
          (25 ∷ 1043 ∷ 1042 ∷ 20 ∷ 21 ∷ 23 ∷ 700 ∷ 701 ∷ 1700 ∷ 16 ∷ 1114 ∷ 1184 ∷ 1082 ∷ [])
      → IsTyped oid ColumnType.other

-- The column has the driver's name and the type of its object id.
pub record IsColumn (r : DriverResult) (c : ℕ) (column : ColumnInfo) : Type 0 where
  pub name : column.name ≡ r.column_name c
  pub type : IsTyped (r.column_type c) column.type

-- The driver's table, as the port shows it.
pub record IsTable (r : DriverResult) (out : ExecutionResult) : Type 0 where
  pub rows : length out.rows ≡ r.size
  pub affected : out.affected_rows ≡ pos r.affected_rows
  pub result_set : (out.has_result_set ≡ true) ↔ (1 ≤ r.columns)
  pub width : length out.columns ≡ r.columns
  pub height : out.row_count ≡ pos (length out.rows)
  pub rectangular : IsRectangular out
  pub columns :
      (c : ℕ)
      → c < r.columns
      → (column : ColumnInfo) × (get_elem? out.columns c ≡ some column) × IsColumn r c column
  pub nulls :
      (i c : ℕ) → i < r.size → c < r.columns → r.is_null i c ≡ true → cell_at out i c ≡ some none
  pub values :
      (i c : ℕ)
      → i < r.size
      → c < r.columns
      → r.is_null i c ≡ false
      → cell_at out i c ≡ some (some (r.view i c))

column_type_from_oid-IsTyped : (oid : ℕ) → IsTyped oid (column_type_from_oid oid)
unfolding column_type_from_oid
column_type_from_oid-IsTyped oid = by_id 25 IsTyped.text (λ n0. by_id 1043 IsTyped.varchar (λ n1.
    by_id 1042 IsTyped.bpchar (λ n2. by_id 20 IsTyped.int8 (λ n3. by_id 21 IsTyped.int2 (λ n4.
      by_id 23 IsTyped.int4 (λ n5. by_id 700 IsTyped.float4 (λ n6. by_id 701 IsTyped.float8 (λ n7.
        by_id 1700 IsTyped.numeric (λ n8. by_id 16 IsTyped.bool (λ n9.
          by_id 1114 IsTyped.timestamp (λ n10. by_id 1184 IsTyped.timestamptz (λ n11.
            by_id 1082 IsTyped.date (λ n12.
              subst (IsTyped oid)
                (ground (arith, n0, n1, n2, n3, n4, n5, n6, n7, n8, n9, n10, n11, n12))
                (unknown (
                  n0,
                  (n1, (n2, (n3, (n4, (n5, (n6, (n7, (n8, (n9, (n10, (n11, (n12, tt)))))))))))),
                )))))))))))))))
  where
    by_id :
        (known : ℕ)
        → IsTyped known (column_type_from_oid known)
        → (oid ≢ known → IsTyped oid (column_type_from_oid oid))
        → IsTyped oid (column_type_from_oid oid)
    by_id known at_known otherwise = elim (Bool-cases (oid == known)) [
      | inl h ↦
          subst (λ o. IsTyped o (column_type_from_oid o)) (sym ((==_iff oid known).0 h)) at_known
      | inr h ↦ otherwise (λ e. ground (arith, h, e))
    ]

cell_at-translate :
    (r : DriverResult) (i c : ℕ)
    → i < r.size
    → c < r.columns
    → cell_at (translate r) i c ≡ some (cell r i c)
unfolding translate
cell_at-translate r i c h k =
    ap (λ row. in_row row c) (collected (λ i. collect (cell r i) 0 r.columns) r.size i h)
    ∙ collected (cell r i) r.columns c k

-- The result of the port is a table with the driver's number of rows, which is its row count, and
-- of columns, every row as wide as the columns; each column has the driver's name and the type that
-- the table of object ids gives; a NULL is an absent cell, and any other value, the empty text too,
-- is its text. It has a result set exactly if it has a column, and the driver's affected rows.
pub translate-IsTable : (r : DriverResult) → IsTable r (translate r)
unfolding translate
translate-IsTable r = record {
  rows = length-collect (λ i. collect (cell r i) 0 r.columns) 0 r.size;
  affected = refl;
  result_set = ltb_iff 0 r.columns;
  width = length-collect (column_info r) 0 r.columns;
  height = ap pos (sym (length-collect (λ i. collect (cell r i) 0 r.columns) 0 r.size));
  rectangular =
      All-collect (λ i. collect (cell r i) 0 r.columns)
        (λ row. length row ≡ length (collect (column_info r) 0 r.columns))
        (λ i.
          length-collect (cell r i) 0 r.columns ∙ sym (length-collect (column_info r) 0 r.columns))
        0 r.size;
  columns = λ c h. (
    column_info r c,
    collected (column_info r) r.columns c h,
    record { name = refl; type = column_type_from_oid-IsTyped (r.column_type c) },
  );
  nulls = λ i c h k e. cell_at-translate r i c h k ∙ rw e refl;
  values = λ i c h k e. cell_at-translate r i c h k ∙ rw e refl;
}
