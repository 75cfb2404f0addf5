-- ===== src/Audit/Tables.antt =====
-- The table names that a record may hold.
use sql_proxy_service.Prelude.{
  ℕ, ◌≤◌, ◌<◌, ◌≡◌, refl, ◌≢◌, ◌↔◌, inl, inr, true, false, not, List, [], ◌∷◌, arith, ltb,
  Bool-cases, length, any, All, All_mono, all_iff, none_iff, Bytes,
}
use sql_proxy_service.Audit.{
  AuditTableState, AuditTableMetadata, is_name_start, is_name_byte, is_valid_table_name,
  classify_tables,
}

-- A plain identifier of at most 63 bytes.
pub record IsPlainName (name : Bytes) : Type 0 where
  pub starts : (c : ℕ) × (rest : Bytes) × (name ≡ c ∷ rest) × (is_name_start c ≡ true)
  pub bytes : All (λ c. is_name_byte c ≡ true) name
  pub short : length name ≤ 63

-- A byte that JSON writes as it is, and that no control character, quote, backslash, dot, space or
-- byte of a multi-byte character can be.
abbrev pub IsHarmless : ℕ → Type 0
IsHarmless c = (b' ' < c) × (c < 127) × (c ≢ b'"') × (c ≢ b'\\') × (c ≢ b'.')

is_valid_table_name_iff : (name : Bytes) → (is_valid_table_name name ≡ true) ↔ IsPlainName name
unfolding is_valid_table_name
is_valid_table_name_iff [] = ((λ h. cc), (λ h. let (c, rest, e, _) = h.starts in cc e))
is_valid_table_name_iff (c ∷ name) = (
  (λ h. record {
    starts = (c, name, refl, ground arith);
    bytes = (ground arith, (all_iff is_name_byte name).0 (ground arith));
    short = ground arith;
  }),
  (λ h.
      let (d, rest, e, start) = h.starts in
      ground (arith, (all_iff is_name_byte name).1 h.bytes.1, h.short)),
)

-- A name that is kept consists of harmless bytes.
valid-IsHarmless : (name : Bytes) → is_valid_table_name name ≡ true → All IsHarmless name
valid-IsHarmless name h =
    All_mono (λ c. is_name_byte c ≡ true) IsHarmless (λ c e. ground arith) name
      ((is_valid_table_name_iff name).0 h).bytes

-- The contract of the metadata for a list of names: the list is kept whole or not at all.
pub data Keeps (names : List Bytes) (m : AuditTableMetadata) : Type 0 where
  absent : names ≡ [] → m.state ≡ AuditTableState.absent → m.tables ≡ [] → Keeps names m
  present :
      names ≢ []
      → length names ≤ 8
      → All IsPlainName names
      → m.state ≡ AuditTableState.present
      → m.tables ≡ names
      → Keeps names m
  omitted :
      names ≢ []
      → ¬ ((length names ≤ 8) × All IsPlainName names)
      → m.state ≡ AuditTableState.omitted
      → m.tables ≡ []
      → Keeps names m

all_valid_iff :
    (names : List Bytes)
    → (any (λ name. not (is_valid_table_name name)) names ≡ false) ↔ All IsPlainName names
all_valid_iff names = (
  (λ h.
      All_mono (λ name. not (is_valid_table_name name) ≡ false) IsPlainName
        (λ name e. (is_valid_table_name_iff name).0 (ground arith)) names
        ((none_iff (λ name. not (is_valid_table_name name)) names).0 h)),
  (λ h. (none_iff (λ name. not (is_valid_table_name name)) names).1 (
      All_mono IsPlainName (λ name. not (is_valid_table_name name) ≡ false)
        (λ name p. ground (arith, (is_valid_table_name_iff name).1 p)) names h)),
)

pub classify_tables-Keeps : (names : List Bytes) → Keeps names (classify_tables names)
unfolding classify_tables
classify_tables-Keeps [] = absent refl refl refl
classify_tables-Keeps (n ∷ names) = elim (Bool-cases (ltb 8 (length (n ∷ names)))) [
  | inl many ↦ omitted (λ e. cc) (λ h. ground arith) (ground arith) (ground arith)
  | inr few ↦ elim (Bool-cases (any (λ name. not (is_valid_table_name name)) (n ∷ names))) [
    | inl bad ↦
        omitted (λ e. cc) (λ h. cc ((all_valid_iff (n ∷ names)).1 h.1, bad)) (ground arith)
          (ground arith)
    | inr good ↦
        present (λ e. cc) (ground arith) ((all_valid_iff (n ∷ names)).0 good) (ground arith)
          (ground arith)
  ]
]

-- Every byte of every name that a record holds is harmless.
pub classify_tables-IsHarmless :
    (names : List Bytes) → All (All IsHarmless) (classify_tables names).tables
classify_tables-IsHarmless names = by_case (classify_tables names) (classify_tables-Keeps names)
  where
    plain : (name : Bytes) → IsPlainName name → All IsHarmless name
    plain name p = valid-IsHarmless name ((is_valid_table_name_iff name).1 p)

    by_case : (m : AuditTableMetadata) → Keeps names m → All (All IsHarmless) m.tables
    by_case m (absent _ _ e) = rw e tt
    by_case m (present _ _ h _ e) = rw e (All_mono IsPlainName (All IsHarmless) plain names h)
    by_case m (omitted _ _ _ e) = rw e tt
