-- ===== src/Jsonl/Safety.antt =====
-- No text that a client or the database chose can be in a line but for checked table names.
use sql_proxy_service.Prelude.{
  ℕ, zero, suc, ◌+◌, ◌≤◌, ◌<◌, ◌≡◌, refl, ◌≢◌, Bool, true, not, ◌&&◌, List, [], ◌∷◌, ◌++◌, arith,
  ltb, leb, ◌==◌, take, replicate, all, any, All, All-append, All_mono, all_iff, Bytes, codes,
  bytes_eq, ok,
}
use sql_proxy_service.Prelude.Int.{ℤ, pos, negsuc}
use sql_proxy_service.Prelude.Decimal.{decimal, decimal_from-digits}
use sql_proxy_service.Analysis.{StatementType, statement_type_name}
use sql_proxy_service.Policy.{RejectReason, reject_reason_name}
use sql_proxy_service.Audit.{
  AuditOutcome, audit_outcome_name, AuditTableState, db_failure_name, DbFailureCategory, Details,
  AuditRecord, classify_tables, outcome_of,
}
use sql_proxy_service.Audit.Tables.{IsHarmless, classify_tables-IsHarmless}
use sql_proxy_service.Audit.Factories.{make, make_record, given_tables}
use sql_proxy_service.Jsonl.{
  Tm, padded, quotient, remainder, plus, format_utc_timestamp, Json, Object, text, number, flag,
  texts, serialize,
}
use sql_proxy_service.Jsonl.Schema.{
  type_entry, table_entries, detail_entries, entries, serialize_lem,
}

abbrev pub known_keys : List Bytes
known_keys =
    codes "timestamp"
    ∷ codes "request_id"
    ∷ codes "outcome"
    ∷ codes "referenced_tables"
    ∷ codes "referenced_tables_omitted"
    ∷ codes "statement_type"
    ∷ codes "row_count"
    ∷ codes "column_count"
    ∷ codes "pii_email_columns"
    ∷ codes "pii_phone_columns"
    ∷ codes "pii_credit_card_columns"
    ∷ codes "affected_rows"
    ∷ codes "reason"
    ∷ codes "statement_count"
    ∷ codes "category"
    ∷ []

-- A byte that JSON writes as it is: printable ASCII but for the quote and the backslash.
abbrev pub IsPrintable : ℕ → Type 0
IsPrintable c = (b' ' ≤ c) × (c < 127) × (c ≢ b'"') × (c ≢ b'\\')

abbrev is_printable : ℕ → Bool
is_printable c = leb b' ' c && ltb c 127 && not (c == b'"') && not (c == b'\\')

abbrev pub IsSafe : Json → Type 0
IsSafe (text s) = All IsPrintable s
IsSafe (texts l) = All (All IsPrintable) l
IsSafe (number n) = Unit
IsSafe (flag b) = Unit

abbrev pub IsEntry : Bytes × Json → Type 0
IsEntry (key, value) = (any (bytes_eq key) known_keys ≡ true) × IsSafe value

printable : (s : Bytes) → all is_printable s ≡ true → All IsPrintable s
printable s h =
    All_mono (λ c. is_printable c ≡ true) IsPrintable (λ c e. ground arith) s
      ((all_iff is_printable s).0 h)

-- The texts of the closed tables.
type_name_printable : (t : StatementType) → all is_printable (statement_type_name t) ≡ true
unfolding statement_type_name
type_name_printable t = ground arith

reason_name_printable : (r : RejectReason) → all is_printable (reject_reason_name r) ≡ true
unfolding reject_reason_name
reason_name_printable r = ground arith

category_name_printable : (c : DbFailureCategory) → all is_printable (db_failure_name c) ≡ true
unfolding db_failure_name
category_name_printable c = ground arith

outcome_name_printable : (o : AuditOutcome) → all is_printable (audit_outcome_name o) ≡ true
unfolding audit_outcome_name
outcome_name_printable o = ground arith

-- The text of a timestamp.
filled-IsPrintable : (fill n : ℕ) → All IsPrintable (replicate fill b'0' ++ decimal n)
filled-IsPrintable zero n =
    All_mono (λ c. (b'0' ≤ c) × (c ≤ b'9')) IsPrintable (λ c h. ground (arith, h)) (decimal n)
      (decimal_from-digits 20 n)
filled-IsPrintable (suc fill) n = (ground arith, filled-IsPrintable fill n)

padded-IsPrintable : (width : ℕ) (z : ℤ) → All IsPrintable (padded width z)
unfolding padded
padded-IsPrintable width (pos n) = filled-IsPrintable _ n
padded-IsPrintable width (negsuc n) = (ground arith, filled-IsPrintable _ (n + 1))

All-take : (P : ℕ → Type 0) (n : ℕ) (s : Bytes) → All P s → All P (take n s)
All-take P zero s h = tt
All-take P (suc n) [] h = tt
All-take P (suc n) (c ∷ s) h = (h.0, All-take P n s h.1)

field-IsPrintable :
    (width : ℕ) (z : ℤ) (c : ℕ) (rest : Bytes)
    → IsPrintable c
    → All IsPrintable rest
    → All IsPrintable (padded width z ++ c ∷ rest)
field-IsPrintable width z c rest p h =
    All-append IsPrintable (padded width z) (c ∷ rest) (padded-IsPrintable width z) (p, h)

timestamp-IsPrintable :
    (gmtime_r : ℤ → Tm) (t : ℤ) → All IsPrintable (format_utc_timestamp gmtime_r t)
unfolding format_utc_timestamp
timestamp-IsPrintable gmtime_r t =
    let utc = gmtime_r (quotient t 1000) in
    let f = field-IsPrintable in
    let dash : IsPrintable b'-' = ground arith in
    let colon : IsPrintable b':' = ground arith in
    All-take IsPrintable 63 _ (
      f 4 (plus utc.year 1900) b'-' _ dash (
        f 2 (plus utc.month 1) b'-' _ dash (
          f 2 utc.day b'T' _ (ground arith) (
            f 2 utc.hour b':' _ colon (
              f 2 utc.minute b':' _ colon (
                f 2 utc.second b'.' _ (ground arith)
                  (f 3 (remainder t 1000) b'Z' [] (ground arith) tt)))))))

type_entry-IsEntry : (t : StatementType) → IsEntry (type_entry t)
unfolding bytes_eq
type_entry-IsEntry t = (refl, printable _ (type_name_printable t))

detail_entries-IsEntry : (d : Details) → All IsEntry (detail_entries d)
unfolding bytes_eq
detail_entries-IsEntry (Details.success d) = (
  type_entry-IsEntry d.statement_type,
  ((refl, tt), ((refl, tt), ((refl, tt), ((refl, tt), ((refl, tt), tt))))),
)
detail_entries-IsEntry (Details.write_success d) =
    (type_entry-IsEntry d.statement_type, ((refl, tt), tt))
detail_entries-IsEntry (Details.policy_rejected d) = (
  (refl, printable _ (reason_name_printable d.reason)),
  (type_entry-IsEntry d.statement_type, ((refl, tt), tt)),
)
detail_entries-IsEntry (Details.database_failure d) = (
  (refl, printable _ (category_name_printable d.category)),
  (type_entry-IsEntry d.statement_type, tt),
)
detail_entries-IsEntry (Details.masking_refused d) =
    (type_entry-IsEntry d.statement_type, ((refl, tt), tt))
detail_entries-IsEntry Details.parsing_failure = tt
detail_entries-IsEntry Details.internal_failure = tt

table_entries-IsEntry :
    (state : AuditTableState) (tables : List Bytes)
    → All (All IsPrintable) tables
    → All IsEntry (table_entries state tables)
unfolding bytes_eq
table_entries-IsEntry AuditTableState.present tables h = ((refl, h), tt)
table_entries-IsEntry AuditTableState.omitted tables h = ((refl, tt), tt)
table_entries-IsEntry AuditTableState.absent tables h = tt

entries-IsEntry :
    (gmtime_r : ℤ → Tm) (r : AuditRecord)
    → All (All IsPrintable) r.referenced_tables.tables
    → All IsEntry (entries gmtime_r r)
unfolding bytes_eq
entries-IsEntry gmtime_r r h = (
  (refl, timestamp-IsPrintable gmtime_r r.timestamp_ms),
  (
    (refl, tt),
    (
      (refl, printable _ (outcome_name_printable (outcome_of r.details))),
      All-append IsEntry (table_entries r.referenced_tables.state r.referenced_tables.tables)
          (detail_entries r.details)
          (table_entries-IsEntry r.referenced_tables.state r.referenced_tables.tables h)
          (detail_entries-IsEntry r.details),
    ),
  ),
)

-- The object of a record that a factory made exists, and no text that a client or the database
-- chose can be in it but for checked table names: each key is one of fifteen literals, each value
-- a number, a flag or texts of printable ASCII bytes without a quote or a backslash.
pub serialize-IsEntry :
    (gmtime_r : ℤ → Tm) (t : ℤ) (id : ℕ) (tables : List Bytes) (d : Details) (r : AuditRecord)
    → make t id tables d ≡ ok r
    → (j : Object) × (serialize gmtime_r r ≡ ok j) × All IsEntry j
serialize-IsEntry gmtime_r t id tables d r h = (
  entries gmtime_r r,
  serialize_lem gmtime_r r,
  entries-IsEntry gmtime_r r (
      rw (make_record t id tables d r h) (
        All_mono (All IsHarmless) (All IsPrintable)
          (All_mono IsHarmless IsPrintable (λ c p. ground (arith, p)))
          (classify_tables (given_tables tables d)).tables
          (classify_tables-IsHarmless (given_tables tables d)))),
)
