-- ===== src/Jsonl.antt =====
-- `src/audit/jsonl_audit_repository.h` and `src/audit/jsonl_audit_repository.cpp`: the audit
-- repository that writes one JSON object and a newline for each record. `gmtime_r`, the text that
-- the JSON library makes of an object, and the file buffer under `std::ofstream` are parameters.
pub mod Timestamp
pub mod Schema
pub mod Safety
pub mod Reader
pub mod RoundTrip
pub mod Buffer
pub mod Appended
pub mod Runs
pub mod Disk
mod Examples
use sql_proxy_service.Prelude.{
  ℕ, ◌+◌, ◌-◌, ◌/◌, ◌%◌, Bool, true, not, List, [], ◌∷◌, ◌++◌, ltb, if◌then◌else◌, length, take,
  replicate, Bytes, codes, bytes_eq, Fault, ok, threw, ◌>>=◌,
}
use sql_proxy_service.Prelude.Int.{ℤ, pos, negsuc, negated}
use sql_proxy_service.Prelude.Decimal.{decimal}
use sql_proxy_service.Analysis.{statement_type_name}
use sql_proxy_service.Policy.{reject_reason_name}
use sql_proxy_service.Audit.{
  AuditOutcome, audit_outcome_name, AuditTableState, db_failure_name, AuditRecord, outcome,
  is_write_success, success_details, write_success_details, policy_rejected_details,
  database_failure_details, masking_refused_details,
}
use sql_proxy_service.Ports.{AuditAppendResult}

-- The fields of `std::tm` that are read.
pub record Tm : Type 0 where
  pub year : ℤ
  pub month : ℤ
  pub day : ℤ
  pub hour : ℤ
  pub minute : ℤ
  pub second : ℤ

-- `/` and `%` of C++, which round towards zero.
abbrev pub quotient : ℤ → ℕ → ℤ
quotient (pos n) d = pos (n / d)
quotient (negsuc n) d = negated ((n + 1) / d)

abbrev pub remainder : ℤ → ℕ → ℤ
remainder (pos n) d = pos (n % d)
remainder (negsuc n) d = negated ((n + 1) % d)

-- `tm_year + 1900` and `tm_mon + 1`.
abbrev pub plus : ℤ → ℕ → ℤ
plus (pos n) k = pos (n + k)
plus (negsuc n) k = if ltb n k then pos (k - n - 1) else negsuc (n - k)

abbrev pub zero_filled : ℕ → Bytes → Bytes
zero_filled width s = replicate (width - length s) b'0' ++ s

-- `%0Nd` of an integer; a sign counts in the width.
unfoldable pub padded : ℕ → ℤ → Bytes
padded width (pos n) = zero_filled width (decimal n)
padded width (negsuc n) = b'-' ∷ zero_filled (width - 1) (decimal (n + 1))

-- The values that `serialize` stores under a key.
pub data Json : Type 0 where
  text : Bytes → Json
  number : ℕ → Json
  flag : Bool → Json
  texts : List Bytes → Json

abbrev pub Object : Type 0
Object = List (Bytes × Json)

-- `j[key] = value`
unfoldable pub put : Bytes → Json → Object → Object
put key value [] = (key, value) ∷ []
put key value ((k, v) ∷ object) =
    let rest = put key value object in if bytes_eq key k then (k, value) ∷ object else (k, v) ∷ rest

-- The switch on the state of the table list.
unfoldable pub put_tables : AuditTableState → List Bytes → Object → Object
put_tables AuditTableState.present tables j = put (codes "referenced_tables") (texts tables) j
put_tables AuditTableState.omitted tables j = put (codes "referenced_tables_omitted") (flag true) j
put_tables AuditTableState.absent tables j = j

-- The two shapes of a success.
unfoldable pub put_success : AuditRecord → Object → Fault Object
put_success r j =
    if is_write_success r
    then (do
      w ← write_success_details r
      let j₁ = put (codes "statement_type") (text (statement_type_name w.statement_type)) j
      ok (put (codes "affected_rows") (number w.affected_rows) j₁))
    else do
      d ← success_details r
      let j₁ = put (codes "statement_type") (text (statement_type_name d.statement_type)) j
      let j₂ = put (codes "row_count") (number d.row_count) j₁
      let j₃ = put (codes "column_count") (number d.column_count) j₂
      let j₄ = put (codes "pii_email_columns") (number d.pii.email_columns) j₃
      let j₅ = put (codes "pii_phone_columns") (number d.pii.phone_columns) j₄
      ok (put (codes "pii_credit_card_columns") (number d.pii.credit_card_columns) j₅)

-- The switch on the outcome.
unfoldable pub put_details : AuditOutcome → AuditRecord → Object → Fault Object
put_details AuditOutcome.success r j = put_success r j
put_details AuditOutcome.policy_rejected r j = do
  d ← policy_rejected_details r
  let j₁ = put (codes "reason") (text (reject_reason_name d.reason)) j
  let j₂ = put (codes "statement_type") (text (statement_type_name d.statement_type)) j₁
  ok (put (codes "statement_count") (number d.statement_count) j₂)
put_details AuditOutcome.database_failure r j = do
  d ← database_failure_details r
  let j₁ = put (codes "category") (text (db_failure_name d.category)) j
  ok (put (codes "statement_type") (text (statement_type_name d.statement_type)) j₁)
put_details AuditOutcome.masking_refused r j = do
  d ← masking_refused_details r
  let j₁ = put (codes "statement_type") (text (statement_type_name d.statement_type)) j
  ok (put (codes "column_count") (number d.column_count) j₁)
put_details AuditOutcome.parsing_failure r j = ok j
put_details AuditOutcome.internal_failure r j = ok j

module _ (gmtime_r : ℤ → Tm) where
  -- The buffer of 64 bytes holds 63 of them and the end of the text.
  unfoldable pub format_utc_timestamp : ℤ → Bytes
  format_utc_timestamp epoch_ms =
      let utc = gmtime_r (quotient epoch_ms 1000) in
      let millis = remainder epoch_ms 1000 in
      let time =
        padded 2 utc.hour
        ++ b':'
          ∷ (padded 2 utc.minute
              ++ b':' ∷ (padded 2 utc.second ++ b'.' ∷ (padded 3 millis ++ b'Z' ∷ []))) in
      take 63 (
        padded 4 (plus utc.year 1900)
        ++ b'-' ∷ (padded 2 (plus utc.month 1) ++ b'-' ∷ (padded 2 utc.day ++ b'T' ∷ time)))

  unfoldable pub serialize : AuditRecord → Fault Object
  serialize r =
      let j₁ = put (codes "timestamp") (text (format_utc_timestamp r.timestamp_ms)) [] in
      let j₂ = put (codes "request_id") (number r.request_id) j₁ in
      let j₃ = put (codes "outcome") (text (audit_outcome_name (outcome r))) j₂ in
      put_details (outcome r) r (put_tables r.referenced_tables.state r.referenced_tables.tables j₃)

-- The file buffer: a write of bytes and a flush, each with its success.
pub record Filebuf (F : Type 0) : Type 0 where
  pub put : Bytes → F → Bool × F
  pub sync : F → Bool × F

-- `std::ofstream`: a stream that has failed leaves the buffer alone until it is cleared.
pub record Stream (F : Type 0) : Type 0 where
  pub is_open : Bool
  pub good : Bool
  pub file : F

module _ {F : Type 0} (device : Filebuf F) where
  abbrev pub after : Bool × F → Stream F → Stream F
  after (success, file) s = record s { good = success; file = file }

  -- `stream_ << line`
  unfoldable pub insert : Bytes → Stream F → Stream F
  insert line s = if not s.good then s else after (device.put line s.file) s

  unfoldable pub flush : Stream F → Stream F
  flush s = if not s.good then s else after (device.sync s.file) s

  -- The constructor, with the outcome of `open`: a failed one sets the fail bit.
  abbrev pub opened : Bool → F → Stream F
  opened success file = record { is_open = success; good = success; file = file }

  -- The critical section of `append`.
  unfoldable pub write_line : Bytes → Stream F → AuditAppendResult × Stream F
  write_line line s =
      if not s.is_open
      then (AuditAppendResult.open_failure, s)
      else let s₁ = flush (insert (b'\n' ∷ []) (insert line s)) in
        if not s₁.good then (AuditAppendResult.write_failure, s₁) else (AuditAppendResult.ok, s₁)

  -- `append`: the line is made before the lock is taken, and any exception is a write failure.
  module _ (gmtime_r : ℤ → Tm) (dump : Object → Fault Bytes) where
    unfoldable pub append : AuditRecord → Stream F → AuditAppendResult × Stream F
    append r s = elim (serialize gmtime_r r >>= dump) [
      | threw ↦ (AuditAppendResult.write_failure, s)
      | ok line ↦ write_line line s
    ]

    -- Appends one after another, in the order in which they take the lock.
    unfoldable pub append_all : List AuditRecord → Stream F → List AuditAppendResult × Stream F
    append_all [] s = ([], s)
    append_all (r ∷ records) s =
        let (answer, s₁) = append r s in
        let (answers, s₂) = append_all records s₁ in (answer ∷ answers, s₂)
