-- ===== src/Jsonl/Examples.antt =====
-- A concrete clock, a concrete disk with limited room, and runs on them.
use sql_proxy_service.Prelude.{
  ◌≡◌, refl, true, some, List, [], ◌∷◌, arith, length, All, Bytes, codes, Fault, ok,
}
use sql_proxy_service.Prelude.Int.{ℤ, pos}
use sql_proxy_service.Prelude.Decimal.{decimal_from}
use sql_proxy_service.Analysis.{StatementType}
use sql_proxy_service.Audit.{
  Details, AuditRecord, classify_tables, audit_record, outcome, is_write_success,
  write_success_details,
}
use sql_proxy_service.Audit.Factories.{make, given_tables}
use sql_proxy_service.Audit.Record
use sql_proxy_service.Jsonl.{
  Tm, Object, Stream, opened, serialize, append, format_utc_timestamp, padded, append_all, put,
  put_details, put_success, put_tables, write_line, insert, flush,
}
use sql_proxy_service.Jsonl.Timestamp.{Stamp, read_timestamp, read_timestamp-format_utc_timestamp}
use sql_proxy_service.Jsonl.Safety.{IsEntry, serialize-IsEntry}
use sql_proxy_service.Jsonl.Reader.{read_number, read_details, read_tables}
use sql_proxy_service.Jsonl.RoundTrip.{read-serialize}
use sql_proxy_service.Jsonl.Appended.{Appended, append-Appended}
use sql_proxy_service.Jsonl.Disk.{Disk, disk, disk-IsFilebuf}

-- 2023-11-14 22:13:20
abbrev clock : ℤ → Tm
clock seconds = record {
  year = pos 123;
  month = pos 10;
  day = pos 14;
  hour = pos 22;
  minute = pos 13;
  second = pos 20;
}

abbrev stamp : Stamp
stamp = record {
  year = 2023;
  month = 11;
  day = 14;
  hour = 22;
  minute = 13;
  second = 20;
  millis = 7;
}

format_utc_timestamp_test :
    format_utc_timestamp clock (pos 1700000000007) ≡ codes "2023-11-14T22:13:20.007Z"
unfolding format_utc_timestamp padded decimal_from
format_utc_timestamp_test = refl

read_timestamp-format_utc_timestamp_example :
    (read_timestamp (format_utc_timestamp clock (pos 1700000000007)) ≡ some stamp)
    × (length (format_utc_timestamp clock (pos 1700000000007)) ≡ 24)
read_timestamp-format_utc_timestamp_example =
    read_timestamp-format_utc_timestamp clock 1700000000007 stamp
      (record {
        year = (refl, omega arith);
        month = (refl, omega arith);
        day = (refl, omega arith);
        hour = (refl, omega arith);
        minute = (refl, omega arith);
        second = (refl, omega arith);
      })
      refl

abbrev names : List Bytes
names = codes "orders" ∷ []

abbrev written : Details
written =
    Details.write_success (record { statement_type = StatementType.insert; affected_rows = 1 })

abbrev made : AuditRecord
made = record {
  timestamp_ms = pos 1700000000007;
  request_id = 3;
  referenced_tables = classify_tables names;
  details = written;
}

made_ok : make (pos 1700000000007) 3 names written ≡ ok made
unfolding Record.write_success audit_record
made_ok = refl

serialize-IsEntry_example : (j : Object) × (serialize clock made ≡ ok j) × All IsEntry j
serialize-IsEntry_example = serialize-IsEntry clock (pos 1700000000007) 3 names written made made_ok

read-serialize_example :
    (j : Object) × (serialize clock made ≡ ok j)
    × (read_number (codes "request_id") j ≡ ok 3)
    × (read_details j ≡ ok written)
    × (read_tables j ≡ ok (classify_tables (given_tables names written)))
read-serialize_example = read-serialize clock (pos 1700000000007) 3 names written made made_ok

abbrev dump : Object → Fault Bytes
dump j = ok (codes "{}")

abbrev start : Stream Disk
start = opened disk true (record { content = codes "old\n"; pending = []; room = 5 })

append-Appended_example :
    Appended disk
      (λ f. f.content)
      (λ f. f.pending)
      disk-IsFilebuf
      clock
      dump
      made
      start
      (append disk clock dump made start)
append-Appended_example =
    append-Appended disk (λ f. f.content) (λ f. f.pending) disk-IsFilebuf clock dump made start
      (λ h. refl)

-- The second line is torn by the end of the room, and nothing is written any more.
append_all_test :
    (append_all disk clock dump (made ∷ made ∷ made ∷ []) start).1.file.content
    ≡ codes "old\n{}\n{}"
unfolding append_all append serialize put put_details put_success put_tables outcome
    is_write_success write_success_details write_line insert flush
append_all_test = refl
