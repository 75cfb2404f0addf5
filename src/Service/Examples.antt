-- ===== src/Service/Examples.antt =====
-- Concrete runs of the service, over ports that answer from fixed data.
use sql_proxy_service.Prelude.{
  ℕ, suc, ◌≡◌, refl, true, none, some, [], ◌∷◌, arith, get_elem?, Bytes, codes, bytes_eq, ok,
}
use sql_proxy_service.Prelude.Int.{to_int32, pos}
use sql_proxy_service.Analysis.{statement_class_of, StatementType, ParseResult, default_statement}
use sql_proxy_service.Analyzer.{
  analysis_of_statement, normalized_tables, qualified_name, is_blank, analysis_of_parse, analyze,
}
use sql_proxy_service.Policy.{
  evaluate_status, evaluate_class, evaluate_select, is_system_table, is_catalog_schema, schema_part,
  table_part, evaluate,
}
use sql_proxy_service.Execution.{ColumnType, ExecutionStatus, ExecutionResult, default_result}
use sql_proxy_service.Classifier.{
  classify, positional_shape, wildcard_shape, count_star_only_shape, classify_columns,
  classify_source, projection_source, strip_qualifier, find_mapping, Mappings,
  default_classification_config,
}
use sql_proxy_service.Audit.{audit_record}
use sql_proxy_service.Text.{ascii_lower, lower_byte, find, rfind, starts_with}
use sql_proxy_service.Masker.{
  mask, mask_columns, mask_column, mask_at, mask_cell, mask_value, mask_email,
}
use sql_proxy_service.Audit.Record
use sql_proxy_service.Ports.{AuditAppendResult, Ports}
use sql_proxy_service.Service.{
  process, decided, call_parse, call_execute, finish, read, released, append_safely, answer, State,
  processed, handle, serve,
}
use sql_proxy_service.Answer.{
  checked_count, to_masked_result, summarize, summarize_from, MaskedQueryResult, ServiceResult,
}
use sql_proxy_service.Service.Calls.{clocked}
use sql_proxy_service.Service.Audited.{IsAuditedOnce, Outcome, handle-IsAuditedOnce, handle-Outcome}
use sql_proxy_service.Service.Release.{IsRelease, handle-IsRelease}
use sql_proxy_service.Service.Delivery.{Serves}
use sql_proxy_service.Service.Threads.{
  waiting, inside, done, System, set, enter, Reaches, here, then_,
}
use sql_proxy_service.Service.Serial.{IsSerial, Reaches-IsSerial}
use sql_proxy_service.Service.Progress.{Reaches-answered}
use sql_proxy_service.Service.Runs.{appended_ids, serve-request_id}

-- `SELECT email FROM customers`
abbrev statement : ParseResult
statement = record {
  success = true;
  statements =
      record default_statement {
        type = StatementType.select;
        tables = record { schema = []; name = codes "customers" } ∷ [];
        projection_columns = codes "email" ∷ [];
      }
      ∷ [];
  error = [];
}

abbrev sql : Bytes
sql = codes "SELECT email FROM customers"

abbrev found : ExecutionResult
found = record default_result {
  status = ExecutionStatus.ok;
  has_result_set = true;
  columns = record { name = codes "email"; type = ColumnType.text } ∷ [];
  rows = (some (codes "dana@example.com") ∷ []) ∷ [];
  row_count = pos 1;
}

-- The world is the time, which every call moves on.
abbrev ports : Ports ℕ
ports = record {
  parse = λ text w. (ok statement, suc w);
  execute = λ text w. (ok found, suc w);
  append = λ audit w. (ok AuditAppendResult.ok, suc w);
  now = λ w. (pos w, suc w);
}

-- A repository whose disk is full.
abbrev lossy : Ports ℕ
lossy = record ports { append = λ audit w. (ok AuditAppendResult.write_failure, suc w) }

abbrev start : State ℕ
start = record { world = 1700000000000; events = []; next_request_id = 1; log = some [] }

abbrev mappings : Mappings
mappings = default_classification_config

abbrev shown : MaskedQueryResult
shown = record {
  column_names = codes "email" ∷ [];
  rows = (some (codes "d***@example.com") ∷ []) ∷ [];
}

handle_test : (handle ports mappings sql start).0 ≡ ServiceResult.success shown
unfolding handle processed process decided call_parse call_execute analyze is_blank
    analysis_of_parse analysis_of_statement statement_class_of to_int32 normalized_tables
    qualified_name bytes_eq evaluate evaluate_status evaluate_class evaluate_select is_system_table
    is_catalog_schema schema_part table_part ascii_lower lower_byte find rfind starts_with finish
    read checked_count classify positional_shape wildcard_shape count_star_only_shape
    classify_columns classify_source projection_source strip_qualifier find_mapping mask
    mask_columns mask_column mask_at mask_cell mask_value mask_email released to_masked_result
    summarize summarize_from Record.success audit_record append_safely answer
handle_test = refl

handle-IsRelease_example : IsRelease ports mappings sql (clocked ports mappings sql start) shown
handle-IsRelease_example = handle-IsRelease ports mappings sql start shown handle_test

handle-IsAuditedOnce_example :
    IsAuditedOnce ports mappings sql start (handle ports mappings sql start).1
handle-IsAuditedOnce_example = handle-IsAuditedOnce ports mappings sql start

handle-Outcome_example : Outcome lossy mappings sql start (handle lossy mappings sql start)
handle-Outcome_example = handle-Outcome lossy mappings sql start

served : Serves ports sql (clocked ports mappings sql start)
unfolding analysis_of_parse analysis_of_statement
served = record {
  statement = statement;
  parsed = refl;
  few = omega arith;
  executed = λ permitted. (
    found,
    record { rows = 1; counted = refl; rectangular = (refl, tt); one_row = λ done insert. cc },
    refl,
  );
}

serve-request_id_example :
    get_elem? (appended_ids (serve ports mappings (sql ∷ [] ∷ sql ∷ []) start).1.events) 2 ≡ some 3
serve-request_id_example =
    serve-request_id ports mappings (sql ∷ [] ∷ sql ∷ []) start 2 refl (omega arith) (omega arith)

-- Three threads, of which the second has taken the mutex.
abbrev idle : System ℕ
idle = record { shared = start; lock = none; threads = λ i. waiting sql }

abbrev busy : System ℕ
busy = record { shared = start; lock = some 1; threads = set idle.threads 1 (inside sql) }

entered : Reaches ports mappings idle busy
entered = then_ idle busy here (enter 1 sql refl refl)

Reaches-IsSerial_example : IsSerial ports mappings start busy
Reaches-IsSerial_example =
    Reaches-IsSerial ports mappings start idle busy refl refl (λ i. (sql, refl)) entered

Reaches-answered_example :
    (x : System ℕ) × Reaches ports mappings busy x
    × ((q : Bytes) × (r : ServiceResult) × (x.threads 2 ≡ done q r))
Reaches-answered_example =
    Reaches-answered ports mappings start idle busy refl refl (λ i. (sql, refl)) entered 2
