-- ===== src/Main/Examples.antt =====
-- Concrete runs of the wired service and of the process.
use sql_proxy_service.Prelude.{
  none, some, refl, ℕ, ◌^◌, ◌<◌, ◌≡◌, refl, sym, ◌∙◌, ◌≢◌, true, some, [], ◌∷◌, arith, length,
  Bytes, bytes_eq, ok,
}
use sql_proxy_service.Prelude.Int.{to_int32}
use sql_proxy_service.Analysis.{statement_class_of, StatementType}
use sql_proxy_service.Analyzer.{
  analysis_of_statement, normalized_tables, qualified_name, is_blank, analysis_of_parse, analyze,
}
use sql_proxy_service.Policy.{
  evaluate_status, evaluate_class, evaluate_select, is_system_table, is_catalog_schema, schema_part,
  table_part, evaluate,
}
use sql_proxy_service.Classifier.{
  classify, positional_shape, wildcard_shape, count_star_only_shape, classify_columns,
  classify_source, projection_source, strip_qualifier, find_mapping,
}
use sql_proxy_service.Text.{ascii_lower, lower_byte, find, rfind, starts_with}
use sql_proxy_service.Masker.{
  mask, mask_columns, mask_column, mask_at, mask_cell, mask_value, mask_email,
}
use sql_proxy_service.Audit.{audit_record, outcome, is_write_success, success_details, AuditRecord}
use sql_proxy_service.Audit.Record
use sql_proxy_service.Service.{
  process, decided, call_parse, call_execute, finish, read, released, append_safely, answer,
  processed, handle, serve,
}
use sql_proxy_service.Answer.{
  checked_count, to_masked_result, summarize, summarize_from, ServiceFailure, ServiceResult,
  succeeded,
}
use sql_proxy_service.Parser.{project_all, collect_tables, translate_select}
use sql_proxy_service.Parser.Statements.{translate_statement}
use sql_proxy_service.Parser.Result.{parse, parse_result, translate_all}
use sql_proxy_service.Postgres.{execute, transact, translate, collect}
use sql_proxy_service.Jsonl.{
  append, serialize, put, put_details, put_success, put_tables, write_line, insert, flush,
}
use sql_proxy_service.Service.Audited.{final_audit, handle-success_iff}
use sql_proxy_service.Main.Logged.{handle-stored, IsStored, success-IsStored}
use sql_proxy_service.Main.Delivered.{report, wired-delivers}
use sql_proxy_service.Ports.{AuditAppendResult, Ports}
use sql_proxy_service.Jsonl.Disk.{disk-IsFilebuf, Disk}
use sql_proxy_service.Main.{read_body, wired, Exit, main, World}
use sql_proxy_service.Main.Startup.{Fate, main-Fate}
use sql_proxy_service.Http.{body_of, find_field, handle_query_request, admit, respond}
use sql_proxy_service.Http.Exchange.{Carries}
use sql_proxy_service.Main.Exchange.{IsOrigin, table_response, exchange-IsOrigin}
use sql_proxy_service.Service.Threads.{
  waiting, inside, worked, stored, done, System, set, enter, work, store, leave, Reaches, here,
  then_,
}
use sql_proxy_service.Main.Concurrent.{IsOrdered, Reaches-IsOrdered}
use sql_proxy_service.Main.Runs.{IsLogged, serve-IsLogged}
use sql_proxy_service.Main.Sample.{
  platform, machine, env, request, config, mappings, start, sql, content, pending, names, rows,
}

main-Fate_example :
    (exit : Exit) × (main platform machine (λ port. some (request ∷ [])) env ≡ ok exit)
    × Fate env platform machine (λ port. some (request ∷ [])) exit
main-Fate_example = main-Fate env platform machine (λ port. some (request ∷ []))

serve-IsLogged_example :
    IsLogged platform config mappings content pending
      (sql ∷ [] ∷ sql ∷ [])
      start
      (serve (wired platform config) mappings (sql ∷ [] ∷ sql ∷ []) start).1
serve-IsLogged_example =
    serve-IsLogged platform config mappings content pending disk-IsFilebuf (sql ∷ [] ∷ sql ∷ [])
      start (λ good. refl)

answered : succeeded (handle (wired platform config) mappings sql start).0 ≡ true
unfolding handle processed process decided call_parse call_execute analyze is_blank
    analysis_of_parse analysis_of_statement statement_class_of to_int32 normalized_tables
    qualified_name bytes_eq evaluate evaluate_status evaluate_class evaluate_select is_system_table
    is_catalog_schema schema_part table_part ascii_lower lower_byte find rfind starts_with finish
    read checked_count classify positional_shape wildcard_shape count_star_only_shape
    classify_columns classify_source projection_source strip_qualifier find_mapping mask
    mask_columns mask_column mask_at mask_cell mask_value mask_email released to_masked_result
    summarize summarize_from Record.success audit_record append_safely answer parse parse_result
    translate_all translate_statement translate_select project_all collect_tables execute transact
    translate collect append serialize put put_details put_success put_tables outcome
    is_write_success success_details write_line insert flush
answered = refl

success-IsStored_example :
    IsStored platform config mappings sql start content
      (handle (wired platform config) mappings sql start).1
success-IsStored_example =
    success-IsStored platform config mappings sql start content pending disk-IsFilebuf
      (λ good. refl) answered

few : length (report platform config mappings sql start).statements < 2 ^ 31
unfolding parse_result translate_all
few = omega arith

a_select :
    (analysis_of_parse (report platform config mappings sql start)).statement_type
    ≡ StatementType.select
unfolding analysis_of_parse analysis_of_statement parse_result translate_all translate_statement
    project_all collect_tables translate_select
a_select = refl

no_insert : StatementType.select ≢ StatementType.insert
no_insert h = cc h

written :
    (append platform.device platform.gmtime_r platform.dump
      (final_audit (wired platform config) mappings sql start)
      start.world.audit).0
    ≡ AuditAppendResult.ok
written =
    sym (handle-stored platform config mappings sql start).1
    ∙ ((handle-success_iff (wired platform config) mappings sql start).0 answered).0

wired-delivers_example :
    (handle (wired platform config) mappings sql start).0
    ≢ ServiceResult.failure ServiceFailure.internal_error
wired-delivers_example =
    wired-delivers platform config mappings sql start few
      (λ permitted done insert. absurd (no_insert (sym a_select ∙ insert))) written

shown :
    (handle_query_request
      (read_body platform)
      (handle (wired platform config) mappings)
      request.request
      start).0
    ≡ table_response names rows 1
unfolding handle processed process decided call_parse call_execute analyze is_blank
    analysis_of_parse analysis_of_statement statement_class_of to_int32 normalized_tables
    qualified_name bytes_eq evaluate evaluate_status evaluate_class evaluate_select is_system_table
    is_catalog_schema schema_part table_part ascii_lower lower_byte find rfind starts_with finish
    read checked_count classify positional_shape wildcard_shape count_star_only_shape
    classify_columns classify_source projection_source strip_qualifier find_mapping mask
    mask_columns mask_column mask_at mask_cell mask_value mask_email released to_masked_result
    summarize summarize_from Record.success audit_record append_safely answer parse parse_result
    translate_all translate_statement translate_select project_all collect_tables execute transact
    translate collect append serialize put put_details put_success put_tables outcome
    is_write_success success_details write_line insert flush handle_query_request admit respond
    body_of find_field
shown = refl

exchange-IsOrigin_example :
    (text : Bytes) × Carries (read_body platform) request.request text
    × IsOrigin platform config mappings content text start
        (handle (wired platform config) mappings text start).1
        names
        rows
        1
exchange-IsOrigin_example =
    exchange-IsOrigin platform config mappings content pending disk-IsFilebuf request.request start
      (λ good. refl) names rows 1 shown

-- A thread that has run, among others that wait.
abbrev idle : System (World ℕ ℕ Disk ℕ)
idle = record { shared = start; lock = none; threads = λ i. waiting sql }

abbrev ports : Ports (World ℕ ℕ Disk ℕ)
ports = wired platform config

abbrev entered : System (World ℕ ℕ Disk ℕ)
entered = record idle { lock = some 1; threads = set idle.threads 1 (inside sql) }

abbrev through : System (World ℕ ℕ Disk ℕ)
through = record entered {
  shared = (processed ports mappings sql start).1;
  threads = set entered.threads 1 (worked sql (processed ports mappings sql start).0);
}

abbrev audit : AuditRecord
audit = (processed ports mappings sql start).0.audit

abbrev recorded : System (World ℕ ℕ Disk ℕ)
recorded = record through {
  shared = (append_safely ports audit through.shared).1;
  threads = set through.threads 1 (
      stored sql (processed ports mappings sql start).0
        (append_safely ports audit through.shared).0);
}

abbrev left : System (World ℕ ℕ Disk ℕ)
left = record {
  shared =
      (answer (processed ports mappings sql start).0 (append_safely ports audit through.shared).0
        recorded.shared).1;
  lock = none;
  threads = set recorded.threads 1 (
      done sql
        (answer (processed ports mappings sql start).0 (append_safely ports audit through.shared).0
          recorded.shared).0);
}

reached : Reaches ports mappings idle left
reached =
    then_ recorded left
      (then_ through recorded
        (then_ entered through (then_ idle entered here (enter 1 sql refl refl)) (work 1 sql refl))
        (store 1 sql _ refl))
      (leave 1 sql _ _ refl)

Reaches-IsOrdered_example : IsOrdered platform config mappings content pending idle left
Reaches-IsOrdered_example =
    Reaches-IsOrdered platform config mappings content pending disk-IsFilebuf idle left refl
      (λ i. (sql, refl)) (λ good. refl) reached refl
