-- ===== src/Lib.antt =====
-- SQL Proxy Service: a verification library for the C++ sources below `src/`.
--
-- The program takes one SQL text from a client, decides whether it may run, runs it on a
-- database, masks personal data in the rows, appends one audit record and answers. The library
-- models the core of the program, its ports, the adapters behind them, and the process that
-- puts them together:
--
--   Config      `src/config/config.h`, `src/config/config.cpp`: the settings from the environment.
--   Analysis    `src/core/sql_analysis.h`, `src/core/sql_analysis.cpp`, `src/ports/sql_parser.h`:
--               the enumerations, what the parser reports, and `SqlAnalysis`.
--   Text        the string operations that the components share (`ascii_lower`, `find`, `rfind`).
--   Analyzer    `src/core/sql_analyzer.cpp`: `SqlAnalyzer::analyze` is `analyze`, over a parser that
--               is an argument.
--   Policy      `src/core/policy_engine.cpp`: `PolicyEngine::evaluate` is `evaluate`, in three steps
--               (`evaluate_status`, `evaluate_class`, `evaluate_dml` or `evaluate_select`).
--   Syntax      the fields of the third-party syntax tree that `src/parser/hyrise_sql_parser.cpp`
--               reads.
--   Parser      `src/parser/hyrise_sql_parser.cpp`: the translation of the tree, function by function;
--               the statements but SELECT and INSERT stand in Parser/Statements, and
--               `HyriseSqlParser::parse` is `parse` in Parser/Result.
--   Execution   `src/ports/query_executor.h`: the executor's result.
--   Classifier  `src/core/data_classification.h`, `src/core/data_classifier.cpp`: the constructor is
--               `data_classifier`, `DataClassifier::classify` is `classify`.
--   Masker      `src/core/pii_masker.cpp`: `PiiMasker::mask` is `mask`, its loop over columns is
--               `mask_columns`, its loop over rows `mask_column`.
--   Audit       `src/core/audit_record.h`, `src/core/audit_record.cpp`: the record, its factories (in
--               Audit/Record, so `AuditRecord::success` is `Record.success`) and its table list.
--   Ports       `src/ports/audit_repository.h` and the three port interfaces as one record.
--   Answer      `src/core/proxy_service.h`: what the service answers, and the pure helpers.
--   Service     `src/core/proxy_service.cpp`: `process`, `append_safely` and `handle` over a state
--               that holds the world behind the ports, the calls made of them in their order, the
--               request counter and the lines of the system log. In Service/Threads the threads
--               go through `handle` step by step, in any order that the mutex leaves.
--   Jsonl       `src/audit/jsonl_audit_repository.cpp`: `format_utc_timestamp`, `serialize`, the
--               constructor (`opened`) and `append`, over an output stream that fails for good.
--               Jsonl/Reader is a reader of a line, written for the theorems.
--   Postgres    `src/postgres/postgres_query_executor.cpp`: `PostgresQueryExecutor::execute` is
--               `execute`, with its handlers as `caught`.
--   Http        `src/http/routes.cpp`: `handle_query_request`, over any service, and the routes.
--   Main        `src/main.cpp`, `src/logging/system_log.cpp`, `src/http/http_server.cpp`: the
--               process from its environment to its exit code; `wired` puts the adapters behind
--               the ports.
--
-- Strings are lists of bytes, each a natural number. `size_t` values are natural numbers; the
-- conversions and the counter that wrap do so in the model (`to_int32`, `% 2 ^ 64`). The lengths
-- of vectors and strings are not bounded. Signed integers are `ℤ`. An exception is the value
-- `threw` of `Fault`; what it carries is dropped, since every handler there drops it too. The
-- handlers of the executor tell exceptions apart, so there they are values of their own.
--
-- The third-party parser, the database driver, the JSON library, the file buffer, the calendar, the
-- HTTP library and the clock are parameters. No theorem assumes anything of them but what its own
-- statement names. The theorems on the audit file assume of the file buffer what the standard
-- library documents (`IsFilebuf` in Jsonl/Buffer), and Jsonl/Disk has a buffer that keeps it; those
-- on the timestamp assume the ranges of the fields of `gmtime_r`.
--
-- A run takes the requests as complete, one after another (`serve`); Service/Serial is about the
-- threads that go through them. The mutex of the audit repository lies within that of the service
-- and has no steps of its own. All loops of the modelled code run over finite containers or up to
-- a count and are structural recursion, as is the walk of the syntax tree. Only decimal digits are
-- written on fuel: for a line or a column, more steps than the number; else twenty, enough for 64
-- bits.
--
-- Not modelled: the third-party SQL parser, the calls inside the driver, the text of a JSON value,
-- the sockets and threads of the HTTP library, which the process sees as the requests that come in
-- (in Main one after another), and memory that runs out. `HttpServer::stop` only calls the library.
mod Prelude
pub mod Config
pub mod Analysis
pub mod Text
pub mod Syntax
pub mod Parser
pub mod Analyzer
pub mod Policy
pub mod Execution
pub mod Classifier
pub mod Masker
pub mod Audit
pub mod Ports
pub mod Answer
pub mod Service
pub mod Jsonl
pub mod Postgres
pub mod Http
pub mod Main
