-- ===== src/Main/Delivered.antt =====
-- When a request to the wired service does not end in an internal error.
use sql_proxy_service.Prelude.{◌^◌, ◌<◌, ◌≡◌, refl, ◌∙◌, ◌≢◌, inl, inr, length, Bytes}
use sql_proxy_service.Prelude.Int.{pos}
use sql_proxy_service.Config.{DatabaseConfig}
use sql_proxy_service.Analysis.{StatementType, ParseResult}
use sql_proxy_service.Analyzer.{analysis_of_parse}
use sql_proxy_service.Parser.Result.{parse, parse_result}
use sql_proxy_service.Policy.Permission.{IsPermitted}
use sql_proxy_service.Classifier.{Mappings}
use sql_proxy_service.Execution.{ExecutionStatus, ExecutionResult}
use sql_proxy_service.Masker.Result.{IsRectangular}
use sql_proxy_service.Ports.{AuditAppendResult, Ports}
use sql_proxy_service.Answer.{ServiceFailure, ServiceResult}
use sql_proxy_service.Service.{State, handle}
use sql_proxy_service.Service.Calls.{clocked}
use sql_proxy_service.Service.Audited.{final_audit}
use sql_proxy_service.Service.Delivery.{Serves, handle-delivers}
use sql_proxy_service.Postgres.{Driver, execute}
use sql_proxy_service.Postgres.Execution.{IsAnswer, execute-IsAnswer}
use sql_proxy_service.Jsonl.{append}
use sql_proxy_service.Main.{World, Platform, wired}
use sql_proxy_service.Main.Logged.{handle-stored}

-- Whatever the driver does, the answer counts its rows, and each row is as wide as the answer.
answer-IsRectangular :
    {W : Type 0} (driver : Driver W) (config : DatabaseConfig) (sql : Bytes) (w : W)
    (e : ExecutionResult)
    → IsAnswer driver config sql w e
    → (e.row_count ≡ pos (length e.rows)) × IsRectangular e
answer-IsRectangular driver config sql w e (inl (r, after, c, o, t)) = (t.height, t.rectangular)
answer-IsRectangular driver config sql w e (inr (x, raises, n, f)) =
    let (c, r, k) = f.empty in (rw (r, k) refl, rw r tt)

module _ {P D F T : Type 0} (platform : Platform P D F T) (config : DatabaseConfig) (m : Mappings)
    (sql : Bytes) (s : State (World P D F T)) where
  abbrev ports : Ports (World P D F T)
  ports = wired platform config

  -- What the adapter reports of the statement, and what the executor answers to it.
  abbrev pub report : ParseResult
  report = parse_result (platform.sql_parser sql s.world.parser).0

  abbrev pub result : ExecutionResult
  result = (execute platform.driver config sql s.world.database).0

  served :
      length report.statements < 2 ^ 31
      → (IsPermitted (analysis_of_parse report)
          → result.status ≡ ExecutionStatus.ok
          → (analysis_of_parse report).statement_type ≡ StatementType.insert
          → result.affected_rows ≡ pos 1)
      → Serves ports sql (clocked ports m sql s)
  unfolding parse
  served few one =
      let (counted, rectangular) =
        answer-IsRectangular platform.driver config sql s.world.database result
          (execute-IsAnswer platform.driver config sql s.world.database) in
      record {
        statement = report;
        parsed = refl;
        few = few;
        executed = λ permitted. (
          result,
          record {
            rows = length result.rows;
            counted = counted;
            rectangular = rectangular;
            one_row = one permitted;
          },
          refl,
        );
      }

  -- Whatever the SQL parser and the database do, throwing included, the wired service answers a
  -- request by an internal error only in three cases: the parser reports 2 ^ 31 statements or more,
  -- a permitted INSERT that was committed did not change exactly one row, or the line of the record
  -- was not written.
  pub wired-delivers :
      length report.statements < 2 ^ 31
      → (IsPermitted (analysis_of_parse report)
          → result.status ≡ ExecutionStatus.ok
          → (analysis_of_parse report).statement_type ≡ StatementType.insert
          → result.affected_rows ≡ pos 1)
      → (append platform.device platform.gmtime_r platform.dump
          (final_audit ports m sql s)
          s.world.audit).0
        ≡ AuditAppendResult.ok
      → (handle ports m sql s).0 ≢ ServiceResult.failure ServiceFailure.internal_error
  wired-delivers few one stored =
      handle-delivers ports m sql s (λ text. served few one)
        ((handle-stored platform config m sql s).1 ∙ stored)
