-- ===== src/Main.antt =====
-- `src/main.cpp`, `src/logging/system_log.cpp` and `src/http/http_server.cpp`: the process. It reads
-- the environment, builds the adapters, hands them to the service and the service to the server.
-- What the process uses of other libraries and of the system is a `Platform`.
pub mod Startup
pub mod Logged
pub mod Runs
pub mod Delivered
pub mod Exchange
pub mod Concurrent
pub mod Sample
mod Examples
use sql_proxy_service.Prelude.{
  ◌>>=◌, ℕ, Bool, not, Option, none, some, List, [], ◌∷◌, ◌++◌, if◌then◌else◌, is_empty, Bytes,
  codes, Fault, ok, threw, Action, bind,
}
use sql_proxy_service.Prelude.Int.{ℤ}
use sql_proxy_service.Prelude.Decimal.{decimal}
use sql_proxy_service.Config.{PortSource, DatabaseConfig, resolve_port, resolve_database_config}
use sql_proxy_service.Syntax.{SqlParserResult}
use sql_proxy_service.Parser.Result.{parse}
use sql_proxy_service.Classifier.{Mappings, default_classification_config}
use sql_proxy_service.Ports.{Ports}
use sql_proxy_service.Service.{State, handle}
use sql_proxy_service.Postgres.{Driver, execute}
use sql_proxy_service.Jsonl.{Tm, Object, Filebuf, Stream, opened, append}
use sql_proxy_service.Http.{JsonBody, body_of, Incoming, RequestBody, Response, route}

-- The state behind each adapter, and that of the system clock.
pub record World (P D F T : Type 0) : Type 0 where
  pub parser : P
  pub database : D
  pub audit : Stream F
  pub clock : T

-- The SQL parser, the database driver, the JSON library, the file buffer and the system's calendar
-- and clock.
pub record Platform (P D F T : Type 0) : Type 0 where
  pub sql_parser : Bytes → Action P SqlParserResult
  pub driver : Driver D
  pub device : Filebuf F
  pub dump : Object → Fault Bytes
  pub parse_json : Bytes → JsonBody
  pub unrouted : Incoming → Response
  pub gmtime_r : ℤ → Tm
  pub now : T → ℤ × T

module _ {P D F T : Type 0} (platform : Platform P D F T) where
  -- `nlohmann::json::parse` and the checks on what it returns.
  abbrev pub read_body : Bytes → RequestBody
  read_body text = body_of (platform.parse_json text)

  -- The adapters behind the ports: neither the executor nor the repository throws.
  abbrev pub wired : DatabaseConfig → Ports (World P D F T)
  wired config = record {
    parse = λ sql w.
        let (r, p) = parse platform.sql_parser sql w.parser in (r, record w { parser = p });
    execute = λ sql w.
        let (r, d) = execute platform.driver config sql w.database in
        (ok r, record w { database = d });
    append = λ audit w.
        let (r, s) = append platform.device platform.gmtime_r platform.dump audit w.audit in
        (ok r, record w { audit = s });
    now = λ w. let (t, c) = platform.now w.clock in (t, record w { clock = c });
  }

  -- The requests that the server hands to its routes, one after another.
  unfoldable pub respond_all :
      Ports (World P D F T)
      → Mappings
      → List Incoming
      → State (World P D F T)
      → List Response × State (World P D F T)
  respond_all ports m [] s = ([], s)
  respond_all ports m (request ∷ requests) s =
      let (r, s₁) = route read_body platform.unrouted (handle ports m) request s in
      let (rs, s₂) = respond_all ports m requests s₁ in (r ∷ rs, s₂)

-- The environment variables that are read.
pub record Environment : Type 0 where
  pub port : Option Bytes
  pub database_url : Option Bytes
  pub statement_timeout : Option Bytes
  pub audit_log_path : Option Bytes

abbrev pub default_audit_log_path : Bytes
default_audit_log_path = codes "audit.jsonl"

unfoldable pub resolve_audit_log_path : Option Bytes → Bytes
resolve_audit_log_path none = default_audit_log_path
resolve_audit_log_path (some path) = if is_empty path then default_audit_log_path else path

-- The system log: `none` is the null pointer that the logger is before `init`.
unfoldable pub init : Option (List Bytes) → Option (List Bytes)
init none = some []
init (some lines) = some lines

-- `logger()->info(…)` and `logger()->error(…)`; there is no logger behind a null pointer.
unfoldable pub log_line : Bytes → Option (List Bytes) → Fault (Option (List Bytes))
log_line line none = threw
log_line line (some lines) = ok (some (lines ++ line ∷ []))

abbrev pub source_name : PortSource → Bytes
source_name PortSource.environment = codes "PORT env var"
source_name PortSource.default = codes "default"

-- How the process ends: the exit code, the log, and the responses that were sent.
pub record Exit : Type 0 where
  pub code : ℕ
  pub log : Option (List Bytes)
  pub responses : List Response

abbrev pub startup_failed : Bytes → Option (List Bytes) → Fault Exit
startup_failed error log = do
  log₁ ← log_line (codes "Startup failed: " ++ error) log
  ok (record { code = 1; log = log₁; responses = [] })

-- What the machine is when the process starts: the files, and the state behind the libraries.
pub record Machine (P D F T : Type 0) : Type 0 where
  pub open_file : Bytes → Bool × F
  pub parser : P
  pub database : D
  pub clock : T

module _ {P D F T : Type 0} (platform : Platform P D F T) (machine : Machine P D F T) where
  -- The service as it is built: the audit file is open, or has failed to open.
  abbrev pub service : Bytes → Option (List Bytes) → State (World P D F T)
  service audit_log_path log =
      let (success, file) = machine.open_file audit_log_path in
      record {
        world = record {
          parser = machine.parser;
          database = machine.database;
          audit = opened platform.device success file;
          clock = machine.clock;
        };
        events = [];
        next_request_id = 1;
        log = log;
      }

  -- What the HTTP library made of `listen`: it could not bind the port, or it handed on some
  -- requests until it was stopped. Then the end of `main`.
  unfoldable pub ended :
      ℕ → DatabaseConfig → State (World P D F T) → Option (List Incoming) → Fault Exit
  ended port config s none = do
    log ← log_line (codes "HTTP server failed to bind to port " ++ decimal port) s.log
    ok (record { code = 1; log = log; responses = [] })
  ended port config s (some requests) =
      let (responses, s₁) =
        respond_all platform (wired platform config) default_classification_config requests s in
      ok (record { code = 0; log = s₁.log; responses = responses })

  module _ (listen : ℕ → Option (List Incoming)) where
    -- `HttpServer::run`, and what follows.
    unfoldable pub run : ℕ → DatabaseConfig → State (World P D F T) → Fault Exit
    run port config s = do
      log ← log_line (codes "HTTP server listening on port " ++ decimal port) s.log
      ended port config (record s { log = log }) (listen port)

    unfoldable pub main : Environment → Fault Exit
    main env =
        let log = init none in
        let port = resolve_port env.port 8080 in
        let database = resolve_database_config env.database_url env.statement_timeout in
        if not port.valid
        then startup_failed port.error log
        else if not database.valid
        then startup_failed database.error log
        else do
          log₁ ←
              log_line
                (codes "Starting sql-proxy-service (port source: "
                  ++ source_name port.source
                  ++ codes ")")
                log
          run port.port database.config (service (resolve_audit_log_path env.audit_log_path) log₁)
