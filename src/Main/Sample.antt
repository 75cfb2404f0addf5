-- ===== src/Main/Sample.antt =====
-- A concrete platform: a parser that reports one SELECT, a database with one row, and a disk; and
-- what the concrete runs of the process ask of it.
use sql_proxy_service.Prelude.{List, ℕ, ◌+◌, true, false, none, some, [], ◌∷◌, Bytes, codes, ok}
use sql_proxy_service.Prelude.Int.{pos, negsuc}
use sql_proxy_service.Syntax.{ExprType, Expr, FromRef, SqlStatement, SqlParserResult}
use sql_proxy_service.Config.{DatabaseConfig, database_config}
use sql_proxy_service.Classifier.{Mappings, default_classification_config}
use sql_proxy_service.Service.{State}
use sql_proxy_service.Postgres.{returned, DriverResult}
use sql_proxy_service.Jsonl.Disk.{Disk, disk}
use sql_proxy_service.Http.{Content, Method, Incoming, object, text}
use sql_proxy_service.Execution.{Cell}
use sql_proxy_service.Main.{World, Platform, Machine, Environment, service}

abbrev pub email : Expr
email = record {
  type = ExprType.column_ref;
  name = some (codes "email");
  table = none;
  distinct = false;
  has_window = false;
  expr_list = none;
  ival = pos 0;
  fval_is_positive = false;
}

abbrev pub statement : SqlStatement
statement = SqlStatement.select (record {
  from_table = FromRef.table_name none (some (codes "customers"));
  select_list = some (some email ∷ []);
  has_group_by = false;
  with_count = none;
  set_count = none;
})

abbrev pub parsed : SqlParserResult
parsed = record {
  is_valid = true;
  error_line = negsuc 0;
  error_column = negsuc 0;
  statements = some statement ∷ [];
}

abbrev pub found : DriverResult
found = record {
  columns = 1;
  column_name = λ c. codes "email";
  column_type = λ c. 25;
  size = 1;
  is_null = λ i c. false;
  view = λ i c. codes "dana@example.com";
  affected_rows = 0;
}

abbrev pub platform : Platform ℕ ℕ Disk ℕ
platform = record {
  sql_parser = λ sql w. (ok parsed, w + 1);
  driver = record {
    connect = λ url w. (returned tt, w + 1);
    begin = λ w. (returned tt, w + 1);
    exec = λ sql w. (returned found, w + 1);
    commit = λ w. (returned tt, w + 1);
    end_transaction = λ w. w + 1;
    disconnect = λ w. w + 1;
  };
  device = disk;
  dump = λ j. ok (codes "{}");
  parse_json = λ body. object ((codes "sql", text body) ∷ []);
  unrouted = λ q. record { status = 404; content = Content.error [] [] };
  gmtime_r = λ seconds. record {
    year = pos 123;
    month = pos 10;
    day = pos 14;
    hour = pos 22;
    minute = pos 13;
    second = pos 20;
  };
  now = λ w. (pos w, w + 1);
}

abbrev pub machine : Machine ℕ ℕ Disk ℕ
machine = record {
  open_file = λ path. (true, record { content = codes "old\n"; pending = []; room = 1000 });
  parser = 0;
  database = 0;
  clock = 1700000000000;
}

abbrev pub env : Environment
env = record {
  port = some (codes "9000");
  database_url = some (codes "postgres://db");
  statement_timeout = none;
  audit_log_path = none;
}

abbrev pub request : Incoming
request = record {
  method = Method.post;
  path = codes "/query";
  request = record {
    content_type = codes "application/json";
    body = codes "SELECT email FROM customers";
  };
}

abbrev pub config : DatabaseConfig
config = database_config (codes "postgres://db") 5000

abbrev pub mappings : Mappings
mappings = default_classification_config

abbrev pub start : State (World ℕ ℕ Disk ℕ)
start = service platform machine (codes "audit.jsonl") (some [])

abbrev pub sql : Bytes
sql = codes "SELECT email FROM customers"

abbrev pub content : Disk → Bytes
content f = f.content

abbrev pub pending : Disk → Bytes
pending f = f.pending

abbrev pub names : List Bytes
names = codes "email" ∷ []

abbrev pub rows : List (List Cell)
rows = (some (codes "d***@example.com") ∷ []) ∷ []
