-- ===== src/Postgres/Examples.antt =====
-- A concrete driver, and executions on it.
use sql_proxy_service.Prelude.{
  ℕ, ◌+◌, ◌≡◌, refl, Bool, false, none, some, [], ◌∷◌, ◌==◌, if◌then◌else◌, Bytes, codes,
}
use sql_proxy_service.Prelude.Decimal.{decimal_from}
use sql_proxy_service.Config.{
  DatabaseConfig, database_config, whole_int, digits_value, resolve_timeout,
  resolve_database_config,
}
use sql_proxy_service.Postgres.{
  Attempt, returned, raised, sql_error, limit_statement, DriverResult, Driver, translate, execute,
  transact, caught, collect,
}
use sql_proxy_service.Postgres.Table.{IsTable, translate-IsTable}
use sql_proxy_service.Postgres.Settings.{IsLimit, limit_statement-IsLimit}

-- One row: a text and a NULL.
abbrev found : DriverResult
found = record {
  columns = 2;
  column_name = λ c. codes "note";
  column_type = λ c. 25;
  size = 1;
  is_null = λ i c. c == 1;
  view = λ i c. codes "x";
  affected_rows = 0;
}

-- A database that refuses every statement which begins with a D; the world counts the calls.
abbrev refuses : Bytes → Bool
refuses [] = false
refuses (c ∷ s) = c == b'D'

abbrev exec_call : Bytes → Attempt DriverResult
exec_call sql =
    if refuses sql
    then raised (sql_error (codes "no such row: 4711") (codes "42501"))
    else returned found

abbrev driver : Driver ℕ
driver = record {
  connect = λ url w. (returned tt, w + 1);
  begin = λ w. (returned tt, w + 1);
  exec = λ sql w. (exec_call sql, w + 1);
  commit = λ w. (returned tt, w + 1);
  end_transaction = λ w. w + 1;
  disconnect = λ w. w + 1;
}

abbrev config : DatabaseConfig
config = database_config (codes "postgres://db") 5000

execute_test :
    (execute driver config (codes "SELECT note FROM t") 0).0.rows
    ≡ (some (codes "x") ∷ none ∷ []) ∷ []
unfolding execute transact translate collect decimal_from
execute_test = refl

execute_refused_test :
    (execute driver config (codes "DELETE FROM t") 0).0.error
    ≡ codes "statement failed (SQLSTATE 42501)"
unfolding execute transact caught decimal_from
execute_refused_test = refl

translate-IsTable_example : IsTable found (translate found)
translate-IsTable_example = translate-IsTable found

limit_statement-IsLimit_example : IsLimit (some (codes "0250")) (
    limit_statement
      (resolve_database_config (some (codes "postgres://db")) (some (codes "0250"))).config)
unfolding resolve_database_config resolve_timeout whole_int digits_value
limit_statement-IsLimit_example =
    limit_statement-IsLimit (some (codes "postgres://db")) (some (codes "0250")) refl
