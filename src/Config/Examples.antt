-- ===== src/Config/Examples.antt =====
-- Concrete environments.
use sql_proxy_service.Prelude.{◌≡◌, refl, some, codes}
use sql_proxy_service.Config.{resolve_port, resolve_database_config, whole_int, digits_value}
use sql_proxy_service.Config.Resolved.{
  Port, Database, resolve_port-Port, resolve_database_config-Database,
}

resolve_port_test : (resolve_port (some (codes "9000")) 8080).port ≡ 9000
unfolding resolve_port whole_int digits_value
resolve_port_test = refl

resolve_port-Port_example :
    Port (some (codes "9000")) 8080 (resolve_port (some (codes "9000")) 8080)
resolve_port-Port_example = resolve_port-Port (some (codes "9000")) 8080

resolve_database_config-Database_example :
    Database
      (some (codes "postgres://db"))
      (some (codes "250"))
      (resolve_database_config (some (codes "postgres://db")) (some (codes "250")))
resolve_database_config-Database_example =
    resolve_database_config-Database (some (codes "postgres://db")) (some (codes "250"))
