-- ===== src/Http/Examples.antt =====
-- A concrete exchange.
use sql_proxy_service.Prelude.{ℕ, suc, [], ◌∷◌, Bytes, codes}
use sql_proxy_service.Answer.{ServiceFailure, ServiceResult}
use sql_proxy_service.Http.{
  Request, Field, no_text, JsonBody, object, body_of, handle_query_request,
}
use sql_proxy_service.Http.Contract.{Contract, handle_query_request-Contract}

-- A reader that takes a text for the object with that text under `sql`, behind another key; and a
-- service that counts its requests.
abbrev parse_json : Bytes → JsonBody
parse_json body = object ((codes "id", no_text) ∷ (codes "sql", Field.text body) ∷ [])

abbrev busy : Bytes → ℕ → ServiceResult × ℕ
busy sql n = (ServiceResult.failure ServiceFailure.database_unavailable, suc n)

abbrev request : Request
request = record { content_type = codes "application/json; charset=utf-8"; body = codes "SELECT 1" }

handle_query_request-Contract_example :
    Contract parse_json busy request 0
      (handle_query_request (λ body. body_of (parse_json body)) busy request 0)
handle_query_request-Contract_example = handle_query_request-Contract parse_json busy request 0
