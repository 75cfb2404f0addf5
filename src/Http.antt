-- ===== src/Http.antt =====
-- `src/http/routes.cpp`: `POST /query`. The JSON library is a parameter, which tells what value a
-- request body is; of a response the content is the JSON value before it is written as text.
pub mod Fields
pub mod Responses
pub mod Contract
pub mod Exchange
mod Examples
use sql_proxy_service.Prelude.{
  Option, none, some, [], ◌∷◌, bytes_eq, Bool, true, false, ◌&&◌, bytes_eq, ℕ, ◌*◌, ◌⊎◌, inl, inr,
  not, List, ltb, if◌then◌else◌, length, Bytes, codes,
}
use sql_proxy_service.Text.{starts_with}
use sql_proxy_service.Execution.{Cell}
use sql_proxy_service.Answer.{ServiceFailure, ServiceResult}

pub record Request : Type 0 where
  pub content_type : Bytes
  pub body : Bytes

-- What the JSON library makes of a text: a value of a key is a text or is not, and keys are unique.
pub data Field : Type 0 where
  text : Bytes → Field
  no_text : Field

pub data JsonBody : Type 0 where
  discarded : JsonBody
  object : List (Bytes × Field) → JsonBody
  no_object : JsonBody

-- What is left of a body behind the checks on its value.
pub data RequestBody : Type 0 where
  no_object no_sql_text : RequestBody
  sql_text : Bytes → RequestBody

unfoldable pub find_field : Bytes → List (Bytes × Field) → Option Field
find_field key [] = none
find_field key ((k, v) ∷ fields) =
    let rest = find_field key fields in if bytes_eq key k then some v else rest

-- `is_discarded`, `is_object`, `find("sql")` and `is_string`.
unfoldable pub body_of : JsonBody → RequestBody
body_of JsonBody.discarded = RequestBody.no_object
body_of JsonBody.no_object = RequestBody.no_object
body_of (object fields) = elim (find_field (codes "sql") fields) [
  | none ↦ no_sql_text
  | some no_text ↦ no_sql_text
  | some (text sql) ↦ sql_text sql
]

pub data Content : Type 0 where
  error : Bytes → Bytes → Content
  affected_rows : ℕ → Content
  table : List Bytes → List (List Cell) → ℕ → Content
  healthy : Content

pub record Response : Type 0 where
  pub status : ℕ
  pub content : Content

abbrev pub max_sql_length : ℕ
max_sql_length = 64 * 1024

-- `send_error`
abbrev pub send_error : ℕ → Bytes → Bytes → Response
send_error status code message = record { status = status; content = Content.error code message }

-- `response_for`, and the response that is made of it.
unfoldable pub response_for : ServiceFailure → Response
response_for ServiceFailure.empty_input =
    send_error 400 (codes "empty_sql") (codes "The 'sql' field must not be empty.")
response_for ServiceFailure.unparseable_sql =
    send_error 400 (codes "invalid_sql") (codes "The SQL statement could not be parsed.")
response_for ServiceFailure.policy_rejected =
    send_error 403 (codes "policy_rejected") (codes "The statement was rejected by policy.")
response_for ServiceFailure.query_failed =
    send_error 400 (codes "query_failed") (codes "The database rejected the statement.")
response_for ServiceFailure.database_unavailable =
    send_error 503 (codes "database_unavailable") (codes "The database is currently unavailable.")
response_for ServiceFailure.masking_refused =
    send_error 422 (codes "masking_refused")
      (codes "Results could not be safely masked and were not returned.")
response_for ServiceFailure.internal_error =
    send_error 500 (codes "internal_error") (codes "An internal error occurred.")

-- The response to the answer of the service.
unfoldable pub respond : ServiceResult → Response
respond (ServiceResult.failure f) = response_for f
respond (ServiceResult.write_success n) = record { status = 200; content = Content.affected_rows n }
respond (ServiceResult.success q) = record {
  status = 200;
  content = Content.table q.column_names q.rows (length q.rows);
}

abbrev pub invalid_content_type : Response
invalid_content_type =
    send_error 400 (codes "invalid_content_type") (codes "Content-Type must be application/json.")

abbrev pub invalid_json : Response
invalid_json = send_error 400 (codes "invalid_json") (codes "Request body must be a JSON object.")

abbrev pub invalid_request : Response
invalid_request =
    send_error 400 (codes "invalid_request")
      (codes "Request body must contain a string 'sql' field.")

abbrev pub sql_too_large : Response
sql_too_large =
    send_error 400 (codes "sql_too_large")
      (codes "The 'sql' field exceeds the maximum accepted length.")

-- The two steps of `handle_query_request`: the checks of the transport, and the request to the proxy.
unfoldable pub admit : (Bytes → RequestBody) → Request → Response ⊎ Bytes
admit read_body request =
    if not (starts_with (codes "application/json") request.content_type)
    then inl invalid_content_type
    else elim (read_body request.body) [
      | RequestBody.no_object ↦ inl invalid_json
      | no_sql_text ↦ inl invalid_request
      | sql_text sql ↦ if ltb max_sql_length (length sql) then inl sql_too_large else inr sql
    ]

unfoldable pub handle_query_request :
    {S : Type 0}
    → (Bytes → RequestBody)
    → (Bytes → S → ServiceResult × S)
    → Request
    → S
    → Response × S
handle_query_request read_body proxy request s = elim (admit read_body request) [
  | inl response ↦ (response, s)
  | inr sql ↦ let (result, s') = proxy sql s in (respond result, s')
]

-- The routes: what the library takes from the request line, and the rest of the request.
pub data Method : Type 0 where
  get post other : Method

pub record Incoming : Type 0 where
  pub method : Method
  pub path : Bytes
  pub request : Request

abbrev pub is_get : Method → Bool
is_get Method.get = true
is_get _ = false

abbrev pub is_post : Method → Bool
is_post Method.post = true
is_post _ = false

abbrev pub health : Response
health = record { status = 200; content = Content.healthy }

-- The two registered routes; the library itself answers what matches neither.
unfoldable pub route :
    {S : Type 0}
    → (Bytes → RequestBody)
    → (Incoming → Response)
    → (Bytes → S → ServiceResult × S)
    → Incoming
    → S
    → Response × S
route read_body unrouted proxy q s =
    if is_get q.method && bytes_eq q.path (codes "/health")
    then (health, s)
    else if is_post q.method && bytes_eq q.path (codes "/query")
    then handle_query_request read_body proxy q.request s
    else (unrouted q, s)
