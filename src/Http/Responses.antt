-- ===== src/Http/Responses.antt =====
-- The errors of `POST /query`, and the response to each answer of the service.
use sql_proxy_service.Prelude.{ℕ, ◌≡◌, refl, List, length, Bytes, codes}
use sql_proxy_service.Execution.{Cell}
use sql_proxy_service.Answer.{ServiceFailure, ServiceResult}
use sql_proxy_service.Http.{Content, Response, send_error, response_for, respond}

-- An error with a status and a code.
abbrev pub IsError : Response → ℕ → Bytes → Type 0
IsError response status code = (message : Bytes) × (response ≡ send_error status code message)

-- The status and the code of each failure of the service.
pub data IsFailureCode : ServiceFailure → ℕ → Bytes → Type 0 where
  empty_input : IsFailureCode ServiceFailure.empty_input 400 (codes "empty_sql")
  unparseable_sql : IsFailureCode ServiceFailure.unparseable_sql 400 (codes "invalid_sql")
  policy_rejected : IsFailureCode ServiceFailure.policy_rejected 403 (codes "policy_rejected")
  query_failed : IsFailureCode ServiceFailure.query_failed 400 (codes "query_failed")
  database_unavailable :
      IsFailureCode ServiceFailure.database_unavailable 503 (codes "database_unavailable")
  masking_refused : IsFailureCode ServiceFailure.masking_refused 422 (codes "masking_refused")
  internal_error : IsFailureCode ServiceFailure.internal_error 500 (codes "internal_error")

-- The response that carries an answer of the service.
pub data Carried : ServiceResult → Response → Type 0 where
  read :
      (names : List Bytes) (rows : List (List Cell))
      → Carried
          (ServiceResult.success (record { column_names = names; rows = rows }))
          (record { status = 200; content = Content.table names rows (length rows) })
  written :
      (affected : ℕ)
      → Carried
          (ServiceResult.write_success affected)
          (record { status = 200; content = Content.affected_rows affected })
  failed :
      {f : ServiceFailure} {response : Response} (status : ℕ) (code : Bytes)
      → IsFailureCode f status code
      → IsError response status code
      → Carried (ServiceResult.failure f) response

pub respond-Carried : (r : ServiceResult) → Carried r (respond r)
unfolding respond response_for
respond-Carried (ServiceResult.success q) = read q.column_names q.rows
respond-Carried (ServiceResult.write_success n) = written n
respond-Carried (ServiceResult.failure ServiceFailure.empty_input) =
    failed 400 (codes "empty_sql") IsFailureCode.empty_input (_, refl)
respond-Carried (ServiceResult.failure ServiceFailure.unparseable_sql) =
    failed 400 (codes "invalid_sql") IsFailureCode.unparseable_sql (_, refl)
respond-Carried (ServiceResult.failure ServiceFailure.policy_rejected) =
    failed 403 (codes "policy_rejected") IsFailureCode.policy_rejected (_, refl)
respond-Carried (ServiceResult.failure ServiceFailure.query_failed) =
    failed 400 (codes "query_failed") IsFailureCode.query_failed (_, refl)
respond-Carried (ServiceResult.failure ServiceFailure.database_unavailable) =
    failed 503 (codes "database_unavailable") IsFailureCode.database_unavailable (_, refl)
respond-Carried (ServiceResult.failure ServiceFailure.masking_refused) =
    failed 422 (codes "masking_refused") IsFailureCode.masking_refused (_, refl)
respond-Carried (ServiceResult.failure ServiceFailure.internal_error) =
    failed 500 (codes "internal_error") IsFailureCode.internal_error (_, refl)
