-- ===== src/Http/Exchange.antt =====
-- One exchange: refused by the transport, or answered by the service.
use sql_proxy_service.Prelude.{
  ◌≤◌, ◌≡◌, refl, ap, ◌⊎◌, inl, inr, true, arith, ltb, Bool-cases, length, Bytes, codes,
}
use sql_proxy_service.Text.{starts_with}
use sql_proxy_service.Answer.{ServiceResult}
use sql_proxy_service.Http.{
  Request, RequestBody, no_sql_text, sql_text, Response, invalid_content_type, invalid_json,
  invalid_request, sql_too_large, respond, admit, handle_query_request,
}

-- The request carries a statement to the service.
pub record Carries (read_body : Bytes → RequestBody) (request : Request) (sql : Bytes)
    : Type 0 where
  pub json : starts_with (codes "application/json") request.content_type ≡ true
  pub text : read_body request.body ≡ sql_text sql
  pub short : length sql ≤ 65536

pub data Exchange {S : Type 0} (read_body : Bytes → RequestBody)
    (proxy : Bytes → S → ServiceResult × S) (request : Request) (s : S) (out : Response × S)
    : Type 0 where
  turned_away :
      ((sql : Bytes) → ¬ Carries read_body request sql)
      → out.0.status ≡ 400
      → out.1 ≡ s
      → Exchange read_body proxy request s out
  answered :
      (sql : Bytes)
      → Carries read_body request sql
      → out ≡ (respond (proxy sql s).0, (proxy sql s).1)
      → Exchange read_body proxy request s out

module _ (read_body : Bytes → RequestBody) (request : Request) where
  admit_cases :
      ((response : Response) × (admit read_body request ≡ inl response)
        × (response.status ≡ 400)
        × ((sql : Bytes) → ¬ Carries read_body request sql))
      ⊎ ((sql : Bytes) × (admit read_body request ≡ inr sql) × Carries read_body request sql)
  unfolding admit
  admit_cases = elim (Bool-cases (starts_with (codes "application/json") request.content_type)) [
    | inr other ↦ inl (invalid_content_type, rw other refl, refl, (λ sql c. cc (c.json, other)))
    | inl json ↦ by_body (read_body request.body) refl json
  ]
    where
      by_body :
          (b : RequestBody)
          → read_body request.body ≡ b
          → starts_with (codes "application/json") request.content_type ≡ true
          → ((response : Response) × (admit read_body request ≡ inl response)
              × (response.status ≡ 400)
              × ((sql : Bytes) → ¬ Carries read_body request sql))
            ⊎ ((sql : Bytes) × (admit read_body request ≡ inr sql) × Carries read_body request sql)
      by_body RequestBody.no_object e json =
          inl (invalid_json, rw (json, e) refl, refl, (λ sql c. cc (c.text, e)))
      by_body no_sql_text e json =
          inl (invalid_request, rw (json, e) refl, refl, (λ sql c. cc (c.text, e)))
      by_body (sql_text sql) e json = elim (Bool-cases (ltb 65536 (length sql))) [
        | inl long ↦ inl (
          sql_too_large,
          rw (json, e, long) refl,
          refl,
          (λ t c. let same : t ≡ sql = cc (c.text, e) in ground (arith, ap length same, c.short)),
        )
        | inr short ↦
            inr (
              sql,
              rw (json, e, short) refl,
              record { json = json; text = e; short = ground arith },
            )
      ]

-- For any reader of bodies: a request that carries no statement is turned away with status 400 and
-- the service is left alone; a statement is handed to the service unchanged, and the response is made
-- of its answer. Http/Contract says what the reader and the responses are.
pub handle_query_request-Exchange :
    {S : Type 0} (read_body : Bytes → RequestBody) (proxy : Bytes → S → ServiceResult × S)
    (request : Request) (s : S)
    → Exchange read_body proxy request s (handle_query_request read_body proxy request s)
unfolding handle_query_request
handle_query_request-Exchange read_body proxy request s = elim (admit_cases read_body request) [
  | inl (response, e, status, no_statement) ↦
      turned_away no_statement (rw (handle_query_request, e) status)
        (rw (handle_query_request, e) refl)
  | inr (sql, e, carries) ↦ answered sql carries (rw (handle_query_request, e) refl)
]
