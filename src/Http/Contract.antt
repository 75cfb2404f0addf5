-- ===== src/Http/Contract.antt =====
-- What `POST /query` promises: the error or the answer for every request.
use sql_proxy_service.Prelude.{
  ℕ, ◌≤◌, ◌<◌, ◌≡◌, refl, sym, ap, subst, ◌≢◌, inl, inr, true, some, List, ◌++◌, arith, ltb,
  Bool-cases, length, Bytes, codes,
}
use sql_proxy_service.Text.{starts_with, starts_with_iff}
use sql_proxy_service.Answer.{ServiceResult}
use sql_proxy_service.Http.{
  Request, Field, JsonBody, object, RequestBody, find_field, body_of, Response,
  invalid_content_type, invalid_json, invalid_request, sql_too_large, respond, admit,
  handle_query_request,
}
use sql_proxy_service.Http.Fields.{HoldsText, find_field_cases}
use sql_proxy_service.Http.Responses.{IsError, Carried, respond-Carried}

-- The content type begins with `application/json`.
pub record IsJson (request : Request) : Type 0 where
  pub parameters : Bytes
  pub type : request.content_type ≡ codes "application/json" ++ parameters

-- How an exchange ends.
pub data Contract {S : Type 0} (parse_json : Bytes → JsonBody)
    (proxy : Bytes → S → ServiceResult × S) (request : Request) (s : S) (out : Response × S)
    : Type 0 where
  not_json :
      ¬ IsJson request
      → IsError out.0 400 (codes "invalid_content_type")
      → out.1 ≡ s
      → Contract parse_json proxy request s out
  no_object :
      IsJson request
      → ((fields : List (Bytes × Field)) → parse_json request.body ≢ object fields)
      → IsError out.0 400 (codes "invalid_json")
      → out.1 ≡ s
      → Contract parse_json proxy request s out
  no_statement :
      (fields : List (Bytes × Field))
      → IsJson request
      → parse_json request.body ≡ object fields
      → ((sql : Bytes) → ¬ HoldsText sql fields)
      → IsError out.0 400 (codes "invalid_request")
      → out.1 ≡ s
      → Contract parse_json proxy request s out
  too_long :
      (fields : List (Bytes × Field)) (sql : Bytes)
      → IsJson request
      → parse_json request.body ≡ object fields
      → HoldsText sql fields
      → 65536 < length sql
      → IsError out.0 400 (codes "sql_too_large")
      → out.1 ≡ s
      → Contract parse_json proxy request s out
  answered :
      (fields : List (Bytes × Field)) (sql : Bytes)
      → IsJson request
      → parse_json request.body ≡ object fields
      → HoldsText sql fields
      → length sql ≤ 65536
      → Carried (proxy sql s).0 out.0
      → out.1 ≡ (proxy sql s).1
      → Contract parse_json proxy request s out

module _ {S : Type 0} (parse_json : Bytes → JsonBody) (proxy : Bytes → S → ServiceResult × S)
    (request : Request) (s : S) where
  abbrev read_body : Bytes → RequestBody
  read_body body = body_of (parse_json body)

  -- What a refused request and an admitted one come to.
  refused :
      {status : ℕ} {code : Bytes} (response : Response)
      → admit read_body request ≡ inl response
      → IsError response status code
      → IsError (handle_query_request read_body proxy request s).0 status code
        × ((handle_query_request read_body proxy request s).1 ≡ s)
  unfolding handle_query_request
  refused response e error = (rw (handle_query_request, e) error, rw (handle_query_request, e) refl)

  admitted :
      (sql : Bytes)
      → admit read_body request ≡ inr sql
      → handle_query_request read_body proxy request s ≡ (respond (proxy sql s).0, (proxy sql s).1)
  unfolding handle_query_request
  admitted sql e = rw (handle_query_request, e) refl

  abbrev End : Type 0
  End = Contract parse_json proxy request s (handle_query_request read_body proxy request s)

  text_Contract :
      (fields : List (Bytes × Field)) (sql : Bytes)
      → IsJson request
      → starts_with (codes "application/json") request.content_type ≡ true
      → parse_json request.body ≡ object fields
      → HoldsText sql fields
      → find_field (codes "sql") fields ≡ some (Field.text sql)
      → End
  unfolding admit body_of
  text_Contract fields sql json begins is_object holds e =
      elim (Bool-cases (ltb 65536 (length sql))) [
        | inl long ↦
            let (error, unchanged) =
              refused sql_too_large (rw (begins, is_object, e, long) refl) (_, refl) in
            too_long fields sql json is_object holds (ground arith) error unchanged
        | inr short ↦
            let out = admitted sql (rw (begins, is_object, e, short) refl) in
            answered fields sql json is_object holds (ground arith)
              (subst (λ (x : Response × S). Carried (proxy sql s).0 x.0) (sym out)
                (respond-Carried (proxy sql s).0))
              (ap (λ (x : Response × S). x.1) out)
      ]

  object_Contract :
      (fields : List (Bytes × Field))
      → IsJson request
      → starts_with (codes "application/json") request.content_type ≡ true
      → parse_json request.body ≡ object fields
      → End
  unfolding admit body_of
  object_Contract fields json begins is_object = elim (find_field_cases fields) [
    | inl (sql, e, holds) ↦ text_Contract fields sql json begins is_object holds e
    | inr (inl e, none_held) ↦
        let (error, unchanged) =
          refused invalid_request (rw (begins, is_object, e) refl) (_, refl) in
        no_statement fields json is_object none_held error unchanged
    | inr (inr e, none_held) ↦
        let (error, unchanged) =
          refused invalid_request (rw (begins, is_object, e) refl) (_, refl) in
        no_statement fields json is_object none_held error unchanged
  ]

  json_Contract :
      (body : JsonBody)
      → IsJson request
      → starts_with (codes "application/json") request.content_type ≡ true
      → parse_json request.body ≡ body
      → End
  unfolding admit body_of
  json_Contract JsonBody.discarded json begins e =
      let (error, unchanged) = refused invalid_json (rw (begins, e) refl) (_, refl) in
      no_object json (λ fields h. cc (e, h)) error unchanged
  json_Contract JsonBody.no_object json begins e =
      let (error, unchanged) = refused invalid_json (rw (begins, e) refl) (_, refl) in
      no_object json (λ fields h. cc (e, h)) error unchanged
  json_Contract (object fields) json begins e = object_Contract fields json begins e

-- A request is answered with status 400 and the service is left alone in four cases, each with
-- its error code: the content type does not begin with `application/json`; the body is no JSON
-- object; its first value under `sql` is not a text, or there is none; the text is longer than 65536
-- bytes. In every other case the text goes to the service unchanged, and the response is
-- its answer's: 200 with the columns, the rows and their number of a read, 200 with the affected
-- rows of a write, and for each failure its status and error code.
pub handle_query_request-Contract :
    {S : Type 0} (parse_json : Bytes → JsonBody) (proxy : Bytes → S → ServiceResult × S)
    (request : Request) (s : S)
    → Contract parse_json proxy request s
        (handle_query_request (λ body. body_of (parse_json body)) proxy request s)
unfolding admit
handle_query_request-Contract parse_json proxy request s =
    let prefix = starts_with_iff (codes "application/json") request.content_type in
    elim (Bool-cases (starts_with (codes "application/json") request.content_type)) [
      | inl begins ↦
          let (parameters, type) = prefix.0 begins in
          json_Contract parse_json proxy request s (parse_json request.body)
            (record { parameters = parameters; type = type }) begins refl
      | inr other ↦
          let (error, unchanged) =
            refused parse_json proxy request s invalid_content_type (rw other refl) (_, refl) in
          not_json (λ j. cc (other, prefix.1 (j.parameters, j.type))) error unchanged
    ]
