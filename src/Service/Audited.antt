-- ===== src/Service/Audited.antt =====
-- The audit of one request: what is appended, when, and what becomes of the answer.
use sql_proxy_service.Prelude.{
  ◌+◌, ◌%◌, ◌^◌, ◌≡◌, refl, ap, ◌∙◌, subst, ◌≢◌, ◌↔◌, inl, inr, true, List, [], ◌∷◌, ◌++◌, arith,
  if◌then◌else◌, Bool-cases, Bytes,
}
use sql_proxy_service.Classifier.{Mappings}
use sql_proxy_service.Audit.{Details, AuditRecord, AuditOutcome, outcome, outcome_of}
use sql_proxy_service.Ports.{AuditAppendResult, Ports}
use sql_proxy_service.Service.{
  Processing, Event, appended, State, append_answer, processed, append_safely, log_error,
  audit_failure_line, answer, handle,
}
use sql_proxy_service.Answer.{ServiceFailure, ServiceResult, succeeded}
use sql_proxy_service.Service.Processed.{Agrees, processed-IsSound}
use sql_proxy_service.Service.Calls.{Calls, clocked, processed-Calls, processed_rest}

module _ {W : Type 0} (ports : Ports W) (m : Mappings) (sql : Bytes) (s : State W) where
  -- The record that the request appends, and the world in which it does.
  abbrev pub final_audit : AuditRecord
  final_audit = (processed ports m sql s).0.audit

  abbrev pub final_answer : ServiceResult
  final_answer = (processed ports m sql s).0.result

  abbrev pub final_world : W
  final_world = (processed ports m sql s).1.world

  -- The repository's answer for it.
  abbrev pub persistence : AuditAppendResult
  persistence = append_answer (ports.append final_audit final_world).0

  handle_lem :
      handle ports m sql s
      ≡ answer
          (processed ports m sql s).0
          persistence
          (append_safely ports final_audit (processed ports m sql s).1).1
  unfolding handle append_safely
  handle_lem = refl

  answer-events :
      (x : Processing) (r : AuditAppendResult) (s' : State W)
      → ((answer x r s').1.events ≡ s'.events)
        × ((answer x r s').1.next_request_id ≡ s'.next_request_id)
  unfolding answer
  answer-events x AuditAppendResult.ok s' = (refl, refl)
  answer-events x AuditAppendResult.open_failure s' = (refl, refl)
  answer-events x AuditAppendResult.write_failure s' = (refl, refl)

  -- The ports' calls of one request, and what the appended record carries.
  pub record IsAuditedOnce (after : State W) : Type 0 where
    pub calls : List Event
    pub made : Calls ports sql (clocked ports m sql s) calls
    pub audit : AuditRecord
    pub events : after.events ≡ s.events ++ calls ++ appended audit ∷ []
    pub time : audit.timestamp_ms ≡ (ports.now s.world).0
    pub id : audit.request_id ≡ s.next_request_id
    pub counter : after.next_request_id ≡ (s.next_request_id + 1) % 2 ^ 64

  -- One request appends exactly one audit record, as the last of its calls and whatever the ports
  -- answer; it carries the time and the id of the request, and the counter moves by one, modulo
  -- 2 ^ 64. Before it stand no call on blank input, the parser's alone if it throws or its
  -- statement is not permitted, and the parser's and the executor's on a permitted statement.
  pub handle-IsAuditedOnce : IsAuditedOnce (handle ports m sql s).1
  unfolding append_safely
  handle-IsAuditedOnce =
      let (calls, made, e) = processed-Calls ports m sql s in
      let sound = processed-IsSound ports m sql s in
      let kept =
        answer-events (processed ports m sql s).0 persistence
          (append_safely ports final_audit (processed ports m sql s).1).1 in
      record {
        calls = calls;
        made = made;
        audit = final_audit;
        events = rw handle_lem (kept.0 ∙ ap (λ l. l ++ appended final_audit ∷ []) e);
        time = sound.0;
        id = sound.1;
        counter = rw handle_lem (kept.1 ∙ (processed_rest ports m sql s).0);
      }

  -- Whether the record of the request was persisted, and what follows.
  pub data Outcome (out : ServiceResult × State W) : Type 0 where
    persisted :
        persistence ≡ AuditAppendResult.ok
        → Agrees out.0 final_audit.details
        → out.1.log ≡ s.log
        → Outcome out
    withheld :
        persistence ≢ AuditAppendResult.ok
        → outcome final_audit ≡ AuditOutcome.success
        → out.0 ≡ ServiceResult.failure ServiceFailure.internal_error
        → out.1.log ≡ (log_error (audit_failure_line persistence) s).log
        → Outcome out
    kept :
        persistence ≢ AuditAppendResult.ok
        → outcome final_audit ≢ AuditOutcome.success
        → Agrees out.0 final_audit.details
        → out.1.log ≡ (log_error (audit_failure_line persistence) s).log
        → Outcome out

  -- A row of the table: success, and its agreement with the record.
  succeeded_outcome :
      (r : ServiceResult) (d : Details)
      → Agrees r d
      → (succeeded r ≡ true) ↔ (outcome_of d ≡ AuditOutcome.success)
  succeeded_outcome (ServiceResult.success q) d h = ground arith
  succeeded_outcome (ServiceResult.write_success n) d h = ground arith
  succeeded_outcome (ServiceResult.failure f) d h = ground arith

  lost_Outcome :
      persistence ≢ AuditAppendResult.ok
      → (out : ServiceResult × State W)
      → out.0 ≡ (
          if succeeded final_answer
          then ServiceResult.failure ServiceFailure.internal_error
          else final_answer)
      → out.1.log ≡ (log_error (audit_failure_line persistence) s).log
      → Outcome out
  unfolding outcome
  lost_Outcome n out e l =
      let agrees = (processed-IsSound ports m sql s).2 in
      let f = succeeded_outcome final_answer final_audit.details agrees in
      elim (Bool-cases (succeeded final_answer)) [
        | inl yes_ ↦ withheld n (f.0 yes_) (ground arith) l
        | inr no_ ↦
            kept n (λ h. cc (no_, f.1 h))
              (subst (λ r. Agrees r final_audit.details) (ground arith) agrees) l
      ]

  -- An answer leaves together with its persisted record and agrees with it. If the record was not
  -- persisted, a success becomes an internal error and a failure stays the failure that the record
  -- tells; the logger, if there is one, gets one line, which names only how persistence failed.
  pub handle-Outcome : Outcome (handle ports m sql s)
  unfolding append_safely answer
  handle-Outcome = answered persistence refl
    where
      unchanged : (processed ports m sql s).1.log ≡ s.log
      unchanged = (processed_rest ports m sql s).1

      answered : (r : AuditAppendResult) → persistence ≡ r → Outcome (handle ports m sql s)
      answered AuditAppendResult.ok e =
          persisted e (rw (handle_lem, e) (processed-IsSound ports m sql s).2)
            (rw (handle_lem, e) unchanged)
      answered AuditAppendResult.open_failure e =
          lost_Outcome (λ h. cc) (handle ports m sql s) (rw (handle_lem, e))
            (rw (handle_lem, e, unchanged) (cc e))
      answered AuditAppendResult.write_failure e =
          lost_Outcome (λ h. cc) (handle ports m sql s) (rw (handle_lem, e))
            (rw (handle_lem, e, unchanged) (cc e))

  success_iff :
      (out : ServiceResult × State W)
      → Outcome out
      → (succeeded out.0 ≡ true)
        ↔ ((persistence ≡ AuditAppendResult.ok) × (outcome final_audit ≡ AuditOutcome.success))
  unfolding outcome
  success_iff out (persisted e a l) =
      let f = succeeded_outcome out.0 final_audit.details a in ((λ h. (e, f.0 h)), (λ h. f.1 h.1))
  success_iff out (withheld n o e l) = ((λ h. cc), (λ h. absurd (n h.0)))
  success_iff out (kept n o a l) =
      let f = succeeded_outcome out.0 final_audit.details a in
      ((λ h. absurd (o (f.0 h))), (λ h. absurd (n h.0)))

  -- A success leaves the service exactly if the repository persisted the request's record and that
  -- record is one of a success.
  pub handle-success_iff :
      (succeeded (handle ports m sql s).0 ≡ true)
      ↔ ((persistence ≡ AuditAppendResult.ok) × (outcome final_audit ≡ AuditOutcome.success))
  handle-success_iff = success_iff (handle ports m sql s) handle-Outcome
