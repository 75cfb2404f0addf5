-- ===== src/Service/Calls.antt =====
-- Which ports one request calls, in which order, and with what.
use sql_proxy_service.Prelude.{
  ℕ, ◌+◌, ◌%◌, ◌^◌, ◌≡◌, refl, sym, ◌∙◌, inl, inr, true, false, List, [], ◌∷◌, ◌++◌, arith,
  if◌then◌else◌, Bool-cases, Bytes, ok, threw, Fault-cases,
}
use mathlib.Core.List.{append_assoc, append-nil}
use sql_proxy_service.Prelude.Int.{ℤ}
use sql_proxy_service.Analysis.{SqlAnalysis, ParseResult}
use sql_proxy_service.Analyzer.{is_blank, analysis_of_parse, analyze}
use sql_proxy_service.Analyzer.Outcomes.{analyze_invokes_parser}
use sql_proxy_service.Policy.{PolicyDecision, evaluate, evaluate_status}
use sql_proxy_service.Policy.Permission.{IsPermitted, evaluate_iff}
use sql_proxy_service.Classifier.{Mappings}
use sql_proxy_service.Ports.{Ports}
use sql_proxy_service.Service.{
  Event, parsed, executed, State, call_parse, call_execute, decided, process, processed,
}

module _ {W : Type 0} (ports : Ports W) (sql : Bytes) (w : W) where
  -- The calls before the audit: none on blank input; the parser alone if it throws or if the policy
  -- denies what it reports; parser and executor on a permitted statement.
  pub data Calls (calls : List Event) : Type 0 where
    none_made : is_blank sql ≡ true → calls ≡ [] → Calls calls
    unparsed :
        is_blank sql ≡ false → (ports.parse sql w).0 ≡ threw → calls ≡ parsed sql ∷ [] → Calls calls
    denied :
        is_blank sql ≡ false
        → (p : ParseResult) → (ports.parse sql w).0 ≡ ok p
        → ¬ IsPermitted (analysis_of_parse p)
        → calls ≡ parsed sql ∷ []
        → Calls calls
    ran :
        is_blank sql ≡ false
        → (p : ParseResult) → (ports.parse sql w).0 ≡ ok p
        → IsPermitted (analysis_of_parse p)
        → calls ≡ parsed sql ∷ executed sql ∷ []
        → Calls calls

module _ {W : Type 0} (ports : Ports W) (sql : Bytes) (s : State W) where
  -- The state behind the call of the parser.
  abbrev pub parsed_state : State W
  parsed_state = record s {
    world = (ports.parse sql s.world).1;
    events = s.events ++ parsed sql ∷ [];
  }

  pub analyze-threw :
      is_blank sql ≡ false
      → (ports.parse sql s.world).0 ≡ threw
      → analyze (call_parse ports) sql s ≡ (threw, parsed_state)
  unfolding call_parse
  analyze-threw text e = (analyze_invokes_parser (call_parse ports) sql s).1 text ∙ ground arith

  pub analyze-ok :
      (p : ParseResult)
      → is_blank sql ≡ false
      → (ports.parse sql s.world).0 ≡ ok p
      → analyze (call_parse ports) sql s ≡ (ok (analysis_of_parse p), parsed_state)
  unfolding call_parse
  analyze-ok p text e = (analyze_invokes_parser (call_parse ports) sql s).1 text ∙ ground arith

module _ {W : Type 0} (ports : Ports W) (m : Mappings) (sql : Bytes) (t : ℤ) (id : ℕ) where
  -- Behind the decision: the executor is called exactly if the decision allows.
  decided_events :
      (a : SqlAnalysis) (d : PolicyDecision) (s : State W)
      → (decided ports m sql t id a d s).1.events
        ≡ (if d.allowed then s.events ++ executed sql ∷ [] else s.events)
  unfolding decided call_execute
  decided_events a d s = elim (Bool-cases d.allowed) [
    | inr refused ↦ ground arith
    | inl allowed ↦ elim (Fault-cases (ports.execute sql s.world).0) [
      | inl e ↦ ground arith
      | inr (r, e) ↦ ground arith
    ]
  ]

  abbrev Made : State W → Type 0
  Made s =
      (calls : List Event) × Calls ports sql s.world calls
      × ((process ports m sql t id s).1.events ≡ s.events ++ calls)

  Made-parsed :
      (s : State W) (p : ParseResult)
      → is_blank sql ≡ false
      → (ports.parse sql s.world).0 ≡ ok p
      → Made s
  unfolding process
  Made-parsed s p text e =
      let a = analysis_of_parse p in
      let s₁ = parsed_state ports sql s in
      let run = decided_events a (evaluate a) s₁ in
      elim (Bool-cases (evaluate a).allowed) [
        | inl allowed ↦ (
          parsed sql ∷ executed sql ∷ [],
          ran text p e ((evaluate_iff a).0 allowed) refl,
          rw (analyze-ok ports sql s p text e)
              (run ∙ rw allowed (append_assoc s.events (parsed sql ∷ []) (executed sql ∷ []))),
        )
        | inr refused ↦ (
          parsed sql ∷ [],
          denied text p e (λ h. cc (refused, (evaluate_iff a).1 h)) refl,
          rw (analyze-ok ports sql s p text e) (run ∙ rw refused refl),
        )
      ]

  process-Calls : (s : State W) → Made s
  unfolding process decided evaluate evaluate_status
  process-Calls s = elim (Bool-cases (is_blank sql)) [
    | inl blank ↦ (
      [],
      none_made blank refl,
      rw ((analyze_invokes_parser (call_parse ports) sql s).0 blank) (sym (append-nil s.events)),
    )
    | inr text ↦ elim (Fault-cases (ports.parse sql s.world).0) [
      | inl e ↦ (parsed sql ∷ [], unparsed text e refl, rw (analyze-threw ports sql s text e))
      | inr (p, e) ↦ Made-parsed s p text e
    ]
  ]

  -- The pipeline touches neither the counter nor the log.
  decided_rest :
      (a : SqlAnalysis) (d : PolicyDecision) (s : State W)
      → ((decided ports m sql t id a d s).1.next_request_id ≡ s.next_request_id)
        × ((decided ports m sql t id a d s).1.log ≡ s.log)
  unfolding decided call_execute
  decided_rest a d s = elim (Bool-cases d.allowed) [
    | inr refused ↦ (ground arith, ground arith)
    | inl allowed ↦ elim (Fault-cases (ports.execute sql s.world).0) [
      | inl e ↦ (ground arith, ground arith)
      | inr (r, e) ↦ (ground arith, ground arith)
    ]
  ]

  process_rest :
      (s : State W)
      → ((process ports m sql t id s).1.next_request_id ≡ s.next_request_id)
        × ((process ports m sql t id s).1.log ≡ s.log)
  unfolding process
  process_rest s = elim (Bool-cases (is_blank sql)) [
    | inl blank ↦
        rw ((analyze_invokes_parser (call_parse ports) sql s).0 blank) (decided_rest _ _ s)
    | inr text ↦ elim (Fault-cases (ports.parse sql s.world).0) [
      | inl e ↦ rw (analyze-threw ports sql s text e) (refl, refl)
      | inr (p, e) ↦
          rw (analyze-ok ports sql s p text e) (decided_rest _ _ (parsed_state ports sql s))
    ]
  ]

module _ {W : Type 0} (ports : Ports W) (m : Mappings) (sql : Bytes) (s : State W) where
  -- The world as the request finds it once the clock has been read.
  abbrev pub clocked : W
  clocked = (ports.now s.world).1

  pub processed-Calls :
      (calls : List Event) × Calls ports sql clocked calls
      × ((processed ports m sql s).1.events ≡ s.events ++ calls)
  unfolding processed
  processed-Calls = process-Calls ports m sql (ports.now s.world).0 s.next_request_id _

  pub processed_rest :
      ((processed ports m sql s).1.next_request_id ≡ (s.next_request_id + 1) % 2 ^ 64)
      × ((processed ports m sql s).1.log ≡ s.log)
  unfolding processed
  processed_rest = process_rest ports m sql (ports.now s.world).0 s.next_request_id _
