-- ===== src/Main/Logged.antt =====
-- The audit file behind the wired service.
use sql_proxy_service.Prelude.{
  ℕ, ◌≡◌, refl, sym, ap, ◌∙◌, inl, inr, true, [], ◌∷◌, ◌++◌, Bool-cases, Bytes, ok, Fault-cases,
}
use sql_proxy_service.Prelude.Int.{ℤ}
use sql_proxy_service.Config.{DatabaseConfig}
use sql_proxy_service.Analysis.{SqlAnalysis}
use sql_proxy_service.Analyzer.{is_blank}
use sql_proxy_service.Analyzer.Outcomes.{analyze_invokes_parser}
use sql_proxy_service.Policy.{PolicyDecision}
use sql_proxy_service.Classifier.{Mappings}
use sql_proxy_service.Audit.{AuditRecord}
use sql_proxy_service.Ports.{AuditAppendResult, Ports}
use sql_proxy_service.Answer.{succeeded}
use sql_proxy_service.Service.{
  State, Processing, call_execute, call_parse, decided, process, processed, append_safely, answer,
  handle,
}
use sql_proxy_service.Service.Calls.{parsed_state, analyze-threw, analyze-ok}
use sql_proxy_service.Service.Audited.{final_audit, final_world, persistence, handle-success_iff}
use sql_proxy_service.Jsonl.{Stream, append}
use sql_proxy_service.Jsonl.Schema.{entries}
use sql_proxy_service.Jsonl.Appended.{
  Appended, unmade, unopened, stopped, torn, persisted, append-Appended,
}
use sql_proxy_service.Jsonl.Buffer.{IsFilebuf, IsClean}
use sql_proxy_service.Main.{World, Platform, wired}

-- What the parser, the executor and the clock leave alone, the pipeline leaves alone.
module _ {W X : Type 0} (ports : Ports W) (kept : W → X)
    (parse_keeps : (sql : Bytes) (w : W) → kept (ports.parse sql w).1 ≡ kept w)
    (execute_keeps : (sql : Bytes) (w : W) → kept (ports.execute sql w).1 ≡ kept w)
    (now_keeps : (w : W) → kept (ports.now w).1 ≡ kept w) (m : Mappings) (sql : Bytes) where
  module _ (t : ℤ) (id : ℕ) where
    decided-keeps :
        (a : SqlAnalysis) (d : PolicyDecision) (s : State W)
        → kept (decided ports m sql t id a d s).1.world ≡ kept s.world
    unfolding decided call_execute
    decided-keeps a d s = elim (Bool-cases d.allowed) [
      | inr refused ↦ rw refused refl
      | inl allowed ↦ elim (Fault-cases (ports.execute sql s.world).0) [
        | inl e ↦ rw (allowed, e) (execute_keeps sql s.world)
        | inr (r, e) ↦ rw (allowed, e) (execute_keeps sql s.world)
      ]
    ]

    process-keeps : (s : State W) → kept (process ports m sql t id s).1.world ≡ kept s.world
    unfolding process
    process-keeps s = elim (Bool-cases (is_blank sql)) [
      | inl blank ↦
          rw ((analyze_invokes_parser (call_parse ports) sql s).0 blank) (decided-keeps _ _ s)
      | inr text ↦ elim (Fault-cases (ports.parse sql s.world).0) [
        | inl e ↦ rw (analyze-threw ports sql s text e) (parse_keeps sql s.world)
        | inr (p, e) ↦
            rw (analyze-ok ports sql s p text e)
              (decided-keeps _ _ (parsed_state ports sql s) ∙ parse_keeps sql s.world)
      ]
    ]

  processed-keeps : (s : State W) → kept (processed ports m sql s).1.world ≡ kept s.world
  unfolding processed
  processed-keeps s = process-keeps (ports.now s.world).0 s.next_request_id _ ∙ now_keeps s.world

answer-world :
    {W : Type 0} (x : Processing) (r : AuditAppendResult) (s : State W)
    → (answer x r s).1.world ≡ s.world
unfolding answer
answer-world x AuditAppendResult.ok s = refl
answer-world x AuditAppendResult.open_failure s = refl
answer-world x AuditAppendResult.write_failure s = refl

module _ {P D F T : Type 0} (platform : Platform P D F T) (config : DatabaseConfig)
    (m : Mappings) where
  abbrev pub ports : Ports (World P D F T)
  ports = wired platform config

  abbrev pub stored : AuditRecord → Stream F → AuditAppendResult × Stream F
  stored = append platform.device platform.gmtime_r platform.dump

  module _ (sql : Bytes) (s : State (World P D F T)) where
    unwritten : (final_world ports m sql s).audit ≡ s.world.audit
    unwritten =
        processed-keeps ports (λ (w : World P D F T). w.audit) (λ q w. refl) (λ q w. refl)
          (λ w. refl) m sql s

    -- One request makes one append to the stream, of its record, and the service takes the
    -- repository's answer.
    pub handle-stored :
        ((handle ports m sql s).1.world.audit
          ≡ (stored (final_audit ports m sql s) s.world.audit).1)
        × (persistence ports m sql s ≡ (stored (final_audit ports m sql s) s.world.audit).0)
    unfolding handle append_safely
    handle-stored =
        let audit = final_audit ports m sql s in
        (
          ap (λ (w : World P D F T). w.audit)
                (answer-world (processed ports m sql s).0 (persistence ports m sql s) _)
              ∙ ap (λ a. (stored audit a).1) unwritten,
          ap (λ a. (stored audit a).0) unwritten,
        )

    -- The stream and the file: one request whose answer is a success.
    pub record IsStored (content : F → Bytes) (after : State (World P D F T)) : Type 0 where
      pub line : Bytes
      pub made : platform.dump (entries platform.gmtime_r (final_audit ports m sql s)) ≡ ok line
      pub file : content after.world.audit.file ≡ content s.world.audit.file ++ (line ++ b'\n' ∷ [])

    -- Over a file buffer that keeps its law and has nothing waiting, a client sees a success only if
    -- the audit file has grown by exactly the line of the request's record and a newline.
    pub success-IsStored :
        (content pending : F → Bytes)
        → IsFilebuf platform.device content pending
        → IsClean pending s.world.audit
        → succeeded (handle ports m sql s).0 ≡ true
        → IsStored content (handle ports m sql s).1
    success-IsStored content pending laws clean h = by_case (
        append-Appended platform.device content pending laws platform.gmtime_r platform.dump
          (final_audit ports m sql s) s.world.audit clean)
      where
        persisted_ok : (stored (final_audit ports m sql s) s.world.audit).0 ≡ AuditAppendResult.ok
        persisted_ok = sym handle-stored.1 ∙ ((handle-success_iff ports m sql s).0 h).0

        by_case :
            Appended platform.device content pending laws platform.gmtime_r platform.dump
              (final_audit ports m sql s)
              s.world.audit
              (stored (final_audit ports m sql s) s.world.audit)
            → IsStored content (handle ports m sql s).1
        by_case (unmade _ e) = cc (persisted_ok, e)
        by_case (unopened _ _ _ e) = cc (persisted_ok, e)
        by_case (stopped _ _ _ _ e) = cc (persisted_ok, e)
        by_case (torn _ _ _ o _ _ _) = cc (persisted_ok, o)
        by_case (persisted line e _ _ _ c _) = record {
          line = line;
          made = e;
          file = ap (λ (a : Stream F). content a.file) handle-stored.0 ∙ c;
        }
