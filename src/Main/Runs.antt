-- ===== src/Main/Runs.antt =====
-- The audit file after many requests to the wired service.
use sql_proxy_service.Prelude.{
  suc, ◌≡◌, refl, sym, ap, ◌∙◌, subst, List, [], ◌∷◌, ◌++◌, length, Bytes,
}
use mathlib.Core.List.{append_assoc, append-nil}
use sql_proxy_service.Config.{DatabaseConfig}
use sql_proxy_service.Classifier.{Mappings}
use sql_proxy_service.Audit.{AuditRecord}
use sql_proxy_service.Ports.{AuditAppendResult, Ports}
use sql_proxy_service.Service.{
  Event, parsed, executed, appended, State, Processing, processed, append_safely, answer, handle,
  serve,
}
use sql_proxy_service.Service.Calls.{
  Calls, none_made, unparsed, denied, ran, clocked, processed-Calls,
}
use sql_proxy_service.Service.Audited.{final_audit}
use sql_proxy_service.Jsonl.{Stream, append_all}
use sql_proxy_service.Jsonl.Schema.{entries}
use sql_proxy_service.Jsonl.Buffer.{IsFilebuf, IsClean}
use sql_proxy_service.Jsonl.Runs.{IsLog, acknowledged, append_all-IsLog}
use sql_proxy_service.Main.{World, Platform, wired}
use sql_proxy_service.Main.Logged.{handle-stored}

-- The records appended in a list of calls.
unfoldable pub appended_records : List Event → List AuditRecord
appended_records [] = []
appended_records (parsed sql ∷ events) = appended_records events
appended_records (executed sql ∷ events) = appended_records events
appended_records (appended audit ∷ events) = audit ∷ appended_records events

appended_records-append :
    (l k : List Event) → appended_records (l ++ k) ≡ appended_records l ++ appended_records k
unfolding appended_records
appended_records-append [] k = refl
appended_records-append (parsed sql ∷ l) k = appended_records-append l k
appended_records-append (executed sql ∷ l) k = appended_records-append l k
appended_records-append (appended audit ∷ l) k = ap (◌∷◌ audit) (appended_records-append l k)

module _ {W : Type 0} (ports : Ports W) where
  appended_records-Calls :
      (sql : Bytes) (w : W) (calls : List Event)
      → Calls ports sql w calls
      → appended_records calls ≡ []
  unfolding appended_records
  appended_records-Calls sql w calls (none_made b e) = rw e refl
  appended_records-Calls sql w calls (unparsed b p e) = rw e refl
  appended_records-Calls sql w calls (denied b p q n e) = rw e refl
  appended_records-Calls sql w calls (ran b p q n e) = rw e refl

  answer-events :
      (x : Processing) (r : AuditAppendResult) (s : State W) → (answer x r s).1.events ≡ s.events
  unfolding answer
  answer-events x AuditAppendResult.ok s = refl
  answer-events x AuditAppendResult.open_failure s = refl
  answer-events x AuditAppendResult.write_failure s = refl

  module _ (m : Mappings) (sql : Bytes) (s : State W) where
    handle-appended_records :
        appended_records (handle ports m sql s).1.events
        ≡ appended_records s.events ++ final_audit ports m sql s ∷ []
    unfolding handle append_safely appended_records
    handle-appended_records =
        let (calls, made, e) = processed-Calls ports m sql s in
        let audit = final_audit ports m sql s in
        ap appended_records (answer-events (processed ports m sql s).0 _ _)
        ∙ cc (
          e,
          appended_records-append (processed ports m sql s).1.events (appended audit ∷ []),
          appended_records-append s.events calls,
          appended_records-Calls sql (clocked ports m sql s) calls made,
          append-nil (appended_records s.events),
        )

module _ {P D F T : Type 0} (platform : Platform P D F T) (config : DatabaseConfig)
    (m : Mappings) where
  abbrev run : List AuditRecord → Stream F → List AuditAppendResult × Stream F
  run = append_all platform.device platform.gmtime_r platform.dump

  -- The records that a run of requests appends, and the stream behind it.
  record Stored (requests : List Bytes) (s after : State (World P D F T)) : Type 0 where
    records : List AuditRecord
    count : length records ≡ length requests
    noted : appended_records after.events ≡ appended_records s.events ++ records
    stream : after.world.audit ≡ (run records s.world.audit).1

  serve-Stored :
      (requests : List Bytes) (s : State (World P D F T))
      → Stored requests s (serve (wired platform config) m requests s).1
  unfolding serve append_all
  serve-Stored [] s = record {
    records = [];
    count = refl;
    noted = sym (append-nil _);
    stream = refl;
  }
  serve-Stored (sql ∷ requests) s =
      let ports = wired platform config in
      let s₁ = (handle ports m sql s).1 in
      let rest = serve-Stored requests s₁ in
      let audit = final_audit ports m sql s in
      record {
        records = audit ∷ rest.records;
        count = ap suc rest.count;
        noted = cc (
          rest.noted,
          handle-appended_records ports m sql s,
          append_assoc (appended_records s.events) (audit ∷ []) rest.records,
        );
        stream =
            rest.stream
            ∙ ap (λ a. (run rest.records a).1) (handle-stored platform config m sql s).0;
      }

  module _ (content pending : F → Bytes) where
    -- What a run of requests leaves in the audit file.
    pub record IsLogged (requests : List Bytes) (s after : State (World P D F T)) : Type 0 where
      pub records : List AuditRecord
      pub count : length records ≡ length requests
      pub noted : appended_records after.events ≡ appended_records s.events ++ records
      pub log :
          IsLog content
            (content s.world.audit.file)
            (acknowledged
              (λ r. platform.dump (entries platform.gmtime_r r))
              records
              (run records s.world.audit).0)
            after.world.audit

    -- A run of requests through the wired service appends one record for each, in their order. Over
    -- a file buffer that keeps its law and has nothing waiting, the audit file keeps its earlier
    -- contents and has behind them one whole line for each record that was acknowledged, in the same
    -- order, and at most one torn line at the end, which stands there only if the stream has failed.
    pub serve-IsLogged :
        IsFilebuf platform.device content pending
        → (requests : List Bytes) (s : State (World P D F T)) → IsClean pending s.world.audit
        → IsLogged requests s (serve (wired platform config) m requests s).1
    serve-IsLogged laws requests s clean =
        let stored = serve-Stored requests s in
        record {
          records = stored.records;
          count = stored.count;
          noted = stored.noted;
          log = subst (IsLog content (content s.world.audit.file) _) (sym stored.stream) (
              append_all-IsLog platform.device content pending laws platform.gmtime_r platform.dump
                stored.records s.world.audit clean);
        }
