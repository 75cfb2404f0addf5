-- ===== src/Main/Exchange.antt =====
-- A table in an HTTP response of the wired service, and where it comes from.
use sql_proxy_service.Prelude.{ℕ, ◌≡◌, refl, sym, ap, ◌∙◌, subst, ◌≢◌, List, arith, length, Bytes}
use sql_proxy_service.Analysis.{SqlAnalysis}
use sql_proxy_service.Analyzer.{analysis_of_parse}
use sql_proxy_service.Config.{DatabaseConfig}
use sql_proxy_service.Policy.Permission.{IsPermitted}
use sql_proxy_service.Execution.{Cell, ExecutionStatus, ExecutionResult}
use sql_proxy_service.Classifier.{Mappings}
use sql_proxy_service.Answer.{MaskedQueryResult, ServiceFailure, ServiceResult}
use sql_proxy_service.Service.{State, handle}
use sql_proxy_service.Service.Calls.{clocked}
use sql_proxy_service.Service.Release.{IsMasked, IsRelease, handle-IsRelease}
use sql_proxy_service.Parser.Result.{parse, parse_result}
use sql_proxy_service.Postgres.{DriverResult, Exception, translate, execute, caught}
use sql_proxy_service.Postgres.Execution.{
  IsCommitted, Execution, committed, thrown, execute-Execution,
}
use sql_proxy_service.Jsonl.Buffer.{IsFilebuf, IsClean}
use sql_proxy_service.Http.{Request, Content, Response, respond, response_for, handle_query_request}
use sql_proxy_service.Http.Exchange.{
  Carries, Exchange, turned_away, answered, handle_query_request-Exchange,
}
use sql_proxy_service.Main.{read_body, World, Platform, wired}
use sql_proxy_service.Main.Logged.{IsStored, success-IsStored}

-- The response that shows a table.
abbrev pub table_response : List Bytes → List (List Cell) → ℕ → Response
table_response names rows n = record { status = 200; content = Content.table names rows n }

failure-not_table :
    (f : ServiceFailure) (names : List Bytes) (rows : List (List Cell)) (n : ℕ)
    → response_for f ≢ table_response names rows n
unfolding response_for
failure-not_table f names rows n h = ground arith

-- Only a read is answered with a table, and the table is that of the answer.
respond-table :
    (r : ServiceResult) (names : List Bytes) (rows : List (List Cell)) (n : ℕ)
    → respond r ≡ table_response names rows n
    → (q : MaskedQueryResult) × (r ≡ ServiceResult.success q)
      × (q.column_names ≡ names)
      × (q.rows ≡ rows)
      × (n ≡ length q.rows)
unfolding respond
respond-table (ServiceResult.success q) names rows n h = (q, refl, cc h, cc h, cc h)
respond-table (ServiceResult.write_success k) names rows n h = cc h
respond-table (ServiceResult.failure f) names rows n h = absurd (failure-not_table f names rows n h)

caught-not_ok : (e : Exception) → (caught e).status ≢ ExecutionStatus.ok
unfolding caught
caught-not_ok e h = ground arith

module _ {P D F T : Type 0} (platform : Platform P D F T) (config : DatabaseConfig) (m : Mappings)
    (content : F → Bytes) where
  -- The origin of a table.
  pub record IsOrigin (sql : Bytes) (s after : State (World P D F T)) (names : List Bytes)
      (rows : List (List Cell)) (n : ℕ) : Type 0 where
    pub analysis : SqlAnalysis
    pub analysed :
        analysis ≡ analysis_of_parse (parse_result (platform.sql_parser sql s.world.parser).0)
    pub permitted : IsPermitted analysis
    pub result : DriverResult
    pub database : D
    pub committed : IsCommitted platform.driver config sql s.world.database result database
    pub is_masked :
        IsMasked m analysis (translate result) (record { column_names = names; rows = rows })
    pub count : n ≡ length rows
    pub line : IsStored platform config m sql s content after

  -- The answer of a driver that did not commit is no success.
  IsCommitted-of :
      (sql : Bytes) (w : D) (e : ExecutionResult)
      → e ≡ (execute platform.driver config sql w).0
      → e.status ≡ ExecutionStatus.ok
      → (r : DriverResult) × (x : D) × IsCommitted platform.driver config sql w r x
        × (e ≡ translate r)
  IsCommitted-of sql w e same fine = by_case (execute-Execution platform.driver config sql w)
    where
      by_case :
          Execution platform.driver config sql w (execute platform.driver config sql w)
          → (r : DriverResult) × (x : D) × IsCommitted platform.driver config sql w r x
            × (e ≡ translate r)
      by_case (committed r x c h) = (r, x, c, same ∙ ap (λ y. y.0) h)
      by_case (thrown x raises n h) =
          absurd (caught-not_ok x (ap (λ (y : ExecutionResult). y.status) (sym (same ∙ h)) ∙ fine))

  release-IsOrigin :
      (sql : Bytes) (s after : State (World P D F T)) (q : MaskedQueryResult)
      → IsRelease (wired platform config) m sql (clocked (wired platform config) m sql s) q
      → IsStored platform config m sql s content after
      → IsOrigin sql s after q.column_names q.rows (length q.rows)
  unfolding parse
  release-IsOrigin sql s after q h stored =
      let reported : parse_result (platform.sql_parser sql s.world.parser).0 ≡ h.statement =
        cc h.parsed in
      let ran : h.rows ≡ (execute platform.driver config sql s.world.database).0 = cc h.executed in
      let (r, x, c, e) = IsCommitted-of sql s.world.database h.rows ran h.finished in
      record {
        analysis = analysis_of_parse h.statement;
        analysed = ap analysis_of_parse (sym reported);
        permitted = h.permitted;
        result = r;
        database = x;
        committed = c;
        is_masked =
            subst (λ (y : ExecutionResult). IsMasked m (analysis_of_parse h.statement) y q) e
              h.is_masked;
        count = refl;
        line = stored;
      }

  -- If an HTTP response of the wired service shows a table, then the request carried a statement
  -- that the parser reported and the policy permits, the database has committed it, the table is
  -- the database's with every row masked cell by cell under attributed columns, its row count is
  -- the number of the rows, and the audit file has grown by the line of the request. The file
  -- buffer keeps its law and has nothing waiting before the request.
  pub exchange-IsOrigin :
      (pending : F → Bytes)
      → IsFilebuf platform.device content pending
      → (request : Request) (s : State (World P D F T)) → IsClean pending s.world.audit
      → (names : List Bytes) (rows : List (List Cell)) (n : ℕ)
      → (handle_query_request (read_body platform) (handle (wired platform config) m) request s).0
        ≡ table_response names rows n
      → (sql : Bytes) × Carries (read_body platform) request sql
        × IsOrigin sql s (handle (wired platform config) m sql s).1 names rows n
  exchange-IsOrigin pending laws request s clean names rows n h = by_case (
      handle_query_request-Exchange (read_body platform) (handle (wired platform config) m) request
        s)
    where
      by_case :
          Exchange
            (read_body platform)
            (handle (wired platform config) m)
            request
            s
            (handle_query_request (read_body platform) (handle (wired platform config) m) request s)
          → (sql : Bytes) × Carries (read_body platform) request sql
            × IsOrigin sql s (handle (wired platform config) m sql s).1 names rows n
      by_case (turned_away _ e _) =
          absurd (omega (arith, sym e ∙ ap (λ (r : Response). r.status) h))
      by_case (answered sql c e) =
          let (q, a, f, g, k) =
            respond-table (handle (wired platform config) m sql s).0 names rows n
              (sym (ap (λ y. y.0) e) ∙ h) in
          let release = handle-IsRelease (wired platform config) m sql s q a in
          let stored =
            success-IsStored platform config m sql s content pending laws clean (rw a refl) in
          let origin = release-IsOrigin sql s _ q release stored in
          (
            sql,
            c,
            subst (λ j. IsOrigin sql s (handle (wired platform config) m sql s).1 names rows j)
                (sym k)
                (subst
                  (λ x.
                    IsOrigin sql s (handle (wired platform config) m sql s).1 names x
                      (length q.rows))
                  g
                  (subst
                    (λ x.
                      IsOrigin sql s (handle (wired platform config) m sql s).1 x q.rows
                        (length q.rows))
                    f origin)),
          )
