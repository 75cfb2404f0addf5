-- ===== src/Main/Startup.antt =====
-- How the process starts and ends, and everything that it logs.
use sql_proxy_service.Prelude.{
  ◌&&◌, bytes_eq, ℕ, ◌≡◌, refl, sym, subst, ◌≢◌, ◌↔◌, ◌⊎◌, inl, inr, true, false, Option, none,
  some, List, [], ◌∷◌, ◌++◌, arith, Bool-cases, All, All-append, Bytes, codes, Fault, ok, threw,
}
use sql_proxy_service.Prelude.Decimal.{decimal}
use sql_proxy_service.Config.{PortSource, DatabaseConfig, resolve_port, resolve_database_config}
use sql_proxy_service.Config.Resolved.{
  IsFixedText, Database, defaulted, limited, resolve_database_config-Database,
}
use sql_proxy_service.Classifier.{Mappings, default_classification_config}
use sql_proxy_service.Ports.{AuditAppendResult, Ports}
use sql_proxy_service.Answer.{ServiceResult}
use sql_proxy_service.Service.{State, handle, log_error, audit_failure_line}
use sql_proxy_service.Service.Audited.{
  Outcome, persisted, withheld, kept, persistence, handle-Outcome,
}
use sql_proxy_service.Http.{Incoming, Response, is_get, is_post, route}
use sql_proxy_service.Http.Exchange.{Exchange, turned_away, answered, handle_query_request-Exchange}
use sql_proxy_service.Main.{
  read_body, World, Platform, wired, respond_all, Environment, init, log_line, source_name, Exit,
  Machine, ended, run, main,
}

-- The lines that the process can log.
pub data IsLine (env : Environment) (line : Bytes) : Type 0 where
  bad_port : line ≡ codes "Startup failed: " ++ (resolve_port env.port 8080).error → IsLine env line
  bad_database :
      (error : Bytes)
      → IsFixedText error
      → line ≡ codes "Startup failed: " ++ error
      → IsLine env line
  starting :
      (source : PortSource)
      → line ≡ codes "Starting sql-proxy-service (port source: " ++ source_name source ++ codes ")"
      → IsLine env line
  listening :
      line ≡ codes "HTTP server listening on port " ++ decimal (resolve_port env.port 8080).port
      → IsLine env line
  unbound :
      line
        ≡ codes "HTTP server failed to bind to port " ++ decimal (resolve_port env.port 8080).port
      → IsLine env line
  unaudited : (r : AuditAppendResult) → line ≡ audit_failure_line r → IsLine env line

abbrev pub IsLog : Environment → Option (List Bytes) → Type 0
IsLog env none = ⊥
IsLog env (some lines) = All (IsLine env) lines

module _ (env : Environment) where
  logged :
      {S : Type 0} (line : Bytes) (log : Option (List Bytes)) (s : State S)
      → s.log ≡ log
      → IsLog env log
      → IsLine env line
      → IsLog env (log_error line s).log
  logged line none s e h p = absurd h
  logged line (some lines) s e h p = rw e (All-append (IsLine env) lines (line ∷ []) h (p, tt))

  module _ {W : Type 0} (ports : Ports W) (m : Mappings) where
    handle-IsLog :
        (sql : Bytes) (s : State W) → IsLog env s.log → IsLog env (handle ports m sql s).1.log
    handle-IsLog sql s h = by_case (handle-Outcome ports m sql s)
      where
        lost : IsLog env (log_error (audit_failure_line (persistence ports m sql s)) s).log
        lost = logged _ s.log s refl h (unaudited (persistence ports m sql s) refl)

        by_case : {out : ServiceResult × State W} → Outcome ports m sql s out → IsLog env out.1.log
        by_case (persisted _ _ e) = rw e h
        by_case (withheld _ _ _ e) = subst (IsLog env) (sym e) lost
        by_case (kept _ _ _ e) = subst (IsLog env) (sym e) lost

  module _ {P D F T : Type 0} (platform : Platform P D F T) where
    route-IsLog :
        (ports : Ports (World P D F T)) (m : Mappings) (q : Incoming) (s : State (World P D F T))
        → IsLog env s.log
        → IsLog env (route (read_body platform) platform.unrouted (handle ports m) q s).1.log
    unfolding route
    route-IsLog ports m q s h =
        elim (Bool-cases (is_get q.method && bytes_eq q.path (codes "/health"))) [
          | inl health_asked ↦ rw health_asked h
          | inr other_path ↦
              elim (Bool-cases (is_post q.method && bytes_eq q.path (codes "/query"))) [
                | inr neither ↦ rw (other_path, neither) h
                | inl query_asked ↦
                    rw (other_path, query_asked)
                      (one (
                        handle_query_request-Exchange (read_body platform) (handle ports m)
                          q.request s))
              ]
        ]
      where
        one :
            {out : Response × State (World P D F T)}
            → Exchange (read_body platform) (handle ports m) q.request s out
            → IsLog env out.1.log
        one (turned_away _ _ e) = rw e h
        one (answered sql _ e) = rw e (handle-IsLog ports m sql s h)

    respond_all-IsLog :
        (ports : Ports (World P D F T)) (m : Mappings) (requests : List Incoming)
        (s : State (World P D F T))
        → IsLog env s.log
        → IsLog env (respond_all platform ports m requests s).1.log
    unfolding respond_all
    respond_all-IsLog ports m [] s h = h
    respond_all-IsLog ports m (request ∷ requests) s h =
        respond_all-IsLog ports m requests _ (route-IsLog ports m request s h)

  -- How a process ends: with a served code of 0, or with a failed start.
  module _ (bound : Option (List Incoming)) where
    pub record Ends (exit : Exit) : Type 0 where
      pub log : IsLog env exit.log
      pub served : (exit.code ≡ 0) ↔ ((requests : List Incoming) × (bound ≡ some requests))
      pub failed : exit.code ≢ 0 → (exit.code ≡ 1) × (exit.responses ≡ [])

    abbrev EndsOk : Fault Exit → Type 0
    EndsOk threw = ⊥
    EndsOk (ok exit) = Ends exit

  module _ {P D F T : Type 0} (platform : Platform P D F T) (machine : Machine P D F T) where
    abbrev pub port : ℕ
    port = (resolve_port env.port 8080).port

    ended-EndsOk :
        (config : DatabaseConfig) (s : State (World P D F T)) (lines : List Bytes)
        → s.log ≡ some lines
        → All (IsLine env) lines
        → (bound : Option (List Incoming))
        → EndsOk bound (ended platform machine port config s bound)
    unfolding ended log_line
    ended-EndsOk config s lines e h none = rw e (record {
      log = All-append (IsLine env) lines _ h (unbound refl, tt);
      served = ((λ z. absurd (omega (arith, z))), (λ r. cc r.1));
      failed = λ z. (refl, refl);
    })
    ended-EndsOk config s lines e h (some requests) = record {
      log =
          respond_all-IsLog platform (wired platform config) default_classification_config requests
            s (subst (IsLog env) (sym e) h);
      served = ((λ z. (requests, refl)), (λ r. refl));
      failed = λ z. absurd (z refl);
    }

    run-EndsOk :
        (listen : ℕ → Option (List Incoming)) (config : DatabaseConfig) (s : State (World P D F T))
        (lines : List Bytes)
        → s.log ≡ some lines
        → All (IsLine env) lines
        → EndsOk (listen port) (run platform machine listen port config s)
    unfolding run log_line
    run-EndsOk listen config s lines e h = rw e (
        ended-EndsOk config _ _ refl (All-append (IsLine env) lines _ h (listening refl, tt))
          (listen port))

    -- How the settings and the port decide the end of the process.
    pub data Fate (listen : ℕ → Option (List Incoming)) (exit : Exit) : Type 0 where
      refused :
          ((resolve_port env.port 8080).valid ≡ false)
            ⊎ ((resolve_database_config env.database_url env.statement_timeout).valid ≡ false)
          → exit.code ≡ 1
          → exit.responses ≡ []
          → IsLog env exit.log
          → Fate listen exit
      ran :
          (resolve_port env.port 8080).valid ≡ true
          → (resolve_database_config env.database_url env.statement_timeout).valid ≡ true
          → Ends (listen port) exit
          → Fate listen exit

    refused_line :
        (resolve_database_config env.database_url env.statement_timeout).valid ≡ false
        → IsLine env (
            codes "Startup failed: "
            ++ (resolve_database_config env.database_url env.statement_timeout).error)
    refused_line h =
        by_case (resolve_database_config-Database env.database_url env.statement_timeout)
      where
        by_case :
            Database env.database_url env.statement_timeout
              (resolve_database_config env.database_url env.statement_timeout)
            → IsLine env (
                codes "Startup failed: "
                ++ (resolve_database_config env.database_url env.statement_timeout).error)
        by_case (defaulted u _ _ _ e) = cc (h, e)
        by_case (limited u raw n _ _ _ set e) = cc (h, e)
        by_case (Database.refused _ _ text) = bad_database _ text refl

    module _ (listen : ℕ → Option (List Incoming)) where
      FateOk : Fault Exit → Type 0
      FateOk threw = ⊥
      FateOk (ok exit) = Fate listen exit

      ran_of :
          (resolve_port env.port 8080).valid ≡ true
          → (resolve_database_config env.database_url env.statement_timeout).valid ≡ true
          → (r : Fault Exit) → EndsOk (listen port) r
          → FateOk r
      unfolding FateOk
      ran_of good fine threw h = h
      ran_of good fine (ok exit) h = ran good fine h

      exit_of : (r : Fault Exit) → FateOk r → (exit : Exit) × (r ≡ ok exit) × Fate listen exit
      unfolding FateOk
      exit_of threw h = absurd h
      exit_of (ok exit) h = (exit, refl, h)

      main-FateOk : FateOk (main platform machine listen env)
      unfolding main init log_line FateOk
      main-FateOk = elim (Bool-cases (resolve_port env.port 8080).valid) [
        | inr bad ↦ rw bad (refused (inl bad) refl refl (bad_port refl, tt))
        | inl good ↦
            elim (Bool-cases
              (resolve_database_config env.database_url env.statement_timeout).valid) [
                | inr bad ↦ rw (good, bad) (refused (inr bad) refl refl (refused_line bad, tt))
                | inl fine ↦
                    rw (good, fine)
                      (ran_of good fine _ (run-EndsOk listen _ _ _ refl (starting _ refl, tt)))
              ]
      ]

      -- The process never uses its logger before it exists. A setting that is refused ends it with
      -- code 1 and no response; otherwise it ends with code 0 exactly if the port could be bound, and
      -- with code 1 and no response if not. Every line of its log is one of the texts of the
      -- source: of the settings' values only that of PORT can be in it, and no SQL text, no data and
      -- no error text of another library.
      pub main-Fate :
          (exit : Exit) × (main platform machine listen env ≡ ok exit) × Fate listen exit
      main-Fate = exit_of (main platform machine listen env) main-FateOk
