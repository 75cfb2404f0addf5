-- ===== src/Service/Runs.antt =====
-- Runs of many requests: the mutex lets one in after another.
use sql_proxy_service.Prelude.{
  ℕ, zero, suc, ◌+◌, ◌%◌, ◌^◌, ◌<◌, ◌≡◌, refl, sym, ap, ◌∙◌, some, List, [], ◌∷◌, ◌++◌, arith,
  length, get_elem?, Bytes,
}
use mathlib.Core.List.{append_assoc, append-nil}
use sql_proxy_service.Classifier.{Mappings}
use sql_proxy_service.Ports.{Ports}
use sql_proxy_service.Service.{Event, parsed, executed, appended, State, handle, serve}
use sql_proxy_service.Service.Calls.{Calls, none_made, unparsed, denied, ran}
use sql_proxy_service.Service.Audited.{handle-IsAuditedOnce}

-- The ids of the records appended in a list of calls.
unfoldable pub appended_ids : List Event → List ℕ
appended_ids [] = []
appended_ids (parsed sql ∷ events) = appended_ids events
appended_ids (executed sql ∷ events) = appended_ids events
appended_ids (appended audit ∷ events) = audit.request_id ∷ appended_ids events

-- As many ids from one on, modulo 2 ^ 64.
unfoldable pub request_ids : ℕ → ℕ → List ℕ
request_ids id zero = []
request_ids id (suc n) = id ∷ request_ids ((id + 1) % 2 ^ 64) n

appended_ids-append : (l k : List Event) → appended_ids (l ++ k) ≡ appended_ids l ++ appended_ids k
unfolding appended_ids
appended_ids-append [] k = refl
appended_ids-append (parsed sql ∷ l) k = appended_ids-append l k
appended_ids-append (executed sql ∷ l) k = appended_ids-append l k
appended_ids-append (appended audit ∷ l) k = ap (◌∷◌ audit.request_id) (appended_ids-append l k)

module _ {W : Type 0} (ports : Ports W) where
  -- The pipeline appends nothing itself.
  appended_ids-Calls :
      (sql : Bytes) (w : W) (calls : List Event) → Calls ports sql w calls → appended_ids calls ≡ []
  unfolding appended_ids
  appended_ids-Calls sql w calls (none_made b e) = rw e refl
  appended_ids-Calls sql w calls (unparsed b p e) = rw e refl
  appended_ids-Calls sql w calls (denied b p q n e) = rw e refl
  appended_ids-Calls sql w calls (ran b p q n e) = rw e refl

  module _ (m : Mappings) where
    handle-appended_ids :
        (sql : Bytes) (s : State W)
        → appended_ids (handle ports m sql s).1.events
          ≡ appended_ids s.events ++ s.next_request_id ∷ []
    unfolding appended_ids
    handle-appended_ids sql s =
        let h = handle-IsAuditedOnce ports m sql s in
        cc (
          h.events,
          appended_ids-append (s.events ++ h.calls) (appended h.audit ∷ []),
          appended_ids-append s.events h.calls,
          appended_ids-Calls sql _ h.calls h.made,
          append-nil (appended_ids s.events),
          h.id,
        )

    -- A run of requests appends one record for each, in their order; the ids run on from the
    -- counter, modulo 2 ^ 64, with no gap, however the requests end.
    serve-appended_ids :
        (requests : List Bytes) (s : State W)
        → appended_ids (serve ports m requests s).1.events
          ≡ appended_ids s.events ++ request_ids s.next_request_id (length requests)
    unfolding serve request_ids
    serve-appended_ids [] s = sym (append-nil (appended_ids s.events))
    serve-appended_ids (sql ∷ requests) s =
        let s₁ = (handle ports m sql s).1 in
        let h = handle-IsAuditedOnce ports m sql s in
        cc (
          serve-appended_ids requests s₁,
          handle-appended_ids sql s,
          h.counter,
          append_assoc (appended_ids s.events) (s.next_request_id ∷ [])
              (request_ids s₁.next_request_id (length requests)),
        )

-- The id number `i` of a run is the first one plus `i`, modulo 2 ^ 64.
get_elem?-request_ids :
    (n id i : ℕ) → id < 2 ^ 64 → i < n → get_elem? (request_ids id n) i ≡ some ((id + i) % 2 ^ 64)
unfolding request_ids
get_elem?-request_ids zero id i h k = absurd (omega arith)
get_elem?-request_ids (suc n) id zero h k = ap some (omega arith)
get_elem?-request_ids (suc n) id (suc i) h k =
    get_elem?-request_ids n ((id + 1) % 2 ^ 64) i (omega arith) (omega arith)
    ∙ ap some (omega arith)

module _ {W : Type 0} (ports : Ports W) (m : Mappings) where
  -- From a service without calls so far and with its counter within 64 bits, the record number `i`
  -- of a run carries the counter plus `i`, modulo 2 ^ 64.
  pub serve-request_id :
      (requests : List Bytes) (s : State W) (i : ℕ)
      → s.events ≡ []
      → s.next_request_id < 2 ^ 64
      → i < length requests
      → get_elem? (appended_ids (serve ports m requests s).1.events) i
        ≡ some ((s.next_request_id + i) % 2 ^ 64)
  unfolding appended_ids
  serve-request_id requests s i fresh h k =
      let run = serve-appended_ids ports m requests s in
      let ids = ap (λ l. appended_ids l ++ request_ids s.next_request_id (length requests)) fresh in
      ap (λ l. get_elem? l i) (run ∙ ids)
      ∙ get_elem?-request_ids (length requests) s.next_request_id i h k
