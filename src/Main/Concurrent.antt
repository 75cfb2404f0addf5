-- ===== src/Main/Concurrent.antt =====
-- The audit file when many threads ask the wired service at once.
use sql_proxy_service.Prelude.{ℕ, ◌≡◌, refl, sym, subst, none, List, Bytes}
use sql_proxy_service.Config.{DatabaseConfig}
use sql_proxy_service.Classifier.{Mappings}
use sql_proxy_service.Answer.{ServiceResult}
use sql_proxy_service.Service.Threads.{waiting, done, System, Reaches}
use sql_proxy_service.Service.Serial.{Held, free, taken, IsPlaced, Reaches-IsSerial}
use sql_proxy_service.Jsonl.Buffer.{IsFilebuf, IsClean}
use sql_proxy_service.Main.{World, Platform, wired}
use sql_proxy_service.Main.Runs.{IsLogged, serve-IsLogged}

module _ {P D F T : Type 0} (platform : Platform P D F T) (config : DatabaseConfig) (m : Mappings)
    (content pending : F → Bytes) where
  -- What the threads leave: the requests in the order in which they took the mutex, the audit file
  -- that goes with them, and the answers at their places.
  pub record IsOrdered (c d : System (World P D F T)) : Type 0 where
    pub requests : List Bytes
    pub logged : IsLogged platform config m content pending requests c.shared d.shared
    pub answers :
        (i : ℕ) (sql : Bytes) (r : ServiceResult)
        → d.threads i ≡ done sql r
        → IsPlaced (wired platform config) m c.shared requests sql r

  -- However the threads of the service interleave, whenever the mutex is free there is one order of
  -- the requests so far for which each answer is the one that its request has at its place, one
  -- record was appended for each request in that order, and the audit file has behind its earlier
  -- contents the whole lines of the acknowledged records in that order and at most one torn line.
  -- The file buffer keeps its law, and at the start the mutex is free, all threads wait and nothing
  -- waits in the buffer.
  pub Reaches-IsOrdered :
      IsFilebuf platform.device content pending
      → (c d : System (World P D F T)) → c.lock ≡ none
      → ((i : ℕ) → (sql : Bytes) × (c.threads i ≡ waiting sql))
      → IsClean pending c.shared.world.audit
      → Reaches (wired platform config) m c d
      → d.lock ≡ none
      → IsOrdered c d
  Reaches-IsOrdered laws c d l w clean r unlocked =
      let h = Reaches-IsSerial (wired platform config) m c.shared c d refl l w r in
      record { requests = h.requests; logged = by_held h.requests h.held; answers = h.answers }
    where
      by_held :
          (requests : List Bytes)
          → Held (wired platform config) m c.shared requests d
          → IsLogged platform config m content pending requests c.shared d.shared
      by_held requests (free _ e _) =
          subst (IsLogged platform config m content pending requests c.shared) (sym e)
            (serve-IsLogged platform config m content pending laws requests c.shared clean)
      by_held requests (taken i k _ _) = cc (unlocked, k)
