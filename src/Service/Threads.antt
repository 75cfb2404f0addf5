-- ===== src/Service/Threads.antt =====
-- The threads of `handle`: each takes the mutex, goes through the two halves, and leaves.
use sql_proxy_service.Prelude.{ℕ, ◌≡◌, Option, none, some, ◌==◌, if◌then◌else◌, Bytes}
use sql_proxy_service.Classifier.{Mappings}
use sql_proxy_service.Ports.{AuditAppendResult, Ports}
use sql_proxy_service.Answer.{ServiceResult}
use sql_proxy_service.Service.{Processing, State, processed, append_safely, answer}

-- Where a thread stands with its request.
pub data Phase : Type 0 where
  waiting : Bytes → Phase
  inside : Bytes → Phase
  worked : Bytes → Processing → Phase
  stored : Bytes → Processing → AuditAppendResult → Phase
  done : Bytes → ServiceResult → Phase

-- The shared service, the holder of the mutex, and the threads by their numbers.
pub record System (W : Type 0) : Type 0 where
  pub shared : State W
  pub lock : Option ℕ
  pub threads : ℕ → Phase

abbrev pub set : (ℕ → Phase) → ℕ → Phase → ℕ → Phase
set threads i p j = if i == j then p else threads j

module _ {W : Type 0} (ports : Ports W) (m : Mappings) where
  -- One step of one thread. Only the first waits for the mutex; what the others do to the shared
  -- service, no rule keeps apart.
  pub data Step (c : System W) : System W → Type 0 where
    enter :
        (i : ℕ) (sql : Bytes)
        → c.threads i ≡ waiting sql
        → c.lock ≡ none
        → Step c (record c { lock = some i; threads = set c.threads i (inside sql) })
    work :
        (i : ℕ) (sql : Bytes)
        → c.threads i ≡ inside sql
        → Step c (record c {
          shared = (processed ports m sql c.shared).1;
          threads = set c.threads i (worked sql (processed ports m sql c.shared).0);
        })
    store :
        (i : ℕ) (sql : Bytes) (x : Processing)
        → c.threads i ≡ worked sql x
        → Step c (record c {
          shared = (append_safely ports x.audit c.shared).1;
          threads = set c.threads i (stored sql x (append_safely ports x.audit c.shared).0);
        })
    leave :
        (i : ℕ) (sql : Bytes) (x : Processing) (r : AuditAppendResult)
        → c.threads i ≡ stored sql x r
        → Step c (record c {
          shared = (answer x r c.shared).1;
          lock = none;
          threads = set c.threads i (done sql (answer x r c.shared).0);
        })

  -- What any interleaving of steps can reach.
  pub data Reaches (start : System W) : System W → Type 0 where
    here : Reaches start start
    then_ : (c d : System W) → Reaches start c → Step c d → Reaches start d
