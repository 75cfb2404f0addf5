-- ===== src/Service/Progress.antt =====
-- Every request of a thread can be answered, wherever the other threads stand.
use sql_proxy_service.Prelude.{
  ℕ, ◌≡◌, refl, sym, ap, ◌∙◌, subst, ◌≢◌, inl, inr, none, List, ◌==◌, ==_iff, Bool-cases, Bytes,
}
use sql_proxy_service.Classifier.{Mappings}
use sql_proxy_service.Ports.{AuditAppendResult, Ports}
use sql_proxy_service.Answer.{ServiceResult}
use sql_proxy_service.Service.{Processing, State, answer}
use sql_proxy_service.Service.Threads.{
  Phase, waiting, inside, worked, stored, done, System, set, Step, enter, work, store, leave,
  Reaches, here, then_,
}
use sql_proxy_service.Service.Serial.{
  IsOutside, set_same, set_other, Partial, Held, free, taken, Reaches-IsSerial,
}

module _ {W : Type 0} (ports : Ports W) (m : Mappings) where
  -- The steps of a run, and then those of another.
  Reaches-trans :
      (c d e : System W) → Reaches ports m c d → Reaches ports m d e → Reaches ports m c e
  Reaches-trans c d e r here = r
  Reaches-trans c d e r (then_ b x q step) = then_ b x (Reaches-trans c d b r q) step

  -- A run that ends one thread: it has its answer, the mutex is free, no other thread has moved.
  record Ending (i : ℕ) (c : System W) : Type 0 where
    last : System W
    steps : Reaches ports m c last
    unlocked : last.lock ≡ none
    sql : Bytes
    result : ServiceResult
    ended : last.threads i ≡ done sql result
    rest : (j : ℕ) → i ≢ j → last.threads j ≡ c.threads j

  first :
      (i : ℕ) (c d : System W) (p : Phase)
      → Step ports m c d
      → d.threads ≡ set c.threads i p
      → Ending i d
      → Ending i c
  first i c d p step t e = record {
    last = e.last;
    steps = Reaches-trans c d e.last (then_ c d here step) e.steps;
    unlocked = e.unlocked;
    sql = e.sql;
    result = e.result;
    ended = e.ended;
    rest = λ j n. e.rest j n ∙ ap (λ (f : ℕ → Phase). f j) t ∙ set_other c.threads i j p n;
  }

  stored-Ending :
      (i : ℕ) (c : System W) (sql : Bytes) (x : Processing) (r : AuditAppendResult)
      → c.threads i ≡ stored sql x r
      → Ending i c
  stored-Ending i c sql x r e = record {
    last = _;
    steps = then_ c _ here (leave i sql x r e);
    unlocked = refl;
    sql = sql;
    result = (answer x r c.shared).0;
    ended = set_same c.threads i _;
    rest = λ j k. set_other c.threads i j _ k;
  }

  worked-Ending :
      (i : ℕ) (c : System W) (sql : Bytes) (x : Processing)
      → c.threads i ≡ worked sql x
      → Ending i c
  worked-Ending i c sql x e =
      first i c _ _ (store i sql x e) refl (stored-Ending i _ sql x _ (set_same c.threads i _))

  inside-Ending : (i : ℕ) (c : System W) (sql : Bytes) → c.threads i ≡ inside sql → Ending i c
  inside-Ending i c sql e =
      first i c _ _ (work i sql e) refl (worked-Ending i _ sql _ (set_same c.threads i _))

  waiting-Ending :
      (i : ℕ) (c : System W) (sql : Bytes) → c.lock ≡ none → c.threads i ≡ waiting sql → Ending i c
  waiting-Ending i c sql l e =
      first i c _ _ (enter i sql e l) refl (inside-Ending i _ sql (set_same c.threads i _))

  under-Ending : (i : ℕ) (c : System W) (p : Phase) → c.threads i ≡ p → ¬ IsOutside p → Ending i c
  under-Ending i c (waiting sql) e n = absurd (n tt)
  under-Ending i c (done sql r) e n = absurd (n tt)
  under-Ending i c (stored sql x r) e n = stored-Ending i c sql x r e
  under-Ending i c (worked sql x) e n = worked-Ending i c sql x e
  under-Ending i c (inside sql) e n = inside-Ending i c sql e

  Answered : ℕ → System W → Type 0
  Answered i c =
      (x : System W) × Reaches ports m c x
      × ((sql : Bytes) × (r : ServiceResult) × (x.threads i ≡ done sql r))

  Answered-of : (i : ℕ) (c : System W) → Ending i c → Answered i c
  unfolding Answered
  Answered-of i c e = (e.last, e.steps, (e.sql, e.result, e.ended))

  -- A thread outside the lock, once the lock is free.
  outside-Answered :
      (i : ℕ) (c : System W) (p : Phase)
      → c.threads i ≡ p
      → c.lock ≡ none
      → IsOutside p
      → Answered i c
  unfolding Answered
  outside-Answered i c (waiting sql) e l o = Answered-of i c (waiting-Ending i c sql l e)
  outside-Answered i c (done sql r) e l o = (c, here, (sql, r, e))
  outside-Answered i c (inside sql) e l o = absurd o
  outside-Answered i c (worked sql x) e l o = absurd o
  outside-Answered i c (stored sql x r) e l o = absurd o

  -- Behind another thread that is brought to its end.
  later-Answered :
      (i j : ℕ) (c : System W) → Ending j c → j ≢ i → IsOutside (c.threads i) → Answered i c
  unfolding Answered
  later-Answered i j c e n o =
      let out : IsOutside (e.last.threads i) = subst IsOutside (sym (e.rest i n)) o in
      let (x, r, a) = outside-Answered i e.last (e.last.threads i) refl e.unlocked out in
      (x, Reaches-trans c e.last x e.steps r, a)

  module _ (start : State W) where
    Partial-inside : (s now : State W) (p : Phase) → Partial ports m start s p now → ¬ IsOutside p
    Partial-inside s now (waiting sql) h o = h
    Partial-inside s now (done sql r) h o = h
    Partial-inside s now (inside sql) h o = o
    Partial-inside s now (worked sql x) h o = o
    Partial-inside s now (stored sql x r) h o = o

    Held-Answered :
        (requests : List Bytes) (i : ℕ) (c : System W)
        → Held ports m start requests c
        → Answered i c
    Held-Answered requests i c (free l _ out) = outside-Answered i c (c.threads i) refl l (out i)
    Held-Answered requests i c (taken j l part out) =
        let e =
          under-Ending j c (c.threads j) refl (Partial-inside _ c.shared (c.threads j) part) in
        elim (Bool-cases (j == i)) [
          | inl same ↦ subst (λ k. Answered k c) ((==_iff j i).0 same) (Answered-of j c e)
          | inr other ↦
              let n : j ≢ i = λ k. cc (other, (==_iff j i).1 k) in
              later-Answered i j c e n (out i n)
        ]

    -- From a free lock and threads that all wait, no interleaving locks a request out: wherever the threads have got, there are further steps,
    -- finitely many, after which the thread has its answer.
    pub Reaches-answered :
        (c d : System W)
        → c.shared ≡ start
        → c.lock ≡ none
        → ((i : ℕ) → (sql : Bytes) × (c.threads i ≡ waiting sql))
        → Reaches ports m c d
        → (i : ℕ)
        → (x : System W) × Reaches ports m d x
          × ((sql : Bytes) × (r : ServiceResult) × (x.threads i ≡ done sql r))
    unfolding Answered
    Reaches-answered c d s l w r i =
        let h = Reaches-IsSerial ports m start c d s l w r in Held-Answered h.requests i d h.held
