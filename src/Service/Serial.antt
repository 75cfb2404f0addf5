-- ===== src/Service/Serial.antt =====
-- Every interleaving of the threads is a run of complete requests, one after another.
use sql_proxy_service.Prelude.{
  ℕ, ◌≡◌, refl, sym, ap, ◌∙◌, subst, ◌≢◌, inl, inr, none, some, List, [], ◌∷◌, ◌++◌, ◌==◌, ==_iff,
  Bool-cases, Bytes,
}
use mathlib.Core.List.{append_assoc}
use sql_proxy_service.Classifier.{Mappings}
use sql_proxy_service.Ports.{AuditAppendResult, Ports}
use sql_proxy_service.Answer.{ServiceResult}
use sql_proxy_service.Service.{Processing, State, processed, append_safely, answer, handle, serve}
use sql_proxy_service.Service.Threads.{
  Phase, waiting, inside, worked, stored, done, System, set, Step, enter, work, store, leave,
  Reaches, here, then_,
}

-- A thread that is not between its taking and its leaving of the mutex.
abbrev pub IsOutside : Phase → Type 0
IsOutside (waiting sql) = Unit
IsOutside (done sql r) = Unit
IsOutside _ = ⊥

pub set_same : (threads : ℕ → Phase) (i : ℕ) (p : Phase) → set threads i p i ≡ p
set_same threads i p = rw ((==_iff i i).1 refl) refl

pub set_other : (threads : ℕ → Phase) (i j : ℕ) (p : Phase) → i ≢ j → set threads i p j ≡ threads j
set_other threads i j p h = elim (Bool-cases (i == j)) [
  | inl e ↦ absurd (h ((==_iff i j).0 e))
  | inr e ↦ rw e refl
]

module _ {W : Type 0} (ports : Ports W) (m : Mappings) where
  serve-snoc :
      (requests : List Bytes) (sql : Bytes) (s : State W)
      → (serve ports m (requests ++ sql ∷ []) s).1
        ≡ (handle ports m sql (serve ports m requests s).1).1
  unfolding serve
  serve-snoc [] sql s = refl
  serve-snoc (q ∷ requests) sql s = serve-snoc requests sql (handle ports m q s).1

  module _ (start : State W) where
    -- The service behind some complete requests.
    abbrev pub behind : List Bytes → State W
    behind requests = (serve ports m requests start).1

    -- How far the holder of the mutex has brought the service from a state between two requests.
    abbrev pub Partial : State W → Phase → State W → Type 0
    Partial s (inside sql) now = now ≡ s
    Partial s (worked sql x) now = (x, now) ≡ processed ports m sql s
    Partial s (stored sql x r) now =
        (x ≡ (processed ports m sql s).0)
        × ((r, now) ≡ append_safely ports x.audit (processed ports m sql s).1)
    Partial s _ now = ⊥

    pub data Held (requests : List Bytes) (c : System W) : Type 0 where
      free :
          c.lock ≡ none
          → c.shared ≡ behind requests
          → ((i : ℕ) → IsOutside (c.threads i))
          → Held requests c
      taken :
          (i : ℕ)
          → c.lock ≡ some i
          → Partial (behind requests) (c.threads i) c.shared
          → ((j : ℕ) → i ≢ j → IsOutside (c.threads j))
          → Held requests c

    -- The answer of a thread is the one of its request in its place among the others.
    abbrev pub IsPlaced : List Bytes → Bytes → ServiceResult → Type 0
    IsPlaced requests sql r =
        (before : List Bytes) × (later : List Bytes) × (requests ≡ before ++ sql ∷ later)
        × (r ≡ (handle ports m sql (behind before)).0)

    -- The complete requests so far, in the order in which they took the mutex.
    pub record IsSerial (c : System W) : Type 0 where
      pub requests : List Bytes
      pub held : Held requests c
      pub answers :
          (i : ℕ) (sql : Bytes) (r : ServiceResult)
          → c.threads i ≡ done sql r
          → IsPlaced requests sql r

    answers_set :
        (requests : List Bytes) (threads : ℕ → Phase) (i : ℕ) (p : Phase)
        → ((j : ℕ) (sql : Bytes) (r : ServiceResult)
            → threads j ≡ done sql r
            → IsPlaced requests sql r)
        → ((sql : Bytes) (r : ServiceResult) → p ≡ done sql r → IsPlaced requests sql r)
        → (j : ℕ) (sql : Bytes) (r : ServiceResult) → set threads i p j ≡ done sql r
        → IsPlaced requests sql r
    answers_set requests threads i p old new j sql r h = elim (Bool-cases (i == j)) [
      | inl e ↦ new sql r (sym (rw e refl) ∙ h)
      | inr e ↦ old j sql r (sym (set_other threads i j p (λ k. cc (e, (==_iff i j).1 k))) ∙ h)
    ]

    others_set :
        (threads : ℕ → Phase) (i : ℕ) (p : Phase)
        → ((j : ℕ) → i ≢ j → IsOutside (threads j))
        → (j : ℕ) → i ≢ j
        → IsOutside (set threads i p j)
    others_set threads i p h j k = subst IsOutside (sym (set_other threads i j p k)) (h j k)

    all_set :
        (threads : ℕ → Phase) (i : ℕ) (p : Phase)
        → IsOutside p
        → ((j : ℕ) → i ≢ j → IsOutside (threads j))
        → (j : ℕ) → IsOutside (set threads i p j)
    all_set threads i p out h j = elim (Bool-cases (i == j)) [
      | inl e ↦ rw e out
      | inr e ↦ others_set threads i p h j (λ k. cc (e, (==_iff i j).1 k))
    ]

    -- A thread behind the lock is the one that holds it.
    holder :
        (requests : List Bytes) (c : System W)
        → Held requests c
        → (i : ℕ) (p : Phase) → c.threads i ≡ p
        → ¬ IsOutside p
        → (c.lock ≡ some i)
          × Partial (behind requests) p c.shared
          × ((j : ℕ) → i ≢ j → IsOutside (c.threads j))
    holder requests c (free _ _ out) i p e n = absurd (n (subst IsOutside e (out i)))
    holder requests c (taken k l part out) i p e n = elim (Bool-cases (k == i)) [
      | inl same ↦
          let q : k ≡ i = (==_iff k i).0 same in
          (
            l ∙ ap some q,
            subst (λ x. Partial (behind requests) x c.shared) (ap c.threads q ∙ e) part,
            λ j u. out j (λ v. u (sym q ∙ v)),
          )
      | inr other ↦ absurd (n (subst IsOutside e (out i (λ v. cc (other, (==_iff k i).1 v)))))
    ]

    not_done :
        (p : Phase)
        → ((sql : Bytes) (r : ServiceResult) → p ≢ done sql r)
        → (requests : List Bytes) → (sql : Bytes) (r : ServiceResult) → p ≡ done sql r
        → IsPlaced requests sql r
    not_done p n requests sql r e = absurd (n sql r e)

    -- The three parts under the lock are the whole of a request.
    finished :
        (sql : Bytes) (s now : State W) (x : Processing) (r : AuditAppendResult)
        → Partial s (stored sql x r) now
        → answer x r now ≡ handle ports m sql s
    unfolding handle
    finished sql s now x r (ex, er) =
        ap (λ (y : AuditAppendResult × State W). answer x y.0 y.1) er
        ∙ ap
            (λ (y : Processing).
              answer y (append_safely ports y.audit (processed ports m sql s).1).0
                (append_safely ports y.audit (processed ports m sql s).1).1)
            ex

    IsPlaced-later :
        (requests : List Bytes) (q sql : Bytes) (r : ServiceResult)
        → IsPlaced requests q r
        → IsPlaced (requests ++ sql ∷ []) q r
    IsPlaced-later requests q sql r (before, later, e, a) =
        (before, later ++ sql ∷ [], rw e (append_assoc before (q ∷ later) (sql ∷ [])), a)

    IsPlaced-now :
        (requests : List Bytes) (sql q : Bytes) (r a : ServiceResult)
        → r ≡ (handle ports m sql (behind requests)).0
        → done sql r ≡ done q a
        → IsPlaced (requests ++ sql ∷ []) q a
    IsPlaced-now requests sql q r a e k =
        let same : sql ≡ q = cc k in
        let told : r ≡ a = cc k in
        (
          requests,
          [],
          ap (λ z. requests ++ z ∷ []) same,
          sym told ∙ e ∙ ap (λ z. (handle ports m z (behind requests)).0) same,
        )

    leave-IsSerial :
        (c : System W) (i : ℕ) (sql : Bytes) (x : Processing) (r : AuditAppendResult)
        → IsSerial c
        → c.threads i ≡ stored sql x r
        → IsSerial (record {
          shared = (answer x r c.shared).1;
          lock = none;
          threads = set c.threads i (done sql (answer x r c.shared).0);
        })
    leave-IsSerial c i sql x r h e =
        let (l, s, out) = holder h.requests c h.held i (stored sql x r) e (λ y. y) in
        let whole = finished sql (behind h.requests) c.shared x r s in
        let p = done sql (answer x r c.shared).0 in
        record {
          requests = h.requests ++ sql ∷ [];
          held =
              free refl (ap (λ y. y.1) whole ∙ sym (serve-snoc h.requests sql start))
                (all_set c.threads i p tt out);
          answers =
              answers_set (h.requests ++ sql ∷ []) c.threads i p
                (λ j q a k. IsPlaced-later h.requests q sql a (h.answers j q a k))
                (λ q a k. IsPlaced-now h.requests sql q _ a (ap (λ y. y.0) whole) k);
        }

    Step-IsSerial : (c d : System W) → IsSerial c → Step ports m c d → IsSerial d
    Step-IsSerial c d h (enter i sql e l) = by_held h.held
      where
        by_held :
            Held h.requests c
            → IsSerial (record c { lock = some i; threads = set c.threads i (inside sql) })
        by_held (free _ s out) = record {
          requests = h.requests;
          held =
              taken i refl
                (subst (λ x. Partial (behind h.requests) x c.shared)
                  (sym (set_same c.threads i (inside sql))) s)
                (others_set c.threads i (inside sql) (λ j u. out j));
          answers =
              answers_set h.requests c.threads i (inside sql) h.answers
                (not_done (inside sql) (λ q r k. cc k) h.requests);
        }
        by_held (taken j k _ _) = cc (l, k)
    Step-IsSerial c d h (work i sql e) =
        let (l, s, out) = holder h.requests c h.held i (inside sql) e (λ x. x) in
        let p = worked sql (processed ports m sql c.shared).0 in
        record {
          requests = h.requests;
          held =
              taken i l
                (subst (λ x. Partial (behind h.requests) x (processed ports m sql c.shared).1)
                  (sym (set_same c.threads i p)) (ap (processed ports m sql) s))
                (others_set c.threads i p out);
          answers =
              answers_set h.requests c.threads i p h.answers
                (not_done p (λ q r k. cc k) h.requests);
        }
    Step-IsSerial c d h (store i sql x e) =
        let (l, s, out) = holder h.requests c h.held i (worked sql x) e (λ y. y) in
        let p = stored sql x (append_safely ports x.audit c.shared).0 in
        record {
          requests = h.requests;
          held =
              taken i l
                (subst (λ y. Partial (behind h.requests) y (append_safely ports x.audit c.shared).1)
                  (sym (set_same c.threads i p))
                  (ap (λ y. y.0) s, ap (λ y. append_safely ports x.audit y.1) s))
                (others_set c.threads i p out);
          answers =
              answers_set h.requests c.threads i p h.answers
                (not_done p (λ q r k. cc k) h.requests);
        }
    Step-IsSerial c d h (leave i sql x r e) = leave-IsSerial c i sql x r h e

    -- From a free lock and threads that all wait, every interleaving of the threads'
    -- steps is a run of complete requests in the order in which they took the mutex: the service is
    -- in the state behind that run, or under the one thread that holds the mutex, as far as it has
    -- got; and each answer is the one that its request has at its place in the run.
    pub Reaches-IsSerial :
        (c d : System W)
        → c.shared ≡ start
        → c.lock ≡ none
        → ((i : ℕ) → (sql : Bytes) × (c.threads i ≡ waiting sql))
        → Reaches ports m c d
        → IsSerial d
    unfolding serve
    Reaches-IsSerial c d s l w here = record {
      requests = [];
      held = free l s (λ i. let (sql, e) = w i in subst IsOutside (sym e) tt);
      answers = λ i sql r e. let (q, k) = w i in cc (k, e);
    }
    Reaches-IsSerial c d s l w (then_ b x r step) =
        Step-IsSerial b x (Reaches-IsSerial c b s l w r) step
