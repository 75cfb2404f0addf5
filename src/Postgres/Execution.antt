-- ===== src/Postgres/Execution.antt =====
-- One execution: how it ends, and what its answer can hold.
use sql_proxy_service.Prelude.{
  ◌≡◌, refl, subst, ◌⊎◌, inl, inr, false, arith, [], ◌++◌, Bytes, codes,
}
use sql_proxy_service.Prelude.Int.{pos}
use sql_proxy_service.Config.{DatabaseConfig}
use sql_proxy_service.Execution.{ExecutionStatus, ExecutionResult}
use sql_proxy_service.Postgres.{
  Exception, broken_connection, sql_error, failure, other, Attempt, returned, raised, DriverResult,
  Driver, translate, caught, limit_statement, transact, execute,
}
use sql_proxy_service.Postgres.Table.{IsTable, translate-IsTable}

-- The status and the text that an exception is answered by. The driver's own text is in none of them.
pub data IsTold : Exception → ExecutionStatus → Bytes → Type 0 where
  lost :
      {what : Bytes}
      → IsTold
          (broken_connection what)
          ExecutionStatus.connection_failure
          (codes "connection failed")
  rejected :
      {what sqlstate : Bytes}
      → IsTold
          (sql_error what sqlstate)
          ExecutionStatus.execution_failure
          (codes "statement failed (SQLSTATE " ++ sqlstate ++ codes ")")
  failed :
      {what : Bytes}
      → IsTold (failure what) ExecutionStatus.execution_failure (codes "statement failed")
  unknown : IsTold other ExecutionStatus.execution_failure (codes "executor failure")

-- The answer to an exception: its status and text, and nothing besides.
pub record IsFailure (e : Exception) (out : ExecutionResult) : Type 0 where
  pub text : IsTold e out.status out.error
  pub empty : (out.columns ≡ []) × (out.rows ≡ []) × (out.row_count ≡ pos 0)
  pub unaffected : (out.has_result_set ≡ false) × (out.affected_rows ≡ pos 0)

caught-IsTold : (e : Exception) → IsTold e (caught e).status (caught e).error
unfolding caught
caught-IsTold (broken_connection what) = lost
caught-IsTold (sql_error what sqlstate) = rejected
caught-IsTold (failure what) = IsTold.failed
caught-IsTold other = IsTold.unknown

caught-IsFailure : (e : Exception) → IsFailure e (caught e)
unfolding caught
caught-IsFailure e = record {
  text = caught-IsTold e;
  empty = (ground arith, ground arith, ground arith);
  unaffected = (ground arith, ground arith);
}

Attempt-cases :
    {A W : Type 0} (x : Attempt A × W)
    → ((a : A) × (w : W) × (x ≡ (returned a, w)))
      ⊎ ((e : Exception) × (w : W) × (x ≡ (raised e, w)))
Attempt-cases (returned a, w) = inl (a, w, refl)
Attempt-cases (raised e, w) = inr (e, w, refl)

module _ {W : Type 0} (driver : Driver W) (config : DatabaseConfig) (sql : Bytes) where
  -- The three steps of a transaction that is committed, one after another.
  pub record IsTransaction (w : W) (r : DriverResult) (after : W) : Type 0 where
    pub set : DriverResult
    pub limited : W
    pub executed : W
    pub limit : driver.exec (limit_statement config) w ≡ (returned set, limited)
    pub exec : driver.exec sql limited ≡ (returned r, executed)
    pub commit : driver.commit executed ≡ (returned tt, after)

  -- What a transaction raises at one of its three steps, all of which before it returned.
  pub data TransactionRaises (w : W) (e : Exception) : Type 0 where
    at_limit :
        (after : W)
        → driver.exec (limit_statement config) w ≡ (raised e, after)
        → TransactionRaises w e
    at_statement :
        (set : DriverResult) (limited after : W)
        → driver.exec (limit_statement config) w ≡ (returned set, limited)
        → driver.exec sql limited ≡ (raised e, after)
        → TransactionRaises w e
    at_commit :
        (set r : DriverResult) (limited executed after : W)
        → driver.exec (limit_statement config) w ≡ (returned set, limited)
        → driver.exec sql limited ≡ (returned r, executed)
        → driver.commit executed ≡ (raised e, after)
        → TransactionRaises w e

  -- What the driver raises, at the connection, at the begin or in the transaction.
  pub data Raises (w : W) (e : Exception) : Type 0 where
    at_connect :
        (after : W) → driver.connect config.connection_string w ≡ (raised e, after) → Raises w e
    at_begin :
        (connected after : W)
        → driver.connect config.connection_string w ≡ (returned tt, connected)
        → driver.begin connected ≡ (raised e, after)
        → Raises w e
    in_transaction :
        (connected begun : W)
        → driver.connect config.connection_string w ≡ (returned tt, connected)
        → driver.begin connected ≡ (returned tt, begun)
        → TransactionRaises begun e
        → Raises w e

  abbrev Transacted : W → Attempt ExecutionResult × W → Type 0
  Transacted w out =
      ((r : DriverResult) × (after : W) × IsTransaction w r after
        × (out ≡ (returned (translate r), after)))
      ⊎ ((e : Exception) × (after : W) × TransactionRaises w e
          × ((r : DriverResult) (x : W) → ¬ IsTransaction w r x)
          × (out ≡ (raised e, after)))

  transact-cases : (w : W) → Transacted w (transact driver config sql w)
  unfolding transact
  transact-cases w = elim (Attempt-cases (driver.exec (limit_statement config) w)) [
    | inr (e, w₁, h) ↦ inr (e, w₁, at_limit w₁ h, (λ r x t. cc (t.limit, h)), rw h refl)
    | inl (set, w₁, h) ↦ elim (Attempt-cases (driver.exec sql w₁)) [
      | inr (e, w₂, k) ↦
          inr (
            e,
            w₂,
            at_statement set w₁ w₂ h k,
            (λ r x t. cc (t.limit, h, t.exec, k)),
            rw (h, k) refl,
          )
      | inl (r, w₂, k) ↦ elim (Attempt-cases (driver.commit w₂)) [
        | inr (e, w₃, l) ↦ inr (
          e,
          w₃,
          at_commit set r w₁ w₂ w₃ h k l,
          (λ r x t. cc (t.limit, h, t.exec, k, t.commit, l)),
          rw (h, k, l) refl,
        )
        | inl (u, w₃, l) ↦ inl (
          r,
          w₃,
          record { set = set; limited = w₁; executed = w₂; limit = h; exec = k; commit = l },
          rw (h, k, l) refl,
        )
      ]
    ]
  ]

  -- A connection, a transaction on it and its three steps, all of which returned.
  pub record IsCommitted (w : W) (r : DriverResult) (after : W) : Type 0 where
    pub connected : W
    pub begun : W
    pub connect : driver.connect config.connection_string w ≡ (returned tt, connected)
    pub begin : driver.begin connected ≡ (returned tt, begun)
    pub transaction : IsTransaction begun r after

  -- How an execution ends.
  pub data Execution (w : W) (out : ExecutionResult × W) : Type 0 where
    committed :
        (r : DriverResult) (after : W)
        → IsCommitted w r after
        → out ≡ (translate r, driver.disconnect (driver.end_transaction after))
        → Execution w out
    thrown :
        (e : Exception)
        → Raises w e
        → ((r : DriverResult) (after : W) → ¬ IsCommitted w r after)
        → out.0 ≡ caught e
        → Execution w out

  begun_cases :
      (w w₁ w₂ : W)
      → driver.connect config.connection_string w ≡ (returned tt, w₁)
      → driver.begin w₁ ≡ (returned tt, w₂)
      → Execution w (execute driver config sql w)
  unfolding execute
  begun_cases w w₁ w₂ h k = elim (transact-cases w₂) [
    | inl (r, after, t, e) ↦
        committed r after
          (record { connected = w₁; begun = w₂; connect = h; begin = k; transaction = t })
          (rw (h, k, e) refl)
    | inr (x, after, raises, n, e) ↦
        thrown x (in_transaction w₁ w₂ h k raises)
          (λ r y c.
            let same : c.begun ≡ w₂ = cc (c.connect, h, c.begin, k) in
            n r y (subst (λ b. IsTransaction b r y) same c.transaction))
          (rw (h, k, e) refl)
  ]

  -- An execution never throws. If the connection, the transaction, the time limit, the statement
  -- and the commit all succeed, in this order, then the answer is the table of the statement's
  -- result, and the transaction and the connection have been closed; if any of them throws, the
  -- answer is that of the handler of its exception.
  pub execute-Execution : (w : W) → Execution w (execute driver config sql w)
  unfolding execute
  execute-Execution w = elim (Attempt-cases (driver.connect config.connection_string w)) [
    | inr (e, w₁, h) ↦ thrown e (at_connect w₁ h) (λ r x c. cc (c.connect, h)) (rw h refl)
    | inl (connected, w₁, h) ↦ elim (Attempt-cases (driver.begin w₁)) [
      | inr (e, w₂, k) ↦
          thrown e (at_begin w₁ w₂ h k) (λ r x c. cc (c.connect, h, c.begin, k)) (rw (h, k) refl)
      | inl (begun, w₂, k) ↦ begun_cases w w₁ w₂ h k
    ]
  ]

  -- A table as the database returned it and committed, or an answer without one.
  abbrev pub IsAnswer : W → ExecutionResult → Type 0
  IsAnswer w out =
      ((r : DriverResult) × (after : W) × IsCommitted w r after
        × (out.status ≡ ExecutionStatus.ok)
        × IsTable r out)
      ⊎ ((e : Exception) × Raises w e
          × ((r : DriverResult) (after : W) → ¬ IsCommitted w r after)
          × IsFailure e out)

  status-translate : (r : DriverResult) → (translate r).status ≡ ExecutionStatus.ok
  unfolding translate
  status-translate r = refl

  pub execute-IsAnswer : (w : W) → IsAnswer w (execute driver config sql w).0
  execute-IsAnswer w = by_case (execute-Execution w)
    where
      by_case : {out : ExecutionResult × W} → Execution w out → IsAnswer w out.0
      by_case (committed r after c e) =
          rw e (inl (r, after, c, status-translate r, translate-IsTable r))
      by_case (thrown x raises n e) = rw e (inr (x, raises, n, caught-IsFailure x))
