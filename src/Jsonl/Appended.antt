-- ===== src/Jsonl/Appended.antt =====
-- The audit file: what one append leaves in it.
use sql_proxy_service.Prelude.{
  ℕ, ◌≡◌, refl, sym, ◌∙◌, subst, inl, inr, Bool, true, false, not, [], ◌∷◌, ◌++◌, arith,
  if◌then◌else◌, take, Bytes, Fault, ok, threw, Fault-cases,
}
use mathlib.Core.List.{append-nil}
use sql_proxy_service.Prelude.Int.{ℤ}
use sql_proxy_service.Audit.{AuditRecord}
use sql_proxy_service.Ports.{AuditAppendResult}
use sql_proxy_service.Jsonl.{Tm, Object, Filebuf, Stream, insert, flush, write_line, append}
use sql_proxy_service.Jsonl.Schema.{entries, serialize_lem}
use sql_proxy_service.Jsonl.Buffer.{
  IsFilebuf, IsClean, stream, Flushed, insert-Writing, flush-Flushed,
}

module _ {F : Type 0} (device : Filebuf F) (content pending : F → Bytes)
    (laws : IsFilebuf device content pending) where
  module _ (gmtime_r : ℤ → Tm) (dump : Object → Fault Bytes) (r : AuditRecord) where
    -- What one append does to a stream.
    pub data Appended (s : Stream F) (out : AuditAppendResult × Stream F) : Type 0 where
      unmade :
          dump (entries gmtime_r r) ≡ threw
          → out ≡ (AuditAppendResult.write_failure, s)
          → Appended s out
      unopened :
          (line : Bytes)
          → dump (entries gmtime_r r) ≡ ok line
          → s.is_open ≡ false
          → out ≡ (AuditAppendResult.open_failure, s)
          → Appended s out
      stopped :
          (line : Bytes)
          → dump (entries gmtime_r r) ≡ ok line
          → s.is_open ≡ true
          → s.good ≡ false
          → out ≡ (AuditAppendResult.write_failure, s)
          → Appended s out
      persisted :
          (line : Bytes)
          → dump (entries gmtime_r r) ≡ ok line
          → (s.is_open ≡ true) × (s.good ≡ true)
          → out.0 ≡ AuditAppendResult.ok
          → (out.1.is_open ≡ true) × (out.1.good ≡ true)
          → content out.1.file ≡ content s.file ++ (line ++ b'\n' ∷ [])
          → pending out.1.file ≡ []
          → Appended s out
      torn :
          (line : Bytes)
          → dump (entries gmtime_r r) ≡ ok line
          → (s.is_open ≡ true) × (s.good ≡ true)
          → out.0 ≡ AuditAppendResult.write_failure
          → (out.1.is_open ≡ true) × (out.1.good ≡ false)
          → (k : ℕ) → content out.1.file ≡ content s.file ++ take k (line ++ b'\n' ∷ [])
          → Appended s out

    insert-is_open : (bytes : Bytes) (s : Stream F) → (insert device bytes s).is_open ≡ s.is_open
    unfolding insert
    insert-is_open bytes s = ground arith

    flush-is_open : (s : Stream F) → (flush device s).is_open ≡ s.is_open
    unfolding flush
    flush-is_open s = ground arith

    ended :
        (line : Bytes) (f : F)
        → dump (entries gmtime_r r) ≡ ok line
        → (b : Bool) (g : F)
        → Flushed device content pending laws (content f) (line ++ b'\n' ∷ []) b g
        → Appended (stream true true f) (
            if not b
            then (AuditAppendResult.write_failure, stream true b g)
            else (AuditAppendResult.ok, stream true b g))
    ended line f e true g (c, p) = persisted line e (refl, refl) refl (refl, refl) c p
    ended line f e false g (k, c) = torn line e (refl, refl) refl (refl, refl) k c

    ended_of :
        (line : Bytes) (f : F)
        → dump (entries gmtime_r r) ≡ ok line
        → (s : Stream F) → s.is_open ≡ true
        → Flushed device content pending laws (content f) (line ++ b'\n' ∷ []) s.good s.file
        → Appended
            (stream true true f)
            (if not s.good then (AuditAppendResult.write_failure, s) else (AuditAppendResult.ok, s))
    ended_of line f e s o h =
        subst
          (λ o'. Appended (stream true true f) (
            if not s.good
            then (AuditAppendResult.write_failure, stream o' s.good s.file)
            else (AuditAppendResult.ok, stream o' s.good s.file)))
          (sym o) (ended line f e s.good s.file h)

    write_line-Appended :
        (line : Bytes) (o b : Bool) (f : F)
        → dump (entries gmtime_r r) ≡ ok line
        → (b ≡ true → pending f ≡ [])
        → Appended (stream o b f) (write_line device line (stream o b f))
    unfolding write_line insert flush
    write_line-Appended line false b f e h = unopened line e refl refl
    write_line-Appended line true false f e h = stopped line e refl refl refl
    write_line-Appended line true true f e h =
        let s₁ = insert device line (stream true true f) in
        let s₂ = insert device (b'\n' ∷ []) s₁ in
        let w₁ =
          insert-Writing device content pending laws (content f) [] line true true f
            (0, sym (append-nil (content f)), h refl) in
        let w₂ =
          insert-Writing device content pending laws (content f) line (b'\n' ∷ []) s₁.is_open
            s₁.good s₁.file w₁ in
        let w₃ =
          flush-Flushed device content pending laws (content f) (line ++ b'\n' ∷ []) s₂.is_open
            s₂.good s₂.file w₂ in
        ended_of line f e (flush device s₂)
          (flush-is_open s₂
            ∙ insert-is_open (b'\n' ∷ []) s₁
            ∙ insert-is_open line (stream true true f))
          w₃

    -- Over a file buffer that keeps its law and has nothing waiting, an append is ok exactly if the
    -- line could be made, the file was open, the stream had not failed and the line went through:
    -- then the file has grown by the line and a newline. Otherwise it says how it failed, and either
    -- nothing has changed or the file has grown by a first part of the line and the stream has
    -- failed.
    pub append-Appended :
        (s : Stream F) → IsClean pending s → Appended s (append device gmtime_r dump r s)
    unfolding append
    append-Appended s h = elim (Fault-cases (dump (entries gmtime_r r))) [
      | inl e ↦ unmade e (rw (append, serialize_lem gmtime_r r, e))
      | inr (line, e) ↦
          rw (append, serialize_lem gmtime_r r, e)
            (write_line-Appended line s.is_open s.good s.file e h)
    ]
