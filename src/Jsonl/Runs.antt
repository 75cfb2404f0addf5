-- ===== src/Jsonl/Runs.antt =====
-- The audit file after many appends.
use sql_proxy_service.Prelude.{
  ℕ, ◌≡◌, refl, sym, ◌∙◌, ◌≢◌, ◌⊎◌, inl, inr, false, List, [], ◌∷◌, ◌++◌, take, Bytes, Fault, ok,
  threw,
}
use mathlib.Core.List.{append_assoc, append-nil}
use sql_proxy_service.Prelude.Int.{ℤ}
use sql_proxy_service.Audit.{AuditRecord}
use sql_proxy_service.Ports.{AuditAppendResult}
use sql_proxy_service.Jsonl.{Tm, Object, Filebuf, Stream, append, append_all}
use sql_proxy_service.Jsonl.Schema.{entries}
use sql_proxy_service.Jsonl.Appended.{
  Appended, unmade, unopened, stopped, persisted, torn, append-Appended,
}
use sql_proxy_service.Jsonl.Buffer.{IsFilebuf, IsClean}

abbrev pub terminated : Bytes → Bytes
terminated line = line ++ b'\n' ∷ []

-- A text without its exception.
abbrev pub line_of : Fault Bytes → Bytes
line_of (ok line) = line
line_of threw = []

-- The lines of the records whose append was answered with ok, in their order.
unfoldable pub acknowledged :
    (AuditRecord → Fault Bytes) → List AuditRecord → List AuditAppendResult → Bytes
acknowledged make (r ∷ records) (AuditAppendResult.ok ∷ answers) =
    terminated (line_of (make r)) ++ acknowledged make records answers
acknowledged make (r ∷ records) (_ ∷ answers) = acknowledged make records answers
acknowledged make _ _ = []

-- What a run leaves: behind the earlier contents the acknowledged lines, whole and in order, and at
-- most one torn line at the end, which only a stream that has failed has.
pub record IsLog {F : Type 0} (content : F → Bytes) (before : Bytes) (lines : Bytes) (s : Stream F)
    : Type 0 where
  pub rest : Bytes
  pub file : content s.file ≡ before ++ (lines ++ rest)
  pub last :
      (rest ≡ [])
      ⊎ ((s.good ≡ false) × ((line : Bytes) × (k : ℕ) × (rest ≡ take k (terminated line))))

acknowledged_skip :
    (make : AuditRecord → Fault Bytes) (r : AuditRecord) (records : List AuditRecord)
    (x : AuditAppendResult) (answers : List AuditAppendResult)
    → x ≢ AuditAppendResult.ok
    → acknowledged make (r ∷ records) (x ∷ answers) ≡ acknowledged make records answers
unfolding acknowledged
acknowledged_skip make r records AuditAppendResult.ok answers h = absurd (h refl)
acknowledged_skip make r records AuditAppendResult.open_failure answers h = refl
acknowledged_skip make r records AuditAppendResult.write_failure answers h = refl

acknowledged_ok :
    (make : AuditRecord → Fault Bytes) (r : AuditRecord) (records : List AuditRecord)
    (x : AuditAppendResult) (answers : List AuditAppendResult) (line : Bytes)
    → make r ≡ ok line
    → x ≡ AuditAppendResult.ok
    → acknowledged make (r ∷ records) (x ∷ answers)
      ≡ terminated line ++ acknowledged make records answers
unfolding acknowledged
acknowledged_ok make r records x answers line e h = rw (h, e) refl

module _ {F : Type 0} (device : Filebuf F) (content pending : F → Bytes)
    (laws : IsFilebuf device content pending) (gmtime_r : ℤ → Tm)
    (dump : Object → Fault Bytes) where
  abbrev text_of : AuditRecord → Fault Bytes
  text_of r = dump (entries gmtime_r r)

  abbrev one : AuditRecord → Stream F → AuditAppendResult × Stream F
  one = append device gmtime_r dump

  abbrev run : List AuditRecord → Stream F → List AuditAppendResult × Stream F
  run = append_all device gmtime_r dump

  append-stopped :
      (r : AuditRecord) (s : Stream F)
      → s.good ≡ false
      → ((one r s).0 ≢ AuditAppendResult.ok) × ((one r s).1 ≡ s)
  append-stopped r s h =
      by_case (append-Appended device content pending laws gmtime_r dump r s (λ g. cc (g, h)))
    where
      by_case :
          {out : AuditAppendResult × Stream F}
          → Appended device content pending laws gmtime_r dump r s out
          → (out.0 ≢ AuditAppendResult.ok) × (out.1 ≡ s)
      by_case (unmade _ e) = rw e ((λ x. cc), refl)
      by_case (unopened _ _ _ e) = rw e ((λ x. cc), refl)
      by_case (stopped _ _ _ _ e) = rw e ((λ x. cc), refl)
      by_case (persisted _ _ g _ _ _ _) = cc (g.1, h)
      by_case (torn _ _ g _ _ _ _) = cc (g.1, h)

  -- Once the stream has failed nothing is acknowledged any more, and the file stays as it is.
  run-stopped :
      (records : List AuditRecord) (s : Stream F)
      → s.good ≡ false
      → ((run records s).1 ≡ s) × (acknowledged text_of records (run records s).0 ≡ [])
  unfolding append_all acknowledged
  run-stopped [] s h = (refl, refl)
  run-stopped (r ∷ records) s h =
      let (refused, same) = append-stopped r s h in
      let (kept, none_) = run-stopped records s h in
      (
        rw same kept,
        acknowledged_skip text_of r records _ (run records (one r s).1).0 refused ∙ rw same none_,
      )

  abbrev Log : List AuditRecord → Stream F → Type 0
  Log records s =
      IsLog content (content s.file) (acknowledged text_of records (run records s).0)
        (run records s).1

  -- An append that changed nothing and was not acknowledged.
  skipped :
      (r : AuditRecord) (records : List AuditRecord) (s : Stream F) (x : AuditAppendResult)
      → one r s ≡ (x, s)
      → x ≢ AuditAppendResult.ok
      → Log records s
      → Log (r ∷ records) s
  unfolding append_all
  skipped r records s x e n l = rw (e, acknowledged_skip text_of r records x (run records s).0 n) l

  written :
      (r : AuditRecord) (records : List AuditRecord) (s : Stream F) (line : Bytes)
      → text_of r ≡ ok line
      → (one r s).0 ≡ AuditAppendResult.ok
      → content (one r s).1.file ≡ content s.file ++ terminated line
      → Log records (one r s).1
      → Log (r ∷ records) s
  unfolding append_all acknowledged
  written r records s line t o e l =
      let lines = acknowledged text_of records (run records (one r s).1).0 in
      record {
        rest = l.rest;
        file = cc (
          l.file,
          e,
          acknowledged_ok text_of r records (one r s).0 (run records (one r s).1).0 line t o,
          append_assoc (content s.file) (terminated line) (lines ++ l.rest),
          append_assoc (terminated line) lines l.rest,
        );
        last = l.last;
      }

  broken :
      (r : AuditRecord) (records : List AuditRecord) (s : Stream F) (line : Bytes) (k : ℕ)
      → (one r s).0 ≡ AuditAppendResult.write_failure
      → (one r s).1.good ≡ false
      → content (one r s).1.file ≡ content s.file ++ take k (terminated line)
      → Log (r ∷ records) s
  unfolding append_all acknowledged
  broken r records s line k o g e =
      let (kept, none_) = run-stopped records (one r s).1 g in
      record {
        rest = take k (terminated line);
        file = cc (kept, none_, e);
        last = inr (rw kept g, (line, k, refl));
      }

  -- From a stream with an empty buffer that keeps its law, any run of appends leaves the earlier contents of the file
  -- as they were, behind them one whole line for each record that was acknowledged, in their
  -- order, and at most one torn line at the end, which stands there only if the stream has failed.
  pub append_all-IsLog :
      (records : List AuditRecord) (s : Stream F)
      → IsClean pending s
      → IsLog content
          (content s.file)
          (acknowledged text_of records (run records s).0)
          (run records s).1
  unfolding append_all acknowledged
  append_all-IsLog [] s h = record {
    rest = [];
    file = sym (append-nil (content s.file));
    last = inl refl;
  }
  append_all-IsLog (r ∷ records) s h =
      by_case (append_all-IsLog records)
        (append-Appended device content pending laws gmtime_r dump r s h)
    where
      by_case :
          ((t : Stream F) → IsClean pending t → Log records t)
          → Appended device content pending laws gmtime_r dump r s (one r s)
          → Log (r ∷ records) s
      by_case ih (unmade _ e) = skipped r records s _ e (λ x. cc) (ih s h)
      by_case ih (unopened _ _ _ e) = skipped r records s _ e (λ x. cc) (ih s h)
      by_case ih (stopped _ _ _ _ e) = skipped r records s _ e (λ x. cc) (ih s h)
      by_case ih (persisted line t _ o _ c p) =
          written r records s line t o c (ih (one r s).1 (λ g. p))
      by_case ih (torn line t _ o g k c) = broken r records s line k o g.1 c
