-- ===== src/Analyzer/Outcomes.antt =====
-- What `analyze` reports for each answer of the parser, and what later stages may rely on.
use sql_proxy_service.Prelude.{
  ◌<◌, ◌≡◌, refl, ◌≢◌, ◌↔◌, ◌⊎◌, inl, inr, true, false, List, [], ◌∷◌, arith, Bool-cases, length,
  Bytes, ok, Action, pure, bind, Action-cases,
}
use sql_proxy_service.Prelude.Int.{pos, to_int32}
use sql_proxy_service.Analysis.{
  StatementType, ParsedStatement, ParseResult, SqlAnalysis, AnalysisStatus, statement_class_of,
  default_analysis,
}
use sql_proxy_service.Analyzer.{is_blank, analysis_of_parse, analyze}

-- The two statuses of a failed analysis, and the two others.
pub record Reports (parsed : ParseResult) (a : SqlAnalysis) : Type 0 where
  pub one_statement :
      (a.status ≡ AnalysisStatus.ok) ↔ ((parsed.success ≡ true) × (length parsed.statements ≡ 1))
  pub many_statements :
      (a.status ≡ AnalysisStatus.multiple_statements)
      ↔ ((parsed.success ≡ true) × (1 < length parsed.statements))
  pub failed :
      (a.status ≡ AnalysisStatus.parse_error)
      ↔ ((parsed.success ≡ false) ⊎ (length parsed.statements ≡ 0))
  pub reason : (a.status ≡ AnalysisStatus.parse_error) ↔ (a.error_reason ≢ [])
  pub counted : a.statement_count ≡ to_int32 (length parsed.statements)

-- The statement count and class agree with the status and the type, and an analysis that did not
-- succeed describes no statement.
pub record IsCoherent (a : SqlAnalysis) : Type 0 where
  pub class_of_type : a.statement_class ≡ statement_class_of a.statement_type
  pub one : a.status ≡ AnalysisStatus.ok → a.statement_count ≡ pos 1
  pub nothing :
      a.status ≢ AnalysisStatus.ok → (a.statement_type ≡ StatementType.unknown) × (a.tables ≡ [])

analysis_of_parse-Reports_failed :
    (parsed : ParseResult) → parsed.success ≡ false → Reports parsed (analysis_of_parse parsed)
unfolding analysis_of_parse
analysis_of_parse-Reports_failed parsed h = ground arith

analysis_of_parse-Reports_by :
    (parsed : ParseResult) (l : List ParsedStatement)
    → parsed.statements ≡ l
    → parsed.success ≡ true
    → Reports parsed (analysis_of_parse parsed)
unfolding analysis_of_parse
analysis_of_parse-Reports_by parsed [] e h = ground arith
analysis_of_parse-Reports_by parsed (x ∷ []) e h = ground arith
analysis_of_parse-Reports_by parsed (x ∷ y ∷ l) e h = ground arith

-- The analysis is `Ok` exactly for one parsed statement, `MultipleStatements` exactly for more
-- than one, and `ParseError`, the only status with a reason text, exactly where the parser failed
-- or gave no statement; the count is the `int` of the number of statements.
pub analysis_of_parse-Reports : (parsed : ParseResult) → Reports parsed (analysis_of_parse parsed)
analysis_of_parse-Reports parsed = elim (Bool-cases parsed.success) [
  | inl h ↦ analysis_of_parse-Reports_by parsed parsed.statements refl h
  | inr h ↦ analysis_of_parse-Reports_failed parsed h
]

pub analysis_of_parse-IsCoherent :
    (parsed : ParseResult) (l : List ParsedStatement)
    → parsed.statements ≡ l
    → IsCoherent (analysis_of_parse parsed)
unfolding analysis_of_parse statement_class_of to_int32
analysis_of_parse-IsCoherent parsed [] e = ground arith
analysis_of_parse-IsCoherent parsed (x ∷ []) e = ground arith
analysis_of_parse-IsCoherent parsed (x ∷ y ∷ l) e = ground arith

analysis_of_parse-ne-empty :
    (parsed : ParseResult) (l : List ParsedStatement)
    → parsed.statements ≡ l
    → (analysis_of_parse parsed).status ≢ AnalysisStatus.empty_input
unfolding analysis_of_parse
analysis_of_parse-ne-empty parsed [] e = ground arith
analysis_of_parse-ne-empty parsed (x ∷ []) e = ground arith
analysis_of_parse-ne-empty parsed (x ∷ y ∷ l) e = ground arith

module _ {S : Type 0} (parse : Bytes → Action S ParseResult) (sql : Bytes) (s : S) where
  -- Blank input is reported as such and leaves the parser's state alone: it is never invoked.
  -- Any other input is handed to it once, unchanged, and is never reported as empty.
  pub analyze_invokes_parser :
      (is_blank sql ≡ true
        → analyze parse sql s
          ≡ (ok (record default_analysis { status = AnalysisStatus.empty_input }), s))
      × (is_blank sql ≡ false
          → analyze parse sql s ≡ bind (parse sql) (λ p. pure (analysis_of_parse p)) s)
      × (is_blank sql ≡ false
          → (p : ParseResult) → (analysis_of_parse p).status ≢ AnalysisStatus.empty_input)
  unfolding analyze
  analyze_invokes_parser =
      ((λ h. rw h), (λ h. rw h), (λ h p. analysis_of_parse-ne-empty p p.statements refl))

  -- Whatever the parser answers, an analysis that comes back is coherent.
  analyze-IsCoherent : {a : SqlAnalysis} {s' : S} → analyze parse sql s ≡ (ok a, s') → IsCoherent a
  unfolding analyze statement_class_of
  analyze-IsCoherent {a} h = elim (Bool-cases (is_blank sql)) [
    | inl blank ↦ ground arith
    | inr text ↦ elim (Action-cases (parse sql s)) [
      | inl (s₁, e) ↦ ground arith
      | inr (parsed, s₁, e) ↦
          ground (arith, analysis_of_parse-IsCoherent parsed parsed.statements refl)
    ]
  ]
