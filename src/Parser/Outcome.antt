-- ===== src/Parser/Outcome.antt =====
-- What the adapter answers, and what its error texts are made of.
use sql_proxy_service.Prelude.{
  ℕ, ◌+◌, ◌≤◌, ◌≡◌, ◌⊎◌, true, false, [], ◌++◌, All, Bytes, codes, Fault, ok, threw,
}
use sql_proxy_service.Prelude.Int.{pos}
use sql_proxy_service.Analysis.{ParseResult}
use sql_proxy_service.Syntax.{SqlParserResult}
use sql_proxy_service.Parser.Result.{is_negative, translate_all}
use sql_proxy_service.Prelude.Decimal.{value_from}

-- A digit or the sign.
abbrev pub IsNumeric : ℕ → Type 0
IsNumeric c = (c ≡ b'-') ⊎ ((b'0' ≤ c) × (c ≤ b'9'))

-- The texts of a syntax error: fixed words, and a line and a column of which only digits and a sign
-- are written.
pub data IsSyntaxError (q : SqlParserResult) (error : Bytes) : Type 0 where
  unlocated : is_negative q.error_line ≡ true → error ≡ codes "syntax error" → IsSyntaxError q error
  located :
      is_negative q.error_line ≡ false
      → (line column : Bytes)
      → error ≡ codes "syntax error at line " ++ line ++ codes ", column " ++ column
      → All IsNumeric line
      → All IsNumeric column
      → ((n : ℕ) → q.error_line ≡ pos n → value_from 0 line ≡ n + 1)
      → IsSyntaxError q error

-- The three answers.
pub data Answer (r : Fault SqlParserResult) (p : ParseResult) : Type 0 where
  failed :
      r ≡ threw
      → p.success ≡ false
      → p.statements ≡ []
      → p.error ≡ codes "parser failure"
      → Answer r p
  invalid :
      (q : SqlParserResult)
      → r ≡ ok q
      → q.is_valid ≡ false
      → p.success ≡ false
      → p.statements ≡ []
      → IsSyntaxError q p.error
      → Answer r p
  translated :
      (q : SqlParserResult)
      → r ≡ ok q
      → q.is_valid ≡ true
      → p.success ≡ true
      → p.statements ≡ translate_all q.statements
      → p.error ≡ []
      → Answer r p
