-- ===== src/Parser/Result.antt =====
-- The error text and `HyriseSqlParser::parse`.
use sql_proxy_service.Prelude.{
  zero, suc, ◌+◌, Bool, true, false, not, Option, none, some, List, [], ◌∷◌, ◌++◌, if◌then◌else◌,
  Bytes, codes, Fault, ok, threw, Action,
}
use sql_proxy_service.Prelude.Int.{ℤ, pos, negsuc}
use sql_proxy_service.Prelude.Decimal.{decimal_from}
use sql_proxy_service.Analysis.{ParsedStatement, ParseResult}
use sql_proxy_service.Syntax.{SqlStatement, SqlParserResult}
use sql_proxy_service.Parser.Statements.{translate_statement}

-- `std::to_string(value + 1)`
unfoldable pub to_string_next : ℤ → Bytes
to_string_next (pos n) = decimal_from (n + 2) (n + 1)
to_string_next (negsuc zero) = decimal_from 1 0
to_string_next (negsuc (suc n)) = b'-' ∷ decimal_from (n + 2) (n + 1)

abbrev pub is_negative : ℤ → Bool
is_negative (pos n) = false
is_negative (negsuc n) = true

unfoldable pub sanitized_error : SqlParserResult → Bytes
sanitized_error result =
    if not (is_negative result.error_line)
    then codes "syntax error at line "
      ++ to_string_next result.error_line
      ++ codes ", column "
      ++ to_string_next result.error_column
    else codes "syntax error"

unfoldable pub translate_all : List (Option SqlStatement) → List ParsedStatement
translate_all [] = []
translate_all (none ∷ l) = translate_all l
translate_all (some stmt ∷ l) = translate_statement stmt ∷ translate_all l

-- `parse` behind the call of the third-party parser, and its `catch (...)`.
unfoldable pub parse_result : Fault SqlParserResult → ParseResult
parse_result threw = record { success = false; statements = []; error = codes "parser failure" }
parse_result (ok result) =
    if not result.is_valid
    then record { success = false; statements = []; error = sanitized_error result }
    else record { success = true; statements = translate_all result.statements; error = [] }

-- `HyriseSqlParser::parse`, over the third-party parser.
unfoldable pub parse :
    {W : Type 0} → (Bytes → Action W SqlParserResult) → Bytes → Action W ParseResult
parse sql_parser sql w = let (r, w') = sql_parser sql w in (ok (parse_result r), w')
