-- ===== src/Postgres/Settings.antt =====
-- The number in the statement that sets the time limit.
use sql_proxy_service.Prelude.{
  ℕ, ◌+◌, ◌/◌, ◌%◌, ◌^◌, ◌≤◌, ◌<◌, ◌≡◌, refl, ◌≢◌, inl, inr, true, Option, none, some, [], ◌∷◌,
  ◌++◌, arith, ltb, Bool-cases, Bytes, codes,
}
use sql_proxy_service.Prelude.Decimal.{decimal_from, decimal, decimal_lem}
use sql_proxy_service.Config.{resolve_database_config}
use sql_proxy_service.Config.Reading.{IsNumeral}
use sql_proxy_service.Config.Resolved.{
  Database, defaulted, limited, resolve_database_config-Database,
}
use sql_proxy_service.Postgres.{limit_statement}

append-not_empty : (s : Bytes) (c : ℕ) → s ++ c ∷ [] ≢ []
append-not_empty [] c h = cc h
append-not_empty (d ∷ s) c h = cc h

decimal_not_empty : (n : ℕ) → decimal n ≢ []
unfolding decimal_from
decimal_not_empty n = elim (Bool-cases (ltb n 10)) [
  | inl small ↦ rw small (λ h. cc h)
  | inr large ↦ rw large (append-not_empty (decimal_from 19 (n / 10)) (b'0' + n % 10))
]

decimal-IsNumeral : (n : ℕ) → n < 10 ^ 20 → IsNumeral (decimal n) n
decimal-IsNumeral n h = record {
  not_empty = decimal_not_empty n;
  digits = (decimal_lem n h).1;
  value = (decimal_lem n h).0;
}

-- The number that the settings ask for: 5000 where none is set.
abbrev pub IsAsked : Option Bytes → ℕ → Type 0
IsAsked none n = n ≡ 5000
IsAsked (some raw) n = IsNumeral raw n

-- The statement is the fixed words and a numeral, for the number that was asked for.
pub record IsLimit (timeout : Option Bytes) (statement : Bytes) : Type 0 where
  pub number : ℕ
  pub asked : IsAsked timeout number
  pub least : 1 ≤ number
  pub most : number ≤ 600000
  pub numeral : Bytes
  pub written : IsNumeral numeral number
  pub text : statement ≡ codes "SET LOCAL statement_timeout = " ++ numeral

-- If the settings are accepted, the statement that sets the time limit is made of fixed words and of
-- digits alone, at least one, for a number from 1 to 600000: that of the digits in the variable, or
-- 5000 where it is unset.
pub limit_statement-IsLimit :
    (url timeout : Option Bytes)
    → (resolve_database_config url timeout).valid ≡ true
    → IsLimit timeout (limit_statement (resolve_database_config url timeout).config)
limit_statement-IsLimit url timeout h = by_case (resolve_database_config-Database url timeout)
  where
    by_case :
        Database url timeout (resolve_database_config url timeout)
        → IsLimit timeout (limit_statement (resolve_database_config url timeout).config)
    by_case (defaulted u _ _ unset e) =
        rw (e, unset)
          (record {
            number = 5000;
            asked = refl;
            least = omega arith;
            most = omega arith;
            numeral = decimal 5000;
            written = decimal-IsNumeral 5000 (omega arith);
            text = refl;
          })
    by_case (limited u raw n _ _ given set e) =
        rw (e, given)
          (record {
            number = n;
            asked = set.read;
            least = set.least;
            most = set.most;
            numeral = decimal n;
            written = decimal-IsNumeral n (omega (arith, set.most));
            text = refl;
          })
    by_case (Database.refused _ invalid _) = cc (invalid, h)
