-- ===== src/Parser/Literals.antt =====
-- The positive literals that `classify_insert_value` tells apart.
use sql_proxy_service.Prelude.{
  ltb_iff, ℕ, zero, suc, ◌≡◌, refl, ◌↔◌, ◌⊎◌, inl, inr, true, false, Option, none, some, arith,
}
use sql_proxy_service.Prelude.Int.{ℤ, pos, negsuc}
use sql_proxy_service.Analysis.{InsertValueKind}
use sql_proxy_service.Syntax.{ExprType, Expr}
use sql_proxy_service.Parser.{is_positive, insert_value_kind}

-- An integer literal above zero, and a decimal literal whose value is above zero.
abbrev pub IsPositiveInteger : Expr → Type 0
IsPositiveInteger e = (e.type ≡ ExprType.literal_int) × (n : ℕ) × (e.ival ≡ pos (suc n))

abbrev pub IsPositiveDecimal : Expr → Type 0
IsPositiveDecimal e = (e.type ≡ ExprType.literal_float) × (e.fval_is_positive ≡ true)

is_positive_cases :
    (z : ℤ) → ((n : ℕ) × (z ≡ pos (suc n)) × (is_positive z ≡ true)) ⊎ (is_positive z ≡ false)
is_positive_cases (pos zero) = inr refl
is_positive_cases (pos (suc n)) = inl (n, refl, (ltb_iff 0 (suc n)).1 (omega arith))
is_positive_cases (negsuc n) = inr refl

-- The kinds that the parser reports are those of the literals.
pub integer_literal_iff :
    (v : Option Expr)
    → (insert_value_kind v ≡ InsertValueKind.positive_integer_literal)
      ↔ ((e : Expr) × (v ≡ some e) × IsPositiveInteger e)
integer_literal_iff none = ((λ h. cc), (λ (e, h, _). cc))
integer_literal_iff (some e) = elim (is_positive_cases e.ival) [
  | inl (n, z, p) ↦ ((λ h. (e, refl, (ground arith, n, z))), (λ (f, h, k). ground (arith, p)))
  | inr p ↦ (
    (λ h. ground arith),
    (λ (f, h, k). let (t, m, i) = k in ground (arith, t, i, (ltb_iff 0 (suc m)).1 (omega arith))),
  )
]

pub decimal_literal_iff :
    (v : Option Expr)
    → (insert_value_kind v ≡ InsertValueKind.positive_decimal_literal)
      ↔ ((e : Expr) × (v ≡ some e) × IsPositiveDecimal e)
decimal_literal_iff none = ((λ h. cc), (λ (e, h, _). cc))
decimal_literal_iff (some e) =
    ((λ h. (e, refl, (ground arith, ground arith))), (λ (f, h, k). ground arith))

pub positive_amount :
    (v : Option Expr)
    → (insert_value_kind v ≡ InsertValueKind.positive_integer_literal)
      ⊎ (insert_value_kind v ≡ InsertValueKind.positive_decimal_literal)
    → (e : Expr) × (v ≡ some e) × (IsPositiveInteger e ⊎ IsPositiveDecimal e)
positive_amount v (inl h) =
    let (e, same, positive) = (integer_literal_iff v).0 h in (e, same, inl positive)
positive_amount v (inr h) =
    let (e, same, positive) = (decimal_literal_iff v).0 h in (e, same, inr positive)

pub amount_kind :
    (e : Expr)
    → IsPositiveInteger e ⊎ IsPositiveDecimal e
    → (insert_value_kind (some e) ≡ InsertValueKind.positive_integer_literal)
      ⊎ (insert_value_kind (some e) ≡ InsertValueKind.positive_decimal_literal)
amount_kind e (inl h) = inl ((integer_literal_iff (some e)).1 (e, refl, h))
amount_kind e (inr h) = inr ((decimal_literal_iff (some e)).1 (e, refl, h))
