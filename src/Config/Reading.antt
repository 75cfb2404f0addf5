-- ===== src/Config/Reading.antt =====
-- What `whole_int` reads as a positive number.
use sql_proxy_service.Prelude.{
  ℕ, zero, suc, ◌+◌, ◌-◌, ◌*◌, ◌^◌, ◌≤◌, ◌<◌, ◌≡◌, refl, ◌≢◌, inl, inr, true, false, some, [], ◌∷◌,
  arith, ltb, leb, ◌==◌, ltb_iff, Bool-cases, Option-cases, All, Bytes,
}
use sql_proxy_service.Prelude.Int.{pos, negated}
use sql_proxy_service.Prelude.Decimal.{value_from}
use sql_proxy_service.Config.{is_digit, digits_value, some_digits, whole_int}

abbrev pub IsDigits : Bytes → Type 0
IsDigits s = All (λ c. (b'0' ≤ c) × (c ≤ b'9')) s

digits_value-IsDigits :
    (acc : ℕ) (s : Bytes) → IsDigits s → digits_value acc s ≡ some (value_from acc s)
unfolding digits_value value_from
digits_value-IsDigits acc [] h = refl
digits_value-IsDigits acc (c ∷ s) h =
    let digit : is_digit c ≡ true = ground (arith, h.0) in
    rw digit (digits_value-IsDigits (10 * acc + (c - b'0')) s h.1)

IsDigits-of_value :
    (acc v : ℕ) (s : Bytes) → digits_value acc s ≡ some v → IsDigits s × (value_from acc s ≡ v)
unfolding digits_value value_from
IsDigits-of_value acc v [] h = (tt, cc h)
IsDigits-of_value acc v (c ∷ s) h = elim (Bool-cases (is_digit c)) [
  | inl digit ↦
      let rest : digits_value (10 * acc + (c - b'0')) s ≡ some v = ground (arith, digit) in
      let (digits, value) = IsDigits-of_value (10 * acc + (c - b'0')) v s rest in
      ((ground (arith, digit), digits), value)
  | inr other ↦ absurd (ground (arith, other))
]

-- A text of digits alone, at least one, that stand for the number.
pub record IsNumeral (raw : Bytes) (n : ℕ) : Type 0 where
  pub not_empty : raw ≢ []
  pub digits : IsDigits raw
  pub value : value_from 0 raw ≡ n

pub whole_int-IsNumeral :
    (raw : Bytes) (n : ℕ) → IsNumeral raw n → n < 2 ^ 31 → whole_int raw ≡ some (pos n)
unfolding whole_int
whole_int-IsNumeral [] n h k = absurd (h.not_empty refl)
whole_int-IsNumeral (c ∷ s) n h k =
    let sign : (c == b'-') ≡ false = ground (arith, h.digits.0) in
    let small : ltb n (2 ^ 31) ≡ true = (ltb_iff n (2 ^ 31)).1 k in
    rw (sign, digits_value-IsDigits 0 (c ∷ s) h.digits, h.value, small) refl

-- A minus sign reads as no number above zero.
negated-not_positive : (v n : ℕ) → 1 ≤ n → negated v ≢ pos n
negated-not_positive zero n h e = ground (arith, e)
negated-not_positive (suc v) n h e = cc e

pub IsNumeral-of_int :
    (raw : Bytes) (n : ℕ) → whole_int raw ≡ some (pos n) → 1 ≤ n → IsNumeral raw n
unfolding whole_int
IsNumeral-of_int [] n h k = cc
IsNumeral-of_int (c ∷ s) n h k = elim (Bool-cases (c == b'-')) [
  | inl sign ↦ elim (Option-cases (some_digits s)) [
    | inl e ↦ absurd (ground arith)
    | inr (v, e) ↦ elim (Bool-cases (leb v (2 ^ 31))) [
      | inl small ↦ absurd (negated-not_positive v n k (ground arith))
      | inr large ↦ absurd (ground arith)
    ]
  ]
  | inr plain ↦ elim (Option-cases (digits_value 0 (c ∷ s))) [
    | inl e ↦ absurd (ground arith)
    | inr (v, e) ↦ elim (Bool-cases (ltb v (2 ^ 31))) [
      | inl small ↦
          let (digits, value) = IsDigits-of_value 0 v (c ∷ s) e in
          record { not_empty = λ x. cc; digits = digits; value = ground arith }
      | inr large ↦ absurd (ground arith)
    ]
  ]
]
