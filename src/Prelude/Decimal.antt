-- ===== src/Prelude/Decimal.antt =====
-- Decimal digits: `std::to_string` of an integer, and the number that digits stand for.
use Prim.Native.Nat.{ℕ, zero, suc, ◌+◌, ◌-◌, ◌*◌, ◌/◌, ◌%◌, ◌≤◌, ◌<◌, ◌^◌}
use mathlib.Core.Path.{◌≡◌, refl, ◌∙◌}
use mathlib.Core.List.{[], ◌∷◌, ◌++◌}
use mathlib.Core.Logic.{inl, inr}
use native.Mathlib.Omega.{arith}
use sql_proxy_service.Prelude.Tests.{ltb, ltb_iff, if◌then◌else◌, Bool-cases}
use sql_proxy_service.Prelude.Lists.{length, length-append, All, All-append}
use sql_proxy_service.Prelude.Strings.{Bytes}

-- The decimal digits of a number below ten to the power of the fuel.
unfoldable pub decimal_from : ℕ → ℕ → Bytes
decimal_from zero n = []
decimal_from (suc fuel) n =
    let rest = decimal_from fuel (n / 10) in
    if ltb n 10 then (b'0' + n) ∷ [] else rest ++ (b'0' + n % 10) ∷ []

-- The number that decimal digits stand for.
unfoldable pub value_from : ℕ → Bytes → ℕ
value_from acc [] = acc
value_from acc (c ∷ s) = value_from (10 * acc + (c - b'0')) s

pub value_from-append :
    (acc c : ℕ) (s : Bytes) → value_from acc (s ++ c ∷ []) ≡ 10 * value_from acc s + (c - b'0')
unfolding value_from
value_from-append acc c [] = refl
value_from-append acc c (d ∷ s) = value_from-append (10 * acc + (d - b'0')) c s

-- With more fuel than the number, the digits stand for the number, and each is a decimal digit.
pub decimal_from_lem :
    (fuel n : ℕ)
    → n < fuel
    → (value_from 0 (decimal_from fuel n) ≡ n)
      × All (λ c. (b'0' ≤ c) × (c ≤ b'9')) (decimal_from fuel n)
unfolding decimal_from value_from
decimal_from_lem zero n h = absurd (omega arith)
decimal_from_lem (suc fuel) n h = elim (Bool-cases (ltb n 10)) [
  | inl small ↦ rw small (ground arith, ((omega arith, ground arith), tt))
  | inr large ↦
      let rest = decimal_from_lem fuel (n / 10) (ground arith) in
      rw large (
        value_from-append 0 (b'0' + n % 10) (decimal_from fuel (n / 10)) ∙ rw rest.0 (omega arith),
        All-append (λ c. (b'0' ≤ c) × (c ≤ b'9')) (decimal_from fuel (n / 10)) _ rest.1
            ((omega arith, omega arith), tt),
      )
]

-- With as many steps as digits, the digits stand for the number, and each is a decimal digit.
decimal_from_short :
    (fuel n : ℕ)
    → n < 10 ^ fuel
    → (value_from 0 (decimal_from fuel n) ≡ n)
      × All (λ c. (b'0' ≤ c) × (c ≤ b'9')) (decimal_from fuel n)
unfolding decimal_from value_from
decimal_from_short zero n h = (omega arith, tt)
decimal_from_short (suc fuel) n h = elim (Bool-cases (ltb n 10)) [
  | inl small ↦ rw small (ground arith, ((omega arith, ground arith), tt))
  | inr large ↦
      let rest = decimal_from_short fuel (n / 10) (omega arith) in
      rw large (
        value_from-append 0 (b'0' + n % 10) (decimal_from fuel (n / 10)) ∙ rw rest.0 (omega arith),
        All-append (λ c. (b'0' ≤ c) × (c ≤ b'9')) (decimal_from fuel (n / 10)) _ rest.1
            ((omega arith, omega arith), tt),
      )
]

length-decimal_from :
    (fuel width n : ℕ) → n < 10 ^ suc width → length (decimal_from fuel n) ≤ suc width
unfolding decimal_from
length-decimal_from zero width n h = omega arith
length-decimal_from (suc fuel) zero n h = rw ((ltb_iff n 10).1 (omega arith)) (omega arith)
length-decimal_from (suc fuel) (suc width) n h = elim (Bool-cases (ltb n 10)) [
  | inl small ↦ rw small (omega arith)
  | inr large ↦
      let rest = length-decimal_from fuel width (n / 10) (omega arith) in
      rw (large, length-append (decimal_from fuel (n / 10)) ((b'0' + n % 10) ∷ []))
        (omega (arith, rest))
]

-- The digits of an integer of at most 64 bits, which are at most twenty.
abbrev pub decimal : ℕ → Bytes
decimal n = decimal_from 20 n

pub decimal_lem :
    (n : ℕ)
    → n < 10 ^ 20
    → (value_from 0 (decimal n) ≡ n) × All (λ c. (b'0' ≤ c) × (c ≤ b'9')) (decimal n)
decimal_lem n h = decimal_from_short 20 n h

pub length-decimal : (width n : ℕ) → n < 10 ^ suc width → length (decimal n) ≤ suc width
length-decimal width n h = length-decimal_from 20 width n h

-- Whatever the number and the fuel, only decimal digits are written.
pub decimal_from-digits : (fuel n : ℕ) → All (λ c. (b'0' ≤ c) × (c ≤ b'9')) (decimal_from fuel n)
unfolding decimal_from
decimal_from-digits zero n = tt
decimal_from-digits (suc fuel) n = elim (Bool-cases (ltb n 10)) [
  | inl small ↦ rw small ((omega arith, ground arith), tt)
  | inr large ↦ rw large (
      All-append (λ c. (b'0' ≤ c) × (c ≤ b'9')) (decimal_from fuel (n / 10)) _
        (decimal_from-digits fuel (n / 10)) ((omega arith, omega arith), tt))
]
