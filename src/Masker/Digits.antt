-- ===== src/Masker/Digits.antt =====
-- What `mask_phone` and `mask_credit_card` show of a value: at most its last four digits.
use sql_proxy_service.Prelude.{
  ℕ, ◌+◌, ◌-◌, ◌≤◌, ◌<◌, ◌≡◌, refl, sym, ◌⊎◌, inl, inr, Bool, true, false, ◌||◌, none, some, [],
  ◌∷◌, ◌++◌, arith, ltb, ◌==◌, if◌then◌else◌, Bool-cases, length, take, all, take-append-drop,
  length-drop, length-take, All, Bytes, codes,
}
use sql_proxy_service.Masker.{
  full_redaction, is_digit, digits, last_four, mask_phone, card_digits, mask_credit_card,
}

-- `out` is the marker and the last four of the digits, of which at least `least` stay hidden.
pub record ShowsLastFour (marker : Bytes) (least : ℕ) (ds out : Bytes) : Type 0 where
  pub hidden : Bytes
  pub shown : Bytes
  pub split : ds ≡ hidden ++ shown
  pub four : length shown ≡ 4
  pub concealed : least ≤ length hidden
  pub out_lem : out ≡ marker ++ shown

last_four-ShowsLastFour :
    (marker : Bytes) (least : ℕ) (ds : Bytes)
    → least + 4 ≤ length ds
    → ShowsLastFour marker least ds (marker ++ last_four ds)
last_four-ShowsLastFour marker least ds h = record {
  hidden = take (length ds - 4) ds;
  shown = last_four ds;
  split = sym (take-append-drop (length ds - 4) ds);
  four = omega (arith, length-drop (length ds - 4) ds);
  concealed = omega (arith, length-take (length ds - 4) ds);
  out_lem = refl;
}

-- A value with fewer than seven digits is redacted whole; of any other the marker "***" and the
-- last four digits are shown, and at least three digits stay hidden.
pub mask_phone_cases :
    (value : Bytes)
    → ((length (digits value) < 7) × (mask_phone value ≡ full_redaction))
      ⊎ ((7 ≤ length (digits value))
          × ShowsLastFour (codes "***") 3 (digits value) (mask_phone value))
unfolding mask_phone
mask_phone_cases value = elim (Bool-cases (ltb (length (digits value)) 7)) [
  | inl few ↦ inl (ground arith, rw few)
  | inr many ↦ inr (
    ground arith,
    rw many (last_four-ShowsLastFour (codes "***") 3 (digits value) (ground arith)),
  )
]

-- The bytes that a card number may hold.
abbrev pub is_card_byte : ℕ → Bool
is_card_byte c = is_digit c || c == b' ' || c == b'-'

card_digits_lem :
    (value : Bytes)
    → card_digits value ≡ (if all is_card_byte value then some (digits value) else none)
unfolding card_digits digits
card_digits_lem [] = refl
card_digits_lem (c ∷ value) = ground (arith, card_digits_lem value)

-- A value that holds another byte than digits, spaces and hyphens, or fewer than twelve digits, is
-- redacted whole; of any other the marker "****" and the last four digits are shown, and at least
-- eight digits stay hidden.
pub mask_credit_card_cases :
    (value : Bytes)
    → (((all is_card_byte value ≡ false) ⊎ (length (digits value) < 12))
        × (mask_credit_card value ≡ full_redaction))
      ⊎ ((all is_card_byte value ≡ true)
          × (12 ≤ length (digits value))
          × ShowsLastFour (codes "****") 8 (digits value) (mask_credit_card value))
unfolding mask_credit_card
mask_credit_card_cases value = elim (Bool-cases (all is_card_byte value)) [
  | inr other ↦ inl (inl other, ground (arith, card_digits_lem value))
  | inl clean ↦ elim (Bool-cases (ltb (length (digits value)) 12)) [
    | inl few ↦ inl (inr (ground arith), ground (arith, card_digits_lem value))
    | inr many ↦
        let shown : mask_credit_card value ≡ codes "****" ++ last_four (digits value) =
          ground (arith, card_digits_lem value) in
        inr (
          clean,
          ground arith,
          rw shown (last_four-ShowsLastFour (codes "****") 8 (digits value) (ground arith)),
        )
  ]
]

-- Nothing but digits is collected.
pub digits-IsDigit : (value : Bytes) → All (λ c. is_digit c ≡ true) (digits value)
unfolding digits
digits-IsDigit [] = tt
digits-IsDigit (c ∷ value) = ground (arith, digits-IsDigit value)

digits-append : (s t : Bytes) → digits (s ++ t) ≡ digits s ++ digits t
unfolding digits
digits-append [] t = refl
digits-append (c ∷ s) t = ground (arith, digits-append s t)

-- Collecting digits from digits gives all of them.
pub digits_idem : (ds : Bytes) → All (λ c. is_digit c ≡ true) ds → digits ds ≡ ds
unfolding digits
digits_idem [] h = refl
digits_idem (c ∷ ds) h = ground (arith, digits_idem ds h.1)

pub All-suffix :
    (s t : Bytes) → All (λ c. is_digit c ≡ true) (s ++ t) → All (λ c. is_digit c ≡ true) t
All-suffix [] t h = h
All-suffix (c ∷ s) t h = All-suffix s t h.1
