-- ===== src/Masker/Unchanged.antt =====
-- Which values masking returns as they are.
use sql_proxy_service.Prelude.{
  ℕ, ◌<◌, ◌≡◌, refl, sym, ap, ◌∙◌, subst, ◌≢◌, ◌↔◌, ◌⊎◌, inl, inr, true, [], ◌∷◌, ◌++◌, arith, leb,
  Bool-cases, length, all, All, Bytes, codes,
}
use sql_proxy_service.Classifier.{PiiCategory}
use sql_proxy_service.Text.{Free}
use sql_proxy_service.Masker.{
  full_redaction, at, digits, mask_email, mask_phone, mask_credit_card, mask_value, is_digit,
}
use sql_proxy_service.Masker.Email.{mask_email_cases, mask_email-split, is_empty-ne}
use sql_proxy_service.Masker.Digits.{
  mask_phone_cases, mask_credit_card_cases, is_card_byte, digits-IsDigit, digits_idem, All-suffix,
}

-- An address that is already masked: one ASCII byte, "***@", a domain.
pub record IsMaskedAddress (value : Bytes) : Type 0 where
  pub first : ℕ
  pub domain : Bytes
  pub ascii : first < 128
  pub not_at : first ≢ at
  pub domain_free : Free at domain
  pub domain_nonempty : domain ≢ []
  pub parts : value ≡ first ∷ codes "***@" ++ domain

mask_email-fixed :
    (value : Bytes) → mask_email value ≡ value → (value ≡ full_redaction) ⊎ IsMaskedAddress value
mask_email-fixed value h = elim (mask_email_cases value) [
  | inr (_, e) ↦ inl (sym h ∙ e)
  | inl (a, e) ↦ elim (Bool-cases (leb 128 a.first)) [
    | inl wide ↦ ground arith
    | inr ascii ↦ inr (record {
      first = a.first;
      domain = a.domain;
      ascii = ground arith;
      not_at = a.local_free.0;
      domain_free = a.domain_free;
      domain_nonempty = a.domain_nonempty;
      parts = sym h ∙ e ∙ rw ascii;
    })
  ]
]

mask_email-masked : (value : Bytes) → IsMaskedAddress value → mask_email value ≡ value
mask_email-masked value a =
    let free : Free at (a.first ∷ codes "***") = (a.not_at, omega arith) in
    ground (
      arith,
      mask_email-split (a.first ∷ codes "***") a.domain free a.domain_free,
      is_empty-ne a.domain a.domain_nonempty,
    )

mask_phone-fixed : (value : Bytes) → mask_phone value ≡ value → value ≡ full_redaction
unfolding digits
mask_phone-fixed value h = elim (mask_phone_cases value) [
  | inl (_, e) ↦ sym h ∙ e
  | inr (many, s) ↦
      let starred : value ≡ codes "***" ++ s.shown = sym h ∙ s.out_lem in
      let all_digits =
        All-suffix s.hidden s.shown
          (subst (All (λ c. is_digit c ≡ true)) s.split (digits-IsDigit value)) in
      let few : digits value ≡ s.shown = ap digits starred ∙ digits_idem s.shown all_digits in
      absurd (omega (arith, ap length few, s.four, many))
]

mask_credit_card-fixed : (value : Bytes) → mask_credit_card value ≡ value → value ≡ full_redaction
mask_credit_card-fixed value h = elim (mask_credit_card_cases value) [
  | inl (_, e) ↦ sym h ∙ e
  | inr (clean, many, s) ↦
      let starred : value ≡ codes "****" ++ s.shown = sym h ∙ s.out_lem in
      cc (subst (λ v. all is_card_byte v ≡ true) starred clean)
]

redaction-fixed : (category : PiiCategory) → mask_value category full_redaction ≡ full_redaction
unfolding mask_value mask_email mask_phone mask_credit_card
redaction-fixed PiiCategory.email = refl
redaction-fixed PiiCategory.phone = refl
redaction-fixed PiiCategory.credit_card = refl

-- A value comes back from masking as it went in exactly if it is the text "***" or, among e-mail
-- values, an address that is already in the masked form. Every other value changes.
pub mask_value-fixed_iff :
    (category : PiiCategory) (value : Bytes)
    → (mask_value category value ≡ value)
      ↔ ((value ≡ full_redaction) ⊎ ((category ≡ PiiCategory.email) × IsMaskedAddress value))
unfolding mask_value
mask_value-fixed_iff PiiCategory.email value = (
  (λ h. ground (arith, mask_email-fixed value h)),
  (λ h. elim h [
    | inl e ↦ cc (redaction-fixed PiiCategory.email)
    | inr p ↦ mask_email-masked value p.1
  ]),
)
mask_value-fixed_iff PiiCategory.phone value = (
  (λ h. inl (mask_phone-fixed value h)),
  (λ h. ground (arith, redaction-fixed PiiCategory.phone)),
)
mask_value-fixed_iff PiiCategory.credit_card value = (
  (λ h. inl (mask_credit_card-fixed value h)),
  (λ h. ground (arith, redaction-fixed PiiCategory.credit_card)),
)
