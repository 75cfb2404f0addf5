-- ===== src/Masker/Email.antt =====
-- Which values `mask_email` takes for an address, and what it shows of one.
use sql_proxy_service.Prelude.{
  ℕ, suc, ◌+◌, ◌≤◌, ◌≡◌, refl, sym, ◌∙◌, ◌≢◌, ◌⊎◌, inl, inr, false, ◌||◌, [], ◌∷◌, ◌++◌, arith,
  if◌then◌else◌, length, is_empty, length-append, Bytes, codes,
}
use sql_proxy_service.Text.{Free}
use sql_proxy_service.Text.Qualifier.{find_cases, drop-suc-length}
use sql_proxy_service.Masker.{full_redaction, at, scan_at, kept_byte, mask_email}

scan_at-Free : (i n p : ℕ) (s : Bytes) → Free at s → scan_at i n p s ≡ (n, p)
unfolding scan_at
scan_at-Free i n p [] h = refl
scan_at-Free i n p (c ∷ s) h = ground (arith, scan_at-Free (suc i) n p s h.1)

scan_at-append :
    (i k n p : ℕ) (s t : Bytes)
    → Free at s
    → i + length s ≡ k
    → scan_at i n p (s ++ at ∷ t) ≡ scan_at (suc k) (suc n) k t
unfolding scan_at
scan_at-append i k n p [] t h e = let same : i ≡ k = omega arith in ground arith
scan_at-append i k n p (c ∷ s) t h e =
    ground (arith, scan_at-append (suc i) k n p s t h.1 (omega arith))

le-scan_at : (i n p : ℕ) (s : Bytes) → n ≤ (scan_at i n p s).0
unfolding scan_at
le-scan_at i n p [] = omega arith
le-scan_at i n p (c ∷ s) = ground (arith, le-scan_at (suc i) (suc n) i s, le-scan_at (suc i) n p s)

-- One '@', with something on both sides.
pub record IsAddress (value : Bytes) : Type 0 where
  pub first : ℕ
  pub local : Bytes
  pub domain : Bytes
  pub parts : value ≡ (first ∷ local) ++ at ∷ domain
  pub local_free : Free at (first ∷ local)
  pub domain_free : Free at domain
  pub domain_nonempty : domain ≢ []

scan_at-split : (s t : Bytes) → Free at s → Free at t → scan_at 0 0 0 (s ++ at ∷ t) ≡ (1, length s)
scan_at-split s t hs ht =
    scan_at-append 0 (length s) 0 0 s t hs (omega arith) ∙ scan_at-Free _ 1 (length s) t ht

-- A value with one '@'.
pub mask_email-split :
    (s t : Bytes)
    → Free at s
    → Free at t
    → mask_email (s ++ at ∷ t)
      ≡ (if is_empty s || is_empty t then full_redaction else kept_byte s ++ codes "***@" ++ t)
unfolding mask_email
mask_email-split [] t hs ht = ground (arith, scan_at-split [] t hs ht)
mask_email-split (c ∷ s) [] hs ht =
    ground (arith, scan_at-split (c ∷ s) [] hs ht, length-append s (at ∷ []))
mask_email-split (c ∷ s) (d ∷ t) hs ht = ground (
  arith,
  scan_at-split (c ∷ s) (d ∷ t) hs ht,
  length-append s (at ∷ d ∷ t),
  drop-suc-length at s (d ∷ t),
)

mask_email-none : (s : Bytes) → Free at s → mask_email s ≡ full_redaction
unfolding mask_email
mask_email-none s h = ground (arith, scan_at-Free 0 0 0 s h)

mask_email-several :
    (s t u : Bytes) → Free at s → Free at t → mask_email (s ++ at ∷ (t ++ at ∷ u)) ≡ full_redaction
unfolding mask_email
mask_email-several s t u hs ht =
    let first = scan_at-append 0 (length s) 0 0 s (t ++ at ∷ u) hs (omega arith) in
    let second =
      scan_at-append (suc (length s)) (suc (length s) + length t) 1 (length s) t u ht refl in
    let more = le-scan_at (suc (suc (length s) + length t)) 2 (suc (length s) + length t) u in
    ground (arith, first, second, more)

-- The masked form of an address: its first byte, if that is ASCII, and its domain.
abbrev pub masked_address : {value : Bytes} → IsAddress value → Bytes
masked_address a = kept_byte (a.first ∷ []) ++ codes "***@" ++ a.domain

pub is_empty-ne : (l : Bytes) → l ≢ [] → is_empty l ≡ false
is_empty-ne [] h = absurd (h refl)
is_empty-ne (x ∷ l) h = refl

mask_email-address : (value : Bytes) (a : IsAddress value) → mask_email value ≡ masked_address a
mask_email-address value a = ground (
  arith,
  a.parts,
  mask_email-split (a.first ∷ a.local) a.domain a.local_free a.domain_free,
  is_empty-ne a.domain a.domain_nonempty,
)

masked_address-ne : (value : Bytes) (a : IsAddress value) → masked_address a ≢ full_redaction
masked_address-ne value a = ground arith

redacted :
    (value : Bytes)
    → mask_email value ≡ full_redaction
    → ¬ IsAddress value × (mask_email value ≡ full_redaction)
redacted value e = (λ a. masked_address-ne value a (sym (mask_email-address value a) ∙ e), e)

one_at :
    (value s t : Bytes)
    → value ≡ s ++ at ∷ t
    → Free at s
    → Free at t
    → IsAddress value ⊎ (mask_email value ≡ full_redaction)
one_at value [] t e hs ht = inr (rw e (mask_email-split [] t hs ht))
one_at value (c ∷ s) [] e hs ht = inr (rw e (mask_email-split (c ∷ s) [] hs ht))
one_at value (c ∷ s) (d ∷ t) e hs ht = inl (record {
  first = c;
  local = s;
  domain = d ∷ t;
  parts = e;
  local_free = hs;
  domain_free = ht;
  domain_nonempty = λ h. cc;
})

IsAddress-or_redacted : (value : Bytes) → IsAddress value ⊎ (mask_email value ≡ full_redaction)
IsAddress-or_redacted value = elim (find_cases at value) [
  | inl (free, _) ↦ inr (mask_email-none value free)
  | inr (s, after, split, hs, _) ↦ elim (find_cases at after) [
    | inl (ht, _) ↦ one_at value s after split hs ht
    | inr (t, u, split', ht, _) ↦ inr (rw (split, split') (mask_email-several s t u hs ht))
  ]
]

-- Of an address the masked form keeps the first byte, if it is ASCII, and the domain, and nothing
-- else of the value; a value that is no address is redacted whole.
pub mask_email_cases :
    (value : Bytes)
    → ((a : IsAddress value) × (mask_email value ≡ masked_address a))
      ⊎ (¬ IsAddress value × (mask_email value ≡ full_redaction))
mask_email_cases value = elim (IsAddress-or_redacted value) [
  | inl a ↦ inl (a, mask_email-address value a)
  | inr e ↦ inr (redacted value e)
]
