-- ===== src/Text/Qualifier.antt =====
-- Splitting a name at its first or last dot.
use sql_proxy_service.Prelude.{
  ℕ, suc, ◌≡◌, refl, ap, ◌⊎◌, inl, inr, none, some, [], ◌∷◌, ◌++◌, arith, ◌==◌, Bool-cases, length,
  take, drop, Bytes,
}
use sql_proxy_service.Text.{find, rfind, Free}

-- The first dot: found just behind a dot-free part that a dot ends, and nowhere in a dot-free text.
pub find-append : (c : ℕ) (s t : Bytes) → Free c s → find c (s ++ c ∷ t) ≡ some (length s)
unfolding find
find-append c [] t h = ground arith
find-append c (b ∷ s) t h = ground (arith, find-append c s t h.1)

pub find-Free : (c : ℕ) (s : Bytes) → Free c s → find c s ≡ none
unfolding find
find-Free c [] h = refl
find-Free c (b ∷ s) h = ground (arith, find-Free c s h.1)

-- A text has no dot, or splits at its first one.
pub find_cases :
    (c : ℕ) (s : Bytes)
    → (Free c s × (find c s ≡ none))
      ⊎ ((before : Bytes) × (after : Bytes) × (s ≡ before ++ c ∷ after)
          × Free c before
          × (find c s ≡ some (length before)))
unfolding find
find_cases c [] = inl (tt, refl)
find_cases c (b ∷ s) = elim (Bool-cases (b == c)) [
  | inl here ↦ inr ([], s, ground arith, tt, ground arith)
  | inr other ↦ elim (find_cases c s) [
    | inl (free, e) ↦ inl ((ground arith, free), ground arith)
    | inr (before, after, split, free, e) ↦
        inr (b ∷ before, after, ap (◌∷◌ b) split, (ground arith, free), ground arith)
  ]
]

pub rfind-Free : (c : ℕ) (s : Bytes) → Free c s → rfind c s ≡ none
unfolding rfind
rfind-Free c [] h = refl
rfind-Free c (b ∷ s) h = ground (arith, rfind-Free c s h.1)

-- The last dot: whatever stands before it.
pub rfind-append : (c : ℕ) (s t : Bytes) → Free c t → rfind c (s ++ c ∷ t) ≡ some (length s)
unfolding rfind
rfind-append c [] t h = ground (arith, rfind-Free c t h)
rfind-append c (b ∷ s) t h = ground (arith, rfind-append c s t h)

rfind_cases :
    (c : ℕ) (s : Bytes)
    → (Free c s × (rfind c s ≡ none))
      ⊎ ((before : Bytes) × (after : Bytes) × (s ≡ before ++ c ∷ after)
          × Free c after
          × (rfind c s ≡ some (length before)))
unfolding rfind
rfind_cases c [] = inl (tt, refl)
rfind_cases c (b ∷ s) = elim (rfind_cases c s) [
  | inr (before, after, split, free, e) ↦
      inr (b ∷ before, after, ap (◌∷◌ b) split, free, ground arith)
  | inl (free, e) ↦ elim (Bool-cases (b == c)) [
    | inl here ↦ inr ([], s, ground arith, free, ground arith)
    | inr other ↦ inl ((ground arith, free), ground arith)
  ]
]

pub take-append_length : (s t : Bytes) → take (length s) (s ++ t) ≡ s
take-append_length [] t = refl
take-append_length (b ∷ s) t = ap (◌∷◌ b) (take-append_length s t)

pub drop-suc-length : (c : ℕ) (s t : Bytes) → drop (suc (length s)) (s ++ c ∷ t) ≡ t
drop-suc-length c [] t = refl
drop-suc-length c (b ∷ s) t = drop-suc-length c s t
