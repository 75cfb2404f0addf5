-- ===== src/Text.antt =====
-- The string helpers that several components of `src/core/` repeat: the ASCII lowering of
-- `policy_engine.cpp`, `data_classifier.cpp` and `parser/hyrise_sql_parser.cpp`, and the members
-- of `std::string` that they call.
pub mod Qualifier
use sql_proxy_service.Prelude.{
  ℕ, suc, ◌+◌, ◌-◌, ◌≡◌, refl, ap, ◌≢◌, ◌↔◌, Bool, true, false, ◌&&◌, Option, none, some, [], ◌∷◌,
  ◌++◌, arith, leb, ◌==◌, if◌then◌else◌, length, All, Bytes,
}

abbrev pub dot : ℕ
dot = b'.'

-- The body of the loop of `ascii_lower`.
unfoldable pub lower_byte : ℕ → ℕ
lower_byte c = if leb b'A' c && leb c b'Z' then c - b'A' + b'a' else c

unfoldable pub ascii_lower : Bytes → Bytes
unfolding lower_byte
ascii_lower [] = []
ascii_lower (c ∷ s) = lower_byte c ∷ ascii_lower s

-- `s.find(c)`; `none` is `npos`.
unfoldable pub find : ℕ → Bytes → Option ℕ
find c [] = none
find c (b ∷ s) = if b == c then some 0 else elim (find c s) [ none ↦ none | some i ↦ some (suc i) ]

-- `s.rfind(c)`
unfoldable pub rfind : ℕ → Bytes → Option ℕ
rfind c [] = none
rfind c (b ∷ s) = elim (rfind c s) [
  | some i ↦ some (suc i)
  | none ↦ if b == c then some 0 else none
]

-- `s.rfind(prefix, 0) == 0`
unfoldable pub starts_with : Bytes → Bytes → Bool
starts_with [] s = true
starts_with (p ∷ prefix) [] = false
starts_with (p ∷ prefix) (b ∷ s) = p == b && starts_with prefix s

-- No byte of the text is the given one.
abbrev pub Free : ℕ → Bytes → Type 0
Free c s = All (λ b. b ≢ c) s

-- A prefix test succeeds exactly on the extensions of the prefix.
pub starts_with_iff : (p s : Bytes) → (starts_with p s ≡ true) ↔ ((rest : Bytes) × (s ≡ p ++ rest))
unfolding starts_with
starts_with_iff [] s = ((λ h. (s, refl)), (λ h. refl))
starts_with_iff (a ∷ p) [] = ((λ h. cc), (λ h. cc (h.1)))
starts_with_iff (a ∷ p) (b ∷ s) = (
  (λ h. let (rest, e) = (starts_with_iff p s).0 (ground arith) in (rest, ground arith)),
  (λ h. ground (arith, (starts_with_iff p s).1 (h.0, ground arith))),
)

pub ascii_lower-append : (s t : Bytes) → ascii_lower (s ++ t) ≡ ascii_lower s ++ ascii_lower t
unfolding ascii_lower
ascii_lower-append [] t = refl
ascii_lower-append (c ∷ s) t = cc (ascii_lower-append s t)

-- Lowering twice is lowering once.
pub ascii_lower_idem : (s : Bytes) → ascii_lower (ascii_lower s) ≡ ascii_lower s
unfolding ascii_lower
ascii_lower_idem [] = refl
ascii_lower_idem (c ∷ s) = ground (arith, ascii_lower_idem s)

length-ascii_lower : (s : Bytes) → length (ascii_lower s) ≡ length s
unfolding ascii_lower
length-ascii_lower [] = refl
length-ascii_lower (c ∷ s) = ap suc (length-ascii_lower s)

-- Lowering neither makes nor removes a byte that is no letter: here, the dot.
pub ascii_lower-Free : (s : Bytes) → Free dot s → Free dot (ascii_lower s)
unfolding ascii_lower
ascii_lower-Free [] h = tt
ascii_lower-Free (c ∷ s) h = (ground arith, ascii_lower-Free s h.1)
