-- ===== src/Prelude/Dedup.antt =====
-- Lists of strings without repetition.
use mathlib.Core.Path.{◌≡◌, refl, ap, sym}
use mathlib.Core.Bool.{Bool, true, false, not, ◌||◌, ◌&&◌}
use mathlib.Core.List.{List, [], ◌∷◌, ◌++◌}
use native.Mathlib.Omega.{arith}
use sql_proxy_service.Prelude.Tests.{if◌then◌else◌, Bool-eq_of_iff}
use sql_proxy_service.Prelude.Lists.{any}
use sql_proxy_service.Prelude.Strings.{Bytes, bytes_eq, bytes_eq_iff, bytes_eq_refl, eq_of_bytes_eq}

-- `std::find(l.begin(), l.end(), x) != l.end()`
abbrev pub occurs : Bytes → List Bytes → Bool
occurs x l = any (bytes_eq x) l

abbrev pub without : Bytes → List Bytes → List Bytes
without x [] = []
without x (y ∷ l) = if bytes_eq x y then without x l else y ∷ without x l

-- The first occurrences, in order.
abbrev pub dedup : List Bytes → List Bytes
dedup [] = []
dedup (x ∷ l) = x ∷ without x (dedup l)

-- What of the second list does not occur in the first.
abbrev pub remaining : List Bytes → List Bytes → List Bytes
remaining acc [] = []
remaining acc (y ∷ l) = if occurs y acc then remaining acc l else y ∷ remaining acc l

abbrev pub Distinct : List Bytes → Type 0
Distinct [] = Unit
Distinct (x ∷ l) = (occurs x l ≡ false) × Distinct l

pub bytes_eq_comm : (s t : Bytes) → bytes_eq s t ≡ bytes_eq t s
bytes_eq_comm s t =
    Bool-eq_of_iff _ _ (λ h. (bytes_eq_iff t s).1 (sym (eq_of_bytes_eq s t h)))
      (λ h. (bytes_eq_iff s t).1 (sym (eq_of_bytes_eq t s h)))

pub occurs-append : (x : Bytes) (l k : List Bytes) → occurs x (l ++ k) ≡ (occurs x l || occurs x k)
occurs-append x [] k = refl
occurs-append x (y ∷ l) k = ground (arith, occurs-append x l k)

pub occurs-without :
    (x y : Bytes) (l : List Bytes) → occurs y (without x l) ≡ (not (bytes_eq x y) && occurs y l)
occurs-without x y [] = ground arith
occurs-without x y (z ∷ l) =
    ground (arith, occurs-without x y l, bytes_eq_iff x z, bytes_eq_iff y z, bytes_eq_iff x y)

pub remaining-without_of_occurs :
    (x : Bytes) (acc l : List Bytes)
    → occurs x acc ≡ true
    → remaining acc (without x l) ≡ remaining acc l
remaining-without_of_occurs x acc [] h = refl
remaining-without_of_occurs x acc (y ∷ l) h =
    ground (arith, remaining-without_of_occurs x acc l h, eq_of_bytes_eq x y)

pub remaining-append :
    (x : Bytes) (acc l : List Bytes) → remaining (acc ++ x ∷ []) l ≡ remaining acc (without x l)
remaining-append x acc [] = refl
remaining-append x acc (y ∷ l) =
    ground (arith, remaining-append x acc l, occurs-append y acc (x ∷ []), bytes_eq_comm x y)

pub remaining-nil : (l : List Bytes) → remaining [] l ≡ l
remaining-nil [] = refl
remaining-nil (x ∷ l) = ap (◌∷◌ x) (remaining-nil l)

pub without-Distinct : (x : Bytes) (l : List Bytes) → Distinct l → Distinct (without x l)
without-Distinct x [] d = tt
without-Distinct x (y ∷ l) d = ground (arith, without-Distinct x l d.1, occurs-without x y l)

pub dedup-Distinct : (l : List Bytes) → Distinct (dedup l)
dedup-Distinct [] = tt
dedup-Distinct (x ∷ l) = (
  ground (arith, occurs-without x x (dedup l), bytes_eq_refl x),
  without-Distinct x (dedup l) (dedup-Distinct l),
)

pub occurs-dedup : (x : Bytes) (l : List Bytes) → occurs x (dedup l) ≡ occurs x l
occurs-dedup x [] = refl
occurs-dedup x (y ∷ l) =
    ground (arith, occurs-dedup x l, occurs-without y x (dedup l), bytes_eq_comm x y)
