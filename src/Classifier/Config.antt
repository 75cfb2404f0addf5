-- ===== src/Classifier/Config.antt =====
-- The constructor: which configurations it refuses, and what the lookups answer afterwards.
use sql_proxy_service.Prelude.{
  ℕ, zero, suc, ◌≡◌, refl, ap, ◌↔◌, inl, inr, false, none, some, List, [], ◌∷◌, ◌++◌, map, arith,
  Bool-cases, Option-cases, get_elem?, All, Bytes, bytes_eq, bytes_eq_refl, eq_of_bytes_eq, ok,
  threw, Fault-cases, occurs, Distinct, bytes_eq_comm, occurs-append,
}
use mathlib.Core.List.{append_assoc, append-nil}
use sql_proxy_service.Text.{ascii_lower}
use sql_proxy_service.Classifier.{
  PiiCategory, Mappings, find_mapping, build_mappings, data_classifier,
  default_classification_config, classify_source, pii_column, not_pii,
}

abbrev pub keys : Mappings → List Bytes
keys m = map (λ e. e.0) m

abbrev pub lowered : Mappings → Mappings
lowered m = map (λ e. (ascii_lower e.0, e.1)) m

find_mapping-none_iff :
    (k : Bytes) (m : Mappings) → (find_mapping k m ≡ none) ↔ (occurs k (keys m) ≡ false)
unfolding find_mapping
find_mapping-none_iff k [] = ((λ h. refl), (λ h. refl))
find_mapping-none_iff k ((j, c) ∷ m) = (
  (λ h. ground (arith, (find_mapping-none_iff k m).0, bytes_eq_comm k j)),
  (λ h. ground (arith, (find_mapping-none_iff k m).1, bytes_eq_comm k j)),
)

-- The keys still to come are new and differ among themselves.
abbrev Fresh : List Bytes → List Bytes → Type 0
Fresh built l = All (λ k. occurs k built ≡ false) l × Distinct l

All-snoc :
    (built : List Bytes) (x : Bytes) (l : List Bytes)
    → (All (λ k. occurs k built ≡ false) l × (occurs x l ≡ false))
      ↔ All (λ k. occurs k (built ++ x ∷ []) ≡ false) l
All-snoc built x [] = ((λ h. tt), (λ h. (tt, refl)))
All-snoc built x (y ∷ l) = (
  (λ h. ground (arith, occurs-append y built (x ∷ []), bytes_eq_comm x y, (All-snoc built x l).0)),
  (λ h. ground (arith, occurs-append y built (x ∷ []), bytes_eq_comm x y, (All-snoc built x l).1)),
)

keys-snoc :
    (built : Mappings) (k : Bytes) (c : PiiCategory)
    → keys (built ++ (k, c) ∷ []) ≡ keys built ++ k ∷ []
keys-snoc [] k c = refl
keys-snoc (e ∷ built) k c = ap (◌∷◌ e.0) (keys-snoc built k c)

build_mappings-ok :
    (built config : Mappings)
    → Fresh (keys built) (keys (lowered config))
    → build_mappings built config ≡ ok (built ++ lowered config)
unfolding build_mappings
build_mappings-ok built [] h = rw append-nil
build_mappings-ok built ((name, c) ∷ config) h =
    let k = ascii_lower name in
    let tail : Fresh (keys (built ++ (k, c) ∷ [])) (keys (lowered config)) =
      rw (keys-snoc built k c)
        ((All-snoc (keys built) k (keys (lowered config))).0 (h.0.1, h.1.0), h.1.1) in
    let rest = build_mappings-ok (built ++ (k, c) ∷ []) config tail in
    ground (
      arith,
      (find_mapping-none_iff k built).1 h.0.0,
      rest,
      append_assoc built ((k, c) ∷ []) (lowered config),
    )

Fresh-of_build_mappings :
    (built config m : Mappings)
    → build_mappings built config ≡ ok m
    → Fresh (keys built) (keys (lowered config))
unfolding build_mappings
Fresh-of_build_mappings built [] m h = (tt, tt)
Fresh-of_build_mappings built ((name, c) ∷ config) m h =
    let k = ascii_lower name in
    elim (Option-cases (find_mapping k built)) [
      | inr (d, e) ↦ ground arith
      | inl e ↦
          let rest : build_mappings (built ++ (k, c) ∷ []) config ≡ ok m = ground arith in
          let (new, distinct) = Fresh-of_build_mappings (built ++ (k, c) ∷ []) config m rest in
          let (old, other) =
            (All-snoc (keys built) k (keys (lowered config))).1 (rw (keys-snoc built k c) at new) in
          (((find_mapping-none_iff k built).0 e, old), (other, distinct))
    ]

All_new : (l : List Bytes) → All (λ k. occurs k [] ≡ false) l
All_new [] = tt
All_new (x ∷ l) = (refl, All_new l)

-- The constructor accepts a configuration exactly if no two of its names are equal once their
-- ASCII letters are lowered, and what it then holds is the configuration with lowered names.
pub data_classifier_iff :
    (config : Mappings)
    → (Distinct (keys (lowered config)) ↔ (data_classifier config ≡ ok (lowered config)))
      × (¬ Distinct (keys (lowered config)) → data_classifier config ≡ threw)
unfolding data_classifier
data_classifier_iff config = (
  (
    (λ d. build_mappings-ok [] config (All_new _, d)),
    (λ h. (Fresh-of_build_mappings [] config (lowered config) h).1),
  ),
  (λ clash. elim (Fault-cases (build_mappings [] config)) [
    | inl e ↦ e
    | inr (m, e) ↦ absurd (clash (Fresh-of_build_mappings [] config m e).1)
  ]),
)

find_mapping-lowered :
    (config : Mappings) (i : ℕ) (name : Bytes) (c : PiiCategory)
    → Distinct (keys (lowered config))
    → get_elem? config i ≡ some (name, c)
    → find_mapping (ascii_lower name) (lowered config) ≡ some c
unfolding find_mapping
find_mapping-lowered [] i name c d h = cc
find_mapping-lowered ((n, k) ∷ config) zero name c d h =
    ground (arith, bytes_eq_refl (ascii_lower name))
find_mapping-lowered ((n, k) ∷ config) (suc i) name c d h =
    let later = find_mapping-lowered config i name c d.1 h in
    elim (Bool-cases (bytes_eq (ascii_lower n) (ascii_lower name))) [
      | inr other ↦ rw other later
      | inl same ↦
          let e = eq_of_bytes_eq (ascii_lower n) (ascii_lower name) same in
          let missing = (find_mapping-none_iff (ascii_lower n) (lowered config)).1 d.0 in
          cc (rw e at missing, later)
    ]

-- Under an accepted configuration a source name that equals a configured one but for the case of
-- its ASCII letters is personal data of that entry's category, and a name that equals none of them
-- is not classified as personal data.
classify_source_lem :
    (config m : Mappings) (source : Bytes)
    → data_classifier config ≡ ok m
    → ((i : ℕ) (name : Bytes) (c : PiiCategory)
        → get_elem? config i ≡ some (name, c)
        → ascii_lower source ≡ ascii_lower name
        → classify_source m source ≡ pii_column c)
      × (occurs (ascii_lower source) (keys (lowered config)) ≡ false
          → classify_source m source ≡ not_pii)
unfolding classify_source data_classifier
classify_source_lem config m source h = (
  (λ i name c e same. ground (arith, found i name c e, shape)),
  (λ missing.
      ground
        (arith, (find_mapping-none_iff (ascii_lower source) (lowered config)).1 missing, shape)),
)
  where
    distinct : Distinct (keys (lowered config))
    distinct = (Fresh-of_build_mappings [] config m h).1

    shape : m ≡ lowered config
    shape = cc (build_mappings-ok [] config (All_new _, distinct), h)

    found :
        (i : ℕ) (name : Bytes) (c : PiiCategory)
        → get_elem? config i ≡ some (name, c)
        → find_mapping (ascii_lower name) (lowered config) ≡ some c
    found i name c = find_mapping-lowered config i name c distinct

-- The default configuration is accepted.
pub default_config_ok :
    data_classifier default_classification_config ≡ ok default_classification_config
unfolding data_classifier build_mappings find_mapping ascii_lower bytes_eq
default_config_ok = refl
