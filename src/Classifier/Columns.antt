-- ===== src/Classifier/Columns.antt =====
-- The classification as a whole: its invariants, and the three shapes that it can attribute.
use sql_proxy_service.Prelude.{
  ℕ, zero, suc, ◌≡◌, refl, ap, ◌≢◌, ◌↔◌, ◌⊎◌, inl, inr, Bool, true, false, ◌||◌, none, List, [],
  ◌∷◌, arith, if◌then◌else◌, Bool-cases, length, replicate, length-replicate, All, Bytes,
}
use sql_proxy_service.Analysis.{SqlAnalysis}
use sql_proxy_service.Execution.{ColumnInfo}
use sql_proxy_service.Classifier.{
  ColumnDataClass, ColumnClassification, ClassificationResult, default_classification, not_pii,
  Mappings, positional_shape, wildcard_shape, count_star_only_shape, classify_source,
  projection_source, classify_columns, classify,
}

-- `data_class == Pii` exactly if there is a category.
abbrev pub HasCategoryIfPii : ColumnClassification → Type 0
HasCategoryIfPii c = (c.data_class ≡ ColumnDataClass.pii) ↔ (c.pii_category ≢ none)

abbrev pub IsAttributed : ColumnClassification → Type 0
IsAttributed c = c.data_class ≢ ColumnDataClass.unattributed

-- The contract of `ClassificationResult` in the source's comments.
pub record IsWellFormed (columns : List ColumnInfo) (r : ClassificationResult) : Type 0 where
  pub one_each : length r.columns ≡ length columns
  pub categories : All HasCategoryIfPii r.columns
  pub flag : (r.fully_attributed ≡ true) ↔ All IsAttributed r.columns

classify_source-HasCategoryIfPii :
    (m : Mappings) (s : Bytes) → HasCategoryIfPii (classify_source m s)
unfolding classify_source
classify_source-HasCategoryIfPii m s = ground arith

classify_source-IsAttributed : (m : Mappings) (s : Bytes) → IsAttributed (classify_source m s)
unfolding classify_source
classify_source-IsAttributed m s = ground arith

module _ (m : Mappings) (a : SqlAnalysis) (counts positional : Bool) where
  length-classify_columns :
      (i : ℕ) (l : List ColumnInfo) → length (classify_columns m a counts positional i l) ≡ length l
  unfolding classify_columns
  length-classify_columns i [] = refl
  length-classify_columns i (c ∷ l) = ap suc (length-classify_columns (suc i) l)

  -- What holds of a plain column and of what a name looks up holds of every column.
  classify_columns-All :
      (P : ColumnClassification → Type 0)
      → P not_pii
      → ((s : Bytes) → P (classify_source m s))
      → (i : ℕ) (l : List ColumnInfo) → All P (classify_columns m a counts positional i l)
  unfolding classify_columns
  classify_columns-All P plain looked_up i [] = tt
  classify_columns-All P plain looked_up i (c ∷ l) =
      (here counts, classify_columns-All P plain looked_up (suc i) l)
    where
      source : Bytes
      source = if positional then projection_source a.projection_columns i else c.name

      here : (b : Bool) → P (if b then not_pii else classify_source m source)
      here true = plain
      here false = looked_up source

All-replicate :
    (P : ColumnClassification → Type 0) (n : ℕ)
    → P default_classification
    → All P (replicate n default_classification)
All-replicate P zero h = tt
All-replicate P (suc n) h = (h, All-replicate P n h)

not-All-IsAttributed :
    (c : ColumnInfo) (l : List ColumnInfo)
    → ¬ All IsAttributed (replicate (length (c ∷ l)) default_classification)
not-All-IsAttributed c l h = h.0 refl

-- What the classifier returns in its three cases.
abbrev pub refused : List ColumnInfo → ClassificationResult
refused l = record {
  columns = replicate (length l) default_classification;
  fully_attributed = false;
}

refused-IsWellFormed :
    (c : ColumnInfo) (l : List ColumnInfo) → IsWellFormed (c ∷ l) (refused (c ∷ l))
refused-IsWellFormed c l = record {
  one_each = length-replicate (length (c ∷ l)) default_classification;
  categories = All-replicate HasCategoryIfPii (length (c ∷ l)) (ground arith);
  flag = ((λ h. cc), (λ h. absurd (not-All-IsAttributed c l h)));
}

abbrev pub attributed : Mappings → SqlAnalysis → List ColumnInfo → ClassificationResult
attributed m a l = record {
  columns = classify_columns m a (count_star_only_shape a) (positional_shape a l) 0 l;
  fully_attributed = true;
}

attributed-IsWellFormed :
    (m : Mappings) (a : SqlAnalysis) (l : List ColumnInfo) → IsWellFormed l (attributed m a l)
attributed-IsWellFormed m a l =
    let counts = count_star_only_shape a in
    let positional = positional_shape a l in
    record {
      one_each = length-classify_columns m a counts positional 0 l;
      categories =
          classify_columns-All m a counts positional HasCategoryIfPii (ground arith)
            (classify_source-HasCategoryIfPii m) 0 l;
      flag = (
        (λ h.
            classify_columns-All m a counts positional IsAttributed (ground arith)
              (classify_source-IsAttributed m) 0 l),
        (λ h. refl),
      );
    }

-- The shapes that the classifier can attribute.
abbrev pub is_attributable : SqlAnalysis → List ColumnInfo → Bool
is_attributable a l = positional_shape a l || wildcard_shape a || count_star_only_shape a

-- A non-empty result is attributed as a whole or refused as a whole, by its shape.
pub classify_cases :
    (m : Mappings) (a : SqlAnalysis) (c : ColumnInfo) (l : List ColumnInfo)
    → classify m a (c ∷ l)
      ≡ (if is_attributable a (c ∷ l) then attributed m a (c ∷ l) else refused (c ∷ l))
unfolding classify
classify_cases m a c l = ground arith

-- The classification has one entry for each result column, an entry has a category exactly if it
-- is personal data, and the flag says whether every column is attributed.
pub classify-IsWellFormed :
    (m : Mappings) (a : SqlAnalysis) (l : List ColumnInfo) → IsWellFormed l (classify m a l)
unfolding classify
classify-IsWellFormed m a [] = record {
  one_each = refl;
  categories = tt;
  flag = ((λ h. tt), (λ h. refl));
}
classify-IsWellFormed m a (c ∷ l) = elim (Bool-cases (is_attributable a (c ∷ l))) [
  | inl h ↦ rw (classify_cases m a c l, h) (attributed-IsWellFormed m a (c ∷ l))
  | inr h ↦ rw (classify_cases m a c l, h) (refused-IsWellFormed c l)
]

-- No column of a non-empty result is classified unless all are: either the flag is set and every
-- column is attributed, or it is not and no column is.
classify_all_or_nothing :
    (m : Mappings) (a : SqlAnalysis) (c : ColumnInfo) (l : List ColumnInfo)
    → (((classify m a (c ∷ l)).fully_attributed ≡ true)
        × All IsAttributed (classify m a (c ∷ l)).columns)
      ⊎ (((classify m a (c ∷ l)).fully_attributed ≡ false)
          × All (λ k. k ≡ default_classification) (classify m a (c ∷ l)).columns)
classify_all_or_nothing m a c l = elim (Bool-cases (is_attributable a (c ∷ l))) [
  | inl h ↦
      inl (rw (classify_cases m a c l, h) (refl, (attributed-IsWellFormed m a (c ∷ l)).flag.0 refl))
  | inr h ↦ inr (
      rw (classify_cases m a c l, h)
        (refl, All-replicate (λ k. k ≡ default_classification) (length (c ∷ l)) refl))
]
