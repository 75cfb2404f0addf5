-- ===== src/Config/Resolved.antt =====
-- What the resolved settings promise.
use sql_proxy_service.Prelude.{
  ℕ, ◌%◌, ◌^◌, ◌≤◌, ◌<◌, ◌≡◌, refl, ap, subst, ◌≢◌, ◌⊎◌, inl, inr, true, false, ◌&&◌, Option, none,
  some, [], ◌∷◌, arith, leb, Bool-cases, Option-cases, Bytes, codes,
}
use sql_proxy_service.Prelude.Int.{ℤ, pos, negsuc}
use sql_proxy_service.Config.Reading.{IsNumeral, whole_int-IsNumeral, IsNumeral-of_int}
use sql_proxy_service.Config.{
  PortSource, PortResolution, DatabaseConfigResolution, whole_int, is_between, magnitude, bad_port,
  not_an_integer, out_of_range, resolve_port, good_config, resolve_timeout, resolve_database_config,
}

-- The text is made of digits alone, at least one, for a number between two bounds.
pub record IsSetting (low high : ℕ) (raw : Bytes) (n : ℕ) : Type 0 where
  pub read : IsNumeral raw n
  pub least : low ≤ n
  pub most : n ≤ high

pub data Port (env : Option Bytes) (default_port : ℕ) (r : PortResolution) : Type 0 where
  unset :
      env ≡ none
      → r ≡ record { valid = true; port = default_port; source = PortSource.default; error = [] }
      → Port env default_port r
  given :
      (raw : Bytes) (n : ℕ)
      → env ≡ some raw
      → IsSetting 1 65535 raw n
      → r ≡ record { valid = true; port = n; source = PortSource.environment; error = [] }
      → Port env default_port r
  refused :
      (raw error : Bytes)
      → env ≡ some raw
      → ((n : ℕ) → ¬ IsSetting 1 65535 raw n)
      → r ≡ bad_port error
      → Port env default_port r

whole_int-IsSetting :
    (low high : ℕ) (raw : Bytes) (n : ℕ)
    → high < 2 ^ 31
    → IsSetting low high raw n
    → whole_int raw ≡ some (pos n)
whole_int-IsSetting low high raw n h s = whole_int-IsNumeral raw n s.read (omega (arith, h, s.most))

between_cases :
    (low high : ℕ) (raw : Bytes) (z : ℤ)
    → 1 ≤ low
    → high < 2 ^ 31
    → whole_int raw ≡ some z
    → ((n : ℕ) × (z ≡ pos n) × IsSetting low high raw n × (is_between low high z ≡ true))
      ⊎ (((n : ℕ) → ¬ IsSetting low high raw n) × (is_between low high z ≡ false))
between_cases low high raw (negsuc k) l m e =
    inr ((λ n s. cc (whole_int-IsSetting low high raw n m s, e)), refl)
between_cases low high raw (pos k) l m e = elim (Bool-cases (leb low k && leb k high)) [
  | inl h ↦
      let least : low ≤ k = ground arith in
      inl (
        k,
        refl,
        record {
          read = IsNumeral-of_int raw k e (omega (arith, l, least));
          least = least;
          most = ground arith;
        },
        h,
      )
  | inr h ↦ inr (
    (λ n s.
        let same : n ≡ k = cc (whole_int-IsSetting low high raw n m s, e) in
        ground (arith, same, s.least, s.most)),
    h,
  )
]

not_read :
    (low high : ℕ) (raw : Bytes)
    → high < 2 ^ 31
    → whole_int raw ≡ none
    → (n : ℕ) → ¬ IsSetting low high raw n
not_read low high raw h e n s = cc (whole_int-IsSetting low high raw n h s, e)

-- An unset port is the default one; a text of digits alone, for a number from 1 to 65535, is that port;
-- any other text is refused.
pub resolve_port-Port :
    (env : Option Bytes) (default_port : ℕ) → Port env default_port (resolve_port env default_port)
unfolding resolve_port
resolve_port-Port none default_port = unset refl refl
resolve_port-Port (some []) default_port =
    Port.refused [] (codes "PORT environment variable is set but empty") refl
      (λ n s. s.read.not_empty refl) refl
resolve_port-Port (some (c ∷ raw)) default_port = elim (Option-cases (whole_int (c ∷ raw))) [
  | inl e ↦
      Port.refused (c ∷ raw) (not_an_integer (c ∷ raw)) refl
        (not_read 1 65535 (c ∷ raw) (omega arith) e) (rw e)
  | inr (z, e) ↦ elim (between_cases 1 65535 (c ∷ raw) z (omega arith) (omega arith) e) [
    | inl (n, same, s, h) ↦
        let cast : magnitude z % 2 ^ 16 ≡ n = ground (arith, s.most) in
        given (c ∷ raw) n refl s (
          rw (e, h)
            (ap
              (λ (p : ℕ). record {
                valid = true;
                port = p;
                source = PortSource.environment;
                error = [];
              })
              cast))
    | inr (no_setting, h) ↦
        Port.refused (c ∷ raw) (out_of_range (c ∷ raw)) refl no_setting (rw (e, h))
  ]
]

-- The fixed texts of a refused database configuration.
abbrev pub IsFixedText : Bytes → Type 0
IsFixedText e =
    (e ≡ codes "DATABASE_URL environment variable is required but not set")
    ⊎ (e ≡ codes "DB_STATEMENT_TIMEOUT_MS is set but empty")
    ⊎ (e ≡ codes "DB_STATEMENT_TIMEOUT_MS is not a valid integer")
    ⊎ (e ≡ codes "DB_STATEMENT_TIMEOUT_MS is out of range (1-600000)")

-- A URL that is set and not empty, and a limit that is unset or in range.
abbrev pub Acceptable : Option Bytes → Option Bytes → Type 0
Acceptable url timeout =
    (u : Bytes) × (url ≡ some u)
    × (u ≢ [])
    × ((timeout ≡ none)
        ⊎ ((raw : Bytes) × (n : ℕ) × (timeout ≡ some raw) × IsSetting 1 600000 raw n))

pub data Database (url timeout : Option Bytes) (r : DatabaseConfigResolution) : Type 0 where
  defaulted :
      (u : Bytes)
      → url ≡ some u
      → u ≢ []
      → timeout ≡ none
      → r ≡ good_config u 5000
      → Database url timeout r
  limited :
      (u raw : Bytes) (n : ℕ)
      → url ≡ some u
      → u ≢ []
      → timeout ≡ some raw
      → IsSetting 1 600000 raw n
      → r ≡ good_config u n
      → Database url timeout r
  refused :
      ¬ Acceptable url timeout → r.valid ≡ false → IsFixedText r.error → Database url timeout r

not-Acceptable :
    (url : Option Bytes) (raw : Bytes)
    → ((n : ℕ) → ¬ IsSetting 1 600000 raw n)
    → ¬ Acceptable url (some raw)
not-Acceptable url raw no_setting (u, e, f, inl h) = cc h
not-Acceptable url raw no_setting (u, e, f, inr (text, n, h, s)) =
    no_setting n (subst (λ t. IsSetting 1 600000 t n) (cc h) s)

resolve_timeout-Database :
    (u : Bytes) (timeout : Option Bytes)
    → u ≢ []
    → Database (some u) timeout (resolve_timeout u timeout)
unfolding resolve_timeout
resolve_timeout-Database u none h = defaulted u refl h refl refl
resolve_timeout-Database u (some []) h =
    Database.refused (not-Acceptable (some u) [] (λ n s. s.read.not_empty refl)) refl
      (inr (inl refl))
resolve_timeout-Database u (some (c ∷ raw)) h = elim (Option-cases (whole_int (c ∷ raw))) [
  | inl e ↦
      Database.refused
        (not-Acceptable (some u) (c ∷ raw) (not_read 1 600000 (c ∷ raw) (omega arith) e)) (rw e)
        (inr (inr (inl (rw e))))
  | inr (z, e) ↦ elim (between_cases 1 600000 (c ∷ raw) z (omega arith) (omega arith) e) [
    | inl (n, same, s, k) ↦
        let whole : magnitude z ≡ n = ground arith in
        limited u (c ∷ raw) n refl h refl s (rw (e, k) (ap (good_config u) whole))
    | inr (no_setting, k) ↦
        Database.refused (not-Acceptable (some u) (c ∷ raw) no_setting) (rw (e, k))
          (inr (inr (inr (rw (e, k)))))
  ]
]

-- A URL that is set and not empty is accepted with the default limit of 5000 milliseconds if none
-- is given, and with the given one if it is a text of digits alone, for a number from 1 to 600000.
-- Anything else is refused with one of four fixed texts, which hold neither variable's value.
pub resolve_database_config-Database :
    (url timeout : Option Bytes) → Database url timeout (resolve_database_config url timeout)
unfolding resolve_database_config
resolve_database_config-Database none timeout =
    Database.refused (λ a. let (u, e, _, _) = a in cc e) refl (inl refl)
resolve_database_config-Database (some []) timeout =
    Database.refused (λ a. let (u, e, f, _) = a in absurd (f (cc e))) refl (inl refl)
resolve_database_config-Database (some (c ∷ u)) timeout =
    resolve_timeout-Database (c ∷ u) timeout (λ e. cc)
