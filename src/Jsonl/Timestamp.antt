-- ===== src/Jsonl/Timestamp.antt =====
-- The timestamp of a line, and how it is read back.
use sql_proxy_service.Prelude.{
  ℕ, zero, suc, ◌+◌, ◌-◌, ◌/◌, ◌%◌, ◌^◌, ◌≤◌, ◌<◌, ◌≡◌, refl, sym, ◌∙◌, not, Option, none, some, [],
  ◌∷◌, ◌++◌, arith, if◌then◌else◌, length, take, drop, replicate, length-append, length-replicate,
  All, All-append, Bytes, codes, bytes_eq,
}
use sql_proxy_service.Prelude.Int.{ℤ, pos}
use sql_proxy_service.Prelude.Decimal.{decimal, value_from, decimal_lem, length-decimal}
use sql_proxy_service.Jsonl.{Tm, plus, padded, format_utc_timestamp}

-- A decimal number of a fixed width.
record IsField (size n : ℕ) (s : Bytes) : Type 0 where
  pub width : length s ≡ size
  pub value : value_from 0 s ≡ n
  pub digits : All (λ c. (b'0' ≤ c) × (c ≤ b'9')) s

value_from-zeros : (k : ℕ) (s : Bytes) → value_from 0 (replicate k b'0' ++ s) ≡ value_from 0 s
unfolding value_from
value_from-zeros zero s = refl
value_from-zeros (suc k) s = value_from-zeros k s

zeros_digits : (k : ℕ) → All (λ c. (b'0' ≤ c) × (c ≤ b'9')) (replicate k b'0')
zeros_digits zero = tt
zeros_digits (suc k) = ((omega arith, omega arith), zeros_digits k)

padded-IsField :
    (width n : ℕ)
    → n < 10 ^ suc width
    → n < 10 ^ 20
    → IsField (suc width) n (padded (suc width) (pos n))
unfolding padded
padded-IsField width n h k =
    let fill = suc width - length (decimal n) in
    let short = length-decimal width n h in
    let read = decimal_lem n k in
    record {
      width =
          rw (length-append (replicate fill b'0') (decimal n), length-replicate {A = ℕ} fill b'0')
            (omega (arith, short));
      value = value_from-zeros fill (decimal n) ∙ read.0;
      digits =
          All-append (λ c. (b'0' ≤ c) × (c ≤ b'9')) (replicate fill b'0') (decimal n)
            (zeros_digits fill) read.1;
    }

-- A reader of the text: 24 bytes, with the separators in their places.
pub record Stamp : Type 0 where
  pub year : ℕ
  pub month : ℕ
  pub day : ℕ
  pub hour : ℕ
  pub minute : ℕ
  pub second : ℕ
  pub millis : ℕ

abbrev field : ℕ → ℕ → Bytes → ℕ
field start size s = value_from 0 (take size (drop start s))

abbrev separators : Bytes → Bytes
separators s =
    take 1 (drop 4 s)
    ++ take 1 (drop 7 s)
    ++ take 1 (drop 10 s)
    ++ take 1 (drop 13 s)
    ++ take 1 (drop 16 s)
    ++ take 1 (drop 19 s)
    ++ drop 23 s

unfoldable pub read_timestamp : Bytes → Option Stamp
read_timestamp s =
    if not (bytes_eq (separators s) (codes "--T::.Z"))
    then none
    else some (record {
      year = field 0 4 s;
      month = field 5 2 s;
      day = field 8 2 s;
      hour = field 11 2 s;
      minute = field 14 2 s;
      second = field 17 2 s;
      millis = field 20 3 s;
    })

-- What `gmtime_r` documents of the fields, of a year from 0 to 9999.
pub record IsCalendar (utc : Tm) (d : Stamp) : Type 0 where
  pub year : (plus utc.year 1900 ≡ pos d.year) × (d.year < 10000)
  pub month : (plus utc.month 1 ≡ pos d.month) × (d.month < 13)
  pub day : (utc.day ≡ pos d.day) × (d.day < 32)
  pub hour : (utc.hour ≡ pos d.hour) × (d.hour < 24)
  pub minute : (utc.minute ≡ pos d.minute) × (d.minute < 60)
  pub second : (utc.second ≡ pos d.second) × (d.second < 61)

-- The digits of a field, one by one.
two_digits :
    (s : Bytes) (n : ℕ)
    → IsField 2 n s
    → (a b : ℕ) × (s ≡ a ∷ b ∷ []) × (value_from 0 (a ∷ b ∷ []) ≡ n)
two_digits [] n f = absurd (omega (arith, f.width))
two_digits (a ∷ []) n f = absurd (omega (arith, f.width))
two_digits (a ∷ b ∷ []) n f = (a, b, refl, f.value)
two_digits (a ∷ b ∷ c ∷ s) n f = absurd (omega (arith, f.width))

more_digits :
    (s : Bytes) (size n : ℕ)
    → IsField (3 + size) n s
    → (a b c : ℕ) × (t : Bytes) × (s ≡ a ∷ b ∷ c ∷ t)
      × (length t ≡ size)
      × (value_from 0 (a ∷ b ∷ c ∷ t) ≡ n)
more_digits [] size n f = absurd (omega (arith, f.width))
more_digits (a ∷ []) size n f = absurd (omega (arith, f.width))
more_digits (a ∷ b ∷ []) size n f = absurd (omega (arith, f.width))
more_digits (a ∷ b ∷ c ∷ t) size n f = (a, b, c, t, refl, omega (arith, f.width), f.value)

two :
    (n : ℕ)
    → n < 100
    → (a b : ℕ) × (padded 2 (pos n) ≡ a ∷ b ∷ []) × (value_from 0 (a ∷ b ∷ []) ≡ n)
two n h = two_digits (padded 2 (pos n)) n (padded-IsField 1 n (omega arith) (omega arith))

three :
    (n : ℕ)
    → n < 1000
    → (a b c : ℕ) × (padded 3 (pos n) ≡ a ∷ b ∷ c ∷ []) × (value_from 0 (a ∷ b ∷ c ∷ []) ≡ n)
three n h =
    by_rest (more_digits (padded 3 (pos n)) 0 n (padded-IsField 2 n (omega arith) (omega arith)))
  where
    by_rest :
        {s : Bytes}
        → ((a b c : ℕ) × (t : Bytes) × (s ≡ a ∷ b ∷ c ∷ t)
            × (length t ≡ 0)
            × (value_from 0 (a ∷ b ∷ c ∷ t) ≡ n))
        → (a b c : ℕ) × (s ≡ a ∷ b ∷ c ∷ []) × (value_from 0 (a ∷ b ∷ c ∷ []) ≡ n)
    by_rest (a, b, c, [], e, l, v) = (a, b, c, e, v)
    by_rest (a, b, c, d ∷ t, e, l, v) = absurd (omega (arith, l))

four :
    (n : ℕ)
    → n < 10000
    → (a b c d : ℕ) × (padded 4 (pos n) ≡ a ∷ b ∷ c ∷ d ∷ [])
      × (value_from 0 (a ∷ b ∷ c ∷ d ∷ []) ≡ n)
four n h =
    by_rest (more_digits (padded 4 (pos n)) 1 n (padded-IsField 3 n (omega arith) (omega arith)))
  where
    by_rest :
        {s : Bytes}
        → ((a b c : ℕ) × (t : Bytes) × (s ≡ a ∷ b ∷ c ∷ t)
            × (length t ≡ 1)
            × (value_from 0 (a ∷ b ∷ c ∷ t) ≡ n))
        → (a b c d : ℕ) × (s ≡ a ∷ b ∷ c ∷ d ∷ []) × (value_from 0 (a ∷ b ∷ c ∷ d ∷ []) ≡ n)
    by_rest (a, b, c, [], e, l, v) = absurd (omega (arith, l))
    by_rest (a, b, c, d ∷ [], e, l, v) = (a, b, c, d, e, v)
    by_rest (a, b, c, d ∷ d' ∷ t, e, l, v) = absurd (omega (arith, l))

-- From 1970 on and as far as the four digits of the year go, the timestamp of a record is a text
-- of 24 bytes; read back, it gives the fields of `gmtime_r` for the whole seconds, the year and
-- the month counted as in the calendar, and the milliseconds within the second.
pub read_timestamp-format_utc_timestamp :
    (gmtime_r : ℤ → Tm) (t : ℕ) (d : Stamp)
    → IsCalendar (gmtime_r (pos (t / 1000))) d
    → d.millis ≡ t % 1000
    → (read_timestamp (format_utc_timestamp gmtime_r (pos t)) ≡ some d)
      × (length (format_utc_timestamp gmtime_r (pos t)) ≡ 24)
unfolding read_timestamp format_utc_timestamp bytes_eq
read_timestamp-format_utc_timestamp gmtime_r t d h m =
    let (y₁, y₂, y₃, y₄, ey, vy) = four d.year h.year.1 in
    let (o₁, o₂, eo, vo) = two d.month (omega (arith, h.month.1)) in
    let (d₁, d₂, ed, vd) = two d.day (omega (arith, h.day.1)) in
    let (h₁, h₂, eh, vh) = two d.hour (omega (arith, h.hour.1)) in
    let (i₁, i₂, ei, vi) = two d.minute (omega (arith, h.minute.1)) in
    let (s₁, s₂, es, vs) = two d.second (omega (arith, h.second.1)) in
    let (m₁, m₂, m₃, em, vm) = three (t % 1000) (omega arith) in
    rw (h.year.0, h.month.0, h.day.0, h.hour.0, h.minute.0, h.second.0, ey, eo, ed, eh, ei, es, em)
      (rw (vy, vo, vd, vh, vi, vs, vm, sym m) refl, refl)
