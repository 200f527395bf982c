-- ===== src/Audit/Dates.antt =====
-- internal/audit: calendar days, as package time prints and parses "2006-01-02". A time is taken in
-- the local zone, without daylight saving; years have four digits.
use dicta.Base.{
  ℕ, zero, suc, ◌+◌, ◌-◌, ◌*◌, ◌/◌, ◌%◌, ◌<◌, ◌≡◌, refl, ap, ◌∙◌, Bool, true, not, ◌&&◌, ◌||◌, [],
  ◌∷◌, Option, none, some, Text, leb, ◌==◌, if◌then◌else◌, arith,
}

pub record Date : Type 0 where
  pub year : ℕ
  pub month : ℕ
  pub day : ℕ

-- `clock` is the time of day in nanoseconds.
pub record Moment : Type 0 where
  pub date : Date
  pub clock : ℕ

abbrev pub is_leap : ℕ → Bool
is_leap y = (y % 4 == 0 && not (y % 100 == 0)) || y % 400 == 0

abbrev pub days_in : ℕ → ℕ → ℕ
days_in y m =
    if m == 2
    then (if is_leap y then 29 else 28)
    else if m == 4 || m == 6 || m == 9 || m == 11
    then 30
    else 31

-- The days of the year before this month.
unfoldable pub days_before : ℕ → ℕ → ℕ
days_before y zero = 0
days_before y (suc zero) = 0
days_before y (suc (suc m)) = days_in y (suc m) + days_before y (suc m)

-- The number of the day since the year 0.
unfoldable pub day_number : Date → ℕ
unfolding days_before
day_number d =
    365 * d.year
    + (d.year + 3) / 4
    - (d.year + 99) / 100
    + (d.year + 399) / 400
    + days_before d.year d.month
    + d.day

-- time.Format of "2006-01-02".
unfoldable pub format_day : Date → Text
format_day d =
    (48 + d.year / 1000 % 10)
    ∷ (48 + d.year / 100 % 10)
    ∷ (48 + d.year / 10 % 10)
    ∷ (48 + d.year % 10)
    ∷ 45
    ∷ (48 + d.month / 10 % 10)
    ∷ (48 + d.month % 10)
    ∷ 45
    ∷ (48 + d.day / 10 % 10)
    ∷ (48 + d.day % 10)
    ∷ []

abbrev pub is_digit : ℕ → Bool
is_digit c = leb 48 c && leb c 57

abbrev pub is_date : Date → Bool
is_date d = leb 1 d.month && leb d.month 12 && leb 1 d.day && leb d.day (days_in d.year d.month)

abbrev pub checked : Date → Option Date
checked d = if is_date d then some d else none

abbrev pub two : ℕ → ℕ → ℕ
two a b = 10 * (a - 48) + (b - 48)

-- `parseDayDir`.
unfoldable pub parse_day_dir : Text → Option Date
parse_day_dir (a ∷ b ∷ c ∷ d ∷ p ∷ e ∷ f ∷ q ∷ g ∷ h ∷ []) =
    if is_digit a
      && is_digit b
      && is_digit c
      && is_digit d
      && p == 45
      && is_digit e
      && is_digit f
      && q == 45
      && is_digit g
      && is_digit h
    then checked (record { year = 100 * two a b + two c d; month = two e f; day = two g h })
    else none
parse_day_dir _ = none

pub record IsDate (d : Date) : Type 0 where
  pub short : d.year < 10000
  pub valid : is_date d ≡ true

digit : (n : ℕ) → is_digit (48 + n % 10) ≡ true
digit n = ground arith

two-digits : (n : ℕ) → n < 100 → two (48 + n / 10 % 10) (48 + n % 10) ≡ n
two-digits n h = omega arith

four-digits :
    (n : ℕ)
    → n < 10000
    → 100 * two (48 + n / 1000 % 10) (48 + n / 100 % 10) + two (48 + n / 10 % 10) (48 + n % 10) ≡ n
four-digits n h = omega arith

date-lt : (d : Date) → is_date d ≡ true → (d.month < 100) × (d.day < 100)
date-lt d h = ground arith

checked-some : (d : Date) → is_date d ≡ true → checked d ≡ some d
checked-some d h = rw h refl

-- The name of a day's directory is read back as that day.
pub parse_day_dir-format_day : (d : Date) → IsDate d → parse_day_dir (format_day d) ≡ some d
unfolding parse_day_dir format_day
parse_day_dir-format_day d v =
    rw
      (
        digit (d.year / 1000),
        digit (d.year / 100),
        digit (d.year / 10),
        digit d.year,
        digit (d.month / 10),
        digit d.month,
        digit (d.day / 10),
        digit d.day,
      )
      (ap checked same ∙ checked-some d v.valid)
  where
    read : Date
    read = record {
      year =
          100 * two (48 + d.year / 1000 % 10) (48 + d.year / 100 % 10)
          + two (48 + d.year / 10 % 10) (48 + d.year % 10);
      month = two (48 + d.month / 10 % 10) (48 + d.month % 10);
      day = two (48 + d.day / 10 % 10) (48 + d.day % 10);
    }

    small : (d.month < 100) × (d.day < 100)
    small = date-lt d v.valid

    same : read ≡ d
    same = λ i. record {
      year = four-digits d.year v.short i;
      month = two-digits d.month small.0 i;
      day = two-digits d.day small.1 i;
    }
