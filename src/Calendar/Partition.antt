-- ===== src/Calendar/Partition.antt =====
-- entry.go: the name of a day partition, and the day that it parses to.
use Prim.Native.Nat.{ℕ}
use marchilogs.Base.{
  leb, if◌then◌else◌, length, take, drop, length-append, take-append, drop-append, pos, pos_part,
  neg_part, ◌+ℤ◌, ◌≤ℤ◌, floor_div, zero_padded, digits_value-zero_padded, length-zero_padded, Bytes,
  ok, ◌+◌, ◌-◌, ◌*◌, ◌/◌, ◌%◌, ◌≤◌, ◌<◌, ◌≡◌, ap, ◌∙◌, true, ◌++◌, append_assoc, arith,
}
use marchilogs.Calendar.{
  Time, day_ns, epoch_day, era_days, year_of_era, march_month, march_day, day_of_year,
  calendar_month, date_of_day, date_of, partition_name, is_leap, days_in, day_number, midnight,
  parse_partition_name, day_end,
}

-- The days of a cycle of 400 years have a year, a month and a day that exist.
module _ (doe : ℕ) (h : doe < era_days) where
  year_of_era-lt : year_of_era doe < 400
  unfolding year_of_era
  year_of_era-lt = omega arith

  year_of_era-split :
      365 * year_of_era doe + year_of_era doe / 4 - year_of_era doe / 100 + day_of_year doe ≡ doe
  unfolding day_of_year
  year_of_era-split = omega arith

  day_of_year-le : day_of_year doe ≤ 365
  unfolding day_of_year
  day_of_year-le = omega arith

  -- Only the year that ends with a leap day has a day 365.
  leap_of_last_day : day_of_year doe ≡ 365 → is_leap (year_of_era doe + 1) ≡ true
  unfolding day_of_year is_leap
  leap_of_last_day e = ground arith

-- A year of a cycle and a day of that year: the month and the day of the month.
module _ (era yoe doy : ℕ) where
  abbrev month : ℕ
  month = calendar_month (march_month doy)

  abbrev civil_year : ℕ
  civil_year = if leb month 2 then 400 * era + yoe + 1 else 400 * era + yoe

  abbrev day_count : ℕ
  day_count = era_days * era + (365 * yoe + yoe / 4 - yoe / 100 + doy)

module _ (doy : ℕ) (h : doy ≤ 365) where
  month_bounds : (0 < calendar_month (march_month doy)) × (calendar_month (march_month doy) ≤ 12)
  unfolding calendar_month march_month
  month_bounds = ground arith

  day_bounds : (0 < march_day doy) × (march_day doy ≤ 31)
  unfolding march_day
  day_bounds = omega arith

-- The day number of a date, with the year counted from March.
day_number_march :
    (era yoe mp d : ℕ)
    → yoe < 400
    → mp ≤ 11
    → day_number
        (if leb (calendar_month mp) 2 then 400 * era + yoe + 1 else 400 * era + yoe)
        (calendar_month mp)
        d
      ≡ pos (era_days * era + (365 * yoe + yoe / 4 - yoe / 100 + ((153 * mp + 2) / 5 + (d - 1))))
unfolding day_number calendar_month
day_number_march era yoe mp d hy hm = ground arith

module _ (era yoe doy : ℕ) (hy : yoe < 400) (h : doy ≤ 365) where
  march_month-le : march_month doy ≤ 11
  unfolding march_month
  march_month-le = omega arith

  march_day-split : (153 * march_month doy + 2) / 5 + (march_day doy - 1) ≡ doy
  unfolding march_day
  march_day-split = omega arith

  day_number-civil :
      day_number (civil_year era yoe doy) (month era yoe doy) (march_day doy)
      ≡ pos (day_count era yoe doy)
  day_number-civil =
      day_number_march era yoe (march_month doy) (march_day doy) hy march_month-le
      ∙ ap (λ (k : ℕ). pos (era_days * era + (365 * yoe + yoe / 4 - yoe / 100 + k))) march_day-split

  march_day-le :
      (doy ≡ 365 → is_leap (yoe + 1) ≡ true)
      → march_day doy ≤ days_in (civil_year era yoe doy) (month era yoe doy)
  unfolding days_in calendar_month march_day march_month
  march_day-le leap = ground (arith, leap)

-- A time whose day has a name of eight digits: from 1 March of year 0 to the end of year 9999.
abbrev pub last_day : ℕ
last_day = 3_652_365

abbrev pub InCalendar : Time → Type 0
InCalendar t =
    (neg_part t ≤ epoch_day * day_ns) × (pos_part t + epoch_day * day_ns < last_day * day_ns)

module _ (a b c : Bytes) (ha : length a ≡ 4) (hb : length b ≡ 2) where
  name_parts :
      (take 4 (a ++ b ++ c) ≡ a) × (take 2 (drop 4 (a ++ b ++ c)) ≡ b) × (drop 6 (a ++ b ++ c) ≡ c)
  name_parts = (
    rw append_assoc (take-append a (b ++ c) 4 ha),
    rw (append_assoc, drop-append a (b ++ c) 4 ha) (take-append b c 2 hb),
    drop-append (a ++ b) c 6 (omega (arith, length-append a b)),
  )

-- The name of a date of eight digits parses to its midnight.
parse_date :
    (y m d : ℕ)
    → y < 10000
    → (0 < m) × (m ≤ 12)
    → (0 < d) × (d ≤ 31)
    → d ≤ days_in y m
    → parse_partition_name (zero_padded 4 y ++ zero_padded 2 m ++ zero_padded 2 d)
      ≡ ok (midnight (day_number y m d))
unfolding parse_partition_name
parse_date y m d hy hm hd hdm =
    let a = zero_padded 4 y in
    let b = zero_padded 2 m in
    let c = zero_padded 2 d in
    let la : length a ≡ 4 = length-zero_padded 3 y hy in
    let lb : length b ≡ 2 = length-zero_padded 1 m (omega arith) in
    let lc : length c ≡ 2 = length-zero_padded 1 d (omega arith) in
    ground (
      arith,
      name_parts a b c la lb,
      length-append (a ++ b) c,
      length-append a b,
      digits_value-zero_padded 4 y,
      digits_value-zero_padded 2 m,
      digits_value-zero_padded 2 d,
    )

-- The natural number of days since 1 March of year 0.
pub day_index : Time → ℕ
day_index t = (pos_part t + epoch_day * day_ns - neg_part t) / day_ns

module _ (t : Time) (h : InCalendar t) where
  shifted_day : floor_div (t +ℤ pos (epoch_day * day_ns)) day_ns ≡ pos (day_index t)
  unfolding day_index
  shifted_day = ground arith

  day_index-lt : day_index t < last_day
  unfolding day_index
  day_index-lt = omega arith

  day_holds : (midnight (pos (day_index t)) ≤ℤ t) × (t ≤ℤ day_end (midnight (pos (day_index t))))
  unfolding day_index midnight
  day_holds = ground arith

-- The parts of the date of day `n`.
module _ (n : ℕ) where
  abbrev year_of_day : ℕ
  year_of_day = civil_year (n / era_days) (year_of_era (n % era_days)) (day_of_year (n % era_days))

  abbrev month_of_day : ℕ
  month_of_day = calendar_month (march_month (day_of_year (n % era_days)))

  abbrev day_of_month : ℕ
  day_of_month = march_day (day_of_year (n % era_days))

  doe-lt : n % era_days < era_days
  doe-lt = omega arith

  date_of_day-pos :
      date_of_day (pos n)
      ≡ record { year = pos year_of_day; month = month_of_day; day = day_of_month }
  unfolding date_of_day
  date_of_day-pos = ground arith

  late_month : month_of_day ≤ 2 → 306 ≤ day_of_year (n % era_days)
  unfolding calendar_month march_month
  late_month h = ground (arith, day_of_year-le (n % era_days) doe-lt)

  year_of_day-lt : n < last_day → year_of_day < 10000
  year_of_day-lt h = ground (
    arith,
    late_month,
    year_of_era-split (n % era_days) doe-lt,
    year_of_era-lt (n % era_days) doe-lt,
  )

  parse_day :
      n < last_day
      → parse_partition_name
          (zero_padded 4 year_of_day ++ zero_padded 2 month_of_day ++ zero_padded 2 day_of_month)
        ≡ ok (midnight (pos n))
  parse_day h =
      let doe = n % era_days in
      let doy = day_of_year doe in
      let le = day_of_year-le doe doe-lt in
      let lt = year_of_era-lt doe doe-lt in
      let count : day_count (n / era_days) (year_of_era doe) doy ≡ n =
        omega (arith, year_of_era-split doe doe-lt) in
      parse_date year_of_day month_of_day day_of_month (year_of_day-lt h) (month_bounds doy le)
        (day_bounds doy le)
        (march_day-le (n / era_days) (year_of_era doe) doy lt le (leap_of_last_day doe doe-lt))
      ∙ ap (λ z. ok (midnight z))
          (day_number-civil (n / era_days) (year_of_era doe) doy lt le ∙ ap pos count)

name_of_date :
    (t : Time)
    → InCalendar t
    → partition_name t
      ≡ zero_padded 4 (year_of_day (day_index t))
        ++ zero_padded 2 (month_of_day (day_index t))
        ++ zero_padded 2 (day_of_month (day_index t))
unfolding partition_name date_of
name_of_date t h = rw (shifted_day t h, date_of_day-pos)

-- The partition of a time in the calendar parses, and the day that it names holds the time.
pub parse-partition_name :
    (t : Time)
    → InCalendar t
    → (day : Time) × (parse_partition_name (partition_name t) ≡ ok day)
      × (day ≤ℤ t)
      × (t ≤ℤ day_end day)
parse-partition_name t h =
    let (low, high) = day_holds t h in
    (
      midnight (pos (day_index t)),
      rw (name_of_date t h) (parse_day (day_index t) (day_index-lt t h)),
      low,
      high,
    )
