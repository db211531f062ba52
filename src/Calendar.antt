-- ===== src/Calendar.antt =====
-- entry.go: times, and the day partition of a time (`partitionName`, `parsePartitionName`), with
-- the calendar of Go's `time` that they rest on.
pub mod Partition
use Prim.Native.Nat.{ℕ}
use marchilogs.Base.{
  ltb, leb, ◌==◌, if◌then◌else◌, length, take, drop, ℤ, pos, negsuc, ◌+ℤ◌, ◌-ℤ◌, floor_div,
  floor_mod, zero_padded, digits_value, Bytes, bad_partition, Result, ok, err, suc, ◌+◌, ◌-◌, ◌*◌,
  ◌/◌, ◌%◌, Bool, not, ◌&&◌, ◌||◌, none, some, ◌∷◌, ◌++◌,
}

-- A `time.Time` is an instant: nanoseconds since the Unix epoch.
abbrev pub Time : Type 0
Time = ℤ

abbrev pub day_ns : ℕ
day_ns = 86_400_000_000_000

-- The days from 1 March of year 0 to the epoch.
abbrev pub epoch_day : ℕ
epoch_day = 719_468

abbrev pub era_days : ℕ
era_days = 146_097

-- The year of a cycle, from the day of the cycle.
unfoldable pub year_of_era : ℕ → ℕ
year_of_era doe = (doe - doe / 1460 + doe / 36524 - doe / 146096) / 365

pub record Date : Type 0 where
  pub year : ℤ
  pub month : ℕ
  pub day : ℕ

-- The day of a year that begins on 1 March, as month (0 is March) and day of the month.
unfoldable pub march_month : ℕ → ℕ
march_month doy = (5 * doy + 2) / 153

unfoldable pub march_day : ℕ → ℕ
unfolding march_month
march_day doy = doy - (153 * march_month doy + 2) / 5 + 1

unfoldable pub day_of_year : ℕ → ℕ
unfolding year_of_era
day_of_year doe = doe - (365 * year_of_era doe + year_of_era doe / 4 - year_of_era doe / 100)

unfoldable pub calendar_month : ℕ → ℕ
calendar_month mp = if ltb mp 10 then mp + 3 else mp - 9

-- 400 times an integer.
abbrev pub times_400 : ℤ → ℤ
times_400 (pos n) = pos (400 * n)
times_400 (negsuc n) = negsuc (400 * n + 399)

-- The date of a day that is counted from 1 March of year 0.
unfoldable pub date_of_day : ℤ → Date
date_of_day z =
    let era = floor_div z era_days in
    let doe = floor_mod z era_days in
    let month = calendar_month (march_month (day_of_year doe)) in
    let year = times_400 era +ℤ pos (year_of_era doe) in
    record {
      year = if leb month 2 then year +ℤ pos 1 else year;
      month = month;
      day = march_day (day_of_year doe);
    }

-- `t.UTC().Date()`
unfoldable pub date_of : Time → Date
date_of t = date_of_day (floor_div (t +ℤ pos (epoch_day * day_ns)) day_ns)

abbrev pub year_text : ℤ → Bytes
year_text (pos n) = zero_padded 4 n
year_text (negsuc n) = b'-' ∷ zero_padded 4 (suc n)

-- `partitionName`: `t.UTC().Format("20060102")`
unfoldable pub partition_name : Time → Bytes
partition_name t =
    let d = date_of t in year_text d.year ++ zero_padded 2 d.month ++ zero_padded 2 d.day

unfoldable pub is_leap : ℕ → Bool
is_leap y = (y % 4 == 0) && (not (y % 100 == 0) || (y % 400 == 0))

unfoldable pub days_in : ℕ → ℕ → ℕ
unfolding is_leap
days_in y m =
    if m == 2
    then (if is_leap y then 29 else 28)
    else if (m == 4 || m == 6 || m == 9 || m == 11)
    then 30
    else 31

abbrev pub scale_era : ℤ → ℤ
scale_era (pos n) = pos (era_days * n)
scale_era (negsuc n) = negsuc (era_days * n + (era_days - 1))

-- The days from 1 March of year 0 to a date of a year that is not negative. The years
-- are counted from March here, so January and February belong to the year before; those of year 0
-- lie before day 0.
unfoldable pub day_number : ℕ → ℕ → ℕ → ℤ
day_number y m d =
    let y' = if leb m 2 then pos y -ℤ pos 1 else pos y in
    let yoe = floor_mod y' 400 in
    let mp = if ltb 2 m then m - 3 else m + 9 in
    let doe = 365 * yoe + yoe / 4 - yoe / 100 + ((153 * mp + 2) / 5 + (d - 1)) in
    scale_era (floor_div y' 400) +ℤ pos doe

-- Midnight (UTC) of a day number.
unfoldable pub midnight : ℤ → Time
midnight (pos n) = pos (n * day_ns) -ℤ pos (epoch_day * day_ns)
midnight (negsuc n) = negsuc (n * day_ns + (day_ns - 1) + epoch_day * day_ns)

-- `parsePartitionName`: `time.ParseInLocation("20060102", name, time.UTC)`, that is four digits of
-- a year, two of a month and two of a day, which must exist, and nothing behind them.
unfoldable pub parse_partition_name : Bytes → Result Time
parse_partition_name name = elim (digits_value 0 (take 4 name)) [
  | none ↦ err bad_partition
  | some y ↦ elim (digits_value 0 (take 2 (drop 4 name))) [
    | none ↦ err bad_partition
    | some m ↦ elim (digits_value 0 (drop 6 name)) [
      | none ↦ err bad_partition
      | some d ↦
          if (length name == 8 && (ltb 0 m && leb m 12)) && (ltb 0 d && leb d (days_in y m))
          then ok (midnight (day_number y m d))
          else err bad_partition
    ]
  ]
]

-- The last instant of the day that begins at `day`: `day.Add(24*time.Hour - time.Nanosecond)`.
abbrev pub day_end : Time → Time
day_end day = day +ℤ pos (day_ns - 1)
