-- ===== src/Dates.antt =====
-- Python's datetime.date as its ordinal: day 1 is Monday, the first of January of the year 1. A
-- timedelta is a number of days. The OverflowError outside the years 1 to 9999 is not modelled.
pub mod Ranges
use defense_pm_tool.Prelude.{ℕ, suc, ◌+◌, ◌%◌, Bool, leb, Option, none, some, List, [], ◌∷◌}
use defense_pm_tool.Prelude.Int.{ℤ, pos, negsuc, ◌+ℤ◌, ◌-ℤ◌, pos_part}

abbrev pub Date : Type 0
Date = ℤ

-- `d.weekday()`, where Monday is 0; no date has a negative ordinal.
unfoldable pub weekday : Date → ℕ
weekday (pos n) = (n + 6) % 7
weekday (negsuc n) = 0

-- `d.weekday() >= 5`
unfoldable pub is_weekend : Date → Bool
unfolding weekday
is_weekend d = leb 5 (weekday d)

abbrev pub next_day : Date → Date
next_day d = d +ℤ pos 1

-- How many days a loop from `a` while `d <= b` takes.
unfoldable pub span : Date → Date → ℕ
span a b = pos_part (b -ℤ a +ℤ pos 1)

-- `a or b` of two optional dates, which are never falsy.
abbrev pub or_date : Option Date → Option Date → Option Date
or_date none b = b
or_date (some a) b = some a
