-- ===== src/Dates/Ranges.antt =====
-- Loops over the days from one date to another.
use defense_pm_tool.Prelude.{ℕ, suc, ◌≡◌, arith, Bool, true, false, ◌&&◌, ◌||◌}
use defense_pm_tool.Prelude.Int.{pos, ◌+ℤ◌, ◌-ℤ◌, leb_ℤ, ltb_ℤ, eqb_ℤ, eq_of_parts}
use defense_pm_tool.Dates.{Date, next_day, span}

-- A day lies among the `n` days from `d` on.
abbrev pub is_among : Date → ℕ → Date → Bool
is_among d n e = leb_ℤ d e && ltb_ℤ e (d +ℤ pos n)

pub is_among-span : (a b e : Date) → is_among a (span a b) e ≡ (leb_ℤ a e && leb_ℤ e b)
unfolding span ◌+ℤ◌ ◌-ℤ◌
is_among-span a b e = ground arith

pub among_none : (d e : Date) → is_among d 0 e ≡ false
unfolding ◌+ℤ◌
among_none d e = ground arith

pub among_suc :
    (d e : Date) (n : ℕ) → is_among d (suc n) e ≡ (eqb_ℤ d e || is_among (next_day d) n e)
unfolding ◌+ℤ◌
among_suc d e n = ground arith

pub among_later : (d e : Date) (n : ℕ) → eqb_ℤ d e ≡ true → is_among (next_day d) n e ≡ false
unfolding ◌+ℤ◌
among_later d e n h = ground arith

pub same_day : (d e : Date) → eqb_ℤ d e ≡ true → e ≡ d
same_day d e h = eq_of_parts _ _ (ground arith)
