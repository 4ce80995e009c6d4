-- ===== src/Overallocation/Group.antt =====
-- services/overallocation.py: joining consecutive days into runs.
use defense_pm_tool.Prelude.{
  ℕ, suc, ◌≡◌, refl, sym, ap, ◌∙◌, arith, Bool, true, false, ◌&&◌, ◌||◌, List, [], ◌∷◌, length,
  Bool-cases, inl, inr, subst,
}
use defense_pm_tool.Prelude.Int.{
  ℤ, pos, ◌+ℤ◌, ◌-ℤ◌, ◌≤ℤ◌, ◌<ℤ◌, leb_ℤ, eqb_ℤ, int_laws, eq_of_parts,
}
use defense_pm_tool.Dates.{Date, next_day}
use defense_pm_tool.Overallocation.{
  Run, OverallocatedDay, start_run, extend_run, group_from, duration_days,
}

abbrev pub in_run : Date → Run → Bool
in_run d r = leb_ℤ r.start_date d && leb_ℤ d r.end_date

abbrev pub in_runs : Date → List Run → Bool
in_runs d [] = false
in_runs d (r ∷ rs) = in_run d r || in_runs d rs

abbrev pub on_day : Date → List OverallocatedDay → Bool
on_day d [] = false
on_day d (x ∷ xs) = eqb_ℤ x.date d || on_day d xs

-- Each day is later than the one before, the first later than `last`.
abbrev pub Ascends : Date → List OverallocatedDay → Type 0
Ascends last [] = Unit
Ascends last (x ∷ xs) = (last <ℤ x.date) × Ascends x.date xs

-- Each run is a day or more long, and begins later than the day before it.
abbrev pub IsSpaced : Date → List Run → Type 0
IsSpaced before [] = Unit
IsSpaced before (r ∷ rs) =
    (before <ℤ r.start_date) × (r.start_date ≤ℤ r.end_date) × IsSpaced (next_day r.end_date) rs

extend_start : (r : Run) (x : OverallocatedDay) → (extend_run r x).start_date ≡ r.start_date
unfolding extend_run
extend_start r x = ground arith

extend_end : (r : Run) (x : OverallocatedDay) → (extend_run r x).end_date ≡ x.date
unfolding extend_run
extend_end r x = ground arith

join_bool :
    (s e x d : Date) (o : Bool)
    → s ≤ℤ e
    → eqb_ℤ x (next_day e) ≡ true
    → ((leb_ℤ s d && leb_ℤ d x) || o) ≡ ((leb_ℤ s d && leb_ℤ d e) || (eqb_ℤ x d || o))
unfolding ◌+ℤ◌
join_bool s e x d true h k = ground arith
join_bool s e x d false h k = ground arith

pub single_bool : (x d : Date) → (leb_ℤ x d && leb_ℤ d x) ≡ eqb_ℤ x d
single_bool x d = ground arith

or_assoc : (a b c d : Bool) → b ≡ (c || d) → (a || b) ≡ (a || (c || d))
or_assoc a b c d h = ap (λ z. a || z) h

extend_in :
    (d : Date) (r : Run) (x : OverallocatedDay)
    → in_run d (extend_run r x) ≡ (leb_ℤ r.start_date d && leb_ℤ d x.date)
extend_in d r x = rw (extend_start r x, extend_end r x)

extend_ordered :
    (r : Run) (x : OverallocatedDay)
    → r.start_date ≤ℤ x.date
    → (extend_run r x).start_date ≤ℤ (extend_run r x).end_date
extend_ordered r x h = rw (extend_start r x, extend_end r x) h

extend-Ascends :
    (r : Run) (x : OverallocatedDay) (xs : List OverallocatedDay)
    → Ascends x.date xs
    → Ascends (extend_run r x).end_date xs
extend-Ascends r x xs h = subst (λ e. Ascends e xs) (sym (extend_end r x)) h

pub in_runs-group_from :
    (d : Date) (r : Run) (xs : List OverallocatedDay)
    → r.start_date ≤ℤ r.end_date
    → Ascends r.end_date xs
    → in_runs d (group_from r xs) ≡ (in_run d r || on_day d xs)
unfolding group_from start_run
in_runs-group_from d r [] h up = refl
in_runs-group_from d r (x ∷ xs) h up = elim (Bool-cases (eqb_ℤ x.date (next_day r.end_date))) [
  | inl e ↦
      let later = up.0 in
      rw e (
        in_runs-group_from d (extend_run r x) xs (extend_ordered r x (omega arith))
          (extend-Ascends r x xs up.1)
        ∙ ap (λ b. b || on_day d xs) (extend_in d r x)
        ∙ join_bool r.start_date r.end_date x.date d (on_day d xs) h e)
  | inr e ↦ rw e (
      or_assoc (in_run d r) _ (eqb_ℤ x.date d) (on_day d xs) (
        in_runs-group_from d (start_run x) xs (omega arith) up.1
        ∙ ap (λ b. b || on_day d xs) (single_bool x.date d)))
]

after_gap : (e x : Date) → e <ℤ x → eqb_ℤ x (next_day e) ≡ false → next_day e <ℤ x
unfolding ◌+ℤ◌
after_gap e x h k = ground arith

-- The distance between days of different runs.
pub group_from-IsSpaced :
    (before : Date) (r : Run) (xs : List OverallocatedDay)
    → before <ℤ r.start_date
    → r.start_date ≤ℤ r.end_date
    → Ascends r.end_date xs
    → IsSpaced before (group_from r xs)
unfolding group_from start_run
group_from-IsSpaced before r [] first h up = (first, h, tt)
group_from-IsSpaced before r (x ∷ xs) first h up =
    elim (Bool-cases (eqb_ℤ x.date (next_day r.end_date))) [
      | inl e ↦
          let later = up.0 in
          rw e (
            group_from-IsSpaced before (extend_run r x) xs
              (subst (λ s. before <ℤ s) (sym (extend_start r x)) first)
              (extend_ordered r x (omega arith)) (extend-Ascends r x xs up.1))
      | inr e ↦ rw e (
        first,
        h,
        group_from-IsSpaced (next_day r.end_date) (start_run x) xs
            (after_gap r.end_date x.date up.0 e) (omega arith) up.1,
      )
    ]

next_is : (e x : Date) → eqb_ℤ x (next_day e) ≡ true → x ≡ next_day e
next_is e x h = eq_of_parts _ _ (ground arith)

extend_count :
    (s e x : Date) (n : ℕ)
    → eqb_ℤ x (next_day e) ≡ true
    → (x -ℤ s +ℤ pos 1 +ℤ pos n) ≡ (e -ℤ s +ℤ pos 1 +ℤ pos (suc n))
extend_count s e x n h = let k = next_is e x h in grind int_laws

extend_days :
    (r : Run) (x : OverallocatedDay) (n : ℕ)
    → eqb_ℤ x.date (next_day r.end_date) ≡ true
    → (duration_days (extend_run r x) +ℤ pos n) ≡ (duration_days r +ℤ pos (suc n))
unfolding duration_days
extend_days r x n h =
    rw (extend_start r x, extend_end r x) (extend_count r.start_date r.end_date x.date n h)

pub single_days : (x : Date) (n : ℕ) → (x -ℤ x +ℤ pos 1 +ℤ pos n) ≡ pos (suc n)
single_days x n = grind int_laws

unfoldable pub total_runs : List Run → ℤ
total_runs [] = pos 0
total_runs (r ∷ rs) = duration_days r +ℤ total_runs rs

-- Each day counts once.
pub total_runs-group_from :
    (r : Run) (xs : List OverallocatedDay)
    → total_runs (group_from r xs) ≡ duration_days r +ℤ pos (length xs)
unfolding group_from start_run total_runs duration_days
total_runs-group_from r [] = refl
total_runs-group_from r (x ∷ xs) = elim (Bool-cases (eqb_ℤ x.date (next_day r.end_date))) [
  | inl e ↦ rw e (total_runs-group_from (extend_run r x) xs ∙ extend_days r x (length xs) e)
  | inr e ↦ rw e (
      ap (λ z. duration_days r +ℤ z)
        (total_runs-group_from (start_run x) xs ∙ single_days x.date (length xs)))
]
