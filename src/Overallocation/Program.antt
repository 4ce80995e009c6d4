-- ===== src/Overallocation/Program.antt =====
-- services/overallocation.py: the report of a program.
use defense_pm_tool.Prelude.{
  ℕ, ◌+◌, ◌≡◌, ap, ◌∙◌, List, [], ◌∷◌, ◌++◌, length, Option, none, Option-cases, inl, inr, Bool,
}
use defense_pm_tool.Prelude.Int.{ℤ, pos, ◌+ℤ◌, int_laws}
use defense_pm_tool.Prelude.Sort.{sort_by}
use defense_pm_tool.Dates.{Date}
use defense_pm_tool.Loading.{
  Repositories, Resource, calculate_daily_loading, overallocated_dates, get_overallocated_dates,
}
use defense_pm_tool.Overallocation.{
  OverallocationPeriod, overallocated_days, group, duration_days, total_days, total_affected_days,
  detect_resource_overallocations, detect_each, detect_program_overallocations,
}
use defense_pm_tool.Overallocation.Detect.{counted}

total_days-append :
    (ps qs : List OverallocationPeriod) → total_days (ps ++ qs) ≡ total_days ps +ℤ total_days qs
unfolding total_days
total_days-append [] qs = grind int_laws
total_days-append (p ∷ ps) qs =
    ap (λ n. duration_days p.run +ℤ n) (total_days-append ps qs) ∙ grind int_laws

regroup : (a : ℤ) (m n : ℕ) → (a +ℤ pos m +ℤ pos n) ≡ (a +ℤ pos (m + n))
regroup a m n = grind int_laws

from_zero : (n : ℕ) → (pos 0 +ℤ pos n) ≡ pos n
from_zero n = grind int_laws

module _ (repositories : Repositories) (s e : Date) where
  -- The over-allocated dates of all resources, counted one by one.
  unfoldable pub dates_of : List Resource → ℕ
  dates_of [] = 0
  dates_of (r ∷ rs) = length (get_overallocated_dates repositories r.id s e) + dates_of rs

  not_found :
      (k : ℕ)
      → repositories.get_resource k ≡ none
      → total_days (detect_resource_overallocations repositories k s e)
        ≡ pos (length (get_overallocated_dates repositories k s e))
  unfolding detect_resource_overallocations get_overallocated_dates overallocated_dates
      overallocated_days group total_days calculate_daily_loading sort_by
  not_found k missing = rw (calculate_daily_loading, missing)

  counted_all :
      (k : ℕ)
      → total_days (detect_resource_overallocations repositories k s e)
        ≡ pos (length (get_overallocated_dates repositories k s e))
  counted_all k = elim (Option-cases (repositories.get_resource k)) [
    | inl missing ↦ not_found k missing
    | inr (r, found) ↦ counted repositories k r found s e
  ]

  detect_each_total :
      (rs : List Resource) (ps : List OverallocationPeriod) (found : List ℕ)
      → total_days (detect_each repositories rs s e ps found).0 ≡ total_days ps +ℤ pos (dates_of rs)
  unfolding detect_each dates_of
  detect_each_total [] ps found = grind int_laws
  detect_each_total (r ∷ rs) ps found =
      detect_each_total rs _ _
      ∙ ap (λ n. n +ℤ pos (dates_of rs))
          (total_days-append ps (detect_resource_overallocations repositories r.id s e)
            ∙ ap (λ n. total_days ps +ℤ n) (counted_all r.id))
      ∙ regroup (total_days ps) (length (get_overallocated_dates repositories r.id s e))
          (dates_of rs)

  -- The report's total of affected days is the number of over-allocated dates that the loading
  -- service finds for the resources of the program, one resource after the other.
  pub total_affected_days-detect_program_overallocations :
      (is_critical : ℕ → Option Bool) (rs : List Resource)
      → total_affected_days (detect_program_overallocations repositories is_critical rs s e)
        ≡ pos (dates_of rs)
  unfolding total_affected_days detect_program_overallocations total_days
  total_affected_days-detect_program_overallocations is_critical rs =
      detect_each_total rs [] [] ∙ from_zero (dates_of rs)
