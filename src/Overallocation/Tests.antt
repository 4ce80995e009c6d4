-- ===== src/Overallocation/Tests.antt =====
-- Periods of the sample of the loading service, and two that meet.
use defense_pm_tool.Prelude.{ℕ, ◌≡◌, refl, ◌&&◌, List, [], ◌∷◌, arith, none, map}
use defense_pm_tool.Prelude.Int.{pos, leb_ℤ, ◌-ℤ◌, ◌+ℤ◌}
use defense_pm_tool.Decimal.{whole, less}
use defense_pm_tool.Dates.{Date}
use defense_pm_tool.Loading.Tests.{repositories, worker}
use defense_pm_tool.Prelude.Sort
use defense_pm_tool.Overallocation
use defense_pm_tool.Overallocation.Group
use defense_pm_tool.Overallocation.Detect
use defense_pm_tool.Overallocation.Program
use defense_pm_tool.Overallocation.Merge

abbrev found : List Overallocation.OverallocationPeriod
found = Overallocation.detect_resource_overallocations repositories 1 (pos 1) (pos 5)

detect_resource_overallocations-exact_example :
    ((d : Date)
      → Detect.is_reported d found ≡ (
          (leb_ℤ (pos 1) d && leb_ℤ d (pos 5))
          && Detect.is_overloaded repositories 1 worker refl (pos 1) (pos 5) d))
    × Group.IsSpaced (pos 1 -ℤ pos 1) (Detect.runs_of found)
detect_resource_overallocations-exact_example =
    Detect.detect_resource_overallocations-exact repositories 1 worker refl (pos 1) (pos 5)

total_affected_days-detect_program_overallocations_example :
    Overallocation.total_affected_days (
      Overallocation.detect_program_overallocations repositories
        (λ k. none)
        (worker ∷ [])
        (pos 1)
        (pos 5))
    ≡ pos (Program.dates_of repositories (pos 1) (pos 5) (worker ∷ []))
total_affected_days-detect_program_overallocations_example =
    Program.total_affected_days-detect_program_overallocations repositories (pos 1) (pos 5)
      (λ k. none) (worker ∷ [])

abbrev held : ℕ → Date → Date → Overallocation.OverallocationPeriod
held k start finish = record {
  resource_id = k;
  run = record {
    start_date = start;
    end_date = finish;
    peak_assigned = whole 12;
    peak_available = whole 8;
    peak_excess = whole 4;
  };
  affected_activities = k ∷ [];
}

-- Two periods of resource 1 that meet, about one of resource 2.
abbrev three : List Overallocation.OverallocationPeriod
three = held 1 (pos 5) (pos 9) ∷ held 2 (pos 1) (pos 20) ∷ held 1 (pos 2) (pos 4) ∷ []

joined :
    map {B = Date × Date}
      (λ p. (p.run.start_date, p.run.end_date))
      (Overallocation.merge_adjacent_periods three)
    ≡ (pos 2, pos 9) ∷ (pos 1, pos 20) ∷ []
unfolding Overallocation.merge_adjacent_periods Overallocation.merge_sorted
    Overallocation.merge_from Overallocation.merge_two Overallocation.merge_runs
    Overallocation.by_start Sort.sort_by Sort.insert_by ◌+ℤ◌ less
joined = refl

any_holds-merge_adjacent_periods_example :
    Merge.any_holds 1 (pos 6) (Overallocation.merge_adjacent_periods three)
    ≡ Merge.any_holds 1 (pos 6) three
any_holds-merge_adjacent_periods_example =
    Merge.any_holds-merge_adjacent_periods 1 (pos 6) three
      (omega arith, (omega arith, (omega arith, tt)))
