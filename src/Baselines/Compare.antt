-- ===== src/Baselines/Compare.antt =====
-- services/baseline_comparison.py: the comparison of the activities of a program.
use defense_pm_tool.Prelude.{
  ℕ, Bool, true, false, not, ◌&&◌, ◌||◌, ◌==◌, leb, if◌then◌else◌, Option, none, some, List, [],
  ◌∷◌, ◌++◌, foldl, map, length,
}
use defense_pm_tool.Prelude.Int.{ℤ, pos, max_ℤ}
use defense_pm_tool.Prelude.Dict.{Dict, keys, values, lookup, insert}
use defense_pm_tool.Prelude.Sort.{sort_by}
use defense_pm_tool.Dates.{Date}
use defense_pm_tool.Baselines.{
  Activity, ActivityVariance, Snapshot, Entry, by_code, by_id, modified, contains, minus, common,
  by_codes, activity_modified, build_activity_variance, added_variance, removed_variance,
  days_between,
}

-- The fields of ComparisonResult that concern the schedule.
pub record ComparisonResult : Type 0 where
  pub project_finish_baseline : Option Date
  pub project_finish_current : Option Date
  pub schedule_variance_days : ℤ
  pub activities_baseline : ℕ
  pub activities_current : ℕ
  pub activities_added : ℕ
  pub activities_removed : ℕ
  pub activities_modified : ℕ
  pub activities_unchanged : ℕ
  pub critical_path_baseline : List Entry
  pub critical_path_current : List Entry
  pub critical_path_changed : Bool
  pub activity_variances : List ActivityVariance
  pub added_activity_codes : List ℕ
  pub removed_activity_codes : List ℕ
  pub modified_activity_codes : List ℕ

-- `baseline_id_to_code.get(id, id)`; of two entries with the id the later counts.
abbrev pub entry_or : ℕ → Option ℕ → Entry
entry_or k none = by_id k
entry_or k (some code) = by_code code

unfoldable pub id_to_code : List Activity → Dict ℕ
id_to_code l = foldl (λ d a. insert a.id a.code d) [] l

-- `set(...)` of a list
unfoldable pub distinct : List ℕ → List ℕ → List ℕ
unfolding contains
distinct seen [] = seen
distinct seen (x ∷ l) = distinct (if contains x seen then seen else seen ++ x ∷ []) l

abbrev pub same_entry : Entry → Entry → Bool
same_entry (by_code k) (by_code j) = k == j
same_entry (by_code k) (by_id j) = false
same_entry (by_id k) (by_code j) = false
same_entry (by_id k) (by_id j) = k == j

unfoldable pub has_entry : Entry → List Entry → Bool
has_entry e [] = false
has_entry e (x ∷ l) = same_entry x e || has_entry e l

unfoldable pub is_within : List Entry → List Entry → Bool
unfolding has_entry
is_within [] l = true
is_within (e ∷ k) l = has_entry e l && is_within k l

unfoldable pub critical_codes : List Activity → List Entry
critical_codes [] = []
critical_codes (a ∷ l) =
    let rest = critical_codes l in if a.is_critical then by_code a.code ∷ rest else rest

-- `max(finishes)`, if there are any.
unfoldable pub latest_early_finish : Option Date → List Activity → Option Date
latest_early_finish m [] = m
latest_early_finish m (a ∷ l) =
    latest_early_finish
      (elim a.early_finish [ none ↦ m | some d ↦ some (elim m [ none ↦ d | some x ↦ max_ℤ x d ]) ])
      l

abbrev pub or_zero_days : Option ℤ → ℤ
or_zero_days none = pos 0
or_zero_days (some d) = d

-- The entries of the dictionary at the codes.
unfoldable pub entries_at : {V : Type 0} → Dict V → List ℕ → List V
entries_at d [] = []
entries_at d (k ∷ l) =
    let rest = entries_at d l in elim (lookup k d) [ none ↦ rest | some a ↦ a ∷ rest ]

-- Whether the activity of a code that both have is modified.
unfoldable pub is_modified : Dict Activity → Dict Activity → ℕ → Bool
is_modified baseline current k = elim (lookup k baseline) [
  | none ↦ false
  | some b ↦ elim (lookup k current) [ none ↦ false | some c ↦ activity_modified b c ]
]

-- The loop over the common codes: those that pass, and the others.
unfoldable pub pick : (ℕ → Bool) → List ℕ → List ℕ
pick p [] = []
pick p (k ∷ l) = let rest = pick p l in if p k then k ∷ rest else rest

unfoldable pub modified_variances : Dict Activity → Dict Activity → List ℕ → List ActivityVariance
modified_variances baseline current [] = []
modified_variances baseline current (k ∷ l) =
    let rest = modified_variances baseline current l in
    elim (lookup k baseline) [
      | none ↦ rest
      | some b ↦ elim (lookup k current) [
        | none ↦ rest
        | some c ↦ build_activity_variance b c modified ∷ rest
      ]
    ]

unfoldable pub details :
    Dict Activity → Dict Activity → List ℕ → List ℕ → List ℕ → List ActivityVariance
unfolding entries_at modified_variances
details baseline current added_codes removed_codes modified_codes =
    map added_variance (entries_at current added_codes)
    ++ map removed_variance (entries_at baseline removed_codes)
    ++ modified_variances baseline current modified_codes

-- For a snapshot that there is. `activities` are those of `_get_current_activities`' query.
unfoldable pub compare_schedule : Snapshot → List Activity → Bool → ComparisonResult
unfolding id_to_code distinct is_within critical_codes latest_early_finish is_modified pick details
compare_schedule snapshot activities include_details =
    let baseline = by_codes snapshot.activities in
    let current = by_codes activities in
    let names = id_to_code snapshot.activities in
    let path = map (λ k. entry_or k (lookup k names)) (distinct [] snapshot.critical_path_ids) in
    let path_current = critical_codes (values current) in
    let finish = latest_early_finish none (values current) in
    let added_codes = minus (keys current) (keys baseline) in
    let removed_codes = minus (keys baseline) (keys current) in
    let common_codes = common (keys baseline) (keys current) in
    let modified_codes = pick (is_modified baseline current) common_codes in
    let unchanged_codes = pick (λ k. not (is_modified baseline current k)) common_codes in
    record {
      project_finish_baseline = snapshot.project_finish;
      project_finish_current = finish;
      schedule_variance_days = or_zero_days (days_between snapshot.project_finish finish);
      activities_baseline = length (keys baseline);
      activities_current = length (keys current);
      activities_added = length added_codes;
      activities_removed = length removed_codes;
      activities_modified = length modified_codes;
      activities_unchanged = length unchanged_codes;
      critical_path_baseline = path;
      critical_path_current = path_current;
      critical_path_changed = not (is_within path path_current && is_within path_current path);
      activity_variances =
          if include_details
          then details baseline current added_codes removed_codes modified_codes
          else [];
      added_activity_codes = sort_by leb added_codes;
      removed_activity_codes = sort_by leb removed_codes;
      modified_activity_codes = sort_by leb modified_codes;
    }
