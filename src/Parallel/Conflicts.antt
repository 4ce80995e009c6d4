-- ===== src/Parallel/Conflicts.antt =====
-- services/parallel_leveling.py: the conflicts that the matrix holds.
use defense_pm_tool.Prelude.{
  ℕ, zero, suc, ◌≡◌, refl, sym, ap, ◌∙◌, subst, arith, Bool, true, false, not, ◌&&◌, ◌||◌, ◌==◌,
  if◌then◌else◌, List, [], ◌∷◌, Bool-cases, inl, inr,
}
use defense_pm_tool.Prelude.Int.{leb_ℤ, eqb_ℤ, max_ℤ}
use defense_pm_tool.Prelude.Sort.{any}
use defense_pm_tool.Decimal.{Decimal}
use defense_pm_tool.Dates.{Date, is_weekend, next_day, span}
use defense_pm_tool.Dates.Ranges.{is_among-span}
use defense_pm_tool.Loading.{Assignment, Resource}
use defense_pm_tool.Leveling.{LevelingOptions, Repositories, Working, any_workday}
use defense_pm_tool.Parallel.{
  ResourceConflict, activities_on, is_conflict, conflict_of, is_target, earliest_start,
  latest_finish,
}
use defense_pm_tool.Parallel.Heap.{Heapq, HeapqLaws}
use defense_pm_tool.Parallel.Run.{scan, scan_resource, scan_all, build_conflict_matrix}
use defense_pm_tool.Parallel.Days.{
  busy_within, any_workday-at, any_workday-none, any_workday-cong, any-factor, and_assoc, several,
  regroup, min_self, max_self, never_conflict, any_none, no_match, nothing_left, or_nothing,
  one_day,
}

module _ (heapq : Heapq) (laws : HeapqLaws heapq) (repositories : Repositories)
    (resources : List Resource) (options : LevelingOptions) (fuel : ℕ) where
  -- Some day of the loop has a conflict that passes.
  abbrev finds : (ResourceConflict → Bool) → Working → Date → ℕ → Resource → List Assignment → Bool
  finds p w d n r l =
      any_workday (λ e. is_conflict r.capacity_per_day l w e && p (conflict_of r l w e)) d n

  any-scan :
      (p : ResourceConflict → Bool) (r : Resource) (l : List Assignment) (w : Working) (d : Date)
      (n : ℕ) (conflicts : List ResourceConflict)
      → any p (scan heapq repositories resources options fuel r l w d n conflicts)
        ≡ (finds p w d n r l || any p conflicts)
  unfolding scan any_workday
  any-scan p r l w d zero conflicts = refl
  any-scan p r l w d (suc n) conflicts =
      any-scan p r l w (next_day d) n _
      ∙ pushed (is_weekend d) (is_conflict r.capacity_per_day l w d)
      ∙ one_day (is_weekend d) (is_conflict r.capacity_per_day l w d) (p (conflict_of r l w d))
          (any p conflicts) (finds p w (next_day d) n r l)
    where
      pushed :
          (weekend found : Bool)
          → (finds p w (next_day d) n r l
              || any p (
                  if weekend
                  then conflicts
                  else (if found
                      then heapq.heappush (conflict_of r l w d) conflicts
                      else conflicts)))
            ≡ (if weekend
                then finds p w (next_day d) n r l || any p conflicts
                else (if found
                    then finds p w (next_day d) n r l
                      || (p (conflict_of r l w d) || any p conflicts)
                    else finds p w (next_day d) n r l || any p conflicts))
      pushed true found = refl
      pushed false true =
          ap (λ b. finds p w (next_day d) n r l || b)
            (laws.heappush_any p (conflict_of r l w d) conflicts)
      pushed false false = refl

  no_assignments :
      (capacity : Decimal) (w : Working) (d : Date) → is_conflict capacity [] w d ≡ false
  unfolding is_conflict activities_on
  no_assignments capacity w d = ground arith

  any-scan_resource :
      (p : ResourceConflict → Bool) (r : Resource) (l : List Assignment) (w : Working) (d : Date)
      (n : ℕ) (conflicts : List ResourceConflict)
      → any p (scan_resource heapq repositories resources options fuel w d n r l conflicts)
        ≡ (finds p w d n r l || any p conflicts)
  unfolding scan_resource
  any-scan_resource p r [] w d n conflicts = sym (
      ap (λ b. b || any p conflicts)
        (any_workday-none (λ e. is_conflict r.capacity_per_day [] w e && p (conflict_of r [] w e)) d
          n λ e. ap (λ b. b && p (conflict_of r [] w e)) (no_assignments r.capacity_per_day w e)))
  any-scan_resource p r (a ∷ l) w d n conflicts = any-scan p r (a ∷ l) w d n conflicts

  -- The resource is to be levelled and some day has a conflict that passes.
  abbrev finds_for : (ResourceConflict → Bool) → Working → Date → ℕ → Resource → Bool
  finds_for p w d n r =
      is_target options.target_resources r.id
      && finds p w d n r (repositories.get_assignments_with_activities r.id)

  pub any-scan_all :
      (p : ResourceConflict → Bool) (w : Working) (d : Date) (n : ℕ) (rs : List Resource)
      (conflicts : List ResourceConflict)
      → any p (scan_all heapq repositories resources options fuel w d n rs conflicts)
        ≡ (any (finds_for p w d n) rs || any p conflicts)
  unfolding scan_all
  any-scan_all p w d n [] conflicts = refl
  any-scan_all p w d n (r ∷ rs) conflicts =
      elim (Bool-cases (is_target options.target_resources r.id)) [
        | inl e ↦ rw e (
            any-scan_all p w d n rs _
            ∙ ap (λ b. any (finds_for p w d n) rs || b)
                (any-scan_resource p r (repositories.get_assignments_with_activities r.id) w d n
                  conflicts)
            ∙ swap (any (finds_for p w d n) rs) _ (any p conflicts))
        | inr e ↦ rw e (any-scan_all p w d n rs conflicts)
      ]
    where
      swap : (a b c : Bool) → (a || (b || c)) ≡ ((b || a) || c)
      swap a b c = ground arith

  -- A resource and a day have a conflict: the resource is to be levelled, and on that day the activities
  -- under way ask for more than its capacity, and are more than one.
  abbrev pub has_conflict : ℕ → Date → Working → Resource → Bool
  has_conflict k d w r =
      (r.id == k)
      && (is_target options.target_resources r.id
          && is_conflict r.capacity_per_day (repositories.get_assignments_with_activities r.id) w d)

  abbrev pub is_of : ℕ → Date → ResourceConflict → Bool
  is_of k d c = (c.resource_id == k) && eqb_ℤ c.conflict_date d

  finds_at :
      (k : ℕ) (d : Date) (w : Working) (first last : Date) (r : Resource) (l : List Assignment)
      → finds (is_of k d) w first (span first last) r l ≡ (
          ((leb_ℤ first d && leb_ℤ d last) && not (is_weekend d))
          && (is_conflict r.capacity_per_day l w d && (r.id == k)))
  unfolding conflict_of
  finds_at k d w first last r l =
      any_workday-cong _ (λ e. (is_conflict r.capacity_per_day l w e && (r.id == k)) && eqb_ℤ e d)
        first (span first last)
        (λ e. and_assoc (is_conflict r.capacity_per_day l w e) (r.id == k) (eqb_ℤ e d))
      ∙ any_workday-at (λ e. is_conflict r.capacity_per_day l w e && (r.id == k)) first
          (span first last) d
      ∙ ap (λ b. (b && not (is_weekend d)) && (is_conflict r.capacity_per_day l w d && (r.id == k)))
          (is_among-span first last d)

  conflict_within :
      (m n d : Date) (capacity : Decimal) (l : List Assignment) (w : Working)
      → is_conflict capacity l w d ≡ true
      → (leb_ℤ (earliest_start m w) d && leb_ℤ d (latest_finish n w)) ≡ true
  unfolding is_conflict
  conflict_within m n d capacity l w h = busy_within m n d w l (several _ _ h)

  whole_range :
      (j : ℕ) (dates : Date × Date) (w : Working) (d : Date) (capacity : Decimal)
      (l : List Assignment)
      → is_conflict capacity l ((j, dates) ∷ w) d ≡ true
      → (leb_ℤ (earliest_start dates.0 w) d && leb_ℤ d (latest_finish dates.1 w)) ≡ true
  unfolding earliest_start latest_finish
  whole_range j dates w d capacity l h =
      subst (λ n. (leb_ℤ (earliest_start dates.0 w) d && leb_ℤ d (latest_finish n w)) ≡ true)
        (max_self dates.1)
        (subst
          (λ m.
            (leb_ℤ (earliest_start m w) d && leb_ℤ d (latest_finish (max_ℤ dates.1 dates.1) w))
            ≡ true)
          (min_self dates.0) (conflict_within dates.0 dates.1 d capacity l ((j, dates) ∷ w) h))

  finds_for_at :
      (k : ℕ) (d : Date) (j : ℕ) (dates : Date × Date) (w : Working) (r : Resource)
      → let first = earliest_start dates.0 w in
        finds_for (is_of k d) ((j, dates) ∷ w) first (span first (latest_finish dates.1 w)) r
        ≡ (not (is_weekend d) && has_conflict k d ((j, dates) ∷ w) r)
  finds_for_at k d j dates w r =
      let l = repositories.get_assignments_with_activities r.id in
      let all : Working = (j, dates) ∷ w in
      let first = earliest_start dates.0 w in
      let last = latest_finish dates.1 w in
      ap (λ b. is_target options.target_resources r.id && b) (finds_at k d all first last r l)
      ∙ regroup (is_target options.target_resources r.id) (leb_ℤ first d && leb_ℤ d last)
          (not (is_weekend d)) (is_conflict r.capacity_per_day l all d) (r.id == k)
          (whole_range j dates w d r.capacity_per_day l)

  -- A resource has a conflict on a day in the matrix just if the day is a workday, the resource is one
  -- of those to be levelled, and the activities that are under way on the day and assigned to it are
  -- more than one and ask for more than its capacity.
  pub build_conflict_matrix-exact :
      (k : ℕ) (d : Date) (w : Working)
      → any (is_of k d) (build_conflict_matrix heapq repositories resources options fuel w)
        ≡ (not (is_weekend d) && any (has_conflict k d w) resources)
  unfolding build_conflict_matrix
  build_conflict_matrix-exact k d [] = no_match (not (is_weekend d)) _ (
      any_none (has_conflict k d []) resources λ r.
        rw (never_conflict r.capacity_per_day (repositories.get_assignments_with_activities r.id) d)
          (nothing_left (r.id == k) (is_target options.target_resources r.id)))
  build_conflict_matrix-exact k d ((j, dates) ∷ w) =
      any-scan_all (is_of k d) ((j, dates) ∷ w) (earliest_start dates.0 w)
        (span (earliest_start dates.0 w) (latest_finish dates.1 w)) resources []
      ∙ or_nothing _
      ∙ any-factor _ (has_conflict k d ((j, dates) ∷ w)) (not (is_weekend d)) resources
          (finds_for_at k d j dates w)
