-- ===== src/Parallel/Legal.antt =====
-- services/parallel_leveling.py: which activity is selected for a conflict.
use defense_pm_tool.Prelude.{
  ℕ, ◌≡◌, refl, ap, ◌∙◌, arith, Bool, true, false, not, ◌&&◌, ◌||◌, Option, none, some, List, [],
  ◌∷◌, foldl, All, Bool-cases, inl, inr,
}
use defense_pm_tool.Prelude.Int.{◌-ℤ◌, ltb_ℤ}
use defense_pm_tool.Prelude.Dict.{Dict, lookup, insert, lookup-insert_cases}
use defense_pm_tool.Prelude.Sort.{any, All-sort_by}
use defense_pm_tool.Dates.{Date, or_date}
use defense_pm_tool.Leveling.{Activity, LevelingOptions, Repositories, Working}
use defense_pm_tool.Leveling.Legal.{Has, Known}
use defense_pm_tool.Leveling.Program.{date_max, given, or_large}
use defense_pm_tool.Parallel.{
  ResourceConflict, ActivityPriority, priority_of, calculate_priorities, lower, is_candidate,
  add_candidate, candidates, first_of, greatest, select_activity_to_delay,
}

-- The activity has dates.
abbrev pub is_dated : Working → ℕ → Bool
is_dated w k = elim (lookup k w) [ none ↦ false | some dates ↦ true ]

-- Some activity of the conflict has no dates.
abbrev pub is_undated : Working → ResourceConflict → Bool
is_undated w c = any (λ k. not (is_dated w k)) c.activities

-- The options let an activity that starts on a day be delayed: it is not critical if the critical path
-- is to be preserved, and has not used its float if the levelling is to stay within it.
abbrev pub may_delay : LevelingOptions → Activity → Date → Bool
may_delay options a start =
    not (options.preserve_critical_path && a.is_critical)
    && (not options.level_within_float
        || ltb_ℤ (start -ℤ given date_max (or_date a.early_start a.planned_start))
            (or_large a.total_float))

module _ (repositories : Repositories) (activities : List Activity) where
  -- The priority of one of the activities.
  abbrev IsOfActivity : ActivityPriority → Type 0
  IsOfActivity p = (a : Activity) × Has activities a × (p ≡ priority_of repositories a)

  -- A dictionary of priorities of the activities, by their ids.
  abbrev pub IsById : Dict ActivityPriority → Type 0
  IsById d =
      (k : ℕ) (p : ActivityPriority) → lookup k d ≡ some p → IsOfActivity p × (p.activity_id ≡ k)

  IsById-insert :
      (a : Activity) (d : Dict ActivityPriority)
      → Has activities a
      → IsById d
      → IsById (insert a.id (priority_of repositories a) d)
  unfolding priority_of
  IsById-insert a d has by_id k p found =
      elim (lookup-insert_cases a.id k (priority_of repositories a) p d found) [
        | inl (same, e) ↦ ((a, has, e), ap (λ q. q.activity_id) e ∙ same)
        | inr (other, e) ↦ by_id k p e
      ]

  IsById-from :
      (part : List Activity) (d : Dict ActivityPriority)
      → All (Has activities) part
      → IsById d
      → IsById (foldl (λ e a. insert a.id (priority_of repositories a) e) d part)
  IsById-from [] d has by_id = by_id
  IsById-from (a ∷ part) d has by_id =
      IsById-from part (insert a.id (priority_of repositories a) d) has.1
        (IsById-insert a d has.0 by_id)

  pub calculate_priorities-IsById :
      All (Has activities) activities → IsById (calculate_priorities repositories activities)
  unfolding calculate_priorities lookup
  calculate_priorities-IsById has = IsById-from activities [] has λ k p found. cc

  module _ (options : LevelingOptions) (w : Working) where
    -- An activity that may be delayed from its dates.
    abbrev IsChoice : ActivityPriority → Type 0
    IsChoice p =
        (dates : Date × Date) × (lookup p.activity_id w ≡ some dates)
        × (is_candidate options p dates.0 ≡ true)
        × IsOfActivity p

    add_candidate-IsChoice :
        (q : Option ActivityPriority) (o : Option (Date × Date)) (rest : List ActivityPriority)
        → ((p : ActivityPriority) → q ≡ some p → IsOfActivity p × (lookup p.activity_id w ≡ o))
        → (dates : Date × Date) × (o ≡ some dates)
        → All IsChoice rest
        → (l : List ActivityPriority) × (add_candidate options q o (some rest) ≡ some l)
          × All IsChoice l
    unfolding add_candidate
    add_candidate-IsChoice none o rest own dated h = (rest, refl, h)
    add_candidate-IsChoice (some p) none rest own dated h = let missing = dated.1 in cc
    add_candidate-IsChoice (some p) (some dates) rest own dated h =
        elim (Bool-cases (is_candidate options p dates.0)) [
          | inl e ↦
              let (of, found) = own p refl in (p ∷ rest, rw e refl, ((dates, found, e, of), h))
          | inr e ↦ (rest, rw e refl, h)
        ]

    dated : (k : ℕ) → not (is_dated w k) ≡ false → Known w k
    dated k h = by_lookup (lookup k w) h
      where
        by_lookup :
            (o : Option (Date × Date))
            → not (elim o [ none ↦ false | some dates ↦ true ]) ≡ false
            → (dates : Date × Date) × (o ≡ some dates)
        by_lookup none h = cc
        by_lookup (some dates) h = (dates, refl)

    candidates-IsChoice :
        (priorities : Dict ActivityPriority) (ids : List ℕ)
        → IsById priorities
        → any (λ k. not (is_dated w k)) ids ≡ false
        → (l : List ActivityPriority) × (candidates options priorities w ids ≡ some l)
          × All IsChoice l
    unfolding candidates
    candidates-IsChoice priorities [] by_id h = ([], refl, tt)
    candidates-IsChoice priorities (k ∷ ids) by_id h =
        let (here, later) = or_false (not (is_dated w k)) (any (λ j. not (is_dated w j)) ids) h in
        let (rest, ran, all) = candidates-IsChoice priorities ids by_id later in
        let (l, added, choice) =
          add_candidate-IsChoice (lookup k priorities) (lookup k w) rest
            (λ p found. ((by_id k p found).0, ap (λ j. lookup j w) (by_id k p found).1))
            (dated k here) all in
        (l, rw ran added, choice)
      where
        or_false : (a b : Bool) → (a || b) ≡ false → (a ≡ false) × (b ≡ false)
        or_false a b h = (ground arith, ground arith)

    -- The selected activity may be delayed.
    abbrev pub IsChosen : Option ℕ → Type 0
    IsChosen none = Unit
    IsChosen (some k) = (p : ActivityPriority) × (p.activity_id ≡ k) × IsChoice p

    first_of-IsChosen : (l : List ActivityPriority) → All IsChoice l → IsChosen (first_of l)
    first_of-IsChosen [] h = tt
    first_of-IsChosen (p ∷ l) h = (p, refl, h.0)

    pub select_activity_to_delay-IsChosen :
        (priorities : Dict ActivityPriority) (c : ResourceConflict)
        → IsById priorities
        → is_undated w c ≡ false
        → (o : Option ℕ) × (select_activity_to_delay options priorities w c ≡ some o) × IsChosen o
    unfolding select_activity_to_delay greatest
    select_activity_to_delay-IsChosen priorities c by_id h =
        let (l, ran, all) = candidates-IsChoice priorities c.activities by_id h in
        (
          greatest l,
          rw (select_activity_to_delay, ran) refl,
          first_of-IsChosen _ (All-sort_by (λ a b. not (lower a b)) IsChoice l all),
        )

pub is_candidate-may_delay :
    (repositories : Repositories) (options : LevelingOptions) (a : Activity) (start : Date)
    → is_candidate options (priority_of repositories a) start ≡ may_delay options a start
unfolding is_candidate priority_of
is_candidate-may_delay repositories options a start = ground arith
