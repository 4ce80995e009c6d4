-- ===== src/Leveling/Result.antt =====
-- services/resource_leveling.py: the result of `level_program`.
use defense_pm_tool.Prelude.{
  All-mono, length-snoc, ℕ, suc, ◌+◌, ◌<◌, ◌≤◌, ◌≡◌, refl, ◌∙◌, sym, arith, length, some, List, [],
  ◌∷◌, All, Bool-cases, inl, inr, foldl,
}
use defense_pm_tool.Prelude.Int.{
  ℤ, pos, ◌+ℤ◌, ◌-ℤ◌, ◌≤ℤ◌, max_ℤ, max_ℤ_bounds, max_ℤ_cases, int_laws, le_trans_ℤ,
}
use defense_pm_tool.Prelude.Dict.{insert-keeps, lookup-insert_self, values}
use defense_pm_tool.Prelude.Sort.{any-sort_by}
use defense_pm_tool.Dates.{Date}
use defense_pm_tool.Loading.{Resource}
use defense_pm_tool.Leveling.{
  Activity, LevelingOptions, ActivityShift, LevelingResult, Repositories, Working,
}
use defense_pm_tool.Leveling.Loop.{State, contains}
use defense_pm_tool.Leveling.Legal.{IsLegal, Known, Returns}
use defense_pm_tool.Leveling.Restore.{IsRanked}
use defense_pm_tool.Leveling.Returns.{recalculate_successors-returns}
use defense_pm_tool.Leveling.Rounds.{level_loop-Ran}
use defense_pm_tool.Leveling.Program.{
  Program, get_project_finish, get_sorted_activities, initial_dates, latest_of, set_add, count_ids,
  finished, level_program,
}

initial_dates-keeps :
    (program : Program) (l : List Activity) (w : Working) (k : ℕ)
    → Known w k
    → Known (initial_dates program l w) k
unfolding initial_dates
initial_dates-keeps program [] w k known = known
initial_dates-keeps program (a ∷ l) w k known =
    initial_dates-keeps program l _ k (insert-keeps a.id k _ known.0 w known.1)

-- Every activity gets dates.
initial_dates-Known :
    (program : Program) (l : List Activity) (w : Working)
    → All (λ a. Known (initial_dates program l w) a.id) l
unfolding initial_dates
initial_dates-Known program [] w = tt
initial_dates-Known program (a ∷ l) w = (
  initial_dates-keeps program l _ a.id (_, lookup-insert_self a.id _ w),
  initial_dates-Known program l _,
)

below_max : (d m x : ℤ) → d ≤ℤ m → d ≤ℤ max_ℤ m x
below_max d m x h = le_trans_ℤ d m (max_ℤ m x) h (max_ℤ_bounds m x).0

latest_of-bound : (d m : Date) (l : List (Date × Date)) → d ≤ℤ m → d ≤ℤ latest_of m l
unfolding latest_of
latest_of-bound d m [] h = h
latest_of-bound d m (x ∷ l) h = latest_of-bound d (max_ℤ m x.1) l (below_max d m x.1 h)

length-set_add : (ids : List ℕ) (k : ℕ) → length (set_add ids k) ≤ suc (length ids)
unfolding set_add
length-set_add ids k = elim (Bool-cases (contains k ids)) [
  | inl e ↦ rw e omega arith
  | inr e ↦ rw e (let more = length-snoc ids k in omega arith)
]

count_from :
    (ids : List ℕ) (shifts : List ActivityShift)
    → length (foldl (λ i s. set_add i s.activity_id) ids shifts) ≤ length ids + length shifts
count_from ids [] = omega arith
count_from ids (s ∷ shifts) =
    let one = length-set_add ids s.activity_id in
    let rest = count_from (set_add ids s.activity_id) shifts in omega (arith, one, rest)

-- No more activities are shifted than there are shifts.
pub count_ids-bound : (shifts : List ActivityShift) → count_ids shifts ≤ length shifts
unfolding count_ids
count_ids-bound shifts = let bound = count_from [] shifts in omega arith

extension : (old new : Date) → old ≤ℤ new → (old +ℤ max_ℤ (new -ℤ old) (pos 0)) ≡ new
extension old new h =
    let (least, above) = max_ℤ_bounds (new -ℤ old) (pos 0) in
    elim (max_ℤ_cases (new -ℤ old) (pos 0)) [
      | inl e ↦ rw e grind int_laws
      | inr e ↦ rw e (let same = rw e at least in grind int_laws)
    ]

no_reduction : (d : ℤ) → pos 0 ≤ℤ max_ℤ d (pos 0)
no_reduction d = (max_ℤ_bounds d (pos 0)).1

IsLegal-sorted :
    (options : LevelingOptions) (l : List Activity) (s : ActivityShift)
    → IsLegal options (get_sorted_activities l) s
    → IsLegal options l s
unfolding get_sorted_activities
IsLegal-sorted options l s h = record {
  is_delay = h.is_delay;
  start_is = h.start_is;
  finish_is = h.finish_is;
  allowed = sym (any-sort_by _ _ l) ∙ h.allowed;
}

-- What `level_program` makes of a program's activities.
abbrev pub IsLawful : LevelingOptions → List Activity → LevelingResult → Type 0
IsLawful options l r =
    All (IsLegal options l) r.shifts
    × (length r.shifts ≤ r.iterations_used)
    × (r.iterations_used ≤ options.max_iterations)
    × (r.activities_shifted ≤ length r.shifts)
    × ((r.original_project_finish +ℤ r.schedule_extension_days) ≡ r.new_project_finish)
    × (pos 0 ≤ℤ r.schedule_extension_days)

module _ (repositories : Repositories) (options : LevelingOptions) where
  finished-IsLawful :
      (resources : List Resource) (original : Date) (u : ℕ) (st : State) (l : List Activity)
      → All (IsLegal options (get_sorted_activities l)) st.shifts
      → length st.shifts ≤ u
      → u ≤ options.max_iterations
      → IsLawful options l (finished repositories options resources original u st)
  unfolding finished
  finished-IsLawful resources original u st l legal few rounds = (
    All-mono st.shifts (IsLegal-sorted options l) legal,
    few,
    rounds,
    count_ids-bound st.shifts,
    extension original _ (latest_of-bound original original (values st.working) (omega arith)),
    no_reduction _,
  )

  module _ (rank : ℕ → ℕ) (fuel : ℕ) (ranked : IsRanked repositories rank)
      (enough : (k : ℕ) → rank k < fuel) where
    returns : Returns repositories fuel
    returns k w known =
        recalculate_successors-returns repositories rank ranked fuel k w (enough k) known

    -- Let every dependency lead to a lower rank, and every rank be below the fuel. Then the levelling
    -- ends without an error. Each shift is of an activity of the program, delays it by a day or more,
    -- both dates alike, and is one that the options allow: not of a critical activity if the critical
    -- path is to be preserved, and, if the levelling is to stay within the float, by no more days than
    -- the total float that the activity had at the start, whatever it was delayed before. There are no
    -- more shifts than iterations, no more iterations than the options say, and no more activities
    -- shifted than shifts. The new finish of the project is the original one and the extension, which
    -- is not negative.
    pub level_program-IsLawful :
        (today : Date) (program : Program) (resources : List Resource) (activities : List Activity)
        → (r : LevelingResult) × (level_program repositories options fuel today program resources
              activities
            ≡ some r)
          × IsLawful options activities r
    unfolding level_program
    level_program-IsLawful today program resources [] =
        (_, refl, (tt, omega arith, omega arith, omega arith, grind int_laws, omega arith))
    level_program-IsLawful today program resources (a ∷ l) =
        let sorted = get_sorted_activities (a ∷ l) in
        let original = get_project_finish today (a ∷ l) in
        let (u, st, ran, (legal, few, rounds, later)) =
          level_loop-Ran options sorted repositories fuel returns options.max_iterations 0
            (record { working = initial_dates program sorted []; shifts = []; warnings = [] })
            (tt, omega arith, initial_dates-Known program sorted []) in
        (
          finished repositories options resources original u st,
          rw (level_program, ran),
          finished-IsLawful resources original u st (a ∷ l) legal few (omega (arith, rounds)),
        )
