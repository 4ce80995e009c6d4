-- ===== src/Leveling/Legal.antt =====
-- services/resource_leveling.py: what each round of the loop may change.
use defense_pm_tool.Prelude.{
  ℕ, ◌≡◌, refl, sym, ap, ◌∙◌, subst, arith, Bool, true, not, ◌&&◌, ◌||◌, ◌==◌, ==_refl, Option,
  none, some, List, [], ◌∷◌, ◌++◌, All, Bool-cases, inl, inr,
}
use defense_pm_tool.Prelude.Int.{ℤ, pos, ◌+ℤ◌, ◌-ℤ◌, ◌≤ℤ◌, leb_ℤ, int_laws}
use defense_pm_tool.Prelude.Dict.{lookup, insert, lookup-insert_self}
use defense_pm_tool.Prelude.Sort.{any}
use defense_pm_tool.Dates.{Date}
use defense_pm_tool.Loading.{Assignment}
use defense_pm_tool.Leveling.{
  Activity, LevelingOptions, ActivityShift, Repositories, Working, can_delay_activity,
  is_overallocated_on_dates, recalculate_successors,
}
use defense_pm_tool.Leveling.Loop.{
  State, Step, unchanged, changed, stuck, or_else, pushed, shift_of, warn, delay, is_outside,
  level_assignment, level_assignments, level_activity, level_once,
}
use defense_pm_tool.Leveling.Later.{
  LaterAt, Later, Later_trans, Later-insert, recalculate_successors-Later,
}

abbrev pub or_zero : Option ℤ → ℤ
or_zero none = pos 0
or_zero (some f) = f

-- The options let the activity be delayed by so many days: it is not critical if the critical path
-- is to be preserved, and has the float if the levelling is to stay within it.
abbrev pub allows : LevelingOptions → Activity → ℤ → Bool
allows options a d =
    not (options.preserve_critical_path && a.is_critical)
    && (not options.level_within_float || leb_ℤ d (or_zero a.total_float))

-- A shift of an activity of the list: a delay of a day or more that the options allow, of both dates.
pub record IsLegal (options : LevelingOptions) (l : List Activity) (s : ActivityShift)
    : Type 0 where
  pub is_delay : pos 1 ≤ℤ s.delay_days
  pub start_is : s.new_start ≡ s.original_start +ℤ s.delay_days
  pub finish_is : s.new_finish ≡ s.original_finish +ℤ s.delay_days
  pub allowed : any (λ a. (a.id == s.activity_id) && allows options a s.delay_days) l ≡ true

can_delay-allows :
    (a : Activity) (d : ℤ) (options : LevelingOptions)
    → can_delay_activity a d options ≡ true
    → (pos 1 ≤ℤ d) × (allows options a d ≡ true)
unfolding can_delay_activity
can_delay-allows a d options h = ground arith

delayed_start : (s n : Date) → n ≡ s +ℤ (n -ℤ s)
delayed_start s n = grind int_laws

delayed_finish : (s f n : Date) → (n +ℤ (f -ℤ s)) ≡ f +ℤ (n -ℤ s)
delayed_finish s f n = grind int_laws

delayed_LaterAt : (s f n : Date) → s ≤ℤ n → LaterAt (some (s, f)) (some (n, n +ℤ (f -ℤ s)))
delayed_LaterAt s f n h = (h, grind int_laws)

allowed_here :
    (options : LevelingOptions) (a : Activity) (d : ℤ)
    → allows options a d ≡ true
    → ((a.id == a.id) && allows options a d) ≡ true
allowed_here options a d h = rw (==_refl a.id) h

no_sooner : (s n : Date) → pos 1 ≤ℤ (n -ℤ s) → s ≤ℤ n
no_sooner s n h = grind (int_laws, h)

warn_shifts :
    (options : LevelingOptions) (a : Activity) (st : State) → (warn options a st).shifts ≡ st.shifts
unfolding warn
warn_shifts options a st = ground arith

warn_working :
    (options : LevelingOptions) (a : Activity) (st : State)
    → (warn options a st).working ≡ st.working
unfolding warn
warn_working options a st = ground arith

-- The activity is one of the list.
abbrev pub Has : List Activity → Activity → Type 0
Has l a = (p : Activity → Bool) → p a ≡ true → any p l ≡ true

-- One step adds no shift and moves nothing, or adds a legal shift and moves activities later.
abbrev pub StepOk : LevelingOptions → List Activity → State → Step → Type 0
StepOk options l st (unchanged st') = (st'.shifts ≡ st.shifts) × (st'.working ≡ st.working)
StepOk options l st (changed st') =
    (s : ActivityShift) × IsLegal options l s
    × (st'.shifts ≡ st.shifts ++ (s ∷ []))
    × Later st.working st'.working
StepOk options l st stuck = ⊥

-- The activity has working dates.
abbrev pub Known : Working → ℕ → Type 0
Known w k = (p : Date × Date) × (lookup k w ≡ some p)

-- The activities of a part of the list are of the list and have dates.
abbrev pub AllKnown : List Activity → Working → List Activity → Type 0
AllKnown l w part = All (λ a. Has l a × Known w a.id) part

-- The recursion on the successors of an activity that has dates comes back.
abbrev pub Returns : Repositories → ℕ → Type 0
Returns repositories fuel =
    (k : ℕ) (w : Working)
    → Known w k
    → (w' : Working) × (recalculate_successors repositories fuel k w ≡ some w')

module _ (repositories : Repositories) (options : LevelingOptions) (fuel : ℕ)
    (returns : Returns repositories fuel) where
  legal :
      (l : List Activity) (a : Activity) (start finish n : Date)
      → any (λ b. (b.id == a.id) && allows options b (n -ℤ start)) l ≡ true
      → pos 1 ≤ℤ (n -ℤ start)
      → IsLegal options l (shift_of a start finish n)
  unfolding shift_of
  legal l a start finish n h k = record {
    is_delay = k;
    start_is = delayed_start start n;
    finish_is = delayed_finish start finish n;
    allowed = h;
  }

  pushed-StepOk :
      (l : List Activity) (st : State) (s : ActivityShift) (w : Working)
      → IsLegal options l s
      → Later st.working w
      → StepOk options l st (pushed (record st { shifts = st.shifts ++ (s ∷ []) }) (some w))
  pushed-StepOk l st s w h k = (s, h, refl, k)

  delay-StepOk :
      (l : List Activity) (a : Activity) (start finish n : Date) (st : State)
      → Has l a
      → lookup a.id st.working ≡ some (start, finish)
      → StepOk options l st (delay repositories options fuel a start finish n st)
  unfolding delay shift_of
  delay-StepOk l a start finish n st has dates = elim (Bool-cases (leb_ℤ (n -ℤ start) (pos 0))) [
    | inl e ↦ rw e (refl, refl)
    | inr e ↦ elim (Bool-cases (can_delay_activity a (n -ℤ start) options)) [
      | inl c ↦
          let (late, ok) = can_delay-allows a (n -ℤ start) options c in
          let new : Date × Date = (n, n +ℤ (finish -ℤ start)) in
          let (w, ran) =
            returns a.id (insert a.id new st.working)
              (new, lookup-insert_self a.id new st.working) in
          rw (e, c, ran)
            (pushed-StepOk l st (shift_of a start finish n) w
              (legal l a start finish n (has _ (allowed_here options a (n -ℤ start) ok)) late)
              (Later_trans st.working (insert a.id new st.working) w
                (Later-insert a.id (start, finish) new st.working dates
                  (delayed_LaterAt start finish n (no_sooner start n late)))
                (recalculate_successors-Later repositories fuel a.id (insert a.id new st.working) w
                  ran)))
      | inr c ↦ rw (e, c) (warn_shifts options a st, warn_working options a st)
    ]
  ]

  -- What follows an unchanged state follows the state before it.
  after_unchanged :
      (l : List Activity) (st st' : State) (step : Step)
      → StepOk options l st (unchanged st')
      → StepOk options l st' step
      → StepOk options l st step
  after_unchanged l st st' (unchanged u) h k = (k.0 ∙ h.0, k.1 ∙ h.1)
  after_unchanged l st st' (changed u) h k =
      let (s, ok, more, later) = k in
      (s, ok, more ∙ ap (λ x. x ++ (s ∷ [])) h.0, subst (λ w. Later w u.working) h.1 later)
  after_unchanged l st st' stuck h k = k

  or_else-StepOk :
      (l : List Activity) (st : State) (step : Step) (next : State → Step)
      → StepOk options l st step
      → ((st' : State) → st'.working ≡ st.working → StepOk options l st' (next st'))
      → StepOk options l st (or_else step next)
  or_else-StepOk l st (unchanged st') next h k = after_unchanged l st st' (next st') h (k st' h.1)
  or_else-StepOk l st (changed st') next h k = h
  or_else-StepOk l st stuck next h k = h

  module _ (l : List Activity) (a : Activity) (start finish : Date) (has : Has l a) where
    level_assignment-StepOk :
        (x : Assignment) (st : State)
        → lookup a.id st.working ≡ some (start, finish)
        → StepOk options l st (level_assignment repositories options fuel a start finish x st)
    unfolding level_assignment
    level_assignment-StepOk x st dates =
        elim (Bool-cases (is_outside options.target_resources x.resource_id)) [
          | inl e ↦ rw e (refl, refl)
          | inr e ↦
              elim (Bool-cases
                (is_overallocated_on_dates repositories x.resource_id start finish st.working)) [
                  | inl o ↦ rw (e, o) (delay-StepOk l a start finish _ st has dates)
                  | inr o ↦ rw (e, o) (refl, refl)
                ]
        ]

    level_assignments-StepOk :
        (xs : List Assignment) (st : State)
        → lookup a.id st.working ≡ some (start, finish)
        → StepOk options l st (level_assignments repositories options fuel a start finish xs st)
    unfolding level_assignments
    level_assignments-StepOk [] st dates = (refl, refl)
    level_assignments-StepOk (x ∷ xs) st dates =
        or_else-StepOk l st (level_assignment repositories options fuel a start finish x st)
          (level_assignments repositories options fuel a start finish xs)
          (level_assignment-StepOk x st dates)
          λ st' same. level_assignments-StepOk xs st' (ap (lookup a.id) same ∙ dates)

  level_activity-StepOk :
      (l : List Activity) (a : Activity) (dates : Option (Date × Date)) (st : State)
      → Has l a
      → lookup a.id st.working ≡ dates
      → (p : Date × Date) × (dates ≡ some p)
      → StepOk options l st (level_activity repositories options fuel a dates st)
  unfolding level_activity
  level_activity-StepOk l a none st has e known = let missing = known.1 in cc
  level_activity-StepOk l a (some dates) st has e known =
      level_assignments-StepOk l a dates.0 dates.1 has (repositories.get_by_activity a.id) st e

  -- A round over a part of the list of activities.
  pub level_once-StepOk :
      (l part : List Activity) (st : State)
      → AllKnown l st.working part
      → StepOk options l st (level_once repositories options fuel part st)
  unfolding level_once
  level_once-StepOk l [] st h = (refl, refl)
  level_once-StepOk l (a ∷ part) st h =
      or_else-StepOk l st (level_activity repositories options fuel a (lookup a.id st.working) st)
        (level_once repositories options fuel part)
        (level_activity-StepOk l a (lookup a.id st.working) st h.0.0 refl h.0.1)
        λ st' same. level_once-StepOk l part st' (subst (λ w. AllKnown l w part) (sym same) h.1)
