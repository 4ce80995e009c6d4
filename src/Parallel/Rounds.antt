-- ===== src/Parallel/Rounds.antt =====
-- services/parallel_leveling.py: the rounds of the loop over the conflicts.
use defense_pm_tool.Prelude.{
  ℕ, zero, suc, ◌+◌, ◌≤◌, ◌≡◌, refl, sym, ap, ◌∙◌, subst, arith, Bool, true, false, ◌&&◌, ◌||◌,
  ◌==◌, ==_refl, Option, none, some, List, [], ◌∷◌, ◌++◌, length, All, All-snoc, length-snoc,
  Bool-cases, inl, inr, ◌⊎◌,
}
use defense_pm_tool.Prelude.Int.{ℤ, pos, ◌+ℤ◌, ◌-ℤ◌, ◌≤ℤ◌, leb_ℤ, int_laws}
use defense_pm_tool.Prelude.Dict.{Dict, lookup, insert, lookup-insert_self}
use defense_pm_tool.Prelude.Sort.{any}
use defense_pm_tool.Dates.{Date}
use defense_pm_tool.Loading.{Resource}
use defense_pm_tool.Leveling.{Activity, LevelingOptions, ActivityShift, Repositories}
use defense_pm_tool.Leveling.Later.{
  Later, Later_refl, Later_trans, Later-insert, recalculate_successors-Later,
}
use defense_pm_tool.Leveling.Legal.{Has, Returns}
use defense_pm_tool.Parallel.{
  ResourceConflict, ActivityPriority, priority_of, is_candidate, calculate_minimum_delay,
}
use defense_pm_tool.Parallel.Heap.{Heapq, HeapqLaws}
use defense_pm_tool.Parallel.Run.{
  State, shift_of, warn, popped, build_conflict_matrix, propagate_to_successors, delay, delay_if,
  resolve, round, next_round, with_popped, unless_empty, run_loop,
}
use defense_pm_tool.Parallel.Legal.{
  is_undated, may_delay, IsById, IsChosen, select_activity_to_delay-IsChosen,
  is_candidate-may_delay,
}
use defense_pm_tool.Parallel.Dated.{build_conflict_matrix-dated}

-- A shift of an activity of the list: a delay of a day or more, of both dates, from a start from which
-- the options let the activity be delayed.
pub record IsLegal (options : LevelingOptions) (l : List Activity) (s : ActivityShift)
    : Type 0 where
  pub is_delay : pos 1 ≤ℤ s.delay_days
  pub start_is : s.new_start ≡ s.original_start +ℤ s.delay_days
  pub finish_is : s.new_finish ≡ s.original_finish +ℤ s.delay_days
  pub allowed : any (λ a. (a.id == s.activity_id) && may_delay options a s.original_start) l ≡ true

left_false : (a b : Bool) → (a || b) ≡ false → a ≡ false
left_false a b h = ground arith

right_false : (a b : Bool) → (a || b) ≡ false → b ≡ false
right_false a b h = ground arith

after_days : (s d : ℤ) → pos 1 ≤ℤ d → s ≤ℤ (s +ℤ d)
after_days s d h = grind (int_laws, h)

same_length : (s f d : ℤ) → ((f +ℤ d) -ℤ (s +ℤ d)) ≡ (f -ℤ s)
same_length s f d = grind int_laws

positive : (d : ℤ) → leb_ℤ d (pos 0) ≡ false → pos 1 ≤ℤ d
positive d h = ground arith

both : (a b : Bool) → a ≡ true → b ≡ true → (a && b) ≡ true
both a b h k = ground arith

at_most : (used m n : ℕ) → m ≡ n → n ≤ used → m ≤ suc used
at_most used m n e h = omega (arith, e, h)

one_more : (used m n : ℕ) → m ≡ suc n → n ≤ used → m ≤ suc used
one_more used m n e h = omega (arith, e, h)

module _ (heapq : Heapq) (laws : HeapqLaws heapq) (repositories : Repositories)
    (resources : List Resource) (options : LevelingOptions) (fuel : ℕ)
    (returns : Returns repositories fuel) (activities : List Activity)
    (has_all : All (Has activities) activities) where
  -- What a round does: nothing moves, or there is one more shift, a legal one, and nothing is earlier.
  abbrev Moved : State → State → Type 0
  Moved st st' =
      ((st'.shifts ≡ st.shifts) × (st'.activity_dates ≡ st.activity_dates))
      ⊎ ((s : ActivityShift) × IsLegal options activities s
          × (st'.shifts ≡ st.shifts ++ s ∷ [])
          × Later st.activity_dates st'.activity_dates)

  -- All activities of the conflicts have dates.
  abbrev IsDated : State → Type 0
  IsDated st = any (is_undated st.activity_dates) st.conflicts ≡ false

  delay-Moved :
      (k : ℕ) (dates : Date × Date) (days : ℤ) (st : State)
      → lookup k st.activity_dates ≡ some dates
      → pos 1 ≤ℤ days
      → any (λ a. (a.id == k) && may_delay options a dates.0) activities ≡ true
      → (st' : State) × (delay heapq repositories resources options fuel k dates days st ≡ some st')
        × Moved st st'
        × IsDated st'
  unfolding delay shift_of propagate_to_successors
  delay-Moved k dates days st found long allowed =
      let new : Date × Date = (dates.0 +ℤ days, dates.1 +ℤ days) in
      let (w, ran) =
        returns k (insert k new st.activity_dates)
          (new, lookup-insert_self k new st.activity_dates) in
      (
        record st {
          shifts = st.shifts ++ shift_of k dates.0 dates.1 days ∷ [];
          activity_dates = w;
          conflicts = build_conflict_matrix heapq repositories resources options fuel w;
        },
        rw ran refl,
        inr (
          shift_of k dates.0 dates.1 days,
          record { is_delay = long; start_is = refl; finish_is = refl; allowed = allowed },
          refl,
          Later_trans st.activity_dates (insert k new st.activity_dates) w
              (Later-insert k dates new st.activity_dates found
                (after_days dates.0 days long, same_length dates.0 dates.1 days))
              (recalculate_successors-Later repositories fuel k (insert k new st.activity_dates) w
                ran),
        ),
        build_conflict_matrix-dated heapq laws repositories resources options fuel w,
      )

  delay_if-Moved :
      (c : ResourceConflict) (k : ℕ) (dates : Date × Date) (st : State)
      → lookup k st.activity_dates ≡ some dates
      → any (λ a. (a.id == k) && may_delay options a dates.0) activities ≡ true
      → IsDated st
      → (st' : State) × (delay_if heapq repositories resources options fuel c k (some dates) st
          ≡ some st')
        × Moved st st'
        × IsDated st'
  unfolding delay_if
  delay_if-Moved c k dates st found allowed dated =
      let days =
        calculate_minimum_delay repositories k c.resource_id c.conflict_date dates
          st.activity_dates in
      elim (Bool-cases (leb_ℤ days (pos 0))) [
        | inl e ↦ (st, rw e refl, inl (refl, refl), dated)
        | inr e ↦
            let (st', ran, moved, dated') =
              delay-Moved k dates days st found (positive days e) allowed in
            (st', rw e ran, moved, dated')
      ]

  chosen-allowed :
      (a : Activity) (k : ℕ) (start : Date)
      → Has activities a
      → a.id ≡ k
      → is_candidate options (priority_of repositories a) start ≡ true
      → any (λ b. (b.id == k) && may_delay options b start) activities ≡ true
  chosen-allowed a k start has same h =
      has (λ b. (b.id == k) && may_delay options b start)
        (subst (λ j. ((a.id == j) && may_delay options a start) ≡ true) same
          (both (a.id == a.id) _ (==_refl a.id)
            (sym (is_candidate-may_delay repositories options a start) ∙ h)))

  resolve-Moved :
      (c : ResourceConflict) (o : Option ℕ) (st : State)
      → IsChosen repositories activities options st.activity_dates o
      → IsDated st
      → (st' : State) × (resolve heapq repositories resources options fuel c (some o) st ≡ some st')
        × Moved st st'
        × IsDated st'
  unfolding resolve warn priority_of
  resolve-Moved c none st chosen dated = (warn c st, refl, inl (refl, refl), dated)
  resolve-Moved c (some k) st chosen dated =
      let (p, same, (dates, at, choice, (a, has, own))) = chosen in
      let found = ap (λ j. lookup j st.activity_dates) (sym same) ∙ at in
      let own_id = sym (ap (λ q. q.activity_id) own) ∙ same in
      let choice' = subst (λ q. is_candidate options q dates.0 ≡ true) own choice in
      let (st', ran, moved, dated') =
        delay_if-Moved c k dates st found (chosen-allowed a k dates.0 has own_id choice') dated in
      (
        st',
        subst (λ o. delay_if heapq repositories resources options fuel c k o st ≡ some st')
            (sym found) ran,
        moved,
        dated',
      )

  round-Moved :
      (priorities : Dict ActivityPriority) (c : ResourceConflict) (rest : List ResourceConflict)
      (st : State)
      → IsById repositories activities priorities
      → is_undated st.activity_dates c ≡ false
      → any (is_undated st.activity_dates) rest ≡ false
      → (st' : State) × (round heapq repositories resources options fuel priorities c rest st
          ≡ some st')
        × Moved st st'
        × IsDated st'
  unfolding round popped
  round-Moved priorities c rest st by_id here later =
      let (o, selected, chosen) =
        select_activity_to_delay-IsChosen repositories activities options st.activity_dates
          priorities c by_id here in
      let (st', ran, moved, dated') = resolve-Moved c o (popped c rest st) chosen later in
      (st', rw (round, selected) ran, moved, dated')

  -- From `st`, reached in `used` rounds, to `st'`, reached in `u`, with at most `n` rounds.
  abbrev pub Ran : ℕ → ℕ → State → ℕ → State → Type 0
  Ran n used st u st' =
      All (IsLegal options activities) st'.shifts
      × (length st'.shifts ≤ u)
      × (u ≤ used + n)
      × Later st.activity_dates st'.activity_dates

  -- What the loop needs of the state it starts from.
  abbrev pub Ready : ℕ → State → Type 0
  Ready used st =
      All (IsLegal options activities) st.shifts × (length st.shifts ≤ used) × IsDated st

  Moved-Later : (st st' : State) → Moved st st' → Later st.activity_dates st'.activity_dates
  Moved-Later st st' (inl same) =
      subst (Later st.activity_dates) (sym same.1) (Later_refl st.activity_dates)
  Moved-Later st st' (inr step) = step.3

  Moved-Ready :
      (used : ℕ) (st st' : State)
      → Ready used st
      → Moved st st'
      → IsDated st'
      → Ready (suc used) st'
  Moved-Ready used st st' ready (inl same) dated = (
    subst (All (IsLegal options activities)) (sym same.0) ready.0,
    at_most used (length st'.shifts) _ (ap length same.0) ready.1,
    dated,
  )
  Moved-Ready used st st' ready (inr (s, ok, more, later)) dated = (
    subst (All (IsLegal options activities)) (sym more)
        (All-snoc (IsLegal options activities) st.shifts s ready.0 ok),
    one_more used (length st'.shifts) _ (ap length more ∙ length-snoc st.shifts s) ready.1,
    dated,
  )

  -- If the recursion on the successors comes back, the loop ends, from a state that is ready for it.
  pub run_loop-Ran :
      (priorities : Dict ActivityPriority) (n used : ℕ) (st : State)
      → IsById repositories activities priorities
      → Ready used st
      → (u : ℕ) × (st' : State) × (run_loop heapq repositories resources options fuel priorities n
            used st
          ≡ some (u, st'))
        × Ran n used st u st'
  unfolding run_loop
  run_loop-Ran priorities zero used st by_id ready =
      (used, st, refl, (ready.0, ready.1, omega arith, Later_refl st.activity_dates))
  run_loop-Ran priorities (suc n) used st by_id ready =
      rounds st.conflicts refl (λ st' ready'. run_loop-Ran priorities n (suc used) st' by_id ready')
    where
      rounds :
          (conflicts : List ResourceConflict)
          → st.conflicts ≡ conflicts
          → ((st' : State)
              → Ready (suc used) st'
              → (u : ℕ) × (end : State) × (run_loop heapq repositories resources options fuel
                    priorities n
                    (suc used)
                    st'
                  ≡ some (u, end))
                × Ran n (suc used) st' u end)
          → (u : ℕ) × (end : State) × (unless_empty conflicts used st (
                next_round
                  (run_loop heapq repositories resources options fuel priorities n (suc used))
                  (with_popped
                    (λ c rest. round heapq repositories resources options fuel priorities c rest st)
                    (heapq.heappop conflicts)))
              ≡ some (u, end))
            × Ran (suc n) used st u end
      rounds [] e again =
          (used, st, refl, (ready.0, ready.1, omega arith, Later_refl st.activity_dates))
      rounds (d ∷ l) e again =
          let (c, rest, taken) = laws.heappop_some d l in
          let split = laws.heappop_any (is_undated st.activity_dates) c (d ∷ l) rest taken in
          let dated = sym split ∙ ap (any (is_undated st.activity_dates)) (sym e) ∙ ready.2 in
          let (next, ran, moved, dated') =
            round-Moved priorities c rest st by_id
              (left_false (is_undated st.activity_dates c) (any (is_undated st.activity_dates) rest)
                dated)
              (right_false (is_undated st.activity_dates c)
                (any (is_undated st.activity_dates) rest) dated) in
          let (u, end, ran', (legal, few, rounds, later)) =
            again next (Moved-Ready used st next ready moved dated') in
          (
            u,
            end,
            rw (taken, ran) ran',
            (
              legal,
              few,
              omega (arith, rounds),
              Later_trans st.activity_dates next.activity_dates end.activity_dates
                  (Moved-Later st next moved) later,
            ),
          )
