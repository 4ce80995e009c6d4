-- ===== src/Leveling/Rounds.antt =====
-- services/resource_leveling.py: what the loop of `level_program` has done when it ends.
use defense_pm_tool.Prelude.{
  All-mono, All-snoc, length-snoc, ℕ, zero, suc, ◌+◌, ◌≤◌, ◌≡◌, refl, sym, ap, ◌∙◌, subst, arith,
  Bool, true, false, ◌||◌, some, List, [], ◌∷◌, ◌++◌, length, All,
}
use defense_pm_tool.Leveling.{Activity, LevelingOptions, ActivityShift, Repositories, Working}
use defense_pm_tool.Leveling.Loop.{
  State, Step, unchanged, changed, stuck, next_round, level_once, level_loop,
}
use defense_pm_tool.Leveling.Later.{Later, Later_refl, Later_trans}
use defense_pm_tool.Leveling.Returns.{Known-Later}
use defense_pm_tool.Leveling.Legal.{
  IsLegal, Has, StepOk, Known, Returns, AllKnown, level_once-StepOk,
}

or_true : (b : Bool) → (b || true) ≡ true
or_true true = refl
or_true false = refl

Has-further : (l : List Activity) (a b : Activity) → Has l a → Has (b ∷ l) a
Has-further l a b h p e = ap (λ c. p b || c) (h p e) ∙ or_true (p b)

Has-first : (l : List Activity) (a : Activity) → Has (a ∷ l) a
Has-first l a p e = rw e refl

-- The activities of a list are of the list.
pub All-Has : (l : List Activity) → All (Has l) l
All-Has [] = tt
All-Has (a ∷ l) = (Has-first l a, All-mono l (λ b. Has-further l b a) (All-Has l))

-- Activities with dates, all of the list.
pub AllKnown-self : (l : List Activity) (w : Working) → All (λ a. Known w a.id) l → AllKnown l w l
AllKnown-self [] w h = tt
AllKnown-self (a ∷ l) w h =
    ((Has-first l a, h.0), All-mono l (λ b k. (Has-further l b a k.0, k.1)) (AllKnown-self l w h.1))

at_most : {n : ℕ} (used : ℕ) → n ≤ used → n ≤ suc used
at_most used h = omega arith

one_more :
    (used : ℕ) (xs ys : List ActivityShift) (s : ActivityShift)
    → ys ≡ xs ++ (s ∷ [])
    → length xs ≤ used
    → length ys ≤ suc used
one_more used xs ys s e h = let more = ap length e ∙ length-snoc xs s in omega arith

module _ (options : LevelingOptions) (l : List Activity) where
  -- From `st`, reached in `used` rounds, to `st'`, reached in `u`, with at most `n` rounds.
  abbrev pub Ran : ℕ → ℕ → State → ℕ → State → Type 0
  Ran n used st u st' =
      All (IsLegal options l) st'.shifts
      × (length st'.shifts ≤ u)
      × (u ≤ used + n)
      × Later st.working st'.working

  -- What the loop needs of the state it starts from.
  abbrev pub Ready : ℕ → State → Type 0
  Ready used st =
      All (IsLegal options l) st.shifts
      × (length st.shifts ≤ used)
      × All (λ a. Known st.working a.id) l

  Ran-unchanged :
      (n used : ℕ) (st st' : State)
      → Ready used st
      → StepOk options l st (unchanged st')
      → Ran (suc n) used st (suc used) st'
  Ran-unchanged n used st st' ready h = (
    subst (All (IsLegal options l)) (sym h.0) ready.0,
    at_most used (subst (λ x. length x ≤ used) (sym h.0) ready.1),
    omega arith,
    subst (Later st.working) (sym h.1) (Later_refl st.working),
  )

  Ready-changed :
      (used : ℕ) (st st' : State)
      → Ready used st
      → StepOk options l st (changed st')
      → Ready (suc used) st'
  Ready-changed used st st' ready h =
      let (s, ok, more, later) = h in
      (
        subst (All (IsLegal options l)) (sym more)
            (All-snoc (IsLegal options l) st.shifts s ready.0 ok),
        one_more used st.shifts st'.shifts s more ready.1,
        All-mono l (λ a. Known-Later st.working st'.working a.id later) ready.2,
      )

  Ran-changed :
      (n used : ℕ) (st st' : State) (u : ℕ) (end : State)
      → StepOk options l st (changed st')
      → Ran n (suc used) st' u end
      → Ran (suc n) used st u end
  Ran-changed n used st st' u end h ran =
      let (legal, few, rounds, later) = ran in
      let (s, ok, more, later') = h in
      (
        legal,
        few,
        omega (arith, rounds),
        Later_trans st.working st'.working end.working later' later,
      )

  module _ (repositories : Repositories) (fuel : ℕ) (returns : Returns repositories fuel) where
    -- If the recursion on the successors comes back, the loop ends, from a state that is ready for it.
    pub level_loop-Ran :
        (n used : ℕ) (st : State)
        → Ready used st
        → (u : ℕ) × (st' : State) × (level_loop repositories options fuel n used l st
            ≡ some (u, st'))
          × Ran n used st u st'
    unfolding level_loop
    level_loop-Ran zero used st ready =
        (used, st, refl, (ready.0, ready.1, omega arith, Later_refl st.working))
    level_loop-Ran (suc n) used st ready =
        step (level_once repositories options fuel l st)
          (level_once-StepOk repositories options fuel returns l l st
            (AllKnown-self l st.working ready.2))
          (level_loop-Ran n (suc used))
      where
        step :
            (s : Step)
            → StepOk options l st s
            → ((next : State)
                → Ready (suc used) next
                → (u : ℕ) × (st' : State) × (level_loop repositories options fuel n
                      (suc used)
                      l
                      next
                    ≡ some (u, st'))
                  × Ran n (suc used) next u st')
            → (u : ℕ) × (st' : State) × (next_round
                  (suc used)
                  (level_loop repositories options fuel n (suc used) l)
                  s
                ≡ some (u, st'))
              × Ran (suc n) used st u st'
        step (unchanged end) h again = (suc used, end, refl, Ran-unchanged n used st end ready h)
        step (changed next) h again =
            let (u, end, ran, lawful) = again next (Ready-changed used st next ready h) in
            (u, end, ran, Ran-changed n used st next u end h lawful)
        step stuck h again = elim h [ ]
