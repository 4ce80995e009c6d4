-- ===== src/Leveling/Restore.antt =====
-- services/resource_leveling.py: pushing the successors ends, and restores the dependencies that a
-- delay has broken.
use defense_pm_tool.Prelude.{
  All-mono, ℕ, zero, suc, ◌<◌, ◌≤◌, ◌≡◌, ◌≢◌, refl, sym, ap, ◌∙◌, subst, arith, false, ◌==◌, Option,
  none, some, List, [], ◌∷◌, All, Bool-cases, inl, inr, ==_to_eq, ltb,
}
use defense_pm_tool.Prelude.Int.{ℤ, ◌≤ℤ◌, ltb_ℤ}
use defense_pm_tool.Prelude.Dict.{lookup, insert, lookup-insert_self, lookup-insert_ne}
use defense_pm_tool.Dates.{Date}
use defense_pm_tool.Leveling.{
  Dependency, Repositories, Working, new_earliest, demand, moved, push_successor, push_each,
  recalculate_successors,
}
use defense_pm_tool.Leveling.Later.{
  LaterAt, Later, Later_refl, Later_trans, Later-insert, moved-LaterAt, ltb_to_le, later_length,
}
use defense_pm_tool.Leveling.Holds.{HoldsAt, Holds, Holds-Later}

push_each-step :
    (again : ℕ → Working → Option Working) (k : ℕ) (dep : Dependency) (deps : List Dependency)
    (w v w' : Working) (p : Date × Date)
    → lookup k w ≡ some p
    → push_successor again dep (some p) (lookup dep.successor_id w) w ≡ some v
    → push_each again k deps v ≡ some w'
    → push_each again k (dep ∷ deps) w ≡ some w'
unfolding push_each
push_each-step again k dep deps w v w' p found one rest =
    let one' =
      subst (λ q. push_successor again dep q (lookup dep.successor_id w) w ≡ some v) (sym found)
        one in
    rw (push_each, one') rest

module _ (repositories : Repositories) (rank : ℕ → ℕ) where
  open repositories use {get_successors}

  -- All dependencies of an activity hold.
  abbrev pub AllHold : Working → ℕ → Type 0
  AllHold w u = All (Holds w u) (get_successors u)

  -- The dependencies of the activities of a lower rank hold.
  abbrev pub HoldBelow : ℕ → Working → Type 0
  HoldBelow r w = (u : ℕ) → rank u < r → AllHold w u

  -- What a push of the successors of `k` leaves: nothing is earlier, nothing of the rank `r` or more
  -- has moved, and below it all holds.
  record IsPushed (r : ℕ) (w w' : Working) : Type 0 where
    later : Later w w'
    frame : (u : ℕ) → r ≤ rank u → lookup u w' ≡ lookup u w
    below : HoldBelow r w'

  IsPushed-trans : (r : ℕ) (u v w : Working) → IsPushed r u v → IsPushed r v w → IsPushed r u w
  IsPushed-trans r u v w h k = record {
    later = Later_trans u v w h.later k.later;
    frame = λ i q. k.frame i q ∙ h.frame i q;
    below = k.below;
  }

  -- After the successor has moved, what held of the activities of other ranks still does.
  inserted :
      (s : ℕ) (old new : Date × Date) (w : Working) (u : ℕ)
      → lookup s w ≡ some old
      → LaterAt (some old) (some new)
      → s ≢ u
      → AllHold w u
      → AllHold (insert s new w) u
  inserted s old new w u found l ne = All-mono (get_successors u) λ dep.
      Holds-Later u dep w (insert s new w) (lookup-insert_ne s u new w ne)
        (Later-insert s old new w found l)

  other_rank : (s u : ℕ) → rank s < rank u → s ≢ u
  other_rank s u h e = let e' = ap rank e in absurd (omega (arith, e'))

  -- What the recursive call on `s` leaves of an activity that is not of a lower rank.
  unmoved :
      (s : ℕ) (old new : Date × Date) (w w' : Working) (u : ℕ)
      → lookup s w ≡ some old
      → LaterAt (some old) (some new)
      → IsPushed (rank s) (insert s new w) w'
      → rank s ≤ rank u
      → s ≢ u
      → AllHold w u
      → AllHold w' u
  unmoved s old new w w' u found l step q ne h =
      All-mono (get_successors u)
        (λ dep. Holds-Later u dep (insert s new w) w' (step.frame u q) step.later)
        (inserted s old new w u found l ne h)

  -- The recursive call on a moved successor, seen from a predecessor of a higher rank.
  recursed :
      (s r : ℕ) (old new : Date × Date) (w w' : Working)
      → rank s < r
      → lookup s w ≡ some old
      → LaterAt (some old) (some new)
      → HoldBelow r w
      → IsPushed (rank s) (insert s new w) w'
      → AllHold w' s
      → IsPushed r w w'
  recursed s r old new w w' lower found l holds step own = record {
    later = Later_trans w (insert s new w) w' (Later-insert s old new w found l) step.later;
    frame = λ u q.
        step.frame u (omega (arith, q, lower))
        ∙ lookup-insert_ne s u new w (other_rank s u (omega (arith, q, lower)));
    below = λ u q. elim (Bool-cases (s == u)) [
      | inl e ↦ subst (AllHold w') (==_to_eq s u e) own
      | inr ne ↦ elim (Bool-cases (ltb (rank u) (rank s))) [
        | inl low ↦ step.below u (ground arith)
        | inr high ↦
            unmoved s old new w w' u found l step (ground arith) (λ e. ground arith) (holds u q)
      ]
    ];
  }

  still : (r : ℕ) (w : Working) → HoldBelow r w → IsPushed r w w
  still r w holds = record { later = Later_refl w; frame = λ u q. refl; below = holds }

  other_lower : (s u : ℕ) → rank u < rank s → s ≢ u
  other_lower s u h e = let e' = ap rank e in absurd (omega (arith, e'))

  at_lookups :
      (w : Working) (k : ℕ) (dep : Dependency) (p : Date × Date) (o : Option (Date × Date))
      → lookup k w ≡ some p
      → lookup dep.successor_id w ≡ o
      → HoldsAt dep (some p) o
      → Holds w k dep
  unfolding Holds
  at_lookups w k dep p o found next h =
      subst (λ q. HoldsAt dep q (lookup dep.successor_id w)) (sym found)
        (subst (HoldsAt dep (some p)) (sym next) h)

  meets_demand :
      (dep : Dependency) (p s : Date × Date)
      → HoldsAt dep (some p) (some (moved (demand dep p s) s))
  meets_demand dep p s =
      subst (λ d. new_earliest dep.dependency_type dep.lag p.0 p.1 d ≤ℤ demand dep p s)
        (sym (later_length (demand dep p s) s.0 s.1)) (omega arith)

  not_less : (a b : ℤ) → ltb_ℤ a b ≡ false → b ≤ℤ a
  not_less a b h = ground arith

  module _ (again : ℕ → Working → Option Working) (r : ℕ)
      (again_pushes : (k : ℕ) (w : Working) (p : Date × Date)
        → rank k < r
        → lookup k w ≡ some p
        → HoldBelow (rank k) w
        → (w' : Working) × (again k w ≡ some w') × IsPushed (rank k) w w' × AllHold w' k) where
    -- One dependency of `k`, whose successor has a lower rank.
    push_one :
        (k : ℕ) (dep : Dependency) (p : Date × Date) (o : Option (Date × Date)) (w : Working)
        → rank k ≡ r
        → rank dep.successor_id < r
        → lookup k w ≡ some p
        → lookup dep.successor_id w ≡ o
        → HoldBelow r w
        → (w' : Working) × (push_successor again dep (some p) o w ≡ some w')
          × IsPushed r w w'
          × Holds w' k dep
    unfolding push_successor Holds
    push_one k dep p none w same lower found next holds =
        (w, refl, still r w holds, at_lookups w k dep p none found next tt)
    push_one k dep p (some s) w same lower found next holds =
        elim (Bool-cases (ltb_ℤ s.0 (demand dep p s))) [
          | inl e ↦
              let i = dep.successor_id in
              let new = moved (demand dep p s) s in
              let l = moved-LaterAt (demand dep p s) s (ltb_to_le s.0 (demand dep p s) e) in
              let (w', ran, step, own) =
                again_pushes i (insert i new w) new lower (lookup-insert_self i new w) (λ u q.
                  inserted i s new w u next l (other_lower i u q)
                    (holds u (omega (arith, q, lower)))) in
              (
                w',
                rw e ran,
                recursed i r s new w w' lower next l holds step own,
                Holds-Later k dep (insert i new w) w' (step.frame k (omega (arith, lower, same)))
                    step.later
                    (at_lookups (insert i new w) k dep p (some new)
                      (lookup-insert_ne i k new w (other_rank i k (omega (arith, lower, same)))
                        ∙ found)
                      (lookup-insert_self i new w) (meets_demand dep p s)),
              )
          | inr e ↦ (
            w,
            rw e,
            still r w holds,
            at_lookups w k dep p (some s) found next (not_less s.0 (demand dep p s) e),
          )
        ]

    -- The loop over the dependencies of `k`.
    push_each-IsPushed :
        (k : ℕ) (deps : List Dependency) (p : Date × Date) (w : Working)
        → rank k ≡ r
        → All (λ dep. rank dep.successor_id < r) deps
        → lookup k w ≡ some p
        → HoldBelow r w
        → (w' : Working) × (push_each again k deps w ≡ some w')
          × IsPushed r w w'
          × All (Holds w' k) deps
    unfolding push_each
    push_each-IsPushed k [] p w same lower found holds = (w, refl, still r w holds, tt)
    push_each-IsPushed k (dep ∷ deps) p w same lower found holds =
        let (v, ran, step, held) =
          push_one k dep p (lookup dep.successor_id w) w same lower.0 found refl holds in
        let found' = step.frame k (omega (arith, same)) ∙ found in
        let (w', ran', step', held') =
          push_each-IsPushed k deps p v same lower.1 found' step.below in
        (
          w',
          push_each-step again k dep deps w v w' p found ran ran',
          IsPushed-trans r w v w' step step',
          (Holds-Later k dep v w' (step'.frame k (omega (arith, same))) step'.later held, held'),
        )

  -- Every dependency leads to a lower rank.
  abbrev pub IsRanked : Type 0
  IsRanked = (u : ℕ) → All (λ dep. rank dep.successor_id < rank u) (get_successors u)

  pushes :
      IsRanked
      → (fuel k : ℕ) (w : Working) (p : Date × Date) → rank k < fuel
      → lookup k w ≡ some p
      → HoldBelow (rank k) w
      → (w' : Working) × (recalculate_successors repositories fuel k w ≡ some w')
        × IsPushed (rank k) w w'
        × AllHold w' k
  unfolding recalculate_successors
  pushes ranked zero k w p enough found holds = absurd (omega (arith, enough))
  pushes ranked (suc fuel) k w p enough found holds =
      push_each-IsPushed (recalculate_successors repositories fuel) (rank k)
        (λ j v q lower known below.
          pushes ranked fuel j v q (omega (arith, lower, enough)) known below)
        k (get_successors k) p w refl (ranked k) found holds

  -- Let every dependency lead to a lower rank, let `k` have dates and a rank below the fuel, and let
  -- all dependencies hold but those of `k`, which has been delayed. Then the recursion ends, and
  -- afterwards all dependencies hold; no activity is earlier, longer or shorter than before.
  pub recalculate_successors-restores :
      (ranked : IsRanked) (fuel k : ℕ) (w : Working) (p : Date × Date)
      → rank k < fuel
      → lookup k w ≡ some p
      → ((u : ℕ) → k ≢ u → AllHold w u)
      → (w' : Working) × (recalculate_successors repositories fuel k w ≡ some w')
        × Later w w'
        × ((u : ℕ) → AllHold w' u)
  recalculate_successors-restores ranked fuel k w p enough found holds =
      let (w', ran, step, own) =
        pushes ranked fuel k w p enough found (λ u q. holds u (other_lower k u q)) in
      (
        w',
        ran,
        step.later,
        λ u. elim (Bool-cases (k == u)) [
          | inl e ↦ subst (AllHold w') (==_to_eq k u e) own
          | inr ne ↦ elim (Bool-cases (ltb (rank u) (rank k))) [
            | inl low ↦ step.below u (ground arith)
            | inr high ↦
                All-mono (get_successors u)
                  (λ dep. Holds-Later u dep w w' (step.frame u (ground arith)) step.later)
                  (holds u (λ e. ground arith))
          ]
        ],
      )
