-- ===== src/Leveling/Returns.antt =====
-- services/resource_leveling.py: the recursion on the successors comes back on a network without a
-- cycle, whether or not the dependencies hold.
use defense_pm_tool.Prelude.{
  ℕ, zero, suc, ◌<◌, ◌≡◌, refl, arith, Option, none, some, List, [], ◌∷◌, All, Bool-cases, inl, inr,
}
use defense_pm_tool.Prelude.Int.{ltb_ℤ}
use defense_pm_tool.Prelude.Dict.{lookup, insert, lookup-insert_self}
use defense_pm_tool.Dates.{Date}
use defense_pm_tool.Leveling.{
  Dependency, Repositories, Working, demand, moved, push_successor, push_each,
  recalculate_successors,
}
use defense_pm_tool.Leveling.Later.{
  LaterAt, Later, push_successor-Later, recalculate_successors-Later,
}
use defense_pm_tool.Leveling.Legal.{Known}
use defense_pm_tool.Leveling.Restore.{IsRanked}

Known_LaterAt :
    (o q : Option (Date × Date))
    → LaterAt o q
    → (p : Date × Date) × (o ≡ some p)
    → (p : Date × Date) × (q ≡ some p)
Known_LaterAt o (some q) l known = (q, refl)
Known_LaterAt none none l known = let missing = known.1 in cc
Known_LaterAt (some p) none l known = elim l [ ]

-- An activity that has dates keeps dates.
pub Known-Later : (w w' : Working) (k : ℕ) → Later w w' → Known w k → Known w' k
unfolding Later
Known-Later w w' k later = Known_LaterAt (lookup k w) (lookup k w') (later k)

module _ (again : ℕ → Working → Option Working)
    (again_later : (k : ℕ) (w w' : Working) → again k w ≡ some w' → Later w w') (rank : ℕ → ℕ)
    (r : ℕ)
    (again_returns : (k : ℕ) (w : Working)
      → rank k < r
      → Known w k
      → (w' : Working) × (again k w ≡ some w')) where
  push_successor-returns :
      (dep : Dependency) (p s : Option (Date × Date)) (w : Working)
      → rank dep.successor_id < r
      → (q : Date × Date) × (p ≡ some q)
      → (v : Working) × (push_successor again dep p s w ≡ some v)
  unfolding push_successor
  push_successor-returns dep p none w lower known = (w, refl)
  push_successor-returns dep none (some s) w lower known = let missing = known.1 in cc
  push_successor-returns dep (some p) (some s) w lower known =
      elim (Bool-cases (ltb_ℤ s.0 (demand dep p s))) [
        | inl e ↦
            let i = dep.successor_id in
            let new = moved (demand dep p s) s in
            let (v, ran) =
              again_returns i (insert i new w) lower (new, lookup-insert_self i new w) in
            (v, rw e ran)
        | inr e ↦ (w, rw e)
      ]

  push_each-returns :
      (k : ℕ) (deps : List Dependency) (w : Working)
      → All (λ dep. rank dep.successor_id < r) deps
      → Known w k
      → (w' : Working) × (push_each again k deps w ≡ some w')
  unfolding push_each
  push_each-returns k [] w lower known = (w, refl)
  push_each-returns k (dep ∷ deps) w lower known =
      let s = lookup dep.successor_id w in
      let (v, ran) = push_successor-returns dep (lookup k w) s w lower.0 known in
      let later = push_successor-Later again again_later dep (lookup k w) s w v refl ran in
      let (w', rest) = push_each-returns k deps v lower.1 (Known-Later w v k later known) in
      (w', rw (push_each, ran) rest)

module _ (repositories : Repositories) (rank : ℕ → ℕ) (ranked : IsRanked repositories rank) where
  pub recalculate_successors-returns :
      (fuel k : ℕ) (w : Working)
      → rank k < fuel
      → Known w k
      → (w' : Working) × (recalculate_successors repositories fuel k w ≡ some w')
  unfolding recalculate_successors
  recalculate_successors-returns zero k w enough known = absurd (omega (arith, enough))
  recalculate_successors-returns (suc fuel) k w enough known =
      push_each-returns (recalculate_successors repositories fuel)
        (recalculate_successors-Later repositories fuel) rank (rank k)
        (λ i v lower known'.
          recalculate_successors-returns fuel i v (omega (arith, lower, enough)) known')
        k (repositories.get_successors k) w (ranked k) known
