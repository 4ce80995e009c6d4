-- ===== src/Leveling/Holds.antt =====
-- services/resource_leveling.py: what a dependency asks of the dates of two activities.
use defense_pm_tool.Prelude.{ℕ, ◌≡◌, sym, subst, Option, none, some}
use defense_pm_tool.Prelude.Int.{◌≤ℤ◌, le_trans_ℤ}
use defense_pm_tool.Prelude.Dict.{lookup}
use defense_pm_tool.Dates.{Date}
use defense_pm_tool.Leveling.{Dependency, Working, new_earliest, demand}
use defense_pm_tool.Leveling.Later.{LaterAt, Later}

-- A dependency between two levelled activities asks no more than the successor's start.
abbrev pub HoldsAt : Dependency → Option (Date × Date) → Option (Date × Date) → Type 0
HoldsAt dep none s = Unit
HoldsAt dep (some p) none = Unit
HoldsAt dep (some p) (some s) = demand dep p s ≤ℤ s.0

unfoldable pub Holds : Working → ℕ → Dependency → Type 0
Holds w u dep = HoldsAt dep (lookup u w) (lookup dep.successor_id w)

pub HoldsAt-LaterAt :
    (dep : Dependency) (p s t : Option (Date × Date))
    → LaterAt s t
    → HoldsAt dep p s
    → HoldsAt dep p t
HoldsAt-LaterAt dep none s t l h = tt
HoldsAt-LaterAt dep (some p) none none l h = tt
HoldsAt-LaterAt dep (some p) none (some t) l h = elim l [ ]
HoldsAt-LaterAt dep (some p) (some s) none l h = tt
HoldsAt-LaterAt dep (some p) (some s) (some t) l h =
    subst (λ d. new_earliest dep.dependency_type dep.lag p.0 p.1 d ≤ℤ t.0) (sym l.1)
      (le_trans_ℤ (demand dep p s) s.0 t.0 h l.0)

pub Holds-Later :
    (u : ℕ) (dep : Dependency) (w w' : Working)
    → lookup u w' ≡ lookup u w
    → Later w w'
    → Holds w u dep
    → Holds w' u dep
unfolding Holds Later
Holds-Later u dep w w' same later h =
    subst (λ p. HoldsAt dep p (lookup dep.successor_id w')) (sym same)
      (HoldsAt-LaterAt dep (lookup u w) (lookup dep.successor_id w) (lookup dep.successor_id w')
        (later dep.successor_id) h)
