-- ===== src/Leveling/Later.antt =====
-- services/resource_leveling.py: pushing successors makes no activity earlier, longer or shorter.
use defense_pm_tool.Prelude.{
  ℕ, zero, suc, ◌≡◌, refl, sym, ◌∙◌, subst, arith, true, ◌==◌, Option, none, some, List, [], ◌∷◌,
  Bool-cases, Option-cases, inl, inr, ==_to_eq, some_inj,
}
use defense_pm_tool.Prelude.Int.{ℤ, ◌+ℤ◌, ◌-ℤ◌, ◌≤ℤ◌, ltb_ℤ, int_laws, le_trans_ℤ}
use defense_pm_tool.Prelude.Dict.{lookup, insert, lookup-insert, lookup-insert_self}
use defense_pm_tool.Dates.{Date}
use defense_pm_tool.Leveling.{
  Dependency, Repositories, Working, demand, moved, push_successor, push_each,
  recalculate_successors,
}

-- The start is no earlier and the length is the same.
abbrev pub LaterAt : Option (Date × Date) → Option (Date × Date) → Type 0
LaterAt none none = Unit
LaterAt none (some s) = ⊥
LaterAt (some s) none = ⊥
LaterAt (some s) (some t) = (s.0 ≤ℤ t.0) × ((t.1 -ℤ t.0) ≡ (s.1 -ℤ s.0))

-- The same activities, each no earlier and as long as before.
unfoldable pub Later : Working → Working → Type 0
Later w w' = (k : ℕ) → LaterAt (lookup k w) (lookup k w')

LaterAt-refl : (o : Option (Date × Date)) → LaterAt o o
LaterAt-refl none = tt
LaterAt-refl (some s) = (omega arith, refl)

LaterAt-trans : (o p q : Option (Date × Date)) → LaterAt o p → LaterAt p q → LaterAt o q
LaterAt-trans none none none h k = tt
LaterAt-trans none none (some c) h k = k
LaterAt-trans none (some b) q h k = elim h [ ]
LaterAt-trans (some a) none q h k = elim h [ ]
LaterAt-trans (some a) (some b) none h k = k
LaterAt-trans (some a) (some b) (some c) h k = (le_trans_ℤ a.0 b.0 c.0 h.0 k.0, k.1 ∙ h.1)

pub Later_refl : (w : Working) → Later w w
unfolding Later
Later_refl w k = LaterAt-refl (lookup k w)

pub Later_trans : (u v w : Working) → Later u v → Later v w → Later u w
unfolding Later
Later_trans u v w h k i = LaterAt-trans (lookup i u) (lookup i v) (lookup i w) (h i) (k i)

pub Later-insert :
    (k : ℕ) (s t : Date × Date) (w : Working)
    → lookup k w ≡ some s
    → LaterAt (some s) (some t)
    → Later w (insert k t w)
unfolding Later
Later-insert k s t w found h i = elim (Bool-cases (k == i)) [
  | inl e ↦
      let same = ==_to_eq k i e in
      subst (λ j. LaterAt (lookup j w) (lookup j (insert k t w))) same
        (subst (λ o. LaterAt o (lookup k (insert k t w))) (sym found)
          (subst (LaterAt (some s)) (sym (lookup-insert_self k t w)) h))
  | inr e ↦ subst (LaterAt (lookup i w)) (sym (lookup-insert k i t w ∙ rw e)) (LaterAt-refl _)
]

pub later_length : (d a b : Date) → (d +ℤ (b -ℤ a) -ℤ d) ≡ (b -ℤ a)
later_length d a b = grind int_laws

pub moved-LaterAt : (d : Date) (s : Date × Date) → s.0 ≤ℤ d → LaterAt (some s) (some (moved d s))
moved-LaterAt d s h = (h, later_length d s.0 s.1)

pub ltb_to_le : (a b : ℤ) → ltb_ℤ a b ≡ true → a ≤ℤ b
ltb_to_le a b h = ground arith

some_ne : {A : Type 0} {x : A} → some x ≡ none → ⊥
some_ne h = cc

module _ (again : ℕ → Working → Option Working)
    (again_later : (k : ℕ) (w w' : Working) → again k w ≡ some w' → Later w w') where
  pub push_successor-Later :
      (dep : Dependency) (p s : Option (Date × Date)) (w w' : Working)
      → lookup dep.successor_id w ≡ s
      → push_successor again dep p s w ≡ some w'
      → Later w w'
  unfolding push_successor
  push_successor-Later dep p none w w' found h = subst (Later w) (some_inj h) (Later_refl w)
  push_successor-Later dep none (some s) w w' found h = cc
  push_successor-Later dep (some p) (some s) w w' found h =
      elim (Bool-cases (ltb_ℤ s.0 (demand dep p s))) [
        | inl e ↦
            let t = moved (demand dep p s) s in
            Later_trans w (insert dep.successor_id t w) w'
              (Later-insert dep.successor_id s t w found
                (moved-LaterAt (demand dep p s) s (ltb_to_le s.0 (demand dep p s) e)))
              (again_later dep.successor_id (insert dep.successor_id t w) w' (rw e at h))
        | inr e ↦ subst (Later w) (some_inj (rw e at h)) (Later_refl w)
      ]

  pub push_each-Later :
      (k : ℕ) (deps : List Dependency) (w w' : Working)
      → push_each again k deps w ≡ some w'
      → Later w w'
  unfolding push_each
  push_each-Later k [] w w' h = subst (Later w) (some_inj h) (Later_refl w)
  push_each-Later k (dep ∷ deps) w w' h =
      elim (Option-cases (push_successor again dep (lookup k w) (lookup dep.successor_id w) w)) [
        | inl e ↦ absurd (some_ne (sym (rw (push_each, e) at h)))
        | inr (v, e) ↦
            Later_trans w v w'
              (push_successor-Later dep (lookup k w) (lookup dep.successor_id w) w v refl e)
              (push_each-Later k deps v w' (rw (push_each, e) at h))
      ]

-- Whenever the recursion returns, the activities are the same, each no earlier and as long.
pub recalculate_successors-Later :
    (repositories : Repositories) (fuel k : ℕ) (w w' : Working)
    → recalculate_successors repositories fuel k w ≡ some w'
    → Later w w'
unfolding recalculate_successors
recalculate_successors-Later repositories zero k w w' h = cc
recalculate_successors-Later repositories (suc fuel) k w w' h =
    push_each-Later (recalculate_successors repositories fuel)
      (recalculate_successors-Later repositories fuel) k (repositories.get_successors k) w w' h
