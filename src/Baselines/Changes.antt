-- ===== src/Baselines/Changes.antt =====
-- services/baseline_comparison.py: what the variances of WBS elements add up to.
use defense_pm_tool.Prelude.{
  ℕ, ◌≡◌, refl, sym, ◌∙◌, ap, subst, Option, none, some, List, [], ◌∷◌, ◌++◌, map, Option-cases,
  inl, inr,
}
use defense_pm_tool.Prelude.Int.{ℤ, pos, ◌+ℤ◌, ◌-ℤ◌, int_laws}
use defense_pm_tool.Prelude.Dict.{Dict, lookup}
use defense_pm_tool.Decimal.{Decimal, whole, ◌+ᴰ◌, ◌-ᴰ◌}
use defense_pm_tool.Decimal.Worth.{IsWorth, zero-IsWorth, add-IsWorth, sub-IsWorth}
use defense_pm_tool.Baselines.Compare.{entries_at}
use defense_pm_tool.Baselines.Details.{IsListed, lookup_of_contains, here, further}
use defense_pm_tool.Baselines.Sums.{sum}
use defense_pm_tool.Baselines.Amounts.{AllInCents, amount, element-IsWorth, lookup-InCents}
use defense_pm_tool.Baselines.Wbs.{WbsElement, WbsVariance, added_wbs, removed_wbs, modified_wbs_at}

abbrev or_nothing : Option Decimal → Decimal
or_nothing none = whole 0
or_nothing (some x) = x

-- What a variance says the budget has grown by.
abbrev change_of : WbsVariance → Decimal
change_of v = or_nothing v.bac_current -ᴰ or_nothing v.bac_baseline

abbrev pub total_change : List WbsVariance → Decimal
total_change [] = whole 0
total_change (v ∷ l) = change_of v +ᴰ total_change l

-- The changes are worth z together.
abbrev pub Adds : ℤ → List WbsVariance → Type 0
Adds z [] = z ≡ pos 0
Adds z (v ∷ l) = (a : ℤ) × (b : ℤ) × (z ≡ (a +ℤ b)) × IsWorth a (change_of v) × Adds b l

zero_plus : (a : ℤ) → a ≡ (pos 0 +ℤ a)
zero_plus a = grind int_laws

minus_zero : (a : ℤ) → (a -ℤ pos 0) ≡ a
minus_zero a = grind int_laws

no_change : (a : ℤ) → a ≡ ((pos 0 -ℤ pos 0) +ℤ a)
no_change a = grind int_laws

pub Adds-IsWorth : (l : List WbsVariance) (z : ℤ) → Adds z l → IsWorth z (total_change l)
Adds-IsWorth [] z h = subst (λ a. IsWorth a (whole 0)) (sym h) zero-IsWorth
Adds-IsWorth (v ∷ l) z (a, b, e, worth, rest) =
    subst (λ c. IsWorth c (change_of v +ᴰ total_change l)) (sym e)
      (add-IsWorth a b (change_of v) (total_change l) worth (Adds-IsWorth l b rest))

pub Adds-append :
    (xs ys : List WbsVariance) (z w : ℤ) → Adds z xs → Adds w ys → Adds (z +ℤ w) (xs ++ ys)
Adds-append [] ys z w h k = subst (λ a. Adds a ys) (zero_plus w ∙ ap (λ a. a +ℤ w) (sym h)) k
Adds-append (v ∷ xs) ys z w (a, b, e, worth, rest) k =
    (a, b +ℤ w, ap (λ c. c +ℤ w) e ∙ assoc a b w, worth, Adds-append xs ys b w rest k)
  where
    assoc : (a b c : ℤ) → ((a +ℤ b) +ℤ c) ≡ (a +ℤ (b +ℤ c))
    assoc a b c = grind int_laws

pub added-Adds :
    (d : Dict WbsElement) (l : List ℕ)
    → AllInCents d
    → Adds (sum (amount d) l) (map added_wbs (entries_at d l))
unfolding entries_at
added-Adds d [] g = refl
added-Adds d (k ∷ l) g = elim (Option-cases (lookup k d)) [
  | inl e ↦
      rw (entries_at, e)
        (subst (λ a. Adds a (map added_wbs (entries_at d l))) (zero_plus (sum (amount d) l))
          (added-Adds d l g))
  | inr (x, e) ↦
      rw (entries_at, e)
        (
          x.budget_at_completion.num,
          sum (amount d) l,
          refl,
          subst (λ a. IsWorth a (x.budget_at_completion -ᴰ whole 0))
              (minus_zero x.budget_at_completion.num)
              (sub-IsWorth x.budget_at_completion.num (pos 0) x.budget_at_completion (whole 0)
                (element-IsWorth x (lookup-InCents k x d g e)) zero-IsWorth),
          added-Adds d l g,
        )
]

pub removed-Adds :
    (d : Dict WbsElement) (l : List ℕ)
    → AllInCents d
    → Adds (sum (λ k. pos 0 -ℤ amount d k) l) (map removed_wbs (entries_at d l))
unfolding entries_at
removed-Adds d [] g = refl
removed-Adds d (k ∷ l) g = elim (Option-cases (lookup k d)) [
  | inl e ↦
      rw (entries_at, e)
        (subst (λ a. Adds a (map removed_wbs (entries_at d l)))
          (no_change (sum (λ j. pos 0 -ℤ amount d j) l)) (removed-Adds d l g))
  | inr (x, e) ↦
      rw (entries_at, e)
        (
          pos 0 -ℤ x.budget_at_completion.num,
          sum (λ j. pos 0 -ℤ amount d j) l,
          refl,
          sub-IsWorth (pos 0) x.budget_at_completion.num (whole 0) x.budget_at_completion
              zero-IsWorth (element-IsWorth x (lookup-InCents k x d g e)),
          removed-Adds d l g,
        )
]

module _ (baseline current : Dict WbsElement) (before : AllInCents baseline)
    (now : AllInCents current) where
  abbrev pub growth : ℕ → ℤ
  growth k = amount current k -ℤ amount baseline k

  pub modified-Adds :
      (l : List ℕ)
      → IsListed baseline l
      → IsListed current l
      → Adds (sum growth l) (modified_wbs_at baseline current l)
  unfolding modified_wbs_at
  modified-Adds [] h g = refl
  modified-Adds (k ∷ l) h g =
      let (b, e) = lookup_of_contains k baseline (h k (here k l)) in
      let (c, f) = lookup_of_contains k current (g k (here k l)) in
      rw (modified_wbs_at, e, f)
        (
          c.budget_at_completion.num -ℤ b.budget_at_completion.num,
          sum growth l,
          refl,
          sub-IsWorth c.budget_at_completion.num b.budget_at_completion.num c.budget_at_completion
              b.budget_at_completion (element-IsWorth c (lookup-InCents k c current now f))
              (element-IsWorth b (lookup-InCents k b baseline before e)),
          modified-Adds l (λ j i. h j (further j k l i)) (λ j i. g j (further j k l i)),
        )
