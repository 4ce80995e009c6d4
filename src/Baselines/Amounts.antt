-- ===== src/Baselines/Amounts.antt =====
-- services/baseline_comparison.py: what the budgets of a dictionary of WBS elements add up to.
use defense_pm_tool.Prelude.{
  ℕ, ◌≡◌, refl, sym, ◌∙◌, ap, subst, arith, true, false, ◌==◌, ==_refl, ==_to_eq, Option, none,
  some, some_inj, List, [], ◌∷◌, foldl, All, Bool-cases, inl, inr,
}
use defense_pm_tool.Prelude.Int.{ℤ, pos, ◌+ℤ◌, int_laws}
use defense_pm_tool.Prelude.Dict.{Dict, keys, values, lookup, insert}
use defense_pm_tool.Decimal.{Decimal, whole, ◌+ᴰ◌}
use defense_pm_tool.Decimal.Worth.{IsWorth, zero-IsWorth, add-IsWorth}
use defense_pm_tool.Baselines.{contains}
use defense_pm_tool.Baselines.Counts.{IsDistinct}
use defense_pm_tool.Baselines.Sums.{sum, sum_cong}
use defense_pm_tool.Baselines.Wbs.{WbsElement, by_wbs_codes, total_bac}

-- The budget is a number of cents.
abbrev pub InCents : WbsElement → Type 0
InCents e = e.budget_at_completion.den ≡ 100

-- The cents of an element of the dictionary, 0 if there is none.
abbrev pub amount_of : Option WbsElement → ℤ
amount_of none = pos 0
amount_of (some e) = e.budget_at_completion.num

abbrev pub amount : Dict WbsElement → ℕ → ℤ
amount d k = amount_of (lookup k d)

abbrev pub AllInCents : Dict WbsElement → Type 0
AllInCents d = All InCents (values d)

pub element-IsWorth :
    (e : WbsElement) → InCents e → IsWorth e.budget_at_completion.num e.budget_at_completion
element-IsWorth e h = (omega (arith, h), rw h (omega arith))

AllInCents-insert :
    (k : ℕ) (e : WbsElement) (d : Dict WbsElement)
    → InCents e
    → AllInCents d
    → AllInCents (insert k e d)
unfolding insert
AllInCents-insert k e [] h g = (h, tt)
AllInCents-insert k e ((j, x) ∷ d) h g = elim (Bool-cases (j == k)) [
  | inl same ↦ rw same (h, g.1)
  | inr other ↦ rw other (g.0, AllInCents-insert k e d h g.1)
]

AllInCents-from :
    (l : List WbsElement) (d : Dict WbsElement)
    → All InCents l
    → AllInCents d
    → AllInCents (foldl (λ d e. insert e.wbs_code e d) d l)
AllInCents-from [] d h g = g
AllInCents-from (e ∷ l) d h g =
    AllInCents-from l (insert e.wbs_code e d) h.1 (AllInCents-insert e.wbs_code e d h.0 g)

pub by_wbs_codes-AllInCents : (l : List WbsElement) → All InCents l → AllInCents (by_wbs_codes l)
unfolding by_wbs_codes
by_wbs_codes-AllInCents l h = AllInCents-from l [] h tt

pub lookup-InCents :
    (k : ℕ) (e : WbsElement) (d : Dict WbsElement) → AllInCents d → lookup k d ≡ some e → InCents e
unfolding lookup
lookup-InCents k e [] g h = cc
lookup-InCents k e ((j, x) ∷ d) g h = elim (Bool-cases (j == k)) [
  | inl same ↦ subst InCents (some_inj (rw same at h)) g.0
  | inr other ↦ lookup-InCents k e d g.1 (rw other at h)
]

-- The sum of the budgets, in the order of the dictionary.
abbrev cents_of : Dict WbsElement → ℤ
cents_of [] = pos 0
cents_of ((k, e) ∷ d) = e.budget_at_completion.num +ℤ cents_of d

total_from-IsWorth :
    (d : Dict WbsElement) (z : ℤ) (x : Decimal)
    → AllInCents d
    → IsWorth z x
    → IsWorth (z +ℤ cents_of d) (foldl (λ total e. total +ᴰ e.budget_at_completion) x (values d))
total_from-IsWorth [] z x g h = subst (λ a. IsWorth a x) (plus_zero z) h
  where
    plus_zero : (a : ℤ) → a ≡ (a +ℤ pos 0)
    plus_zero a = grind int_laws
total_from-IsWorth ((k, e) ∷ d) z x g h =
    subst
      (λ a. IsWorth a (
        foldl (λ total v. total +ᴰ v.budget_at_completion) (x +ᴰ e.budget_at_completion)
          (values d)))
      (assoc z e.budget_at_completion.num (cents_of d))
      (total_from-IsWorth d (z +ℤ e.budget_at_completion.num) (x +ᴰ e.budget_at_completion) g.1 (
        add-IsWorth z e.budget_at_completion.num x e.budget_at_completion h
          (element-IsWorth e g.0)))
  where
    assoc : (a b c : ℤ) → ((a +ℤ b) +ℤ c) ≡ (a +ℤ (b +ℤ c))
    assoc a b c = grind int_laws

first_amount :
    (j : ℕ) (e : WbsElement) (d : Dict WbsElement)
    → amount ((j, e) ∷ d) j ≡ e.budget_at_completion.num
unfolding lookup
first_amount j e d = rw (==_refl j) refl

other_amount :
    (j k : ℕ) (e : WbsElement) (d : Dict WbsElement)
    → contains j (keys d) ≡ false
    → contains k (keys d) ≡ true
    → amount ((j, e) ∷ d) k ≡ amount d k
unfolding lookup
other_amount j k e d absent g = elim (Bool-cases (j == k)) [
  | inl same ↦
      let here_absent = subst (λ i. contains i (keys d) ≡ false) (==_to_eq j k same) absent in cc
  | inr differ ↦ rw differ refl
]

cents_of-sum : (d : Dict WbsElement) → IsDistinct (keys d) → cents_of d ≡ sum (amount d) (keys d)
cents_of-sum [] h = refl
cents_of-sum ((j, e) ∷ d) h =
    ap (λ a. a +ℤ cents_of d) (sym (first_amount j e d))
    ∙ ap (λ s. amount ((j, e) ∷ d) j +ℤ s)
        (cents_of-sum d h.1
          ∙ sum_cong (amount d) (amount ((j, e) ∷ d)) (keys d)
              (λ k g. sym (other_amount j k e d h.0 g)))

pub total_bac-IsWorth :
    (d : Dict WbsElement)
    → AllInCents d
    → IsDistinct (keys d)
    → IsWorth (sum (amount d) (keys d)) (total_bac (values d))
unfolding total_bac
total_bac-IsWorth d g h =
    subst (λ a. IsWorth a (total_bac (values d))) (zero_plus (cents_of d) ∙ cents_of-sum d h)
      (total_from-IsWorth d (pos 0) (whole 0) g zero-IsWorth)
  where
    zero_plus : (a : ℤ) → (pos 0 +ℤ a) ≡ a
    zero_plus a = grind int_laws
