-- ===== src/Variance/Breach.antt =====
-- services/variance_analysis.py: `periods_in_breach` is the length of the longest run of breaches.
use defense_pm_tool.Prelude.{
  ℕ, zero, suc, ◌+◌, ◌≡◌, ◌≤◌, sym, ◌∙◌, ap, arith, Bool, true, false, ◌&&◌, ◌||◌, leb, ltb,
  if◌then◌else◌, Option, List, [], ◌∷◌, map, Bool-cases, inl, inr,
}
use defense_pm_tool.Prelude.Int.{ℤ}
use defense_pm_tool.Variance.{
  VarianceType, VarianceThresholds, Period, is_breach, longest_breach, build_variance_trend,
  threshold_or, percent_of,
}

-- The list begins with so many breaches.
abbrev pub begins : ℕ → ℕ → List ℤ → Bool
begins t zero l = true
begins t (suc n) [] = false
begins t (suc n) (x ∷ l) = is_breach t x && begins t n l

-- So many breaches stand in a row.
abbrev pub has_run : ℕ → ℕ → List ℤ → Bool
has_run t n [] = begins t n []
has_run t n (x ∷ l) = begins t n (x ∷ l) || has_run t n l

-- The number of breaches at the beginning.
abbrev lead : ℕ → List ℤ → ℕ
lead t [] = 0
lead t (x ∷ l) = let rest = lead t l in if is_breach t x then suc rest else 0

abbrev greater : ℕ → ℕ → ℕ
greater a b = if ltb a b then b else a

abbrev best : ℕ → List ℤ → ℕ
best t [] = 0
best t (x ∷ l) = greater (lead t (x ∷ l)) (best t l)

begins-lead : (t n : ℕ) (l : List ℤ) → begins t n l ≡ leb n (lead t l)
begins-lead t zero l = ground arith
begins-lead t (suc n) [] = ground arith
begins-lead t (suc n) (x ∷ l) = elim (Bool-cases (is_breach t x)) [
  | inl e ↦ rw e (begins-lead t n l ∙ ground arith)
  | inr e ↦ rw e ground arith
]

leb-greater : (n a b : ℕ) → (leb n a || leb n b) ≡ leb n (greater a b)
leb-greater n a b = ground arith

has_run-best : (t n : ℕ) (l : List ℤ) → has_run t n l ≡ leb n (best t l)
has_run-best t n [] = begins-lead t n []
has_run-best t n (x ∷ l) =
    ap (λ b. b || has_run t n l) (begins-lead t n (x ∷ l))
    ∙ ap (λ b. leb n (lead t (x ∷ l)) || b) (has_run-best t n l)
    ∙ leb-greater n (lead t (x ∷ l)) (best t l)

lead-best : (t : ℕ) (l : List ℤ) → lead t l ≤ best t l
lead-best t [] = omega arith
lead-best t (x ∷ l) = ground arith

at_breach :
    (c k d b : ℕ)
    → k ≤ c
    → greater (greater c (suc k)) (greater (suc k + d) b)
      ≡ greater c (greater (k + suc d) (greater (suc d) b))
at_breach c k d b h = ground arith

at_reset :
    (c k d b : ℕ)
    → k ≤ c
    → d ≤ b
    → greater c (greater (0 + d) b) ≡ greater c (greater (k + 0) (greater 0 b))
at_reset c k d b h g = ground arith

counted_on : (c k : ℕ) → suc k ≤ greater c (suc k)
counted_on c k = ground arith

longest_breach-best :
    (t c k : ℕ) (l : List ℤ)
    → k ≤ c
    → longest_breach t c k l ≡ greater c (greater (k + lead t l) (best t l))
unfolding longest_breach
longest_breach-best t c k [] h = ground arith
longest_breach-best t c k (x ∷ l) h = elim (Bool-cases (is_breach t x)) [
  | inl e ↦ rw e (
      longest_breach-best t (greater c (suc k)) (suc k) l (counted_on c k)
      ∙ at_breach c k (lead t l) (best t l) h)
  | inr e ↦ rw e (
      longest_breach-best t c 0 l (omega arith)
      ∙ at_reset c k (lead t l) (best t l) h (lead-best t l))
]

from_nothing : (d b : ℕ) → d ≤ b → greater 0 (greater (0 + d) b) ≡ b
from_nothing d b h = ground arith

-- Of the percentages of a trend, so many in a row reach the threshold just if `periods_in_breach` is
-- no smaller.
pub has_run-periods_in_breach :
    (thresholds : VarianceThresholds) (wbs_id : ℕ) (t : VarianceType) (history : List Period)
    (threshold_percent : Option ℕ) (n : ℕ)
    → let trend = build_variance_trend thresholds wbs_id t history threshold_percent in
      let threshold = threshold_or threshold_percent thresholds.explanation_required_threshold in
      has_run threshold n trend.percentages ≡ leb n trend.periods_in_breach
unfolding build_variance_trend
has_run-periods_in_breach thresholds wbs_id t history threshold_percent n =
    let threshold = threshold_or threshold_percent thresholds.explanation_required_threshold in
    let l = map (percent_of t) history in
    has_run-best threshold n l
    ∙ ap (leb n) (
        sym (
          longest_breach-best threshold 0 0 l (omega arith)
          ∙ from_nothing (lead threshold l) (best threshold l) (lead-best threshold l)))
