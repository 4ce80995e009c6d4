-- ===== src/Variance/Counts.antt =====
-- services/variance_analysis.py: the counts of an analysis.
use defense_pm_tool.Prelude.{
  ℕ, suc, ◌+◌, ◌≡◌, refl, ◌∙◌, ap, arith, true, ◌&&◌, ◌==◌, if◌then◌else◌, Option, none, some, List,
  [], ◌∷◌, ◌++◌, foldl, map, length, All, Bool-cases, inl, inr,
}
use defense_pm_tool.Prelude.Dict.{Dict, lookup}
use defense_pm_tool.Variance.{
  VarianceType, schedule, cost, VarianceSeverity, minor, moderate, significant, critical,
  VarianceAlert, VarianceTrend, VarianceThresholds, Period, requires_explanation, threshold_or,
  detect_significant_variances, build_variance_trend,
}
use defense_pm_tool.Decimal.{Decimal}
use defense_pm_tool.Variance.Alerts.{IsSound, detect_significant_variances-exact}
use defense_pm_tool.Variance.Analyze.{
  is_type, is_severity, is_some, count, set_trend, Found, add_trend, add_trends, counted, set_add,
  analyze_program_variances,
}

-- An explanation is required and there is none yet.
abbrev IsOpen : VarianceAlert → Type 0
IsOpen a = (a.explanation_required ≡ true) × (a.existing_explanation ≡ none)

severities :
    (l : List VarianceAlert)
    → count (λ a. is_severity a.severity critical) l
        + count (λ a. is_severity a.severity significant) l
        + count (λ a. is_severity a.severity moderate) l
        + count (λ a. is_severity a.severity minor) l
      ≡ length l
unfolding count
severities [] = refl
severities (a ∷ l) = let rest = severities l in one a.severity _ _ _ _ _ rest
  where
    one :
        (s : VarianceSeverity) (c g m n k : ℕ)
        → c + g + m + n ≡ k
        → (if is_severity s critical then suc c else c)
            + (if is_severity s significant then suc g else g)
            + (if is_severity s moderate then suc m else m)
            + (if is_severity s minor then suc n else n)
          ≡ suc k
    one minor c g m n k h = omega arith
    one moderate c g m n k h = omega arith
    one significant c g m n k h = omega arith
    one critical c g m n k h = omega arith

types :
    (l : List VarianceAlert)
    → count (λ a. is_type a.variance_type schedule) l + count (λ a. is_type a.variance_type cost) l
      ≡ length l
unfolding count
types [] = refl
types (a ∷ l) = let rest = types l in one a.variance_type _ _ _ rest
  where
    one :
        (t : VarianceType) (s c k : ℕ)
        → s + c ≡ k
        → (if is_type t schedule then suc s else s) + (if is_type t cost then suc c else c) ≡ suc k
    one schedule s c k h = omega arith
    one cost s c k h = omega arith

count-required :
    (l : List VarianceAlert) → All IsOpen l → count (λ a. a.explanation_required) l ≡ length l
unfolding count
count-required [] h = refl
count-required (a ∷ l) h = rw h.0.0 (ap suc (count-required l h.1))

count-provided :
    (l : List VarianceAlert) → All IsOpen l → count (λ a. is_some a.existing_explanation) l ≡ 0
unfolding count
count-provided [] h = refl
count-provided (a ∷ l) h = rw h.0.1 (count-provided l h.1)

IsOpen-set_trend : (t : VarianceTrend) (a : VarianceAlert) → IsOpen a → IsOpen (set_trend t a)
unfolding set_trend
IsOpen-set_trend t a h =
    elim (Bool-cases ((a.wbs_id == t.wbs_id) && is_type a.variance_type t.variance_type)) [
      | inl e ↦ rw e h
      | inr e ↦ rw e h
    ]

-- The alerts are so many, and all are open.
abbrev Kept : ℕ → Found → Type 0
Kept n found = All IsOpen found.1 × (length found.1 ≡ n)

map-Kept :
    (t : VarianceTrend) (l : List VarianceAlert)
    → All IsOpen l
    → All IsOpen (map (set_trend t) l) × (length (map (set_trend t) l) ≡ length l)
map-Kept t [] h = (tt, refl)
map-Kept t (a ∷ l) h =
    let (all, same) = map-Kept t l h.1 in ((IsOpen-set_trend t a h.0, all), ap suc same)

add_trend-Kept :
    (n : ℕ) (t : VarianceTrend) (found : Found) → Kept n found → Kept n (add_trend t found)
unfolding add_trend
add_trend-Kept n t found h = by_values t.values
  where
    by_values :
        (values : List Decimal)
        → Kept n
            (elim values [ [] ↦ found | x ∷ l ↦ (found.0 ++ (t ∷ []), map (set_trend t) found.1) ])
    by_values [] = h
    by_values (x ∷ l) = let (all, same) = map-Kept t found.1 h.0 in (all, same ∙ h.1)

add_trends-Kept :
    (n : ℕ) (thresholds : VarianceThresholds) (k : ℕ) (o : Option (List Period)) (found : Found)
    → Kept n found
    → Kept n (add_trends thresholds k o found)
unfolding add_trends
add_trends-Kept n thresholds k none found h = h
add_trends-Kept n thresholds k (some history) found h =
    add_trend-Kept n (build_variance_trend thresholds k cost history none)
      (add_trend (build_variance_trend thresholds k schedule history none) found)
      (add_trend-Kept n (build_variance_trend thresholds k schedule history none) found h)

foldl-Kept :
    (n : ℕ) (thresholds : VarianceThresholds) (historical_data : Dict (List Period)) (ids : List ℕ)
    (found : Found)
    → Kept n found
    → Kept n (foldl (λ f k. add_trends thresholds k (lookup k historical_data) f) found ids)
foldl-Kept n thresholds historical_data [] found h = h
foldl-Kept n thresholds historical_data (k ∷ ids) found h =
    foldl-Kept n thresholds historical_data ids _
      (add_trends-Kept n thresholds k (lookup k historical_data) found h)

All-IsOpen :
    (thresholds : VarianceThresholds) (l : List VarianceAlert)
    → All (IsSound thresholds thresholds.explanation_required_threshold) l
    → All IsOpen l
unfolding requires_explanation
All-IsOpen thresholds [] h = tt
All-IsOpen thresholds (a ∷ l) h = ((h.0.1 ∙ h.0.2, h.0.3), All-IsOpen thresholds l h.1)

-- Whatever the order of the set, the alerts of an analysis are as many as the detection gives. The
-- four severities divide them, the two types divide them, each requires an explanation, and none has
-- one.
pub analyze_program_variances-counts :
    (set_order : List ℕ → List ℕ) (thresholds : VarianceThresholds) (period_data : List Period)
    (historical_data : Dict (List Period))
    → let r = analyze_program_variances set_order thresholds period_data historical_data in
      let n = length (detect_significant_variances thresholds period_data none []) in
      (length r.alerts ≡ n)
      × (r.critical_count + r.significant_count + r.moderate_count + r.minor_count ≡ n)
      × (r.schedule_variance_count + r.cost_variance_count ≡ n)
      × (r.explanations_required ≡ n)
      × (r.explanations_provided ≡ 0)
unfolding analyze_program_variances counted threshold_or
analyze_program_variances-counts set_order thresholds period_data historical_data =
    let alerts = detect_significant_variances thresholds period_data none [] in
    let ids = set_order (foldl (λ l a. set_add l a.wbs_id) [] alerts) in
    let sound = (detect_significant_variances-exact thresholds period_data none []).1 in
    let (all, same) =
      foldl-Kept (length alerts) thresholds historical_data ids ([], alerts)
        (All-IsOpen thresholds alerts sound, refl) in
    (same, severities _ ∙ same, types _ ∙ same, count-required _ all ∙ same, count-provided _ all)
