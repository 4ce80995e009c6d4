-- ===== src/Evms/Methods.antt =====
-- services/evms.py: which methods `calculate_all_eac_methods` returns an estimate for.
use defense_pm_tool.Prelude.{
  Option-cases, inl, inr, ◌≡◌, refl, ap, ◌∙◌, Bool, true, false, Option, none, some, List, [], ◌∷◌,
  map, if◌then◌else◌, ◌++◌,
}
use defense_pm_tool.Decimal.{Decimal}
use defense_pm_tool.Evms.{
  EacMethod, cpi, typical, mathematical, comprehensive, independent, composite, calculate_cpi,
  calculate_spi, usable, eac_cpi_method, eac_typical_method, eac_mathematical_method,
  eac_comprehensive_method, eac_independent_method, eac_composite_method, calculate_eac_advanced,
  collect, calculate_all_eac_methods, ok, raise, Outcome, EacResult, is_skipped,
}

abbrev pub is_some : Option Decimal → Bool
is_some none = false
is_some (some c) = true

abbrev pub listed : Bool → EacMethod → List EacMethod
listed true method = method ∷ []
listed false method = []

-- The methods that apply: without a cost index the composite method falls back on the typical.
abbrev pub applicable : Bool → Bool → Bool → List EacMethod
applicable cost schedule manager =
    listed cost cpi
    ++ (typical ∷ listed cost mathematical)
    ++ listed (if cost then schedule else false) comprehensive
    ++ listed manager independent
    ++ ((if cost then composite else typical) ∷ [])

-- What the service is called for: the composite method also without a cost index.
abbrev pub called : Bool → Bool → Bool → List EacMethod
called cost schedule manager =
    listed cost cpi
    ++ (typical ∷ listed cost mathematical)
    ++ listed (if cost then schedule else false) comprehensive
    ++ listed manager independent
    ++ (composite ∷ [])

if_ok : {A : Type 0} → Outcome EacResult → List A → List A → List A
if_ok (ok r) made rest = made
if_ok (raise e) made rest = rest

-- The methods that are not skipped and do not raise.
kept : (EacMethod → Outcome EacResult) → Option Decimal → List EacMethod → List EacMethod
unfolding if_ok
kept run manager_etc [] = []
kept run manager_etc (method ∷ methods) =
    let rest = kept run manager_etc methods in
    if is_skipped method manager_etc then rest else if_ok (run method) (method ∷ rest) rest

collect-kept :
    (run : EacMethod → Outcome EacResult) (manager_etc : Option Decimal) (methods : List EacMethod)
    → map (λ r. ok r) (collect run manager_etc methods) ≡ map run (kept run manager_etc methods)
unfolding collect kept
collect-kept run manager_etc [] = refl
collect-kept run manager_etc (method ∷ methods) =
    by_skip (collect-kept run manager_etc methods) (is_skipped method manager_etc) (run method) refl
  where
    by_skip :
        map (λ r. ok r) (collect run manager_etc methods) ≡ map run (kept run manager_etc methods)
        → (b : Bool) (o : Outcome EacResult) → run method ≡ o
        → map
            (λ r. ok r)
            (if b then collect run manager_etc methods else (elim o [
              | ok r ↦ r ∷ collect run manager_etc methods
              | raise _ ↦ collect run manager_etc methods
            ]))
          ≡ map run (
              if b
              then kept run manager_etc methods
              else if_ok o (method ∷ kept run manager_etc methods) (kept run manager_etc methods))
    by_skip rest true o e = rest
    by_skip rest false (ok r) e = rw e (ap (λ l. ok r ∷ l) rest)
    by_skip rest false (raise x) e = rest

kept-called :
    (bcws bcwp acwp bac : Decimal) (manager_etc : Option Decimal)
    → kept
        (λ method. calculate_eac_advanced bcws bcwp acwp bac method manager_etc)
        manager_etc
        (cpi ∷ typical ∷ mathematical ∷ comprehensive ∷ independent ∷ composite ∷ [])
      ≡ called
          (is_some (usable (calculate_cpi bcwp acwp)))
          (is_some (usable (calculate_spi bcwp bcws)))
          (is_some manager_etc)
unfolding kept calculate_eac_advanced eac_cpi_method eac_typical_method eac_mathematical_method
    eac_comprehensive_method eac_independent_method eac_composite_method
kept-called bcws bcwp acwp bac none = elim (Option-cases (usable (calculate_cpi bcwp acwp))) [
  | inl h ↦ rw h
  | inr (c, h) ↦ (elim (Option-cases (usable (calculate_spi bcwp bcws))) [
    | inl k ↦ rw (h, k)
    | inr (s, k) ↦ rw (h, k)
  ])
]
kept-called bcws bcwp acwp bac (some t) = elim (Option-cases (usable (calculate_cpi bcwp acwp))) [
  | inl h ↦ rw h
  | inr (c, h) ↦ (elim (Option-cases (usable (calculate_spi bcwp bcws))) [
    | inl k ↦ rw (h, k)
    | inr (s, k) ↦ rw (h, k)
  ])
]

names-applicable :
    (bcws bcwp acwp bac : Decimal) (manager_etc : Option Decimal)
    → map (λ r. r.method) (calculate_all_eac_methods bcws bcwp acwp bac manager_etc)
      ≡ applicable
          (is_some (usable (calculate_cpi bcwp acwp)))
          (is_some (usable (calculate_spi bcwp bcws)))
          (is_some manager_etc)
unfolding calculate_all_eac_methods collect calculate_eac_advanced eac_cpi_method eac_typical_method
    eac_mathematical_method eac_comprehensive_method eac_independent_method eac_composite_method
names-applicable bcws bcwp acwp bac none = elim (Option-cases (usable (calculate_cpi bcwp acwp))) [
  | inl h ↦ rw (h, h, h, h)
  | inr (c, h) ↦ (elim (Option-cases (usable (calculate_spi bcwp bcws))) [
    | inl k ↦ rw (h, h, h, k, h)
    | inr (s, k) ↦ rw (h, h, h, k, h)
  ])
]
names-applicable bcws bcwp acwp bac (some t) =
    elim (Option-cases (usable (calculate_cpi bcwp acwp))) [
      | inl h ↦ rw (h, h, h, h)
      | inr (c, h) ↦ (elim (Option-cases (usable (calculate_spi bcwp bcws))) [
        | inl k ↦ rw (h, h, h, k, h)
        | inr (s, k) ↦ rw (h, h, h, k, h)
      ])
    ]

-- `calculate_all_eac_methods` returns the estimates that `calculate_eac_advanced` makes of the same
-- amounts, in this order: by the cost index method if the cost index is usable, the typical method, the
-- mathematical method if the cost index is usable, the comprehensive method if both indices are,
-- the independent method if there is a manager's estimate, and the composite method. Each result names
-- its method, but that of the composite method without a usable cost index names the typical method.
pub calculate_all_eac_methods-applicable :
    (bcws bcwp acwp bac : Decimal) (manager_etc : Option Decimal)
    → let cost = is_some (usable (calculate_cpi bcwp acwp)) in
      let schedule = is_some (usable (calculate_spi bcwp bcws)) in
      let results = calculate_all_eac_methods bcws bcwp acwp bac manager_etc in
      (map (λ r. ok r) results
        ≡ map
            (λ method. calculate_eac_advanced bcws bcwp acwp bac method manager_etc)
            (called cost schedule (is_some manager_etc)))
      × (map (λ r. r.method) results ≡ applicable cost schedule (is_some manager_etc))
unfolding calculate_all_eac_methods
calculate_all_eac_methods-applicable bcws bcwp acwp bac manager_etc =
    let run =
      λ (method : EacMethod). calculate_eac_advanced bcws bcwp acwp bac method manager_etc in
    (
      collect-kept run manager_etc _ ∙ ap (map run) (kept-called bcws bcwp acwp bac manager_etc),
      names-applicable bcws bcwp acwp bac manager_etc,
    )
