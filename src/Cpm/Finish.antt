-- ===== src/Cpm/Finish.antt =====
-- services/cpm.py: the project's end as the greatest early finish, and the keys of the results.
use defense_pm_tool.Prelude.{
  ℕ, ◌≡◌, ◌∙◌, refl, sym, subst, some, List, [], ◌∷◌, ◌⊎◌, inl, inr, arith, ◌==◌, Bool-cases,
  ==_to_eq, ==_refl, All, some_inj,
}
use defense_pm_tool.Prelude.Int.{ℤ, ◌≤ℤ◌, max_ℤ, max_ℤ_bounds, max_ℤ_cases}
use defense_pm_tool.Prelude.Dict.{Dict, lookup, values, insert}
use defense_pm_tool.Cpm.{
  Activity, Results, ScheduleResult, Outcome, ok, update, initial, fresh, greatest, max_of,
  max_finish,
}
use defense_pm_tool.Cpm.Passes.{update-keeps}
use defense_pm_tool.Cpm.Initial.{IsDict, insert-IsDict}

abbrev In : ScheduleResult → List ScheduleResult → Type 0
In r [] = ⊥
In r (s ∷ rs) = (s ≡ r) ⊎ In r rs

In-values : (R : Results) (k : ℕ) (r : ScheduleResult) → lookup k R ≡ some r → In r (values R)
unfolding lookup
In-values [] k r h = cc
In-values ((j, s) ∷ R) k r h = elim (Bool-cases (j == k)) [
  | inl same ↦ inl (some_inj (rw same at h))
  | inr other ↦ inr (In-values R k r (rw other at h))
]

lookup_of_In :
    (R : Results) (r : ScheduleResult)
    → IsDict R
    → In r (values R)
    → (k : ℕ) × (lookup k R ≡ some r)
unfolding lookup
lookup_of_In [] r d i = elim i [ ]
lookup_of_In ((j, s) ∷ R) r (absent, d) i = elim i [
  | inl here ↦ (j, ground arith)
  | inr later ↦
      let (k, found) = lookup_of_In R r d later in
      (
        k,
        elim (Bool-cases (j == k)) [
          | inl same ↦ absurd (ground (arith, ==_to_eq j k same))
          | inr other ↦ rw other found
        ],
      )
]

greatest_bounds :
    (rs : List ScheduleResult) (m : ℤ)
    → (m ≤ℤ greatest m rs) × ((r : ScheduleResult) → In r rs → r.early_finish ≤ℤ greatest m rs)
unfolding greatest
greatest_bounds [] m = (omega arith, λ r i. elim i [ ])
greatest_bounds (s ∷ rs) m =
    let (low, rest) = greatest_bounds rs (max_ℤ m s.early_finish) in
    let (left, right) = max_ℤ_bounds m s.early_finish in
    (
      omega arith,
      λ r i. elim i [
        | inl here ↦
            subst (λ (t : ScheduleResult). t.early_finish ≤ℤ greatest m (s ∷ rs)) here (omega arith)
        | inr later ↦ rest r later
      ],
    )

greatest_attained :
    (rs : List ScheduleResult) (m : ℤ)
    → (greatest m rs ≡ m) ⊎ ((r : ScheduleResult) × In r rs × (r.early_finish ≡ greatest m rs))
unfolding greatest
greatest_attained [] m = inl refl
greatest_attained (s ∷ rs) m = elim (greatest_attained rs (max_ℤ m s.early_finish)) [
  | inl same ↦ elim (max_ℤ_cases m s.early_finish) [
    | inl left ↦ inl (same ∙ left)
    | inr right ↦ inr (s, inl refl, sym (same ∙ right))
  ]
  | inr (r, i, e) ↦ inr (r, inr i, e)
]

max_of_bounds :
    (rs : List ScheduleResult) (end : ℤ) (r : ScheduleResult)
    → max_of rs ≡ ok end
    → In r rs
    → r.early_finish ≤ℤ end
unfolding max_of
max_of_bounds [] end r h i = elim i [ ]
max_of_bounds (s ∷ rs) end r h i =
    let same : greatest s.early_finish rs ≡ end = cc in
    let (low, rest) = greatest_bounds rs s.early_finish in
    rw (← same) (elim i [
      | inl here ↦
          subst (λ (t : ScheduleResult). t.early_finish ≤ℤ greatest s.early_finish rs) here low
      | inr later ↦ rest r later
    ])

max_of_attained :
    (rs : List ScheduleResult) (end : ℤ)
    → max_of rs ≡ ok end
    → (r : ScheduleResult) × In r rs × (r.early_finish ≡ end)
unfolding max_of
max_of_attained [] end h = cc
max_of_attained (s ∷ rs) end h =
    let same : greatest s.early_finish rs ≡ end = cc in
    elim (greatest_attained rs s.early_finish) [
      | inl first ↦ (s, inl refl, sym first ∙ same)
      | inr (r, i, e) ↦ (r, inr i, e ∙ same)
    ]

-- The end bounds every early finish, and some entry reaches it.
pub max_finish_bounds :
    (R : Results) (end : ℤ) (k : ℕ) (r : ScheduleResult)
    → max_finish R ≡ ok end
    → lookup k R ≡ some r
    → r.early_finish ≤ℤ end
unfolding max_finish
max_finish_bounds R end k r h found = max_of_bounds (values R) end r h (In-values R k r found)

pub max_finish_attained :
    (R : Results) (end : ℤ)
    → IsDict R
    → max_finish R ≡ ok end
    → (k : ℕ) × (r : ScheduleResult) × (lookup k R ≡ some r) × (r.early_finish ≡ end)
unfolding max_finish
max_finish_attained R end d h =
    let (r, i, e) = max_of_attained (values R) end h in
    let (k, found) = lookup_of_In R r d i in (k, r, found, e)

pub max_finish_succeeds :
    (R : Results) (k : ℕ) (r : ScheduleResult)
    → lookup k R ≡ some r
    → (end : ℤ) × (max_finish R ≡ ok end)
unfolding max_finish lookup
max_finish_succeeds [] k r h = cc
max_finish_succeeds ((j, s) ∷ R) k r h = (greatest s.early_finish (values R), refl)

-- The passes list no key twice.
pub initial-IsDict : (d : Dict Activity) (R : Results) → IsDict R → IsDict (initial d R)
unfolding initial
initial-IsDict [] R h = h
initial-IsDict ((k, a) ∷ d) R h =
    initial-IsDict d (insert k (fresh k a) R) (insert-IsDict k (fresh k a) R h)

pub update-IsDict :
    (f : ℕ → Results → Outcome ScheduleResult) (xs : List ℕ) (R R' : Results)
    → update f xs R ≡ (ok tt, R')
    → IsDict R
    → IsDict R'
update-IsDict f xs R R' h d =
    update-keeps f IsDict xs R R' (λ x S r _ p _. insert-IsDict x r S p) h d

-- What holds of every entry that is found holds of all values.
pub All-values :
    (P : ScheduleResult → Type 0) (R : Results)
    → IsDict R
    → ((k : ℕ) (r : ScheduleResult) → lookup k R ≡ some r → P r)
    → All P (values R)
unfolding lookup
All-values P [] d h = tt
All-values P ((j, s) ∷ R) (absent, d) h = (
  h j s (rw ==_refl),
  All-values P R d λ k r found. h k r (elim (Bool-cases (j == k)) [
    | inl same ↦ absurd (ground (arith, ==_to_eq j k same))
    | inr other ↦ rw other found
  ]),
)
