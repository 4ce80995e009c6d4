-- ===== src/Cpm/CriticalPath.antt =====
-- services/cpm.py, `get_critical_path` and `get_project_duration`.
use defense_pm_tool.Prelude.{
  ℕ, ◌≡◌, ◌↔◌, ◌⊎◌, sym, ◌∙◌, ap, none, some, List, [], ◌∷◌, inl, inr, arith, map, Member,
  Bool-cases, ==_to_eq, ==_refl, ◌==◌, some_inj, true,
}
use defense_pm_tool.Prelude.Int.{ℤ, pos, ◌≤ℤ◌}
use defense_pm_tool.Prelude.Dict.{lookup}
use defense_pm_tool.Cpm.{Results, ScheduleResult, is_critical, critical_starts, sort_insert, sort}
use defense_pm_tool.Cpm.Initial.{IsDict}
use defense_pm_tool.Cpm.Schedule.{early_start_in, early_start_in-eq}

abbrev pub ids : List (ℕ × ℤ) → List ℕ
ids l = map (λ a. a.0) l

ids-sort_insert :
    (a : ℕ × ℤ) (l : List (ℕ × ℤ)) (k : ℕ)
    → Member k (ids (sort_insert a l)) ↔ ((a.0 ≡ k) ⊎ Member k (ids l))
unfolding sort_insert
ids-sort_insert a [] k = (λ m. m, λ m. m)
ids-sort_insert a (b ∷ l) k = ground (arith, ids-sort_insert a l k)

pub ids-sort : (l : List (ℕ × ℤ)) (k : ℕ) → Member k (ids (sort l)) ↔ Member k (ids l)
unfolding sort
ids-sort [] k = (λ m. m, λ m. m)
ids-sort (a ∷ l) k = ground (arith, ids-sort_insert a (sort l) k, ids-sort l k)

-- Each list element starts no later than the next.
abbrev pub IsAscending : (ℕ → ℤ) → List ℕ → Type 0
IsAscending start [] = Unit
IsAscending start (x ∷ []) = Unit
IsAscending start (x ∷ y ∷ l) = (start x ≤ℤ start y) × IsAscending start (y ∷ l)

abbrev pub IsSorted : List (ℕ × ℤ) → Type 0
IsSorted [] = Unit
IsSorted (a ∷ []) = Unit
IsSorted (a ∷ b ∷ l) = (a.1 ≤ℤ b.1) × IsSorted (b ∷ l)

sort_insert-IsSorted : (a : ℕ × ℤ) (l : List (ℕ × ℤ)) → IsSorted l → IsSorted (sort_insert a l)
unfolding sort_insert
sort_insert-IsSorted a [] s = tt
sort_insert-IsSorted a (b ∷ []) s = ground arith
sort_insert-IsSorted a (b ∷ c ∷ l) s = ground (arith, sort_insert-IsSorted a (c ∷ l) s.1)

pub sort-IsSorted : (l : List (ℕ × ℤ)) → IsSorted (sort l)
unfolding sort
sort-IsSorted [] = tt
sort-IsSorted (a ∷ l) = sort_insert-IsSorted a (sort l) (sort-IsSorted l)

-- The second parts are what a function gives on the first.
abbrev pub Agrees : (ℕ → ℤ) → List (ℕ × ℤ) → Type 0
Agrees start [] = Unit
Agrees start (a ∷ l) = (a.1 ≡ start a.0) × Agrees start l

sort_insert-Agrees :
    (start : ℕ → ℤ) (a : ℕ × ℤ) (l : List (ℕ × ℤ))
    → a.1 ≡ start a.0
    → Agrees start l
    → Agrees start (sort_insert a l)
unfolding sort_insert
sort_insert-Agrees start a [] e h = (e, tt)
sort_insert-Agrees start a (b ∷ l) e h = ground (arith, sort_insert-Agrees start a l e h.1)

pub sort-Agrees : (start : ℕ → ℤ) (l : List (ℕ × ℤ)) → Agrees start l → Agrees start (sort l)
unfolding sort
sort-Agrees start [] h = tt
sort-Agrees start (a ∷ l) h = sort_insert-Agrees start a (sort l) h.0 (sort-Agrees start l h.1)

pub Ascending_of_Sorted :
    (start : ℕ → ℤ) (l : List (ℕ × ℤ)) → Agrees start l → IsSorted l → IsAscending start (ids l)
Ascending_of_Sorted start [] h s = tt
Ascending_of_Sorted start (a ∷ []) h s = tt
Ascending_of_Sorted start (a ∷ b ∷ l) h s =
    (rw (← h.0, ← h.1.0) s.0, Ascending_of_Sorted start (b ∷ l) h.1 s.1)

critical_iff : (r : ScheduleResult) → (is_critical r ≡ true) ↔ (r.total_float ≡ pos 0)
unfolding is_critical
critical_iff r = ground arith

lookup-cons_later :
    (j k : ℕ) (s r : ScheduleResult) (R : Results)
    → lookup j R ≡ none
    → lookup k R ≡ some r
    → lookup k ((j, s) ∷ R) ≡ some r
unfolding lookup
lookup-cons_later j k s r R absent found = elim (Bool-cases (j == k)) [
  | inl same ↦ absurd (ground (arith, ==_to_eq j k same))
  | inr other ↦ rw other found
]

lookup-cons_here : (j : ℕ) (s : ScheduleResult) (R : Results) → lookup j ((j, s) ∷ R) ≡ some s
unfolding lookup
lookup-cons_here j s R = rw ==_refl

abbrev pub Critical : Results → ℕ → Type 0
Critical R k = (r : ScheduleResult) × (lookup k R ≡ some r) × (r.total_float ≡ pos 0)

keep-Critical :
    (j k : ℕ) (s : ScheduleResult) (R : Results)
    → lookup j R ≡ none
    → Critical R k
    → Critical ((j, s) ∷ R) k
keep-Critical j k s R absent (r, found, zero_float) =
    (r, lookup-cons_later j k s r R absent found, zero_float)

pub Critical-of_Member :
    (R : Results) (k : ℕ) → IsDict R → Member k (ids (critical_starts R)) → Critical R k
unfolding critical_starts lookup
Critical-of_Member [] k d m = elim m [ ]
Critical-of_Member ((j, s) ∷ R) k d m = elim (Bool-cases (is_critical s)) [
  | inl here ↦
      let m' : (j ≡ k) ⊎ Member k (ids (critical_starts R)) = rw here at m in
      elim m' [
        | inl same ↦ (s, ground (arith, same), (critical_iff s).0 here)
        | inr later ↦ keep-Critical j k s R d.0 (Critical-of_Member R k d.1 later)
      ]
  | inr out ↦ keep-Critical j k s R d.0 (Critical-of_Member R k d.1 (rw out at m))
]

pub Member-of_Critical : (R : Results) (k : ℕ) → Critical R k → Member k (ids (critical_starts R))
unfolding critical_starts lookup
Member-of_Critical [] k c = cc c.1
Member-of_Critical ((j, s) ∷ R) k (r, found, zero_float) = elim (Bool-cases (j == k)) [
  | inl same ↦
      let e : s ≡ r = some_inj (rw same at found) in
      rw ((critical_iff s).1 (ap (λ (t : ScheduleResult). t.total_float) e ∙ zero_float))
        (inl (==_to_eq j k same))
  | inr other ↦
      let m = Member-of_Critical R k (r, rw other at found, zero_float) in
      elim (Bool-cases (is_critical s)) [ inl here ↦ rw here (inr m) | inr out ↦ rw out m ]
]

pub critical_starts-Agrees :
    (full R : Results)
    → ((k : ℕ) (r : ScheduleResult) → lookup k R ≡ some r → lookup k full ≡ some r)
    → IsDict R
    → Agrees (early_start_in full) (critical_starts R)
unfolding critical_starts
critical_starts-Agrees full [] inside d = tt
critical_starts-Agrees full ((j, s) ∷ R) inside d =
    let rest =
      critical_starts-Agrees full R
        (λ k r found. inside k r (lookup-cons_later j k s r R d.0 found)) d.1 in
    elim (Bool-cases (is_critical s)) [
      | inl here ↦
          rw here (sym (early_start_in-eq full j (inside j s (lookup-cons_here j s R))), rest)
      | inr out ↦ rw out rest
    ]
