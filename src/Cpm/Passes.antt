-- ===== src/Cpm/Passes.antt =====
-- services/cpm.py: what one round of a pass does, and what a whole pass leaves alone.
use defense_pm_tool.Prelude.{
  ℕ, ◌≡◌, refl, ◌∙◌, ap, Option, none, some, List, [], ◌∷◌, inl, inr, arith, Member, ◌⊎◌, ◌++◌,
  ◌==◌, subst, Bool-cases, Option-cases, ==_to_eq,
}
use defense_pm_tool.Prelude.Dict.{
  lookup, insert, lookup-insert, lookup-insert_cases, lookup-insert_ne,
}
use defense_pm_tool.Cpm.{
  Results, ScheduleResult, Outcome, ok, raise, Error, Action, ◌>>=◌, ◌>>◌, item, update,
}

pub Outcome-cases :
    {A : Type 0} (o : Outcome A) → ((a : A) × (o ≡ ok a)) ⊎ ((e : Error) × (o ≡ raise e))
Outcome-cases (ok a) = inl (a, refl)
Outcome-cases (raise e) = inr (e, refl)

-- Inversion of a successful chain.
pub >>=-eq-ok :
    {A B : Type 0} (first : Outcome A) (next : A → Outcome B) {result : B}
    → (first >>= next) ≡ ok result
    → (x : A) × (first ≡ ok x) × (next x ≡ ok result)
>>=-eq-ok (ok x) next done = (x, refl, done)
>>=-eq-ok (raise e) next done = cc

pub item-eq-ok : {V : Type 0} (k : ℕ) (o : Option V) {v : V} → item k o ≡ ok v → o ≡ some v
item-eq-ok k (some v) h = cc
item-eq-ok k none h = cc

pub >>-eq-ok :
    {A B : Type 0} (m : Action A) (k : Action B) (R R' : Results) {b : B}
    → (m >> k) R ≡ (ok b, R')
    → (a : A) × (S : Results) × (m R ≡ (ok a, S)) × (k S ≡ (ok b, R'))
>>-eq-ok {A} {B} m k R R' {b} h = go (m R).0 (m R).1 refl h
  where
    go :
        (o : Outcome A) (S : Results)
        → m R ≡ (o, S)
        → elim o [ ok _ ↦ k S | raise e ↦ (raise e, S) ] ≡ (ok b, R')
        → (a : A) × (T : Results) × (m R ≡ (ok a, T)) × (k T ≡ (ok b, R'))
    go (ok a) S e g = (a, S, e, g)
    go (raise x) S e g = cc

module _ (f : ℕ → Results → Outcome ScheduleResult) where
  pub update-cons :
      (x : ℕ) (xs : List ℕ) (R R' : Results)
      → update f (x ∷ xs) R ≡ (ok tt, R')
      → (r : ScheduleResult) × (f x R ≡ ok r) × (update f xs (insert x r R) ≡ (ok tt, R'))
  unfolding update
  update-cons x xs R R' h = elim (Outcome-cases (f x R)) [
    | inl (r, e) ↦ (r, e, ground arith)
    | inr (x', e) ↦ absurd (ground arith)
  ]

  -- A pass leaves alone what it does not visit.
  pub update-frame :
      (xs : List ℕ) (R R' : Results) (k : ℕ)
      → update f xs R ≡ (ok tt, R')
      → ¬ Member k xs
      → lookup k R' ≡ lookup k R
  unfolding update
  update-frame [] R R' k h out = ground arith
  update-frame (x ∷ xs) R R' k h out =
      let (r, e, h') = update-cons x xs R R' h in
      update-frame xs (insert x r R) R' k h' (λ m. out (inr m))
      ∙ lookup-insert_ne x k r R (λ e'. out (inl e'))

  -- A pass succeeds whose rounds all succeed, from states that keep an invariant.
  pub update-succeeds :
      (P : Results → Type 0) (xs : List ℕ) (R : Results)
      → ((x : ℕ) (S : Results)
          → Member x xs
          → P S
          → (r : ScheduleResult) × (f x S ≡ ok r) × P (insert x r S))
      → P R
      → (R' : Results) × (update f xs R ≡ (ok tt, R')) × P R'
  unfolding update
  update-succeeds P [] R keep p = (R, refl, p)
  update-succeeds P (x ∷ xs) R keep p =
      let (r, e, p') = keep x R (inl refl) p in
      let (R', h, q) = update-succeeds P xs (insert x r R) (λ y S m. keep y S (inr m)) p' in
      (R', ground arith, q)

  -- A pass keeps an invariant that its rounds keep.
  pub update-keeps :
      (P : Results → Type 0) (xs : List ℕ) (R R' : Results)
      → ((x : ℕ) (S : Results) (r : ScheduleResult)
          → Member x xs
          → P S
          → f x S ≡ ok r
          → P (insert x r S))
      → update f xs R ≡ (ok tt, R')
      → P R
      → P R'
  unfolding update
  update-keeps P [] R R' keep h p = subst P (ap (λ (t : Outcome Unit × Results). t.1) h) p
  update-keeps P (x ∷ xs) R R' keep h p =
      let (r, e, h') = update-cons x xs R R' h in
      update-keeps P xs (insert x r R) R' (λ y S s m. keep y S s (inr m)) h'
        (keep x R r (inl refl) p e)

-- One view of an entry, such as its early dates.
abbrev pub view_at : {B : Type 0} → (ScheduleResult → B) → Results → ℕ → Option B
view_at view R k = elim (lookup k R) [ none ↦ none | some r ↦ some (view r) ]

pub view_at-some :
    {B : Type 0} (view : ScheduleResult → B) (R S : Results) (k : ℕ) (s : ScheduleResult)
    → view_at view S k ≡ view_at view R k
    → lookup k S ≡ some s
    → (r : ScheduleResult) × (lookup k R ≡ some r) × (view s ≡ view r)
view_at-some view R S k s same found = elim (Option-cases (lookup k R)) [
  | inl absent ↦ absurd (ground arith)
  | inr (r, e) ↦ (r, e, ground arith)
]

module _ (f : ℕ → Results → Outcome ScheduleResult) where
  -- A pass keeps a view of every entry that its rounds keep.
  pub update-view :
      {B : Type 0} (view : ScheduleResult → B) (xs : List ℕ) (R R' : Results)
      → ((x : ℕ) (S : Results) (r : ScheduleResult)
          → f x S ≡ ok r
          → (old : ScheduleResult) × (lookup x S ≡ some old) × (view r ≡ view old))
      → update f xs R ≡ (ok tt, R')
      → (k : ℕ) → view_at view R' k ≡ view_at view R k
  unfolding update
  update-view view [] R R' keep h k = ground arith
  update-view view (x ∷ xs) R R' keep h k =
      let (r, e, h') = update-cons f x xs R R' h in
      let (old, found, same) = keep x R r e in
      update-view view xs (insert x r R) R' keep h' k ∙ elim (Bool-cases (x == k)) [
        | inl here ↦ ground (arith, lookup-insert x k r R, ==_to_eq x k here)
        | inr other ↦ ground (arith, lookup-insert x k r R)
      ]

  -- After a pass an entry has what a round establishes, or was never visited.
  pub update-establishes :
      (Q : ℕ → ScheduleResult → Type 0) (xs : List ℕ) (R R' : Results)
      → ((x : ℕ) (S : Results) (r : ScheduleResult) → f x S ≡ ok r → Q x r)
      → update f xs R ≡ (ok tt, R')
      → (k : ℕ) (r : ScheduleResult) → lookup k R' ≡ some r
      → Q k r ⊎ (lookup k R ≡ some r) × (¬ Member k xs)
  unfolding update
  update-establishes Q [] R R' set h k r found = inr (ground arith, λ i. elim i [ ])
  update-establishes Q (x ∷ xs) R R' set h k r found =
      let (s, e, h') = update-cons f x xs R R' h in
      elim (update-establishes Q xs (insert x s R) R' set h' k r found) [
        | inl q ↦ inl q
        | inr (was, out) ↦ elim (lookup-insert_cases x k s r R was) [
          | inl (same, new) ↦ inl (rw (new, ← same) (set x R s e))
          | inr (other, old) ↦
              inr (old, λ i. elim i [ inl here ↦ other here | inr later ↦ out later ])
        ]
      ]

  -- The last round of a pass.
  pub update-snoc :
      (xs : List ℕ) (x : ℕ) (R R' : Results)
      → update f (xs ++ x ∷ []) R ≡ (ok tt, R')
      → (S : Results) × (r : ScheduleResult) × (update f xs R ≡ (ok tt, S))
        × (f x S ≡ ok r)
        × (R' ≡ insert x r S)
  unfolding update
  update-snoc [] x R R' h =
      let (r, e, h') = update-cons f x [] R R' h in (R, r, refl, e, ground arith)
  update-snoc (y ∷ ys) x R R' h =
      let (s, e, h') = update-cons f y (ys ++ x ∷ []) R R' h in
      let (S, r, before, last, same) = update-snoc ys x (insert y s R) R' h' in
      (S, r, rw (e, update) before, last, same)
