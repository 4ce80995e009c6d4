-- ===== src/Prelude/Sort.antt =====
-- `sorted` and `list.sort`: a stable insertion sort by a Boolean order.
use mathlib.Core.Path.{◌≡◌, refl, ◌∙◌, ap}
use mathlib.Core.Bool.{Bool, true, false, ◌||◌}
use mathlib.Core.List.{List, [], ◌∷◌}
use native.Mathlib.Omega.{arith}
use mathlib.Core.Logic.{inl, inr}
use defense_pm_tool.Prelude.Tests.{if◌then◌else◌, Bool-cases}
use defense_pm_tool.Prelude.Lists.{All}

-- Whether some item passes.
abbrev pub any {ℓ} : {A : Type ℓ} → (A → Bool) → List A → Bool
any p [] = false
any p (x ∷ l) = p x || any p l

or_swap : (a b c : Bool) → (a || (b || c)) ≡ (b || (a || c))
or_swap a b c = ground arith

module _ {ℓ} {A : Type ℓ} (before : A → A → Bool) where
  unfoldable pub insert_by : A → List A → List A
  insert_by x [] = x ∷ []
  insert_by x (y ∷ l) = let rest = insert_by x l in if before x y then x ∷ y ∷ l else y ∷ rest

  unfoldable pub sort_by : List A → List A
  unfolding insert_by
  sort_by [] = []
  sort_by (x ∷ l) = insert_by x (sort_by l)

  -- Each item may stand before the next.
  abbrev pub IsSortedFrom : A → List A → Type 0
  IsSortedFrom x [] = Unit
  IsSortedFrom x (y ∷ l) = (before x y ≡ true) × IsSortedFrom y l

  abbrev pub IsSorted : List A → Type 0
  IsSorted [] = Unit
  IsSorted (x ∷ l) = IsSortedFrom x l

  pub any-insert_by : (p : A → Bool) (x : A) (l : List A) → any p (insert_by x l) ≡ (p x || any p l)
  unfolding insert_by
  any-insert_by p x [] = refl
  any-insert_by p x (y ∷ l) = elim (Bool-cases (before x y)) [
    | inl e ↦ rw e
    | inr e ↦ rw e (ap (λ b. p y || b) (any-insert_by p x l) ∙ or_swap (p y) (p x) (any p l))
  ]

  pub any-sort_by : (p : A → Bool) (l : List A) → any p (sort_by l) ≡ any p l
  unfolding sort_by
  any-sort_by p [] = refl
  any-sort_by p (x ∷ l) = any-insert_by p x (sort_by l) ∙ ap (λ b. p x || b) (any-sort_by p l)

  All-insert_by : (P : A → Type 0) (x : A) (l : List A) → P x → All P l → All P (insert_by x l)
  unfolding insert_by
  All-insert_by P x [] h all = (h, tt)
  All-insert_by P x (y ∷ l) h all = elim (Bool-cases (before x y)) [
    | inl e ↦ rw e (h, all)
    | inr e ↦ rw e (all.0, All-insert_by P x l h all.1)
  ]

  pub All-sort_by : (P : A → Type 0) (l : List A) → All P l → All P (sort_by l)
  unfolding sort_by
  All-sort_by P [] all = tt
  All-sort_by P (x ∷ l) all = All-insert_by P x (sort_by l) all.0 (All-sort_by P l all.1)

  module _ (total : (x y : A) → before x y ≡ false → before y x ≡ true) where
    insert_by-IsSortedFrom :
        (x y : A) (l : List A)
        → before x y ≡ true
        → IsSortedFrom x l
        → IsSortedFrom x (insert_by y l)
    unfolding insert_by
    insert_by-IsSortedFrom x y [] h sorted = (h, tt)
    insert_by-IsSortedFrom x y (z ∷ l) h sorted = elim (Bool-cases (before y z)) [
      | inl e ↦ rw e (h, (e, sorted.1))
      | inr e ↦ rw e (sorted.0, insert_by-IsSortedFrom z y l (total y z e) sorted.1)
    ]

    insert_by-IsSorted : (x : A) (l : List A) → IsSorted l → IsSorted (insert_by x l)
    unfolding insert_by
    insert_by-IsSorted x [] h = tt
    insert_by-IsSorted x (y ∷ l) h = elim (Bool-cases (before x y)) [
      | inl e ↦ rw e (e, h)
      | inr e ↦ rw e (insert_by-IsSortedFrom y x l (total x y e) h)
    ]

    -- With a total order the result is sorted.
    pub sort_by-IsSorted : (l : List A) → IsSorted (sort_by l)
    unfolding sort_by
    sort_by-IsSorted [] = tt
    sort_by-IsSorted (x ∷ l) = insert_by-IsSorted x (sort_by l) (sort_by-IsSorted l)
