-- ===== src/Materials/Consume.antt =====
-- services/material_tracking.py: consumption stays within what is assigned.
use defense_pm_tool.Prelude.{
  ◌==◌, ◌≡◌, ◌≢◌, refl, arith, Bool, true, false, Option, none, some, List, [], ◌∷◌, All, inl, inr,
  if◌then◌else◌, Bool-cases, subst, sym, ℕ, not,
}
use defense_pm_tool.Decimal.{Decimal, less, ◌+ᴰ◌}
use defense_pm_tool.Enums.Resource.{is_material}
use defense_pm_tool.Materials.{
  Error, Store, Resource, ResourceAssignment, Reply, done, failed, MaterialConsumption, or_zero,
  find, replace, is_assignment, consume, consumed, settle, consume_found, consume_material,
  value_error,
}

-- No more is consumed than is assigned.
abbrev pub IsCovered : ResourceAssignment → Type 0
IsCovered a = less (or_zero a.quantity_assigned) (or_zero a.quantity_consumed) ≡ false

abbrev IsCoveredRow : ResourceAssignment × MaterialConsumption → Type 0
IsCoveredRow p = IsCovered p.0

replace-All :
    {A : Type 0} (P : A → Type 0) (p : A → Bool) (y : A) (xs : List A)
    → P y
    → All P xs
    → All P (replace p y xs)
unfolding replace
replace-All P p y [] h k = tt
replace-All P p y (x ∷ xs) h k = elim (Bool-cases (p x)) [
  | inl e ↦ subst (λ b. All P (if b then y ∷ xs else (x ∷ replace p y xs))) (sym e) (h, k.1)
  | inr e ↦
      subst (λ b. All P (if b then y ∷ xs else (x ∷ replace p y xs))) (sym e)
        (k.0, replace-All P p y xs h k.1)
]

-- What a reply gives, if it is not an exception.
abbrev WhenDone : {A : Type 0} → (A → Type 0) → Reply A → Type 0
WhenDone P (done x) = P x
WhenDone P (failed e) = Unit

guarded :
    {A : Type 0} (P : A → Type 0) (c : Bool) (e : Error) (x : A)
    → (c ≡ false → P x)
    → WhenDone P (if c then failed e else done x)
guarded P true e x h = tt
guarded P false e x h = h refl

past :
    {A : Type 0} (P : A → Type 0) (c : Bool) (e : Error) (r : Reply A)
    → WhenDone P r
    → WhenDone P (if c then failed e else r)
past P true e r h = tt
past P false e r h = h

consume-IsCovered :
    (a : ResourceAssignment) (r : Option Resource) (quantity : Decimal)
    → WhenDone IsCoveredRow (consume a r quantity)
unfolding consume
consume-IsCovered a none quantity = tt
consume-IsCovered a (some r) quantity =
    past IsCoveredRow (not (is_material r.resource_type)) value_error _ (
      guarded IsCoveredRow
        (less (or_zero a.quantity_assigned) (or_zero a.quantity_consumed +ᴰ quantity)) value_error
        (consumed a r quantity) (λ e. e))

settle-IsCovered :
    (k : ℕ) (s : Store) (r : Reply (ResourceAssignment × MaterialConsumption))
    → WhenDone IsCoveredRow r
    → All IsCovered s.assignments
    → All IsCovered (settle k s r).1.assignments
settle-IsCovered k s (failed e) h all = all
settle-IsCovered k s (done p) h all =
    replace-All IsCovered (is_assignment k) p.0 s.assignments h all

found-IsCovered :
    (k : ℕ) (quantity : Decimal) (s : Store) (o : Option ResourceAssignment)
    → All IsCovered s.assignments
    → All IsCovered (consume_found k quantity s o).1.assignments
found-IsCovered k quantity s none all = all
found-IsCovered k quantity s (some a) all =
    settle-IsCovered k s (consume a _ quantity) (consume-IsCovered a _ quantity) all

-- If no assignment has more consumed than assigned, none has after `consume_material`, whether it
-- returns or raises.
pub consume_material-IsCovered :
    (k : ℕ) (quantity : Decimal) (s : Store)
    → All IsCovered s.assignments
    → All IsCovered (consume_material k quantity s).1.assignments
unfolding consume_material
consume_material-IsCovered k quantity s all =
    found-IsCovered k quantity s (find (is_assignment k) s.assignments) all

-- The search for another key is not disturbed.
find-replace :
    (j k : ℕ) (y : ResourceAssignment) (xs : List ResourceAssignment)
    → j ≢ k
    → y.id ≡ k
    → find (is_assignment j) (replace (is_assignment k) y xs) ≡ find (is_assignment j) xs
unfolding find replace
find-replace j k y [] h e = refl
find-replace j k y (x ∷ xs) h e = ground (arith, find-replace j k y xs h e)

find-holds :
    (p : ResourceAssignment → Bool) (xs : List ResourceAssignment) (a : ResourceAssignment)
    → find p xs ≡ some a
    → p a ≡ true
unfolding find
find-holds p [] a h = ground arith
find-holds p (x ∷ xs) a h = ground (arith, find-holds p xs a)

-- What a call leaves alone: everything if it raises, else the resources and the rows that another
-- key finds.
abbrev pub IsSettled : ℕ → Reply MaterialConsumption → Store → Store → Type 0
IsSettled j (failed e) s s' = s' ≡ s
IsSettled j (done c) s s' =
    (s'.resources ≡ s.resources)
    × (find (is_assignment j) s'.assignments ≡ find (is_assignment j) s.assignments)

same_id :
    (a : ResourceAssignment) (r : Option Resource) (quantity : Decimal)
    → WhenDone (λ p. p.0.id ≡ a.id) (consume a r quantity)
unfolding consume
same_id a none quantity = tt
same_id a (some r) quantity =
    past (λ p. p.0.id ≡ a.id) (not (is_material r.resource_type)) value_error _
      (guarded (λ p. p.0.id ≡ a.id)
        (less (or_zero a.quantity_assigned) (or_zero a.quantity_consumed +ᴰ quantity)) value_error
        (consumed a r quantity) (λ e. refl))

settle-IsSettled :
    (j k : ℕ) (s : Store) (r : Reply (ResourceAssignment × MaterialConsumption))
    → j ≢ k
    → WhenDone (λ p. p.0.id ≡ k) r
    → IsSettled j (settle k s r).0 s (settle k s r).1
settle-IsSettled j k s (failed e) ne same = refl
settle-IsSettled j k s (done p) ne same = (refl, find-replace j k p.0 s.assignments ne same)

key_of : (k : ℕ) (a : ResourceAssignment) → is_assignment k a ≡ true → a.id ≡ k
key_of k a h = ground arith

found-IsSettled :
    (j k : ℕ) (quantity : Decimal) (s : Store) (o : Option ResourceAssignment)
    → j ≢ k
    → find (is_assignment k) s.assignments ≡ o
    → IsSettled j (consume_found k quantity s o).0 s (consume_found k quantity s o).1
found-IsSettled j k quantity s none ne found = refl
found-IsSettled j k quantity s (some a) ne found =
    let has_key = find-holds (is_assignment k) s.assignments a found in
    let key = key_of k a has_key in
    let r = find (λ q. q.id == a.resource_id) s.resources in
    settle-IsSettled j k s (consume a r quantity) ne
      (subst (λ i. WhenDone (λ p. p.0.id ≡ i) (consume a r quantity)) key (same_id a r quantity))

-- `consume_material` leaves the whole store as it was if it raises; if it returns, it leaves the
-- resources and the rows of all other assignments as they were.
pub consume_material-IsSettled :
    (j k : ℕ) (quantity : Decimal) (s : Store)
    → j ≢ k
    → IsSettled j (consume_material k quantity s).0 s (consume_material k quantity s).1
unfolding consume_material
consume_material-IsSettled j k quantity s ne =
    found-IsSettled j k quantity s (find (is_assignment k) s.assignments) ne refl
