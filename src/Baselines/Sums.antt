-- ===== src/Baselines/Sums.antt =====
-- services/baseline_comparison.py: sums over lists of codes.
use defense_pm_tool.Prelude.{
  ℕ, ◌≡◌, refl, sym, ◌∙◌, ap, subst, arith, Bool, true, false, not, ◌==◌, ==_to_eq, if◌then◌else◌,
  List, [], ◌∷◌, Bool-cases, inl, inr,
}
use defense_pm_tool.Prelude.Int.{ℤ, pos, ◌+ℤ◌, ◌-ℤ◌, int_laws}
use defense_pm_tool.Baselines.{contains, minus, common}
use defense_pm_tool.Baselines.Compare.{pick}
use defense_pm_tool.Baselines.Codes.{minus-pick, common-pick}
use defense_pm_tool.Baselines.Counts.{IsDistinct}
use defense_pm_tool.Baselines.Details.{here, further}

abbrev pub sum : (ℕ → ℤ) → List ℕ → ℤ
sum f [] = pos 0
sum f (k ∷ l) = f k +ℤ sum f l

to_left : (a s x y : ℤ) → s ≡ (x +ℤ y) → (a +ℤ s) ≡ ((a +ℤ x) +ℤ y)
to_left a s x y h = grind (int_laws, h)

to_right : (a s x y : ℤ) → s ≡ (x +ℤ y) → (a +ℤ s) ≡ (x +ℤ (a +ℤ y))
to_right a s x y h = grind (int_laws, h)

no_parts : pos 0 ≡ (pos 0 +ℤ pos 0)
no_parts = grind int_laws

-- A sum is that of the codes that pass and that of the others.
pub sum-pick :
    (f : ℕ → ℤ) (p : ℕ → Bool) (l : List ℕ)
    → sum f l ≡ (sum f (pick p l) +ℤ sum f (pick (λ k. not (p k)) l))
unfolding pick
sum-pick f p [] = no_parts
sum-pick f p (k ∷ l) = elim (Bool-cases (p k)) [
  | inl e ↦ rw e (to_left (f k) (sum f l) _ _ (sum-pick f p l))
  | inr e ↦ rw e (to_right (f k) (sum f l) _ _ (sum-pick f p l))
]

pub sum-minus-common :
    (f : ℕ → ℤ) (xs ys : List ℕ) → sum f xs ≡ (sum f (common xs ys) +ℤ sum f (minus xs ys))
sum-minus-common f xs ys =
    sum-pick f (λ k. contains k ys) xs
    ∙ ap (λ l. sum f l +ℤ sum f (pick (λ k. not (contains k ys)) xs)) (sym (common-pick xs ys))
    ∙ ap (λ l. sum f (common xs ys) +ℤ sum f l) (sym (minus-pick xs ys))

pub sum_cong :
    (f g : ℕ → ℤ) (l : List ℕ) → ((k : ℕ) → contains k l ≡ true → f k ≡ g k) → sum f l ≡ sum g l
sum_cong f g [] h = refl
sum_cong f g (k ∷ l) h =
    ap (λ a. a +ℤ sum f l) (h k (here k l))
    ∙ ap (λ s. g k +ℤ s) (sum_cong f g l λ j e. h j (further j k l e))

pub sum_zeros : (l : List ℕ) → sum (λ k. pos 0) l ≡ pos 0
sum_zeros [] = refl
sum_zeros (k ∷ l) = ap (λ s. pos 0 +ℤ s) (sum_zeros l) ∙ sym no_parts

sum-plus : (f g : ℕ → ℤ) (l : List ℕ) → sum (λ k. f k +ℤ g k) l ≡ (sum f l +ℤ sum g l)
sum-plus f g [] = no_parts
sum-plus f g (k ∷ l) =
    ap (λ s. (f k +ℤ g k) +ℤ s) (sum-plus f g l) ∙ regroup (f k) (g k) (sum f l) (sum g l)
  where
    regroup : (a b c d : ℤ) → ((a +ℤ b) +ℤ (c +ℤ d)) ≡ ((a +ℤ c) +ℤ (b +ℤ d))
    regroup a b c d = grind int_laws

pub sum-difference : (f g : ℕ → ℤ) (l : List ℕ) → sum (λ k. f k -ℤ g k) l ≡ (sum f l -ℤ sum g l)
sum-difference f g [] = grind int_laws
sum-difference f g (k ∷ l) =
    ap (λ s. (f k -ℤ g k) +ℤ s) (sum-difference f g l) ∙ regroup (f k) (g k) (sum f l) (sum g l)
  where
    regroup : (a b c d : ℤ) → ((a -ℤ b) +ℤ (c -ℤ d)) ≡ ((a +ℤ c) -ℤ (b +ℤ d))
    regroup a b c d = grind int_laws

sum_swap :
    (g : ℕ → ℕ → ℤ) (xs ys : List ℕ)
    → sum (λ x. sum (g x) ys) xs ≡ sum (λ y. sum (λ x. g x y) xs) ys
sum_swap g [] ys = sym (sum_zeros ys)
sum_swap g (x ∷ xs) ys =
    ap (λ s. sum (g x) ys +ℤ s) (sum_swap g xs ys)
    ∙ sym (sum-plus (g x) (λ y. sum (λ z. g z y) xs) ys)

-- The summand of `x`, where the two codes are the same.
abbrev both : (ℕ → ℤ) → ℕ → ℕ → ℤ
both f x y = if y == x then f x else pos 0

both_comm : (f : ℕ → ℤ) (x y : ℕ) → both f x y ≡ both f y x
both_comm f x y = elim (Bool-cases (y == x)) [
  | inl e ↦ subst (λ z. both f x z ≡ both f z x) (sym (==_to_eq y x e)) refl
  | inr e ↦ rw (e, flipped (y == x) (x == y) e (ground arith)) refl
]
  where
    flipped : (a b : Bool) → a ≡ false → a ≡ b → b ≡ false
    flipped a b h e = sym e ∙ h

sum-both_absent :
    (f : ℕ → ℤ) (x : ℕ) (ys : List ℕ) → contains x ys ≡ false → sum (both f x) ys ≡ pos 0
unfolding contains
sum-both_absent f x [] h = refl
sum-both_absent f x (y ∷ ys) h = elim (Bool-cases (y == x)) [
  | inl e ↦ let there = rw e at h in cc
  | inr e ↦ rw e (ap (λ s. pos 0 +ℤ s) (sum-both_absent f x ys (rw e at h)) ∙ sym no_parts)
]

sum-both :
    (f : ℕ → ℤ) (x : ℕ) (ys : List ℕ)
    → IsDistinct ys
    → sum (both f x) ys ≡ (if contains x ys then f x else pos 0)
unfolding contains
sum-both f x [] h = refl
sum-both f x (y ∷ ys) h = elim (Bool-cases (y == x)) [
  | inl e ↦ rw e (
      ap (λ s. f x +ℤ s)
        (sum-both_absent f x ys (subst (λ z. contains z ys ≡ false) (==_to_eq y x e) h.0))
      ∙ plus_zero (f x))
  | inr e ↦ rw e (zero_plus (sum (both f x) ys) ∙ sum-both f x ys h.1)
]
  where
    plus_zero : (a : ℤ) → (a +ℤ pos 0) ≡ a
    plus_zero a = grind int_laws

    zero_plus : (a : ℤ) → (pos 0 +ℤ a) ≡ a
    zero_plus a = grind int_laws

sum-common-both :
    (f : ℕ → ℤ) (xs ys : List ℕ)
    → IsDistinct ys
    → sum f (common xs ys) ≡ sum (λ x. sum (both f x) ys) xs
unfolding common
sum-common-both f [] ys h = refl
sum-common-both f (x ∷ xs) ys h =
    kept (contains x ys)
    ∙ ap (λ a. a +ℤ sum f (common xs ys)) (sym (sum-both f x ys h))
    ∙ ap (λ s. sum (both f x) ys +ℤ s) (sum-common-both f xs ys h)
  where
    zero_plus : (a : ℤ) → a ≡ (pos 0 +ℤ a)
    zero_plus a = grind int_laws

    kept :
        (b : Bool)
        → sum f (if b then x ∷ common xs ys else common xs ys)
          ≡ ((if b then f x else pos 0) +ℤ sum f (common xs ys))
    kept true = refl
    kept false = zero_plus (sum f (common xs ys))

-- The codes that two lists have in common have one sum, in either order.
pub sum-common_comm :
    (f : ℕ → ℤ) (xs ys : List ℕ)
    → IsDistinct xs
    → IsDistinct ys
    → sum f (common xs ys) ≡ sum f (common ys xs)
sum-common_comm f xs ys h k =
    sum-common-both f xs ys k
    ∙ sum_swap (both f) xs ys
    ∙ sum_cong (λ y. sum (λ x. both f x y) xs) (λ y. sum (both f y) xs) ys
        (λ y e. sum_cong (λ x. both f x y) (both f y) xs λ x g. both_comm f x y)
    ∙ sym (sum-common-both f ys xs h)
