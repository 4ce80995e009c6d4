-- ===== src/Prelude/Lists.antt =====
-- Membership by recursion, so that the tactics read it, and lists over the native numbers.
use Prim.Native.Nat.{ℕ, suc}
use mathlib.Core.Path.{◌≡◌, refl, ap}
use mathlib.Core.Logic.{◌⊎◌, inl, inr}
use mathlib.Core.List.{List, [], ◌∷◌, ◌++◌, reverse, reverse-append}

-- `x` stands in the list.
abbrev pub Member : ℕ → List ℕ → Type 0
Member x [] = ⊥
Member x (y ∷ ys) = (y ≡ x) ⊎ Member x ys

module _ {ℓ} {A : Type ℓ} where
  abbrev pub length : List A → ℕ
  length [] = 0
  length (x ∷ xs) = suc (length xs)

  abbrev pub All {κ} : (A → Type κ) → List A → Type κ
  All P [] = Unit
  All P (x ∷ xs) = P x × All P xs

pub All-mono :
    {A : Type 0} {P Q : A → Type 0} (l : List A) → ((a : A) → P a → Q a) → All P l → All Q l
All-mono [] f h = tt
All-mono (x ∷ l) f h = (f x h.0, All-mono l f h.1)

pub All-snoc :
    {A : Type 0} (P : A → Type 0) (l : List A) (x : A) → All P l → P x → All P (l ++ x ∷ [])
All-snoc P [] x h p = (p, tt)
All-snoc P (y ∷ l) x h p = (h.0, All-snoc P l x h.1 p)

pub length-snoc : {A : Type 0} (l : List A) (x : A) → length (l ++ x ∷ []) ≡ suc (length l)
length-snoc [] x = refl
length-snoc (y ∷ l) x = ap suc (length-snoc l x)

pub reverse-cons {ℓ} : {A : Type ℓ} (x : A) (xs : List A) → reverse (x ∷ xs) ≡ reverse xs ++ x ∷ []
reverse-cons x xs = reverse-append (x ∷ []) xs

Member-append : (x : ℕ) (xs ys : List ℕ) → Member x (xs ++ ys) → Member x xs ⊎ Member x ys
Member-append x [] ys m = inr m
Member-append x (y ∷ xs) ys m = elim m [
  | inl here ↦ inl (inl here)
  | inr later ↦ elim (Member-append x xs ys later) [ inl l ↦ inl (inr l) | inr r ↦ inr r ]
]

pub Member-reverse : (x : ℕ) (xs : List ℕ) → Member x (reverse xs) → Member x xs
Member-reverse x [] m = m
Member-reverse x (y ∷ xs) m = elim (Member-append x (reverse xs) (y ∷ []) (rw reverse-cons at m)) [
  | inl l ↦ inr (Member-reverse x xs l)
  | inr (inl here) ↦ inl here
  | inr (inr none_left) ↦ absurd none_left
]
