-- ===== src/Prelude/Dict.antt =====
-- Python's dict with number keys (the UUIDs of the source), in insertion order.
use Prim.Native.Nat.{ℕ}
use mathlib.Core.Path.{◌≡◌, refl}
use mathlib.Core.Logic.{◌≢◌, ◌⊎◌, inl, inr}
use mathlib.Core.Option.{Option, none, some}
use mathlib.Core.List.{List, [], ◌∷◌}
use native.Mathlib.Omega.{arith}
use defense_pm_tool.Prelude.Tests.{◌==◌, if◌then◌else◌, ==_to_eq, Bool-cases}
use defense_pm_tool.Prelude.Lists.{Member}

abbrev pub Dict {ℓ} : Type ℓ → Type ℓ
Dict V = List (ℕ × V)

abbrev pub keys {ℓ} : {V : Type ℓ} → Dict V → List ℕ
keys [] = []
keys ((k, v) ∷ d) = k ∷ keys d

abbrev pub values {ℓ} : {V : Type ℓ} → Dict V → List V
values [] = []
values ((k, v) ∷ d) = v ∷ values d

module _ {ℓ} {V : Type ℓ} where
  -- `d[k]`, where `none` stands for KeyError
  unfoldable pub lookup : ℕ → Dict V → Option V
  lookup k [] = none
  lookup k ((j, v) ∷ d) = if j == k then some v else lookup k d

  -- `d[k] = v`
  unfoldable pub insert : ℕ → V → Dict V → Dict V
  insert k v [] = (k, v) ∷ []
  insert k v ((j, w) ∷ d) = if j == k then (j, v) ∷ d else (j, w) ∷ insert k v d

  pub lookup-insert :
      (k j : ℕ) (v : V) (d : Dict V)
      → lookup j (insert k v d) ≡ (if k == j then some v else lookup j d)
  unfolding lookup insert
  lookup-insert k j v [] = refl
  lookup-insert k j v ((i, w) ∷ d) = ground (arith, lookup-insert k j v d)

  pub lookup-insert_self : (k : ℕ) (v : V) (d : Dict V) → lookup k (insert k v d) ≡ some v
  lookup-insert_self k v d = ground (arith, lookup-insert k k v d)

  pub lookup-insert_ne :
      (k j : ℕ) (v : V) (d : Dict V) → k ≢ j → lookup j (insert k v d) ≡ lookup j d
  lookup-insert_ne k j v d h = ground (arith, lookup-insert k j v d)

  -- What is found after an insertion is the new value, or was there before under another key.
  pub lookup-insert_cases :
      (k j : ℕ) (v w : V) (d : Dict V)
      → lookup j (insert k v d) ≡ some w
      → (k ≡ j) × (w ≡ v) ⊎ (k ≢ j) × (lookup j d ≡ some w)
  lookup-insert_cases k j v w d h = elim (Bool-cases (k == j)) [
    | inl same ↦
        let e : some v ≡ some w = rw (lookup-insert k j v d, same) at h in
        inl (==_to_eq k j same, cc)
    | inr other ↦ inr (λ e. ground arith, rw (lookup-insert k j v d, other) at h)
  ]

  -- An insertion takes no key away.
  pub insert-keeps :
      (k j : ℕ) (v w : V) (d : Dict V)
      → lookup j d ≡ some w
      → (u : V) × (lookup j (insert k v d) ≡ some u)
  insert-keeps k j v w d h = elim (Bool-cases (k == j)) [
    | inl same ↦ (v, ground (arith, lookup-insert k j v d))
    | inr other ↦ (w, ground (arith, lookup-insert k j v d))
  ]

  -- A key that is found stands among the keys, with its value among the values.
  pub Member-of_lookup : (k : ℕ) (v : V) (d : Dict V) → lookup k d ≡ some v → Member k (keys d)
  unfolding lookup
  Member-of_lookup k v [] h = cc
  Member-of_lookup k v ((j, w) ∷ d) h = elim (Bool-cases (j == k)) [
    | inl e ↦ inl (==_to_eq j k e)
    | inr e ↦ inr (Member-of_lookup k v d (rw e at h))
  ]

  pub lookup_of_Member : (k : ℕ) (d : Dict V) → Member k (keys d) → (v : V) × (lookup k d ≡ some v)
  unfolding lookup
  lookup_of_Member k [] m = elim m [ ]
  lookup_of_Member k ((j, w) ∷ d) m = elim (Bool-cases (j == k)) [
    | inl same ↦ (w, rw same)
    | inr other ↦
        rw other
          (elim m [ inl here ↦ absurd (ground arith) | inr later ↦ lookup_of_Member k d later ])
  ]
