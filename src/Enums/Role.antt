-- ===== src/Enums/Role.antt =====
-- models/enums.py, `UserRole`: the hierarchy of roles.
use defense_pm_tool.Prelude.{
  ℕ, ◌≡◌, ◌↔◌, ◌⊎◌, none, some, Option, List, [], ◌∷◌, arith, Bool, true, leb, if◌then◌else◌, map,
}
use defense_pm_tool.Prelude.Int.{ℤ, pos, eqb_ℤ, ◌≤ℤ◌}

pub data UserRole : Type 0 where
  viewer analyst scheduler program_manager admin : UserRole

-- `get_hierarchy()`, a dictionary, as the look-up of a role and as its items.
unfoldable pub get_hierarchy : UserRole → ℕ
get_hierarchy viewer = 1
get_hierarchy analyst = 2
get_hierarchy scheduler = 3
get_hierarchy program_manager = 4
get_hierarchy admin = 5

abbrev pub items : (UserRole → ℕ) → List (UserRole × ℕ)
items hierarchy =
    map (λ role. (role, hierarchy role))
      (viewer ∷ analyst ∷ scheduler ∷ program_manager ∷ admin ∷ [])

unfoldable pub level : UserRole → ℕ
unfolding get_hierarchy
level self = get_hierarchy self

unfoldable pub has_permission : UserRole → UserRole → Bool
unfolding get_hierarchy
has_permission self required_role = leb (get_hierarchy required_role) (get_hierarchy self)

unfoldable pub find_level : ℤ → List (UserRole × ℕ) → Option UserRole
find_level n [] = none
find_level n ((role, role_level) ∷ rest) =
    if eqb_ℤ (pos role_level) n then some role else find_level n rest

-- `none` stands for the ValueError.
unfoldable pub from_level : ℤ → Option UserRole
unfolding find_level get_hierarchy
from_level n = find_level n (items get_hierarchy)

-- `from_level` is the inverse of `level`: it finds a role exactly if that role has the level,
-- and it finds one exactly for the levels 1 to 5.
pub from_level-level :
    (n : ℤ) (r : UserRole)
    → ((from_level n ≡ some r) ↔ (pos (level r) ≡ n))
      × ((from_level n ≡ none) ↔ ((n ≤ℤ pos 0) ⊎ (pos 6 ≤ℤ n)))
unfolding from_level level
from_level-level n r =
    ((λ h. ground arith, λ h. ground arith), (λ h. ground arith, λ h. ground arith))

-- Permission is a total order on the roles, with the viewer below and the administrator above all.
pub record IsTotalOrder (holds : UserRole → UserRole → Bool) : Type 0 where
  pub reflexive : (r : UserRole) → holds r r ≡ true
  pub transitive : (r s t : UserRole) → holds r s ≡ true → holds s t ≡ true → holds r t ≡ true
  pub antisymmetric : (r s : UserRole) → holds r s ≡ true → holds s r ≡ true → r ≡ s
  pub total : (r s : UserRole) → (holds r s ≡ true) ⊎ (holds s r ≡ true)
  pub top : (r : UserRole) → holds admin r ≡ true
  pub bottom : (r : UserRole) → holds r viewer ≡ true

level-injective : (r s : UserRole) → level r ≡ level s → r ≡ s
unfolding level
level-injective r s h = ground arith

-- Permission is a total order on the roles, with admin at the top and viewer at the bottom.
pub has_permission-IsTotalOrder : IsTotalOrder has_permission
unfolding has_permission
has_permission-IsTotalOrder = record {
  reflexive = λ r. ground arith;
  transitive = λ r s t h k. ground arith;
  antisymmetric = λ r s h k. level-injective r s (ground arith);
  total = λ r s. ground arith;
  top = λ r. ground arith;
  bottom = λ r. ground arith;
}
