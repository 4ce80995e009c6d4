-- ===== src/Materials/Tests.antt =====
-- A store with one material, half of which is assigned.
use defense_pm_tool.Prelude.{ℕ, ◌≡◌, refl, true, false, some, [], ◌∷◌, All, Bool, arith}
use defense_pm_tool.Prelude.Int.{pos, ◌+ℤ◌}
use defense_pm_tool.Decimal.{cents, whole, less, ◌+ᴰ◌}
use defense_pm_tool.Enums.Resource.{material}
use defense_pm_tool.Materials
use defense_pm_tool.Materials.Consume

abbrev steel : Materials.Resource
steel = record {
  id = 1;
  resource_type = material;
  quantity_available = some (whole 100);
  unit_cost = some (cents (pos 250));
  is_deleted = false;
}

abbrev assigned : ℕ → ℕ → Materials.ResourceAssignment
assigned k n = record {
  id = k;
  resource_id = 1;
  quantity_assigned = some (whole n);
  quantity_consumed = some (whole 10);
  actual_cost = whole 0;
  is_deleted = false;
}

abbrev store : Materials.Store
store = record { resources = steel ∷ []; assignments = assigned 7 50 ∷ assigned 8 20 ∷ [] }

abbrev is_failed : {A : Type 0} → Materials.Reply A → Bool
is_failed (Materials.done x) = false
is_failed (Materials.failed e) = true

too_much : is_failed (Materials.consume_material 8 (whole 11) store).0 ≡ true
unfolding Materials.consume_material Materials.consume Materials.find less ◌+ᴰ◌ ◌+ℤ◌
too_much = refl

enough : is_failed (Materials.consume_material 8 (whole 10) store).0 ≡ false
unfolding Materials.consume_material Materials.consume Materials.find less ◌+ᴰ◌ ◌+ℤ◌
enough = refl

consume_material-IsCovered_example :
    All Consume.IsCovered (Materials.consume_material 8 (whole 10) store).1.assignments
unfolding less
consume_material-IsCovered_example =
    Consume.consume_material-IsCovered 8 (whole 10) store (refl, (refl, tt))

consume_material-IsSettled_example :
    Consume.IsSettled 7
      (Materials.consume_material 8 (whole 10) store).0
      store
      (Materials.consume_material 8 (whole 10) store).1
consume_material-IsSettled_example =
    Consume.consume_material-IsSettled 7 8 (whole 10) store (λ e. omega (arith, e))
