-- ===== src/Enums/Resource.antt =====
-- models/enums.py, `ResourceType`: the kinds of resources.
use defense_pm_tool.Prelude.{Bool, true, false}

pub data ResourceType : Type 0 where
  labor equipment material : ResourceType

unfoldable pub is_time_based : ResourceType → Bool
is_time_based material = false
is_time_based _ = true

unfoldable pub supports_leveling : ResourceType → Bool
supports_leveling material = false
supports_leveling _ = true

-- `resource_type == ResourceType.MATERIAL`
abbrev pub is_material : ResourceType → Bool
is_material material = true
is_material _ = false
