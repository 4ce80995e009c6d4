-- ===== src/Enums/Constraint.antt =====
-- models/enums.py, `ConstraintType`.
use defense_pm_tool.Prelude.{◌≡◌, refl, Bool, true, false, ◌||◌, ◌&&◌, arith}

pub data ConstraintType : Type 0 where
  asap alap snet snlt fnet fnlt : ConstraintType

unfoldable pub requires_date : ConstraintType → Bool
requires_date asap = false
requires_date alap = false
requires_date _ = true

unfoldable pub affects_start : ConstraintType → Bool
affects_start snet = true
affects_start snlt = true
affects_start _ = false

unfoldable pub affects_finish : ConstraintType → Bool
affects_finish fnet = true
affects_finish fnlt = true
affects_finish _ = false

unfoldable pub is_no_earlier_than : ConstraintType → Bool
is_no_earlier_than snet = true
is_no_earlier_than fnet = true
is_no_earlier_than _ = false

unfoldable pub is_no_later_than : ConstraintType → Bool
is_no_later_than snlt = true
is_no_later_than fnlt = true
is_no_later_than _ = false

-- A type needs a date exactly if it binds the start or the finish, and exactly if it bounds from
-- below or above; it does not do both of either pair.
pub requires_date_classes :
    (c : ConstraintType)
    → (requires_date c ≡ (affects_start c || affects_finish c))
      × (requires_date c ≡ (is_no_earlier_than c || is_no_later_than c))
      × ((affects_start c && affects_finish c) ≡ false)
      × ((is_no_earlier_than c && is_no_later_than c) ≡ false)
unfolding requires_date affects_start affects_finish is_no_earlier_than is_no_later_than
requires_date_classes asap = (refl, refl, refl, refl)
requires_date_classes _ = (refl, refl, refl, refl)

-- The side that is bound and the direction of the bound determine a dated type.
pub dated_type_unique :
    (c d : ConstraintType)
    → requires_date c ≡ true
    → affects_start c ≡ affects_start d
    → affects_finish c ≡ affects_finish d
    → is_no_earlier_than c ≡ is_no_earlier_than d
    → c ≡ d
unfolding requires_date affects_start affects_finish is_no_earlier_than
dated_type_unique c d dated start finish early = ground arith
