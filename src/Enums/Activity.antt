-- ===== src/Enums/Activity.antt =====
-- models/enums.py, `ActivityStatus`. A percentage is a count of
-- hundredths of a percent, as the database column stores it.
use defense_pm_tool.Prelude.{ℕ, ◌≤◌, ◌≡◌, ◌↔◌, Bool, true, false, ◌||◌, if◌then◌else◌, arith}
use defense_pm_tool.Prelude.Int.{ℤ, pos, ◌≤ℤ◌, leb_ℤ, ltb_ℤ}

pub data ActivityStatus : Type 0 where
  not_started in_progress complete on_hold : ActivityStatus

unfoldable pub is_active : ActivityStatus → Bool
is_active in_progress = true
is_active _ = false

unfoldable pub is_complete : ActivityStatus → Bool
is_complete complete = true
is_complete _ = false

unfoldable pub allows_progress_updates : ActivityStatus → Bool
allows_progress_updates not_started = true
allows_progress_updates in_progress = true
allows_progress_updates _ = false

unfoldable pub from_progress : Bool → Bool → ℤ → ActivityStatus
from_progress actual_start actual_finish percent_complete =
    if actual_finish || leb_ℤ (pos 10000) percent_complete
    then complete
    else if actual_start || ltb_ℤ (pos 0) percent_complete
    then in_progress
    else not_started

-- How far an activity is.
abbrev pub stage : ActivityStatus → ℕ
stage not_started = 0
stage in_progress = 1
stage complete = 2
stage on_hold = 1

-- More progress never lowers the stage: with a start or a finish that is not taken back and a
-- percentage that does not fall, an activity goes from not started over in progress to complete.
pub from_progress_mono :
    (s s' f f' : Bool) (p p' : ℤ)
    → (s || s') ≡ s'
    → (f || f') ≡ f'
    → p ≤ℤ p'
    → stage (from_progress s f p) ≤ stage (from_progress s' f' p')
unfolding from_progress
from_progress_mono s s' f f' p p' hs hf hp = ground arith

-- The status derived from an activity's dates and percentage allows progress updates exactly if
-- there is no actual finish and the percentage is below 100.
pub from_progress_updates :
    (s f : Bool) (p : ℤ)
    → (allows_progress_updates (from_progress s f p) ≡ true)
      ↔ ((f ≡ false) × (leb_ℤ (pos 10000) p ≡ false))
unfolding from_progress allows_progress_updates
from_progress_updates s f p = (λ h. ground arith, λ h. ground arith)
