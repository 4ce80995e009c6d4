-- ===== src/Enums/Program.antt =====
-- models/enums.py, `ProgramStatus`: the life of a program as a step relation.
use defense_pm_tool.Prelude.{◌≡◌, ◌↔◌, refl, Bool, true, false, arith}

pub data ProgramStatus : Type 0 where
  planning active complete on_hold cancelled : ProgramStatus

unfoldable pub is_editable : ProgramStatus → Bool
is_editable planning = true
is_editable active = true
is_editable _ = false

unfoldable pub is_active : ProgramStatus → Bool
is_active planning = true
is_active active = true
is_active _ = false

unfoldable pub is_terminal : ProgramStatus → Bool
is_terminal complete = true
is_terminal cancelled = true
is_terminal _ = false

-- The sets of `valid_transitions`.
unfoldable pub can_transition_to : ProgramStatus → ProgramStatus → Bool
can_transition_to planning active = true
can_transition_to planning on_hold = true
can_transition_to planning cancelled = true
can_transition_to active complete = true
can_transition_to active on_hold = true
can_transition_to active cancelled = true
can_transition_to on_hold active = true
can_transition_to on_hold cancelled = true
can_transition_to _ _ = false

-- The statuses that a program can take one after another.
pub data History (s : ProgramStatus) : ProgramStatus → Type 0 where
  here : History s s
  next : {t u : ProgramStatus} → History s t → can_transition_to t u ≡ true → History s u

-- A status is terminal exactly if no transition leads out of it.
pub is_terminal_iff :
    (s : ProgramStatus)
    → (is_terminal s ≡ true) ↔ ((t : ProgramStatus) → can_transition_to s t ≡ false)
unfolding is_terminal can_transition_to
is_terminal_iff planning = (λ h. cc, λ none_out. cc (none_out active))
is_terminal_iff active = (λ h. cc, λ none_out. cc (none_out complete))
is_terminal_iff on_hold = (λ h. cc, λ none_out. cc (none_out active))
is_terminal_iff complete = (λ h t. ground arith, λ none_out. refl)
is_terminal_iff cancelled = (λ h t. ground arith, λ none_out. refl)

terminal_stays :
    (s t u : ProgramStatus) → is_terminal s ≡ true → t ≡ s → can_transition_to t u ≡ true → u ≡ s
unfolding is_terminal can_transition_to
terminal_stays s t u h e step = ground arith

-- Once a program is complete or cancelled it stays so, and is never editable again.
pub History-terminal :
    (s : ProgramStatus) {t : ProgramStatus}
    → is_terminal s ≡ true
    → History s t
    → (t ≡ s) × (is_editable t ≡ false)
unfolding is_terminal is_editable
History-terminal s h here = (refl, ground arith)
History-terminal s h (next {t} {u} past step) =
    let (same, _) = History-terminal s h past in
    let e = terminal_stays s t u h same step in (e, ground (arith, e))

not_back_to_planning : (t : ProgramStatus) → can_transition_to t planning ≡ false
unfolding can_transition_to
not_back_to_planning t = ground arith

-- A program in planning has been in planning all along: no transition leads back to it.
pub History-planning : {s : ProgramStatus} → History s planning → s ≡ planning
History-planning h = go h refl
  where
    go : {s u : ProgramStatus} → History s u → u ≡ planning → s ≡ planning
    go here e = e
    go (next {t} past step) e = absurd (ground (arith, not_back_to_planning t, e))
