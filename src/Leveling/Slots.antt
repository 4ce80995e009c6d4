-- ===== src/Leveling/Slots.antt =====
-- services/resource_leveling.py: the slot that `_find_next_available_slot` returns.
use defense_pm_tool.Prelude.{
  ℕ, zero, suc, ◌≡◌, refl, sym, ap, ◌∙◌, subst, arith, Bool, true, false, not, ◌&&◌, if◌then◌else◌,
  Option, none, some, ◌<◌, Bool-cases, Option-cases, inl, inr, ◌⊎◌, some_inj,
}
use defense_pm_tool.Prelude.Int.{ℤ, pos, ◌+ℤ◌, ◌-ℤ◌, ◌≤ℤ◌, leb_ℤ, ltb_ℤ, eqb_ℤ, int_laws}
use defense_pm_tool.Prelude.Dict.{lookup}
use defense_pm_tool.Decimal.{Decimal}
use defense_pm_tool.Dates.{Date, weekday, is_weekend, next_day, span}
use defense_pm_tool.Dates.Ranges.{is_among, is_among-span, among_none, among_suc, same_day}
use defense_pm_tool.Loading.{Resource}
use defense_pm_tool.Leveling.{
  Repositories, Working, any_workday, skip_weekend, first_fit, units_for, is_crowded, slot_works,
  finish_of, or_last, find_next_available_slot,
}

-- Two days after one another are not both the second day of a weekend.
skip_weekend_lem : (d : Date) → (d ≤ℤ skip_weekend d) × (is_weekend (skip_weekend d) ≡ false)
unfolding skip_weekend is_weekend weekday ◌+ℤ◌
skip_weekend_lem d = ground arith

-- What is skipped is a weekend.
skipped : (d e : Date) → ((leb_ℤ d e && ltb_ℤ e (skip_weekend d)) && not (is_weekend e)) ≡ false
unfolding skip_weekend is_weekend weekday ◌+ℤ◌
skipped d e = ground arith

here_false :
    (a w q r : Bool)
    → (if w then r else (if q then true else r)) ≡ false
    → ((a && not w) && q) ≡ false
here_false a w q r h = ground arith

rest_false : (w q r : Bool) → (if w then r else (if q then true else r)) ≡ false → r ≡ false
rest_false w q r h = ground arith

-- A day that fails `p` on a workday among the days makes the loop return true.
any_workday-all :
    (p : Date → Bool) (d : Date) (n : ℕ) (e : Date)
    → any_workday p d n ≡ false
    → ((is_among d n e && not (is_weekend e)) && p e) ≡ false
unfolding any_workday
any_workday-all p d zero e h = ap (λ b. (b && not (is_weekend e)) && p e) (among_none d e)
any_workday-all p d (suc n) e h = elim (Bool-cases (eqb_ℤ d e)) [
  | inl q ↦
      subst (λ z. ((is_among d (suc n) z && not (is_weekend z)) && p z) ≡ false)
        (sym (same_day d e q)) (here_false (is_among d (suc n) d) (is_weekend d) (p d) _ h)
  | inr q ↦
      ap (λ b. (b && not (is_weekend e)) && p e) (among_suc d e n ∙ rw q)
      ∙ any_workday-all p (next_day d) n e (rest_false (is_weekend d) (p d) _ h)
]

le_next : (d s c : Date) → d ≤ℤ s → next_day s ≤ℤ c → d ≤ℤ c
unfolding ◌+ℤ◌
le_next d s c h k = ground arith

drop_left : (a b c d : Bool) → ((b && c) && d) ≡ false → (((a && b) && c) && d) ≡ false
drop_left a b c d h = ground arith

with_true : (a b c d : Bool) → a ≡ true → (((a && b) && c) && d) ≡ false → ((b && c) && d) ≡ false
with_true a b c d h k = ground arith

and_false_right : (a b : Bool) → b ≡ false → (a && b) ≡ false
and_false_right a b h = ground arith

skip_case : (a l m w f : Bool) → l ≡ true → ((a && l) && w) ≡ false → (((a && m) && w) && f) ≡ false
skip_case a l m w f h k = ground arith

before_candidate :
    (s x : Date) → leb_ℤ (next_day s) x ≡ false → eqb_ℤ s x ≡ false → ltb_ℤ x s ≡ true
unfolding ◌+ℤ◌
before_candidate s x h k = ground arith

-- The first workday from `d` on that fits.
abbrev pub IsFirst : (Date → Bool) → Date → Date → Type 0
IsFirst fits d c =
    (d ≤ℤ c)
    × (is_weekend c ≡ false)
    × (fits c ≡ true)
    × ((e : Date) → (((leb_ℤ d e && ltb_ℤ e c) && not (is_weekend e)) && fits e) ≡ false)

first_fit-exact :
    (fits : Date → Bool) (n : ℕ) (d c : Date) → first_fit fits n d ≡ some c → IsFirst fits d c
unfolding first_fit
first_fit-exact fits zero d c h = cc
first_fit-exact fits (suc n) d c h = elim (Bool-cases (fits (skip_weekend d))) [
  | inl e ↦
      let (later, workday) = skip_weekend_lem d in
      subst (IsFirst fits d) (some_inj (rw (first_fit, e) at h))
        (later, workday, e, λ x. ap (λ b. b && fits x) (skipped d x))
  | inr e ↦
      let s = skip_weekend d in
      let (later, workday) = skip_weekend_lem d in
      let (after, workday', fit, none_before) =
        first_fit-exact fits n (next_day s) c (rw (first_fit, e) at h) in
      (
        le_next d s c later after,
        workday',
        fit,
        λ x. elim (Bool-cases (leb_ℤ (next_day s) x)) [
          | inl far ↦
              drop_left (leb_ℤ d x) (ltb_ℤ x c) (not (is_weekend x)) (fits x)
                (with_true (leb_ℤ (next_day s) x) _ _ _ far (none_before x))
          | inr near ↦ elim (Bool-cases (eqb_ℤ s x)) [
            | inl q ↦ and_false_right _ (fits x) (ap fits (same_day s x q) ∙ e)
            | inr q ↦
                skip_case (leb_ℤ d x) (ltb_ℤ x s) (ltb_ℤ x c) (not (is_weekend x)) (fits x)
                  (before_candidate s x near q) (skipped d x)
          ]
        ],
      )
]

-- The workdays among the n days from `d` on.
abbrev pub count_workdays : Date → ℕ → ℕ
count_workdays d zero = 0
count_workdays d (suc n) =
    let rest = count_workdays (next_day d) n in if is_weekend d then rest else suc rest

skip_workday : (d : Date) → is_weekend d ≡ false → skip_weekend d ≡ d
unfolding skip_weekend is_weekend weekday ◌+ℤ◌
skip_workday d h = ground arith

skip_next : (d : Date) → is_weekend d ≡ true → skip_weekend d ≡ skip_weekend (next_day d)
unfolding skip_weekend is_weekend weekday ◌+ℤ◌
skip_next d h = ground arith

shift_day : (d : Date) (n : ℕ) → (next_day d +ℤ pos n) ≡ (d +ℤ pos (suc n))
shift_day d n = grind int_laws

same_start : (d : Date) → d ≡ (d +ℤ pos 0)
same_start d = grind int_laws

-- A search that finds nothing among `n` candidates has tried the first `n` workdays.
first_fit-none :
    (fits : Date → Bool) (i n : ℕ) (d : Date)
    → first_fit fits n d ≡ none
    → is_weekend (d +ℤ pos i) ≡ false
    → count_workdays d i < n
    → fits (d +ℤ pos i) ≡ false
unfolding first_fit
first_fit-none fits i zero d h workday few = absurd (omega (arith, few))
first_fit-none fits zero (suc n) d h workday few = elim (Bool-cases (fits (skip_weekend d))) [
  | inl e ↦ let found = rw (first_fit, e) at h in cc
  | inr e ↦
      subst (λ x. fits x ≡ false)
        (skip_workday d (subst (λ x. is_weekend x ≡ false) (sym (same_start d)) workday)
          ∙ same_start d)
        e
]
first_fit-none fits (suc i) (suc n) d h workday few =
    subst (λ x. fits x ≡ false) (shift_day d i)
      (elim (Bool-cases (is_weekend d)) [
        | inl weekend ↦
            first_fit-none fits i (suc n) (next_day d) (same_search (skip_next d weekend)) later
              (rw weekend at few)
        | inr at_work ↦ elim (Bool-cases (fits (skip_weekend d))) [
          | inl e ↦ let found = rw (first_fit, e) at h in cc
          | inr e ↦
              first_fit-none fits i n (next_day d)
                (subst (λ x. first_fit fits n (next_day x) ≡ none) (skip_workday d at_work)
                  (rw (first_fit, e) at h))
                later (let fewer = rw at_work at few in omega (arith, fewer))
        ]
      ])
  where
    later : is_weekend (next_day d +ℤ pos i) ≡ false
    later = subst (λ x. is_weekend x ≡ false) (sym (shift_day d i)) workday

    same_search :
        skip_weekend d ≡ skip_weekend (next_day d) → first_fit fits (suc n) (next_day d) ≡ none
    same_search e =
        subst
          (λ s.
            (let rest = first_fit fits n (next_day s) in if fits s then some s else rest) ≡ none)
          e h

eq_false_of : (b : Bool) → not b ≡ true → b ≡ false
eq_false_of b h = ground arith

module _ (repositories : Repositories) (i k : ℕ) (units : Decimal) (r : Resource)
    (w : Working) where
  abbrev crowded : Date → Bool
  crowded = is_crowded repositories i k units r.capacity_per_day w

  abbrev pub works : ℤ → Date → Bool
  works = slot_works repositories i k units r.capacity_per_day w

  -- On no workday from `c` to `c + length` do the activity and the others ask too much.
  abbrev pub IsFree : ℤ → Date → Type 0
  IsFree length c =
      (e : Date)
      → (((leb_ℤ c e && leb_ℤ e (c +ℤ length)) && not (is_weekend e)) && crowded e) ≡ false

  works-IsFree : (length : ℤ) (c : Date) → works length c ≡ true → IsFree length c
  unfolding slot_works
  works-IsFree length c h e =
      ap (λ b. (b && not (is_weekend e)) && crowded e) (sym (is_among-span c (c +ℤ length) e))
      ∙ any_workday-all crowded c (span c (c +ℤ length)) e (eq_false_of _ h)

  -- The activity fits from none of the first 365 workdays from the earliest start on.
  abbrev pub IsFull : Date → ℤ → Type 0
  IsFull earliest length =
      (i : ℕ)
      → is_weekend (earliest +ℤ pos i) ≡ false
      → count_workdays earliest i < 365
      → works length (earliest +ℤ pos i) ≡ false

  abbrev pub IsSlot : Date → ℤ → Date → Type 0
  IsSlot earliest length c =
      ((c ≡ (earliest +ℤ pos 365)) × IsFull earliest length)
      ⊎ (IsFirst (works length) earliest c × IsFree length c)

  slot_is :
      (earliest : Date) (o : Option Date)
      → repositories.get_resource k ≡ some r
      → units_for k (repositories.get_by_activity i) ≡ some units
      → first_fit (works (finish_of earliest (lookup i w) -ℤ earliest)) 365 earliest ≡ o
      → find_next_available_slot repositories i k earliest w ≡ or_last earliest o
  unfolding find_next_available_slot
  slot_is earliest o found has_units e = rw (find_next_available_slot, found, has_units, e)

  -- For a resource that is found, and an activity that has units of it, the slot that is found is
  -- either the first workday from the earliest start on at which the activity fits: it is not crowded
  -- on any workday of its length, and each workday before is one from which it does not fit; or it is
  -- the earliest start and 365 days, and the activity fits from none of the first 365 workdays from
  -- the earliest start on.
  pub find_next_available_slot-IsFirst :
      (earliest : Date)
      → repositories.get_resource k ≡ some r
      → units_for k (repositories.get_by_activity i) ≡ some units
      → let c = find_next_available_slot repositories i k earliest w in
        let length = finish_of earliest (lookup i w) -ℤ earliest in
        ((c ≡ (earliest +ℤ pos 365)) × IsFull earliest length)
        ⊎ (IsFirst (works length) earliest c × IsFree length c)
  find_next_available_slot-IsFirst earliest found has_units =
      let length = finish_of earliest (lookup i w) -ℤ earliest in
      elim (Option-cases (first_fit (works length) 365 earliest)) [
        | inl e ↦ subst (IsSlot earliest length) (sym (slot_is earliest _ found has_units e)) (
            inl (refl, λ j workday few. first_fit-none (works length) j 365 earliest e workday few))
        | inr (c, e) ↦ subst (IsSlot earliest length) (sym (slot_is earliest _ found has_units e)) (
            let first = first_fit-exact (works length) 365 earliest c e in
            inr (first, works-IsFree length c first.2))
      ]
