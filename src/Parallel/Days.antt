-- ===== src/Parallel/Days.antt =====
-- services/parallel_leveling.py: loops over the workdays of all activities.
use defense_pm_tool.Prelude.{
  ℕ, zero, suc, ◌≡◌, refl, sym, ap, ◌∙◌, arith, Bool, true, false, not, ◌&&◌, ◌||◌, ◌==◌, ltb,
  if◌then◌else◌, Option, none, some, List, [], ◌∷◌, length, Bool-cases, inl, inr,
}
use defense_pm_tool.Prelude.Int.{
  ℤ, ◌≤ℤ◌, leb_ℤ, eqb_ℤ, min_ℤ, max_ℤ, min_ℤ_bounds, max_ℤ_bounds, le_trans_ℤ,
}
use defense_pm_tool.Prelude.Dict.{lookup}
use defense_pm_tool.Prelude.Sort.{any}
use defense_pm_tool.Decimal.{Decimal}
use defense_pm_tool.Dates.{Date, is_weekend, next_day}
use defense_pm_tool.Dates.Ranges.{is_among, among_none, among_suc, among_later, same_day}
use defense_pm_tool.Loading.{Assignment}
use defense_pm_tool.Leveling.{Working, any_workday, is_within}
use defense_pm_tool.Parallel.{is_held, activities_on, is_conflict, earliest_start, latest_finish}

-- The earliest start and the latest finish bound the dates of every activity.
earliest_start-below : (m : Date) (w : Working) → earliest_start m w ≤ℤ m
unfolding earliest_start
earliest_start-below m [] = omega arith
earliest_start-below m ((k, dates) ∷ w) =
    le_trans_ℤ _ (min_ℤ m dates.0) m (earliest_start-below (min_ℤ m dates.0) w)
      (min_ℤ_bounds m dates.0).0

latest_finish-above : (m : Date) (w : Working) → m ≤ℤ latest_finish m w
unfolding latest_finish
latest_finish-above m [] = omega arith
latest_finish-above m ((k, dates) ∷ w) =
    le_trans_ℤ m (max_ℤ m dates.1) _ (max_ℤ_bounds m dates.1).0
      (latest_finish-above (max_ℤ m dates.1) w)

abbrev IsWithin : Date → Date → Option (Date × Date) → Type 0
IsWithin first last none = Unit
IsWithin first last (some dates) = (first ≤ℤ dates.0) × (dates.1 ≤ℤ last)

lookup-IsWithin :
    (m n : Date) (k : ℕ) (w : Working)
    → IsWithin (earliest_start m w) (latest_finish n w) (lookup k w)
unfolding earliest_start latest_finish lookup
lookup-IsWithin m n k [] = tt
lookup-IsWithin m n k ((j, dates) ∷ w) = elim (Bool-cases (j == k)) [
  | inl e ↦ rw e (
    le_trans_ℤ _ (min_ℤ m dates.0) dates.0 (earliest_start-below (min_ℤ m dates.0) w)
        (min_ℤ_bounds m dates.0).1,
    le_trans_ℤ dates.1 (max_ℤ n dates.1) _ (max_ℤ_bounds n dates.1).1
        (latest_finish-above (max_ℤ n dates.1) w),
  )
  | inr e ↦ rw e (lookup-IsWithin (min_ℤ m dates.0) (max_ℤ n dates.1) k w)
]

held_within :
    (first last d : Date) (o : Option (Date × Date))
    → IsWithin first last o
    → is_within d o ≡ true
    → (leb_ℤ first d && leb_ℤ d last) ≡ true
held_within first last d none h held = cc
held_within first last d (some dates) h held = ground (arith, h, held)

-- A day on which an activity is under way lies between the two.
pub busy_within :
    (m n d : Date) (w : Working) (l : List Assignment)
    → ltb 0 (length (activities_on l w d)) ≡ true
    → (leb_ℤ (earliest_start m w) d && leb_ℤ d (latest_finish n w)) ≡ true
unfolding activities_on is_held
busy_within m n d w [] h = cc
busy_within m n d w (a ∷ l) h = elim (Bool-cases (is_within d (lookup a.activity_id w))) [
  | inl e ↦
      held_within (earliest_start m w) (latest_finish n w) d (lookup a.activity_id w)
        (lookup-IsWithin m n a.activity_id w) e
  | inr e ↦ busy_within m n d w l (rw e at h)
]

among_here : (d e : Date) (n : ℕ) → eqb_ℤ d e ≡ true → is_among d (suc n) e ≡ true
among_here d e n s = let split = among_suc d e n in ground (arith, split, s)

among_next :
    (d e : Date) (n : ℕ) → eqb_ℤ d e ≡ false → is_among d (suc n) e ≡ is_among (next_day d) n e
among_next d e n s = let split = among_suc d e n in ground (arith, split, s)

-- A loop over the workdays that looks for one date.
pub any_workday-at :
    (q : Date → Bool) (d : Date) (n : ℕ) (e : Date)
    → any_workday (λ x. q x && eqb_ℤ x e) d n ≡ ((is_among d n e && not (is_weekend e)) && q e)
unfolding any_workday
any_workday-at q d zero e = sym (ap (λ b. (b && not (is_weekend e)) && q e) (among_none d e))
any_workday-at q d (suc n) e = elim (Bool-cases (eqb_ℤ d e)) [
  | inl s ↦
      here (is_weekend d) (q d) (eqb_ℤ d e) (any_workday (λ x. q x && eqb_ℤ x e) (next_day d) n) s (
        any_workday-at q (next_day d) n e
        ∙ ap (λ b. (b && not (is_weekend e)) && q e) (among_later d e n s))
      ∙ sym (
          ap (λ b. (b && not (is_weekend e)) && q e) (among_here d e n s)
          ∙ ap (λ x. not (is_weekend x) && q x) (same_day d e s))
  | inr s ↦
      there (is_weekend d) (q d) (eqb_ℤ d e) (any_workday (λ x. q x && eqb_ℤ x e) (next_day d) n) s
      ∙ any_workday-at q (next_day d) n e
      ∙ sym (ap (λ b. (b && not (is_weekend e)) && q e) (among_next d e n s))
]
  where
    here :
        (w q s r : Bool)
        → s ≡ true
        → r ≡ false
        → (if w then r else (if q && s then true else r)) ≡ (not w && q)
    here w q s r h k = ground arith

    there : (w q s r : Bool) → s ≡ false → (if w then r else (if q && s then true else r)) ≡ r
    there w q s r h = ground arith

pub any_workday-none :
    (q : Date → Bool) (d : Date) (n : ℕ) → ((e : Date) → q e ≡ false) → any_workday q d n ≡ false
unfolding any_workday
any_workday-none q d zero h = refl
any_workday-none q d (suc n) h =
    let rest = any_workday-none q (next_day d) n h in ground (arith, h d, rest)

pub any_workday-cong :
    (p q : Date → Bool) (d : Date) (n : ℕ)
    → ((e : Date) → p e ≡ q e)
    → any_workday p d n ≡ any_workday q d n
unfolding any_workday
any_workday-cong p q d zero h = refl
any_workday-cong p q d (suc n) h =
    let rest = any_workday-cong p q (next_day d) n h in ground (arith, h d, rest)

pub any-factor :
    {A : Type 0} (f g : A → Bool) (b : Bool) (l : List A)
    → ((x : A) → f x ≡ (b && g x))
    → any f l ≡ (b && any g l)
any-factor f g b [] h = ground arith
any-factor f g b (x ∷ l) h =
    let rest = any-factor f g b l h in let here = h x in ground (arith, rest, here)

pub and_assoc : (a b c : Bool) → (a && (b && c)) ≡ ((a && b) && c)
and_assoc a b c = ground arith

pub several : (a : Bool) (n : ℕ) → (a && ltb 1 n) ≡ true → ltb 0 n ≡ true
several a n h = ground arith

pub regroup :
    (t r w c k : Bool)
    → (c ≡ true → r ≡ true)
    → (t && ((r && w) && (c && k))) ≡ (w && (k && (t && c)))
regroup t r w true k h = let inside = h refl in ground (arith, inside)
regroup t r w false k h = ground arith

pub min_self : (a : ℤ) → min_ℤ a a ≡ a
unfolding min_ℤ
min_self a = ground arith

pub max_self : (a : ℤ) → max_ℤ a a ≡ a
unfolding max_ℤ
max_self a = ground arith

no_dates : (l : List Assignment) (d : Date) → activities_on l [] d ≡ []
unfolding activities_on is_held lookup
no_dates [] d = refl
no_dates (a ∷ l) d = no_dates l d

pub never_conflict :
    (capacity : Decimal) (l : List Assignment) (d : Date) → is_conflict capacity l [] d ≡ false
unfolding is_conflict
never_conflict capacity l d = rw (no_dates l d) (and_none _)
  where
    and_none : (a : Bool) → (a && false) ≡ false
    and_none a = ground arith

pub any_none : {A : Type 0} (f : A → Bool) (l : List A) → ((x : A) → f x ≡ false) → any f l ≡ false
any_none f [] h = refl
any_none f (x ∷ l) h = let rest = any_none f l h in let here = h x in ground (arith, rest, here)

pub no_match : (w a : Bool) → a ≡ false → false ≡ (w && a)
no_match w a h = ground arith

pub nothing_left : (a b : Bool) → (a && (b && false)) ≡ false
nothing_left a b = ground arith

pub or_nothing : (a : Bool) → (a || false) ≡ a
or_nothing a = ground arith

-- One day of a loop that adds an item if a test holds.
pub one_day :
    (w f q r rest : Bool)
    → (if w then rest || r else (if f then rest || (q || r) else rest || r))
      ≡ ((if w then rest else (if f && q then true else rest)) || r)
one_day w f q r rest = ground arith
