-- ===== src/Parallel/Heap.antt =====
-- The calls of heapq, with what the service relies on, and an ordered list as an instance.
use defense_pm_tool.Prelude.{◌≡◌, refl, ap, Bool, ◌||◌, Option, none, some, List, [], ◌∷◌, some_inj}
use defense_pm_tool.Prelude.Sort.{any, insert_by, any-insert_by}
use defense_pm_tool.Parallel.{ResourceConflict, sooner}

-- A heap is the list of its items, in any order.
pub record Heapq : Type 0 where
  pub heappush : ResourceConflict → List ResourceConflict → List ResourceConflict
  pub heappop : List ResourceConflict → Option (ResourceConflict × List ResourceConflict)

-- A push adds its item, and a pop takes one away; only an empty heap has none.
pub record HeapqLaws (heapq : Heapq) : Type 0 where
  pub heappush_any :
      (p : ResourceConflict → Bool) (c : ResourceConflict) (l : List ResourceConflict)
      → any p (heapq.heappush c l) ≡ (p c || any p l)
  pub heappop_some :
      (c : ResourceConflict) (l : List ResourceConflict)
      → (d : ResourceConflict) × (rest : List ResourceConflict) × (heapq.heappop (c ∷ l)
          ≡ some (d, rest))
  pub heappop_any :
      (p : ResourceConflict → Bool) (c : ResourceConflict) (l rest : List ResourceConflict)
      → heapq.heappop l ≡ some (c, rest)
      → any p l ≡ (p c || any p rest)

-- The ordered list: of conflicts that compare alike the first pushed is popped first.
abbrev pub pop_list : List ResourceConflict → Option (ResourceConflict × List ResourceConflict)
pop_list [] = none
pop_list (c ∷ l) = some (c, l)

abbrev pub ordered_list : Heapq
ordered_list = record { heappush = insert_by sooner; heappop = pop_list }

any-pop_list :
    (p : ResourceConflict → Bool) (c : ResourceConflict) (l rest : List ResourceConflict)
    → pop_list l ≡ some (c, rest)
    → any p l ≡ (p c || any p rest)
any-pop_list p c [] rest h = cc
any-pop_list p c (x ∷ l) rest h = let same = some_inj h in ap (λ q. p q.0 || any p q.1) same

pub ordered_list-HeapqLaws : HeapqLaws ordered_list
ordered_list-HeapqLaws = record {
  heappush_any = any-insert_by sooner;
  heappop_some = λ c l. (c, l, refl);
  heappop_any = any-pop_list;
}
